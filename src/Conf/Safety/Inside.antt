-- ===== src/Conf/Safety/Inside.antt =====
-- One round of the parser writes inside of the two tables.
use dhcpd_pools.Base.{◌≡◌, refl, ℕ, ◌^◌, ◌≤◌, ◌<◌, Bool, true, false, [], arith}
use dhcpd_pools.Base.Result.{Result, ok, err, ◌>>=◌}
use dhcpd_pools.Data.{Bytes}
use dhcpd_pools.Address.{Inet}
use dhcpd_pools.Conf.State.{
  Clause, nothing_interesting, range_first_ip, range_second_ip, sharednet, an_include, subnet,
  netmask, Failure, Globals, Parser,
}
use dhcpd_pools.Conf.{
  behind_include, Next, continues, goes_on, new_range, fails, magical, argument_word, take_char,
  after_magic, step,
}
use dhcpd_pools.Conf.Safety.Pieces.{IsRoomy, IsSafe, SafeNext, magical-Safe}
use dhcpd_pools.Conf.Safety.Writes.{
  WritesInside, InsideNext, InsideResult, inside_trans, newrange-inside, magical-inside,
  second_ip-inside, first_ip-inside, network_name-inside, netmask_word-inside, clause_word-inside,
  store_char-inside,
}

-- Where an included file may write.
abbrev pub InsideInclude : ℕ → (Bytes → ℕ → Globals → Result Failure Globals) → Type 0
InsideInclude limit inc =
    (w : Bytes) (net : ℕ) (g h : Globals)
    → net ≤ g.num_shared_networks
    → IsRoomy limit g
    → inc w net g ≡ ok h
    → WritesInside g h

module _ (limit m n : ℕ) (small : limit < 2 ^ 31) (g : Globals) (inet : Inet) (all : Bool)
    (inc : Bytes → ℕ → Globals → Result Failure Globals) (inside : InsideInclude limit inc) where
  resume-inside :
      (p : Parser) (r : Result Failure Globals)
      → WritesInside g p.globals
      → ((h : Globals) → r ≡ ok h → WritesInside p.globals h)
      → InsideResult g (
          r >>= λ h. ok (record p {
            globals = h;
            argument = nothing_interesting;
            newclause = true;
            range_p = behind_include p.globals.ranges_size h.ranges_size p.range_p;
          }))
  resume-inside p (ok h) w included = inside_trans g p.globals h w (included h refl)
  resume-inside p (err f) w included = tt

  argument_word-inside :
      (clause : Clause) (word : Bytes) (p : Parser)
      → IsSafe limit m n p
      → WritesInside g p.globals
      → InsideResult g (argument_word inet limit all inc clause word p)
  unfolding argument_word
  argument_word-inside range_second_ip word p s w =
      second_ip-inside limit m n small g inet word p s w
  argument_word-inside range_first_ip word p s w = first_ip-inside limit m n small g inet word p s w
  argument_word-inside sharednet word p s w =
      network_name-inside limit m n small g inet false word p s w
  argument_word-inside subnet word p s w =
      network_name-inside limit m n small g inet true word p s w
  argument_word-inside netmask word p s w = netmask_word-inside limit m n small g inet word p s w
  argument_word-inside an_include word p s w =
      resume-inside p _ w (λ h e. inside _ p.shared_p p.globals h s.shared_p s.roomy e)
  argument_word-inside nothing_interesting word p s w = w

  take_char-inside :
      (c : ℕ) (p : Parser)
      → IsSafe limit m n p
      → WritesInside g p.globals
      → InsideResult g (take_char inet limit all inc c p)
  unfolding take_char
  take_char-inside c p s w =
      let cleared : Parser = record p { word = []; newclause = false } in
      let cleared-Safe : IsSafe limit m n cleared = ground arith in
      ground (
        arith,
        clause_word-inside limit m n small g inet all inc p.word p w,
        store_char-inside limit m n small g inet all inc c p w,
        argument_word-inside p.argument p.word cleared cleared-Safe w,
      )

  after_magic-inside :
      (x : Next)
      → SafeNext limit m n x
      → InsideNext g x
      → InsideResult g (after_magic inet limit all inc x)
  unfolding after_magic
  after_magic-inside (continues p) s w = w
  after_magic-inside (goes_on c p) s w = take_char-inside c p s w
  after_magic-inside (new_range k p) s w = newrange-inside limit m n small g k p s.0 s.1 w
  after_magic-inside (fails f) s w = tt

  pub step-inside :
      (c : ℕ) (p : Parser)
      → IsSafe limit m n p
      → WritesInside g p.globals
      → InsideResult g (step inet limit all inc c p)
  unfolding step
  step-inside c p s w =
      after_magic-inside (magical c p) (magical-Safe limit m n small c p s)
        (magical-inside limit m n small g c p s w)
