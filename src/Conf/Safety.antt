-- ===== src/Conf/Safety.antt =====
-- No write of the parser is out of bounds.
pub mod Pieces
pub mod Writes
pub mod Inside
use dhcpd_pools.Base.{
  ◌≡◌, refl, ℕ, zero, suc, ◌+◌, ◌^◌, ◌≤◌, ◌<◌, Bool, true, false, [], ◌∷◌, ◌++◌, Option, none, some,
  arith, inl, inr, Option-cases, length, length-append,
}
use dhcpd_pools.Base.Result.{Result, ok, err, ◌>>=◌, >>=-eq-ok}
use dhcpd_pools.Data.{Bytes, IpAddr}
use dhcpd_pools.Address.{Inet}
use dhcpd_pools.Conf.State.{
  Clause, nothing_interesting, range_first_ip, range_second_ip, sharednet, an_include, subnet,
  netmask, Failure, RangePointer, unset, dangling, at_entry, Globals, Parser,
}
use dhcpd_pools.Conf.{
  behind_include, Next, continues, goes_on, new_range, fails, semicolon, open_brace, close_brace,
  magical, newrange, parse_word, store_last, second_ip, first_ip, network_name, netmask_word,
  argument_word, clause_word, store_char, take_char, after_magic, step, steps, start_of,
  parse_config,
}
pub use dhcpd_pools.Conf.Safety.Pieces.{IsRoomy, IsSafe, SafeResult}
use dhcpd_pools.Conf.Safety.Writes.{WritesInside, InsideResult, inside_refl, update-IsInside}
use dhcpd_pools.Conf.Safety.Inside.{InsideInclude, step-inside}
use dhcpd_pools.Conf.Safety.Pieces.{
  IsEntry, SafeNext, magical-Safe, newrange-Safe, second_ip-Safe, first_ip-Safe, network_name-Safe,
  netmask_word-Safe, clause_word-Safe, store_char-Safe,
}

module _ (limit m n : ℕ) (small : limit < 2 ^ 31) where
  module _ (inet : Inet) where
    -- What an included file may do to the tables.
    abbrev SafeInclude : (Bytes → ℕ → Globals → Result Failure Globals) → Type 0
    SafeInclude inc =
        (w : Bytes) (net : ℕ) (g h : Globals)
        → net ≤ g.num_shared_networks
        → IsRoomy limit g
        → inc w net g ≡ ok h
        → IsRoomy limit h
          × (g.num_ranges ≤ h.num_ranges)
          × (g.num_shared_networks ≤ h.num_shared_networks)

    module _ (all : Bool) (inc : Bytes → ℕ → Globals → Result Failure Globals)
        (safe : SafeInclude inc) where
      resume :
          (p : Parser) (r : Result Failure Globals)
          → IsSafe limit m n p
          → ((h : Globals)
              → r ≡ ok h
              → IsRoomy limit h
                × (p.globals.num_ranges ≤ h.num_ranges)
                × (p.globals.num_shared_networks ≤ h.num_shared_networks))
          → SafeResult limit m n (
              r >>= λ g. ok (record p {
                globals = g;
                argument = nothing_interesting;
                newclause = true;
                range_p = behind_include p.globals.ranges_size g.ranges_size p.range_p;
              }))
      unfolding behind_include
      resume p (ok g) s h =
          let (roomy, more, nets) = h g refl in
          record {
            roomy = roomy;
            word = s.word;
            range_p = entry p.range_p s.range_p more;
            shared_p = omega (arith, s.shared_p);
            more_ranges = omega (arith, s.more_ranges);
            more_networks = omega (arith, s.more_networks);
          }
        where
          entry :
              (o : RangePointer)
              → IsEntry p.globals.num_ranges o
              → p.globals.num_ranges ≤ g.num_ranges
              → IsEntry g.num_ranges (behind_include p.globals.ranges_size g.ranges_size o)
          entry unset e le = tt
          entry dangling e le = tt
          entry (at_entry k) e le = ground arith
      resume p (err f) s h = tt

      argument_word-Safe :
          (clause : Clause) (w : Bytes) (p : Parser)
          → IsSafe limit m n p
          → SafeResult limit m n (argument_word inet limit all inc clause w p)
      unfolding argument_word
      argument_word-Safe range_second_ip w p s = second_ip-Safe limit m n small inet w p s
      argument_word-Safe range_first_ip w p s = first_ip-Safe limit m n small inet w p s
      argument_word-Safe sharednet w p s = network_name-Safe limit m n small inet false w p s
      argument_word-Safe subnet w p s = network_name-Safe limit m n small inet true w p s
      argument_word-Safe netmask w p s = netmask_word-Safe limit m n small inet w p s
      argument_word-Safe an_include w p s =
          resume p _ s (λ h e. safe _ p.shared_p p.globals h s.shared_p s.roomy e)
      argument_word-Safe nothing_interesting w p s = ground arith

      take_char-Safe :
          (c : ℕ) (p : Parser)
          → IsSafe limit m n p
          → SafeResult limit m n (take_char inet limit all inc c p)
      unfolding take_char
      take_char-Safe c p s =
          let cleared : Parser = record p { word = []; newclause = false } in
          let cleared-Safe : IsSafe limit m n cleared = ground arith in
          ground (
            arith,
            clause_word-Safe limit m n small inet all inc p.word p s,
            store_char-Safe limit m n small inet all inc c p s,
            argument_word-Safe p.argument p.word cleared cleared-Safe,
          )

      after_magic-Safe :
          (x : Next)
          → SafeNext limit m n x
          → SafeResult limit m n (after_magic inet limit all inc x)
      unfolding after_magic
      after_magic-Safe (continues p) s = s
      after_magic-Safe (goes_on c p) s = take_char-Safe c p s
      after_magic-Safe (new_range k p) s = newrange-Safe limit m n small k p s.0 s.1
      after_magic-Safe (fails f) s = tt

      step-stays :
          (c : ℕ) (p : Parser)
          → IsSafe limit m n p
          → SafeResult limit m n (step inet limit all inc c p)
      unfolding step
      step-stays c p s = after_magic-Safe (magical c p) (magical-Safe limit m n small c p s)

      -- A byte that does not end in a failure keeps the parser safe: `word` has room for the next byte,
      -- the pointers lead into the tables, and these only grow. Nothing is written behind the end of a
      -- table: all entries of `ranges` from RANGES on, and of `shared_networks` from SHARED_NETWORKS
      -- on, are as they were. It is assumed that there is memory for fewer than 2 ^ 31 ranges, and that
      -- included files keep to the same. The failures are the messages that end the program, a
      -- netmask for which the loop never ends, includes that are too deep, and the accesses that C
      -- leaves undefined: `range_p` into a table that an include has moved, and the byte before an
      -- empty word.
      pub step-Safe :
          (c : ℕ) (p : Parser)
          → IsSafe limit m n p
          → InsideInclude limit inc
          → SafeResult limit m n (step inet limit all inc c p)
            × InsideResult p.globals (step inet limit all inc c p)
      step-Safe c p s inside = (
        step-stays c p s,
        step-inside limit m n small p.globals inet all inc inside c p s (inside_refl p.globals),
      )

      steps-inside :
          (g : Globals) (cs : Bytes) (p : Parser)
          → IsSafe limit m n p
          → WritesInside g p.globals
          → InsideInclude limit inc
          → InsideResult g (steps inet limit all inc cs p)
      unfolding steps
      steps-inside g [] p s w inside = w
      steps-inside g (c ∷ cs) p s w inside =
          onward (step inet limit all inc c p) (step-stays c p s)
            (step-inside limit m n small g inet all inc inside c p s w)
            (λ q t i. steps-inside g cs q t i inside)
        where
          onward :
              (r : Result Failure Parser)
              → SafeResult limit m n r
              → InsideResult g r
              → ((q : Parser)
                  → IsSafe limit m n q
                  → WritesInside g q.globals
                  → InsideResult g (steps inet limit all inc cs q))
              → InsideResult g (r >>= steps inet limit all inc cs)
          onward (ok q) t i rest = rest q t i
          onward (err f) t i rest = tt

      steps-Safe :
          (cs : Bytes) (p : Parser)
          → IsSafe limit m n p
          → SafeResult limit m n (steps inet limit all inc cs p)
      unfolding steps
      steps-Safe [] p s = s
      steps-Safe (c ∷ cs) p s =
          onward (step inet limit all inc c p) (step-stays c p s) (steps-Safe cs)
        where
          onward :
              (r : Result Failure Parser)
              → SafeResult limit m n r
              → ((q : Parser)
                  → IsSafe limit m n q
                  → SafeResult limit m n (steps inet limit all inc cs q))
              → SafeResult limit m n (r >>= steps inet limit all inc cs)
          onward (ok q) t rest = rest q t
          onward (err f) t rest = tt

module _ (inet : Inet) (limit : ℕ) (small : limit < 2 ^ 31) (files : Bytes → Option Bytes)
    (all : Bool) (garbage : IpAddr) where
  start-Safe :
      (is_include : Bool) (net : ℕ) (g : Globals)
      → net ≤ g.num_shared_networks
      → IsRoomy limit g
      → IsSafe limit g.num_ranges g.num_shared_networks
          (start_of inet limit is_include garbage net g)
  start-Safe true net g le roomy = ground arith
  start-Safe false net g le roomy = ground arith

  start-inside :
      (is_include : Bool) (net : ℕ) (g : Globals)
      → net ≤ g.num_shared_networks
      → IsRoomy limit g
      → WritesInside g (start_of inet limit is_include garbage net g).globals
  start-inside true net g le roomy =
      update-IsInside g net _ (inside_refl g) (omega (arith, roomy.networks))
  start-inside false net g le roomy = inside_refl g

  -- Whatever the files hold, however they include one another: if the parser returns, there is still
  -- room in the tables, they have only grown, and nothing is written behind their ends. It is assumed that there is memory for fewer than
  -- 2 ^ 31 ranges.
  pub parse_config-IsRoomy :
      (fuel : ℕ) (is_include : Bool) (file : Bytes) (net : ℕ) (g h : Globals)
      → net ≤ g.num_shared_networks
      → IsRoomy limit g
      → parse_config inet limit files all garbage fuel is_include file net g ≡ ok h
      → IsRoomy limit h
        × (g.num_ranges ≤ h.num_ranges)
        × (g.num_shared_networks ≤ h.num_shared_networks)
        × WritesInside g h
  unfolding parse_config
  parse_config-IsRoomy zero is_include file net g h le roomy e = cc
  parse_config-IsRoomy (suc fuel) is_include file net g h le roomy e =
      elim (Option-cases (files file)) [
        | inl f ↦ cc (rw (f, parse_config) at e)
        | inr (content, f) ↦
            finished content (rw (f, parse_config) at e) (parse_config-IsRoomy fuel false)
      ]
    where
      include : Bytes → ℕ → Globals → Result Failure Globals
      include w k x = parse_config inet limit files all garbage fuel false w k x

      start : Parser
      start = start_of inet limit is_include garbage net g

      finished :
          (content : Bytes)
          → (steps inet limit all include (content ++ 255 ∷ []) start >>= λ q. ok q.globals) ≡ ok h
          → ((w : Bytes) (k : ℕ) (x y : Globals)
              → k ≤ x.num_shared_networks
              → IsRoomy limit x
              → include w k x ≡ ok y
              → IsRoomy limit y
                × (x.num_ranges ≤ y.num_ranges)
                × (x.num_shared_networks ≤ y.num_shared_networks)
                × WritesInside x y)
          → IsRoomy limit h
            × (g.num_ranges ≤ h.num_ranges)
            × (g.num_shared_networks ≤ h.num_shared_networks)
            × WritesInside g h
      finished content e' safe =
          let kept : SafeInclude limit g.num_ranges g.num_shared_networks small inet include =
            λ w k x y le' r e''. let all = safe w k x y le' r e'' in (all.0, all.1, all.2) in
          let inside : InsideInclude limit include =
            λ w k x y le' r e''. (safe w k x y le' r e'').3 in
          let all_bytes = content ++ 255 ∷ [] in
          let (q, ran, same) =
            >>=-eq-ok (steps inet limit all include all_bytes start) (λ q. ok q.globals) e' in
          let s : IsSafe limit g.num_ranges g.num_shared_networks q = rw ran at (
            steps-Safe limit g.num_ranges g.num_shared_networks small inet all include kept
              all_bytes start (start-Safe is_include net g le roomy)) in
          let w : WritesInside g q.globals = rw ran at (
            steps-inside limit g.num_ranges g.num_shared_networks small inet all include kept g
              all_bytes start (start-Safe is_include net g le roomy)
              (start-inside is_include net g le roomy) inside) in
          let globals : q.globals ≡ h = cc same in
          (
            rw globals at s.roomy,
            rw globals at s.more_ranges,
            rw globals at s.more_networks,
            rw globals at w,
          )
