-- ===== src/Conf/Names/Steps.antt =====
-- The loop of the parser, and its includes: no name gets a double quote.
use dhcpd_pools.Base.{
  ◌≡◌, refl, ℕ, zero, suc, Bool, true, false, [], ◌∷◌, ◌++◌, Option, arith, inl, inr, Option-cases,
}
use dhcpd_pools.Base.Machine.{unquoted}
use dhcpd_pools.Base.Result.{Result, ok, err, ◌>>=◌, >>=-eq-ok}
use dhcpd_pools.Data.{Bytes, IpAddr}
use dhcpd_pools.Address.{Inet}
use dhcpd_pools.Output.Words.{AllNames}
use dhcpd_pools.Conf.State.{
  Clause, nothing_interesting, range_first_ip, range_second_ip, sharednet, an_include, subnet,
  netmask, Failure, Globals, Parser,
}
use dhcpd_pools.Conf.{
  behind_include, Next, continues, goes_on, new_range, fails, magical, argument_word, take_char,
  after_magic, step, steps, start_of, parse_config,
}
use dhcpd_pools.Conf.Names.{
  Unquoted, IsUnquoted, UnquotedNext, UnquotedResult, update-AllNames, magical-Unquoted,
  newrange-Unquoted, second_ip-Unquoted, first_ip-Unquoted, network_name-Unquoted,
  netmask_word-Unquoted, clause_word-Unquoted, store_char-Unquoted,
}

module _ (inet : Inet) (limit : ℕ) where
  module _ (all : Bool) (inc : Bytes → ℕ → Globals → Result Failure Globals)
      (kept : (w : Bytes) (net : ℕ) (g h : Globals)
        → AllNames unquoted g.shared_networks
        → inc w net g ≡ ok h
        → AllNames unquoted h.shared_networks) where
    resume :
        (p : Parser) (r : Result Failure Globals)
        → IsUnquoted p
        → ((h : Globals) → r ≡ ok h → AllNames unquoted h.shared_networks)
        → UnquotedResult (
            r >>= λ g. ok (record p {
              globals = g;
              argument = nothing_interesting;
              newclause = true;
              range_p = behind_include p.globals.ranges_size g.ranges_size p.range_p;
            }))
    resume p (ok g) s h = record { word = s.word; names = h g refl }
    resume p (err f) s h = tt

    argument_word-Unquoted :
        (clause : Clause) (w : Bytes) (p : Parser)
        → Unquoted w
        → IsUnquoted p
        → UnquotedResult (argument_word inet limit all inc clause w p)
    unfolding argument_word
    argument_word-Unquoted range_second_ip w p u s = second_ip-Unquoted inet limit w p s
    argument_word-Unquoted range_first_ip w p u s = first_ip-Unquoted inet limit w p s
    argument_word-Unquoted sharednet w p u s = network_name-Unquoted inet limit false w p u s
    argument_word-Unquoted subnet w p u s = network_name-Unquoted inet limit true w p u s
    argument_word-Unquoted netmask w p u s = netmask_word-Unquoted inet limit w p s
    argument_word-Unquoted an_include w p u s =
        resume p _ s (λ h e. kept _ p.shared_p p.globals h s.names e)
    argument_word-Unquoted nothing_interesting w p u s = record { word = s.word; names = s.names }

    take_char-Unquoted :
        (c : ℕ) (p : Parser)
        → unquoted c ≡ true
        → IsUnquoted p
        → UnquotedResult (take_char inet limit all inc c p)
    unfolding take_char
    take_char-Unquoted c p u s =
        let cleared : Parser = record p { word = []; newclause = false } in
        ground (
          arith,
          clause_word-Unquoted inet limit all inc p.word p s,
          store_char-Unquoted inet limit all inc c p s u,
          argument_word-Unquoted p.argument p.word cleared s.word
              (record { word = tt; names = s.names }),
        )

    after_magic-Unquoted :
        (x : Next) → UnquotedNext x → UnquotedResult (after_magic inet limit all inc x)
    unfolding after_magic
    after_magic-Unquoted (continues p) s = s
    after_magic-Unquoted (goes_on c p) s = take_char-Unquoted c p s.1 s.0
    after_magic-Unquoted (new_range k p) s = newrange-Unquoted limit k p s
    after_magic-Unquoted (fails f) s = tt

    step-Unquoted :
        (c : ℕ) (p : Parser) → IsUnquoted p → UnquotedResult (step inet limit all inc c p)
    unfolding step
    step-Unquoted c p s = after_magic-Unquoted (magical c p) (magical-Unquoted c p s)

    steps-Unquoted :
        (cs : Bytes) (p : Parser) → IsUnquoted p → UnquotedResult (steps inet limit all inc cs p)
    unfolding steps
    steps-Unquoted [] p s = s
    steps-Unquoted (c ∷ cs) p s =
        onward (step inet limit all inc c p) (step-Unquoted c p s) (steps-Unquoted cs)
      where
        onward :
            (r : Result Failure Parser)
            → UnquotedResult r
            → ((q : Parser) → IsUnquoted q → UnquotedResult (steps inet limit all inc cs q))
            → UnquotedResult (r >>= steps inet limit all inc cs)
        onward (ok q) t rest = rest q t
        onward (err f) t rest = tt

module _ (inet : Inet) (limit : ℕ) (files : Bytes → Option Bytes) (all : Bool)
    (garbage : IpAddr) where
  start-Unquoted :
      (is_include : Bool) (net : ℕ) (g : Globals)
      → AllNames unquoted g.shared_networks
      → IsUnquoted (start_of inet limit is_include garbage net g)
  start-Unquoted true net g named = record {
    word = tt;
    names = update-AllNames g.shared_networks net _ named (named 0);
  }
  start-Unquoted false net g named = record { word = tt; names = named }

  -- Whatever the files hold, however they include one another: if the parser returns, and no name
  -- of a network had a double quote in it before, then none has one after it.
  pub parse_config-AllNames :
      (fuel : ℕ) (is_include : Bool) (file : Bytes) (net : ℕ) (g h : Globals)
      → AllNames unquoted g.shared_networks
      → parse_config inet limit files all garbage fuel is_include file net g ≡ ok h
      → AllNames unquoted h.shared_networks
  unfolding parse_config
  parse_config-AllNames zero is_include file net g h named e = cc
  parse_config-AllNames (suc fuel) is_include file net g h named e =
      elim (Option-cases (files file)) [
        | inl f ↦ cc (rw (f, parse_config) at e)
        | inr (content, f) ↦
            finished content (rw (f, parse_config) at e) (parse_config-AllNames fuel false)
      ]
    where
      include : Bytes → ℕ → Globals → Result Failure Globals
      include w k x = parse_config inet limit files all garbage fuel false w k x

      start : Parser
      start = start_of inet limit is_include garbage net g

      finished :
          (content : Bytes)
          → (steps inet limit all include (content ++ 255 ∷ []) start >>= λ q. ok q.globals) ≡ ok h
          → ((w : Bytes) (k : ℕ) (x y : Globals)
              → AllNames unquoted x.shared_networks
              → include w k x ≡ ok y
              → AllNames unquoted y.shared_networks)
          → AllNames unquoted h.shared_networks
      finished content e' kept =
          let all_bytes = content ++ 255 ∷ [] in
          let (q, ran, same) =
            >>=-eq-ok (steps inet limit all include all_bytes start) (λ q. ok q.globals) e' in
          let s : IsUnquoted q = rw ran at (
            steps-Unquoted inet limit all include kept all_bytes start
              (start-Unquoted is_include net g named)) in
          let globals : q.globals ≡ h = cc same in rw globals at s.names
