-- ===== src/Conf/Grammar/Blocks.antt =====
-- The parser at statements, blocks, networks and comments, byte by byte.
use dhcpd_pools.Base.{
  ◌∙◌, ◌≡◌, refl, ap, ℕ, ◌+◌, ◌≤◌, ◌%◌, ◌^◌, ◌==◌, ltb, Bool, true, false, not, [], ◌∷◌, ◌++◌,
  arith,
}
use dhcpd_pools.Base.Int.{ℤ, pos, ◌+ℤ◌, ◌-ℤ◌}
use dhcpd_pools.Base.Machine.{AllBytes}
use dhcpd_pools.Base.Text.{codes, c_string}
use dhcpd_pools.Base.Result.{Result, ok, ◌>>=◌}
use dhcpd_pools.Data.{Bytes}
use dhcpd_pools.Address.{Inet}
use dhcpd_pools.Conf.State.{
  Failure, Globals, Parser, nothing_interesting, sharednet, is_interesting_config_clause, isspace,
  max_shared_networks,
}
use dhcpd_pools.Conf.{
  magical, semicolon, open_brace, close_brace, take_char, argument_word, clause_word, after_magic,
  step, steps, network_name, equal_ℤ, ends_in_brace,
}
use dhcpd_pools.Conf.Clauses.{AllPlain, is_plain}
use dhcpd_pools.Conf.Grammar.{add_network}
use dhcpd_pools.Conf.Grammar.Ranges.{Scratch, ready}
use dhcpd_pools.Conf.Grammar.Steps.{IsWord, is_calm, run, run-then, word-run}

module _ (inet : Inet) (limit : ℕ) (all : Bool)
    (inc : Bytes → ℕ → Globals → Result Failure Globals) where
  abbrev go : Bytes → Parser → Result Failure Parser
  go = run inet limit all inc

  ends_in_brace_plain : (w : Bytes) → AllPlain w → ends_in_brace inet limit all inc w ≡ false
  unfolding is_plain
  ends_in_brace_plain [] h = refl
  ends_in_brace_plain (c ∷ []) h = ground (arith, h.0)
  ends_in_brace_plain (c ∷ d ∷ w) h = ends_in_brace_plain (d ∷ w) h.1

  module _ (g : Globals) (k : ℕ) (braces_shared : ℤ) (s : Scratch) where
    -- The parser in a clause that it passes over.
    abbrev passing : ℤ → Parser
    passing braces = record (ready g k braces braces_shared s) { newclause = false }

    -- The first word of a clause that is of no interest.
    statement_word :
        (braces : ℤ) (w rest : Bytes)
        → IsWord w
        → is_interesting_config_clause all (c_string w) ≡ nothing_interesting
        → go (w ++ b' ' ∷ rest) (ready g k braces braces_shared s) ≡ go rest (passing braces)
    unfolding steps step magical after_magic take_char isspace clause_word
    statement_word braces [] rest h idle = absurd (omega (arith, h.written))
    statement_word braces (x ∷ xs) rest h idle =
        word-run inet limit all inc (x ∷ xs) (ready g k braces braces_shared s) (b' ' ∷ rest) h refl
          refl refl
        ∙ rw (clause_word, idle, ends_in_brace_plain (x ∷ xs) h.plain) refl

    calm_step :
        (braces : ℤ) (c : ℕ)
        → is_calm c ≡ true
        → step inet limit all inc c (passing braces) ≡ ok (passing braces)
    unfolding step magical after_magic take_char is_calm
    calm_step braces c h = ground arith

    calm_run :
        (braces : ℤ) (w rest : Bytes)
        → AllBytes is_calm w
        → go (w ++ rest) (passing braces) ≡ go rest (passing braces)
    unfolding steps
    calm_run braces [] rest h = refl
    calm_run braces (c ∷ w) rest h =
        ap (λ r. r >>= go (w ++ rest)) (calm_step braces c h.0) ∙ calm_run braces w rest h.1

    pub statement-run :
        (braces : ℤ) (w args rest : Bytes)
        → IsWord w
        → is_interesting_config_clause all (c_string w) ≡ nothing_interesting
        → AllBytes is_calm args
        → go (w ++ b' ' ∷ (args ++ b';' ∷ b'\n' ∷ rest)) (ready g k braces braces_shared s)
          ≡ go rest (ready g k braces braces_shared s)
    unfolding steps step magical semicolon after_magic take_char isspace
    statement-run braces w args rest h idle calm =
        statement_word braces w (args ++ b';' ∷ b'\n' ∷ rest) h idle
        ∙ calm_run braces args (b';' ∷ b'\n' ∷ rest) calm

    up : (n : ℕ) → pos n +ℤ pos 1 ≡ pos (n + 1)
    unfolding ◌+ℤ◌
    up n = ground arith

    down : (n : ℕ) → pos (n + 1) -ℤ pos 1 ≡ pos n
    unfolding ◌-ℤ◌
    down n = ground arith

    pub block_opens :
        (n : ℕ) (w args rest : Bytes)
        → IsWord w
        → is_interesting_config_clause all (c_string w) ≡ nothing_interesting
        → AllBytes is_calm args
        → go (w ++ b' ' ∷ (args ++ b'{' ∷ b'\n' ∷ rest)) (ready g k (pos n) braces_shared s)
          ≡ go rest (ready g k (pos (n + 1)) braces_shared s)
    unfolding steps step magical open_brace after_magic take_char isspace
    block_opens n w args rest h idle calm =
        statement_word (pos n) w (args ++ b'{' ∷ b'\n' ∷ rest) h idle
        ∙ calm_run (pos n) args (b'{' ∷ b'\n' ∷ rest) calm
        ∙ ap (λ z. go rest (ready g k z braces_shared s)) (up n)

    pub block_closes :
        (n : ℕ) (rest : Bytes)
        → equal_ℤ braces_shared (pos n) ≡ false
        → go (b'}' ∷ b'\n' ∷ rest) (ready g k (pos (n + 1)) braces_shared s)
          ≡ go rest (ready g k (pos n) braces_shared s)
    unfolding steps step magical close_brace after_magic take_char isspace
    block_closes n rest other = rw (down n, other) refl

    pub network_closes :
        (n : ℕ) (rest : Bytes)
        → equal_ℤ braces_shared (pos n) ≡ true
        → go (b'}' ∷ b'\n' ∷ rest) (ready g k (pos (n + 1)) braces_shared s)
          ≡ go rest (ready g 0 (pos n) (pos 1000) s)
    unfolding steps step magical close_brace after_magic take_char isspace
    network_closes n rest same = rw (down n, same) refl

    -- A comment lasts until the end of its line.
    abbrev commented : ℤ → Parser
    commented braces = record (ready g k braces braces_shared s) { comment = true }

    comment_step :
        (braces : ℤ) (c : ℕ)
        → not (c == b'\n') ≡ true
        → step inet limit all inc c (commented braces) ≡ ok (commented braces)
    unfolding step magical semicolon open_brace close_brace after_magic take_char
    comment_step braces c h = ground arith

    comment_run :
        (braces : ℤ) (w rest : Bytes)
        → AllBytes (λ c. not (c == b'\n')) w
        → go (w ++ b'\n' ∷ rest) (commented braces) ≡ go rest (ready g k braces braces_shared s)
    unfolding steps step magical after_magic take_char isspace
    comment_run braces [] rest h = refl
    comment_run braces (c ∷ w) rest h =
        ap (λ r. r >>= go (w ++ b'\n' ∷ rest)) (comment_step braces c h.0)
        ∙ comment_run braces w rest h.1

    pub remark-run :
        (braces : ℤ) (w rest : Bytes)
        → AllBytes (λ c. not (c == b'\n')) w
        → go (b'#' ∷ (w ++ b'\n' ∷ rest)) (ready g k braces braces_shared s)
          ≡ go rest (ready g k braces braces_shared s)
    unfolding steps step magical after_magic
    remark-run braces w rest h = comment_run braces w rest h

    abbrev behind_network : ℤ → Bytes → Parser
    behind_network braces word = record (ready g k braces braces_shared s) {
      newclause = false;
      argument = sharednet;
      word = word;
    }

    network_word :
        (braces : ℤ) (rest : Bytes)
        → go (codes "shared-network " ++ rest) (ready g k braces braces_shared s)
          ≡ go rest (behind_network braces [])
    unfolding steps step magical after_magic take_char isspace clause_word
        is_interesting_config_clause c_string
    network_word braces rest =
        run-then inet limit all inc (codes "shared-network ") rest
          (ready g k braces braces_shared s) (behind_network braces []) refl

    network_name_extends :
        (braces : ℤ) (name : Bytes)
        → g.num_shared_networks + 3 ≤ 8192
        → network_name inet limit false name (behind_network braces [])
          ≡ ok (record (ready (add_network name g) (g.num_shared_networks + 1) braces braces s) {
            newclause = false;
          })
    unfolding network_name add_network
    network_name_extends braces name room =
        let n = g.num_shared_networks in
        let raised : (n + 1) % 2 ^ 32 ≡ n + 1 = omega arith in
        let fits : ltb max_shared_networks ((n + 1 + 2) % 2 ^ 32) ≡ false = ground arith in
        rw (network_name, raised, fits) refl

    pub network_opens :
        (n : ℕ) (name rest : Bytes)
        → IsWord name
        → g.num_shared_networks + 3 ≤ 8192
        → go
            (codes "shared-network " ++ (name ++ b' ' ∷ b'{' ∷ b'\n' ∷ rest))
            (ready g k (pos n) braces_shared s)
          ≡ go rest (ready (add_network name g) (g.num_shared_networks + 1) (pos (n + 1)) (pos n) s)
    unfolding steps step magical open_brace after_magic take_char isspace argument_word
    network_opens n [] rest h room = absurd (omega (arith, h.written))
    network_opens n (x ∷ xs) rest h room =
        network_word (pos n) ((x ∷ xs) ++ b' ' ∷ b'{' ∷ b'\n' ∷ rest)
        ∙ word-run inet limit all inc (x ∷ xs) (behind_network (pos n) [])
            (b' ' ∷ b'{' ∷ b'\n' ∷ rest) h refl refl refl
        ∙ ap (λ r. r >>= go (b'{' ∷ b'\n' ∷ rest)) (network_name_extends (pos n) (x ∷ xs) room)
        ∙ ap (λ z. go rest (ready (add_network (x ∷ xs) g) (g.num_shared_networks + 1) z (pos n) s))
            (up n)
