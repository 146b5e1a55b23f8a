-- ===== src/Conf/Grammar/Steps.antt =====
-- The parser at each clause, byte by byte.
use dhcpd_pools.Base.{
  ◌∙◌, ◌≡◌, refl, ap, ℕ, ◌+◌, ◌*◌, ◌<◌, ◌≤◌, ◌^◌, ◌==◌, Bool, true, false, not, ◌&&◌, ◌||◌, [], ◌∷◌,
  ◌++◌, arith, length,
}
use dhcpd_pools.Base.Int.{ℤ}
use dhcpd_pools.Base.Text.{codes, c_string}
use dhcpd_pools.Base.Result.{Result, ok, ◌>>=◌}
use dhcpd_pools.Data.{Bytes}
use dhcpd_pools.Address.{Inet}
use dhcpd_pools.Conf.State.{
  Failure, Globals, Parser, nothing_interesting, is_interesting_config_clause, isspace,
}
use dhcpd_pools.Conf.{
  same_clause, magical, semicolon, take_char, argument_word, clause_word, after_magic, step, steps,
}
use dhcpd_pools.Conf.Clauses.{AllPlain, steps-append, steps-word}
use dhcpd_pools.Conf.Grammar.{range_between, add_range}
use dhcpd_pools.Conf.Grammar.Ranges.{
  Scratch, ready, TakesV4, behind_range, behind_first, first_ip_takes, second_ip_extends,
  second_ip_only,
}

-- A word of plain bytes, not empty, and shorter than the buffer.
pub record IsWord (w : Bytes) : Type 0 where
  pub written : 0 < length w
  pub plain : AllPlain w
  pub short : length w < 1024

-- A byte that a statement may hold behind its first word.
unfoldable pub is_calm : ℕ → Bool
is_calm c =
    not (c == b'#') && not (c == b'"') && not (c == b';') && not (c == b'{') && not (c == b'}')

module _ (inet : Inet) (limit : ℕ) (all : Bool)
    (inc : Bytes → ℕ → Globals → Result Failure Globals) where
  abbrev pub run : Bytes → Parser → Result Failure Parser
  run = steps inet limit all inc

  pub run-then : (a b : Bytes) (p q : Parser) → run a p ≡ ok q → run (a ++ b) p ≡ run b q
  run-then a b p q e = steps-append inet limit all inc a b p ∙ ap (λ r. r >>= run b) e

  pub word-run :
      (w : Bytes) (p : Parser) (rest : Bytes)
      → IsWord w
      → p.comment ≡ false
      → (p.newclause || not (same_clause p.argument nothing_interesting)) ≡ true
      → p.word ≡ []
      → run (w ++ rest) p ≡ run rest (record p { word = w })
  word-run w p rest h off active empty =
      run-then w rest p (record p { word = w })
        (steps-word inet limit all inc w p h.plain off active
            (omega (arith, h.short, ap (λ (b : Bytes). length b) empty))
          ∙ ap (λ (b : Bytes). ok (record p { word = b ++ w })) empty)

  module _ (g : Globals) (k : ℕ) (braces braces_shared : ℤ) where
    pub newline :
        (s : Scratch) (rest : Bytes)
        → run (b'\n' ∷ rest) (ready g k braces braces_shared s)
          ≡ run rest (ready g k braces braces_shared s)
    unfolding steps step magical after_magic take_char isspace
    newline s rest = refl

    range_word :
        (s : Scratch) (rest : Bytes)
        → run (codes "range " ++ rest) (ready g k braces braces_shared s)
          ≡ run rest (behind_range inet limit g k braces braces_shared s [])
    unfolding steps step magical after_magic take_char isspace clause_word
        is_interesting_config_clause c_string
    range_word s rest =
        run-then (codes "range ") rest (ready g k braces braces_shared s)
          (behind_range inet limit g k braces braces_shared s []) refl

    first_word :
        (s : Scratch) (first rest : Bytes)
        → IsWord first
        → TakesV4 g.ip_version
        → (inet.inet_aton (c_string first)).0 ≡ true
        → run (first ++ b' ' ∷ rest) (behind_range inet limit g k braces braces_shared s [])
          ≡ run rest (behind_first inet limit g k braces braces_shared first [])
    unfolding steps step magical after_magic take_char isspace argument_word
    first_word s [] rest w v valid = absurd (omega (arith, w.written))
    first_word s (x ∷ xs) rest w v valid =
        word-run (x ∷ xs) (behind_range inet limit g k braces braces_shared s []) (b' ' ∷ rest) w
          refl refl refl
        ∙ ap (run rest) (first_ip_takes inet limit g k braces braces_shared s (x ∷ xs) v valid)

    module _ (room : 2 * (g.num_ranges + 2) ≤ limit) (small : limit < 2 ^ 32) where
      abbrev After : Result Failure Parser → Globals → Bytes → Type 0
      After r g' rest = (s : Scratch) × (r ≡ run rest (ready g' k braces braces_shared s))

      second_word :
          (first last rest : Bytes)
          → IsWord last
          → After
              (run
                (last ++ b';' ∷ b'\n' ∷ rest)
                (behind_first inet limit g k braces braces_shared first []))
              (add_range (range_between inet k first last) g)
              rest
      unfolding steps step magical semicolon after_magic take_char isspace argument_word
      second_word first [] rest w = absurd (omega (arith, w.written))
      second_word first (x ∷ xs) rest w =
          let (s, e) =
            second_ip_extends inet limit g k braces braces_shared room small first (x ∷ xs) in
          (
            s,
            word-run (x ∷ xs) (behind_first inet limit g k braces braces_shared first [])
                  (b';' ∷ b'\n' ∷ rest) w refl refl refl
                ∙ ap (λ r. r >>= run (b'\n' ∷ rest)) e,
          )

      pub range-run :
          (s : Scratch) (first last rest : Bytes)
          → IsWord first
          → IsWord last
          → TakesV4 g.ip_version
          → (inet.inet_aton (c_string first)).0 ≡ true
          → After
              (run
                (codes "range " ++ (first ++ b' ' ∷ (last ++ b';' ∷ b'\n' ∷ rest)))
                (ready g k braces braces_shared s))
              (add_range (range_between inet k first last) g)
              rest
      range-run s first last rest w w' v valid =
          let (s', e) = second_word first last rest w' in
          (
            s',
            range_word s (first ++ b' ' ∷ (last ++ b';' ∷ b'\n' ∷ rest))
                ∙ first_word s first (last ++ b';' ∷ b'\n' ∷ rest) w v valid
                ∙ e,
          )

      pub address-run :
          (s : Scratch) (only rest : Bytes)
          → IsWord only
          → TakesV4 g.ip_version
          → (inet.inet_aton (c_string only)).0 ≡ true
          → After
              (run
                (codes "range " ++ (only ++ b';' ∷ b'\n' ∷ rest))
                (ready g k braces braces_shared s))
              (add_range (range_between inet k only only) g)
              rest
      unfolding steps step magical semicolon after_magic take_char isspace argument_word
      address-run s [] rest w v valid = absurd (omega (arith, w.written))
      address-run s (x ∷ xs) rest w v valid =
          let (s', e) =
            second_ip_only inet limit g k braces braces_shared room small s (x ∷ xs) v valid in
          (
            s',
            range_word s ((x ∷ xs) ++ b';' ∷ b'\n' ∷ rest)
                ∙ word-run (x ∷ xs) (behind_range inet limit g k braces braces_shared s [])
                    (b';' ∷ b'\n' ∷ rest) w refl refl refl
                ∙ ap (λ r. r >>= run rest) e,
          )
