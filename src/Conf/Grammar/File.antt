-- ===== src/Conf/Grammar/File.antt =====
-- `parse_config` at the file that a tree of clauses looks like.
use mathlib.Core.List.{append_assoc}
use mathlib.Core.Path.{fun_ext}
use dhcpd_pools.Base.{
  ◌∙◌, ◌≡◌, refl, ap, ℕ, suc, ◌<◌, ◌≤◌, ◌^◌, ◌==◌, Bool, true, false, [], ◌∷◌, ◌++◌, Option, some,
  arith, inl, inr, Bool-cases,
}
use dhcpd_pools.Base.Int.{pos}
use dhcpd_pools.Base.Text.{codes}
use dhcpd_pools.Base.Result.{Result, ok, ◌>>=◌}
use dhcpd_pools.Data.{Bytes, IpAddr}
use dhcpd_pools.Address.{Inet}
use dhcpd_pools.Counting.{Networks, update}
use dhcpd_pools.Conf.State.{Failure, Globals, unset}
use dhcpd_pools.Conf.{
  magical, after_magic, take_char, store_char, step, steps, start_of, parse_config,
}
use dhcpd_pools.Conf.Grammar.{
  Config, done, range, address, statement, block, network, remark, text, meaning,
}
use dhcpd_pools.Conf.Grammar.Counts.{ranges_in, depth, IsGood}
use dhcpd_pools.Conf.Grammar.Listed.{listed, entries-meaning}
use dhcpd_pools.Run.Job.{entries}
use dhcpd_pools.Conf.Grammar.Ranges.{Scratch, ready}
use dhcpd_pools.Conf.Grammar.Whole.{Fits, text-run}

text-append :
    {inside : Bool} (c : Config inside) (more tail : Bytes)
    → text c more ++ tail ≡ text c (more ++ tail)
unfolding text
text-append done more tail = refl
text-append (range first last c) more tail =
    ap (λ (t : Bytes). codes "range " ++ t)
      (append_assoc first _ tail
        ∙ ap (λ (t : Bytes). first ++ b' ' ∷ t)
            (append_assoc last _ tail
              ∙ ap (λ (t : Bytes). last ++ b';' ∷ b'\n' ∷ t) (text-append c more tail)))
text-append (address only c) more tail =
    ap (λ (t : Bytes). codes "range " ++ t)
      (append_assoc only _ tail
        ∙ ap (λ (t : Bytes). only ++ b';' ∷ b'\n' ∷ t) (text-append c more tail))
text-append (statement w rest c) more tail =
    append_assoc w _ tail
    ∙ ap (λ (t : Bytes). w ++ b' ' ∷ t)
        (append_assoc rest _ tail
          ∙ ap (λ (t : Bytes). rest ++ b';' ∷ b'\n' ∷ t) (text-append c more tail))
text-append (block w rest i c) more tail =
    append_assoc w _ tail
    ∙ ap (λ (t : Bytes). w ++ b' ' ∷ t)
        (append_assoc rest _ tail
          ∙ ap (λ (t : Bytes). rest ++ b'{' ∷ b'\n' ∷ t)
              (text-append i _ tail
                ∙ ap (λ (t : Bytes). text i (b'}' ∷ b'\n' ∷ t)) (text-append c more tail)))
text-append (network name i c) more tail =
    ap (λ (t : Bytes). codes "shared-network " ++ t)
      (append_assoc name _ tail
        ∙ ap (λ (t : Bytes). name ++ b' ' ∷ b'{' ∷ b'\n' ∷ t)
            (text-append i _ tail
              ∙ ap (λ (t : Bytes). text i (b'}' ∷ b'\n' ∷ t)) (text-append c more tail)))
text-append (remark rest c) more tail =
    ap (λ (t : Bytes). b'#' ∷ t)
      (append_assoc rest _ tail ∙ ap (λ (t : Bytes). rest ++ b'\n' ∷ t) (text-append c more tail))

-- The entry for all networks keeps its name.
update_same : (nets : Networks) (k : ℕ) → update nets k (nets k) ≡ nets
unfolding update
update_same nets k = fun_ext (λ j. elim (Bool-cases (j == k)) [
  | inl e ↦ let at_k : j ≡ k = ground arith in rw (e, at_k) refl
  | inr e ↦ rw e refl
])

module _ (inet : Inet) (limit : ℕ) (small : limit < 2 ^ 32) (files : Bytes → Option Bytes)
    (all : Bool) (garbage : IpAddr) where
  abbrev nothing : Scratch
  nothing = record { addr = garbage; range_p = unset }

  start-ready :
      (g : Globals) → start_of inet limit true garbage 0 g ≡ ready g 0 (pos 0) (pos 1000) nothing
  unfolding update
  start-ready g =
      ap
        (λ (nets : Networks).
          ready (record g { shared_networks = nets }) 0 (pos 0) (pos 1000) nothing)
        (update_same g.shared_networks 0)

  -- The value EOF behind the file goes into the buffer.
  eof :
      (inc : Bytes → ℕ → Globals → Result Failure Globals) (g : Globals) (s : Scratch)
      → (steps inet limit all inc (255 ∷ []) (ready g 0 (pos 0) (pos 1000) s) >>= λ q. ok q.globals)
        ≡ ok g
  unfolding steps step magical after_magic take_char store_char
  eof inc g s = refl

  -- The parser reads what is written: at a file that is the text of a tree of clauses it returns, and its
  -- tables have what the tree says: the entries that are new are the ranges of the tree in their order, each
  -- with the network it stands in, and the networks have their names (`meaning`). The tree is `IsGood`:
  -- addresses are IPv4 addresses, names and first words are plain words, and what is passed over begins with
  -- no word that the program looks for. It is assumed that the blocks are not more than 1000
  -- deep, and that the tables and the memory, for fewer than 2 ^ 32 ranges, have room (`Fits`).
  pub parse_config-meaning :
      (fuel : ℕ) (file : Bytes) (c : Config false) (g : Globals)
      → files file ≡ some (text c [])
      → IsGood inet all c
      → depth c ≤ 1000
      → Fits limit c g
      → (parse_config inet limit files all garbage (suc fuel) true file 0 g
          ≡ ok (meaning inet c 0 g))
        × (entries (meaning inet c 0 g).ranges g.num_ranges (ranges_in c)
            ≡ listed inet c 0 g.num_shared_networks)
  unfolding parse_config
  parse_config-meaning fuel file c g there good shallow fits =
      let inc : Bytes → ℕ → Globals → Result Failure Globals =
        λ w k x. parse_config inet limit files all garbage fuel false w k x in
      let (s, e) =
        text-run inet limit all inc small c 0 0 (pos 1000) g nothing (255 ∷ []) good
          (refl, refl, omega (arith, shallow)) fits in
      (
        rw (parse_config, there)
            (ap (λ r. r >>= λ q. ok q.globals)
                (ap (λ t. steps inet limit all inc t (start_of inet limit true garbage 0 g))
                    (text-append c [] (255 ∷ []))
                  ∙ ap (steps inet limit all inc (text c (255 ∷ []))) (start-ready g)
                  ∙ e)
              ∙ eof inc (meaning inet c 0 g) s),
        entries-meaning inet c 0 g,
      )
