-- ===== src/Sort/Flip.antt =====
-- `flip_ranges` reverses the table of ranges.
use mathlib.Core.List.{reverse-append}
use dhcpd_pools.Base.{
  ◌∙◌, ℕ, zero, suc, ◌+◌, ◌-◌, ◌%◌, ◌^◌, ◌<◌, ◌≤◌, ◌≡◌, refl, sym, ap, List, [], ◌∷◌, ◌++◌, some,
  arith, reverse, get_elem?, take, length,
}
use dhcpd_pools.Data.{Range}
use dhcpd_pools.Sort.{flip_loop, flip_ranges}

get_elem?-take :
    (l : List Range) (i : ℕ)
    → i < length l
    → (r : Range) × (get_elem? l i ≡ some r) × (take (suc i) l ≡ take i l ++ r ∷ [])
get_elem?-take [] i h = absurd (omega arith)
get_elem?-take (x ∷ l) zero h = (x, refl, refl)
get_elem?-take (x ∷ l) (suc i) h =
    let (r, e, t) = get_elem?-take l i (omega arith) in (r, e, ap (λ xs. x ∷ xs) t)

take-length : (l : List Range) → take (length l) l ≡ l
take-length [] = refl
take-length (x ∷ l) = ap (λ xs. x ∷ xs) (take-length l)

flip_loop-reverse :
    (l : List Range) (rounds i : ℕ)
    → rounds ≤ length l
    → length l < 2 ^ 32
    → (0 < rounds → i + 1 ≡ rounds)
    → flip_loop l rounds i ≡ some (reverse (take rounds l))
unfolding flip_loop
flip_loop-reverse l zero i h k e = refl
flip_loop-reverse l (suc rounds) i h k e =
    let index : i ≡ rounds = omega (arith, e (omega arith)) in
    let (r, at_i, t) = get_elem?-take l rounds (omega arith) in
    let rest =
      flip_loop-reverse l rounds ((i + 2 ^ 32 - 1) % 2 ^ 32) (omega arith) k (λ p. omega arith) in
    rw (ap (get_elem? l) index ∙ at_i, flip_loop, rest)
      (ap some (sym (ap (λ xs. reverse xs) t ∙ reverse-append (take rounds l) (r ∷ []))))

-- The table comes out in reverse, and no read is out of bounds; its index, which counts down in the
-- type `unsigned int`, may wrap after the last round only.
pub flip_ranges-reverse : (l : List Range) → length l < 2 ^ 32 → flip_ranges l ≡ some (reverse l)
unfolding flip_ranges
flip_ranges-reverse l h =
    flip_loop-reverse l (length l) ((length l + 2 ^ 32 - 1) % 2 ^ 32) (omega arith) h
      (λ p. omega arith)
    ∙ ap (λ xs. some (reverse xs)) (take-length l)
