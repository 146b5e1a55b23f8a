-- ===== src/Counting/Totals/Sizes.antt =====
-- What `do_counting` adds up in `available`, which is a double: each sum is rounded, but below 2 ^ 53 a
-- double holds any integer.
use dhcpd_pools.Base.{
  ℕ, ◌+◌, ◌^◌, ◌<◌, List, [], ◌∷◌, ◌≡◌, refl, ap, ◌∙◌, arith, inl, inr, Bool-cases, if◌then◌else◌,
  ltb, true,
}
use dhcpd_pools.Base.Int.{ℤ, pos, negsuc, pos_part, neg_part, ◌+ℤ◌, int_laws, add_positive}
use dhcpd_pools.Base.Rounding.{round, round-exact}
use dhcpd_pools.Data.{DhcpVersion, Range}
use dhcpd_pools.Address.{get_range_size}
use dhcpd_pools.Counting.{to_ulong}
use dhcpd_pools.Counting.Totals.{is_in}

-- A sum over the ranges of network `k`, and over all ranges.
unfoldable pub sum_in : ℕ → (Range → ℕ) → List Range → ℕ
sum_in k f [] = 0
sum_in k f (r ∷ ranges) = (if is_in k r.shared_net then f r else 0) + sum_in k f ranges

unfoldable pub sum_all : (Range → ℕ) → List Range → ℕ
sum_all f [] = 0
sum_all f (r ∷ ranges) = f r + sum_all f ranges

abbrev pub size_of : DhcpVersion → Range → ℕ
size_of v r = pos_part (get_range_size v r)

-- No size is negative: no range ends before it begins.
abbrev pub AllSized : DhcpVersion → List Range → Type 0
AllSized v [] = Unit {0}
AllSized v (r ∷ ranges) = (neg_part (get_range_size v r) ≡ 0) × AllSized v ranges

-- A sum of two small numbers is exact.
round_sum :
    (a b : ℤ)
    → neg_part a ≡ 0
    → neg_part b ≡ 0
    → pos_part a + pos_part b < 2 ^ 53
    → round (a +ℤ b) ≡ a +ℤ b
round_sum a b h k small =
    let (none_below, sum) = add_positive a b h k in
    round-exact (a +ℤ b) (omega (arith, sum)) (omega (arith, none_below))

of_pos_part : (z : ℤ) → neg_part z ≡ 0 → z ≡ pos (pos_part z)
of_pos_part z h = ground arith

sum_positive : (a : ℤ) (m n : ℕ) → a +ℤ pos m +ℤ pos n ≡ a +ℤ pos (m + n)
sum_positive a m n = omega int_laws

module _ (overflow : ℤ → ℕ) (v : DhcpVersion) where
  -- What one round of the first loop makes of `available`, and all rounds.
  abbrev pub grown : Range → ℤ → ℤ
  grown r a = round (a +ℤ round (pos (to_ulong overflow (get_range_size v r))))

  unfoldable pub added : ℕ → List Range → ℤ → ℤ
  added k [] a = a
  added k (r ∷ ranges) a = added k ranges (if is_in k r.shared_net then grown r a else a)

  to_ulong-exact : (z : ℤ) → neg_part z ≡ 0 → pos_part z < 2 ^ 53 → to_ulong overflow z ≡ pos_part z
  unfolding to_ulong
  to_ulong-exact (pos n) h small = let fits : ltb n (2 ^ 64) ≡ true = ground arith in rw fits refl
  to_ulong-exact (negsuc n) h small = absurd (omega arith)

  grown-exact :
      (r : Range) (a : ℤ)
      → neg_part (get_range_size v r) ≡ 0
      → neg_part a ≡ 0
      → pos_part a + size_of v r < 2 ^ 53
      → grown r a ≡ a +ℤ pos (size_of v r)
  grown-exact r a sized h small =
      rw
        (
          to_ulong-exact (get_range_size v r) sized (omega arith),
          round-exact (pos (size_of v r)) (omega arith) (omega arith),
        )
        (round_sum a (pos (size_of v r)) h refl small)

  pub added-exact :
      (k : ℕ) (ranges : List Range) (a : ℤ)
      → AllSized v ranges
      → neg_part a ≡ 0
      → pos_part a + sum_in k (size_of v) ranges < 2 ^ 53
      → added k ranges a ≡ a +ℤ pos (sum_in k (size_of v) ranges)
  unfolding added sum_in
  added-exact k [] a sized h small = omega int_laws
  added-exact k (r ∷ ranges) a sized h small = elim (Bool-cases (is_in k r.shared_net)) [
    | inl e ↦
        let fits : pos_part a + (size_of v r + sum_in k (size_of v) ranges) < 2 ^ 53 =
          rw e at small in
        let (none_below, sum) = add_positive a (pos (size_of v r)) h refl in
        rw e (
          ap (added k ranges) (grown-exact r a sized.0 h (omega arith))
          ∙ added-exact k ranges (a +ℤ pos (size_of v r)) sized.1 none_below
              (omega (arith, sum, fits))
          ∙ sum_positive a (size_of v r) (sum_in k (size_of v) ranges))
    | inr e ↦
        let fits : pos_part a + (0 + sum_in k (size_of v) ranges) < 2 ^ 53 = rw e at small in
        rw e (
          added-exact k ranges a sized.1 h (omega (arith, fits))
          ∙ ap (λ n. a +ℤ pos n) (omega arith))
  ]

-- The second loop.
unfoldable pub summed : DhcpVersion → List Range → ℤ → ℤ
summed v [] a = a
summed v (r ∷ ranges) a = summed v ranges (round (a +ℤ get_range_size v r))

pub summed-exact :
    (v : DhcpVersion) (ranges : List Range) (a : ℤ)
    → AllSized v ranges
    → neg_part a ≡ 0
    → pos_part a + sum_all (size_of v) ranges < 2 ^ 53
    → summed v ranges a ≡ a +ℤ pos (sum_all (size_of v) ranges)
unfolding summed sum_all
summed-exact v [] a sized h small = omega int_laws
summed-exact v (r ∷ ranges) a sized h small =
    let size = get_range_size v r in
    let (none_below, sum) = add_positive a (get_range_size v r) h sized.0 in
    ap (summed v ranges) (round_sum a (get_range_size v r) h sized.0 (omega arith))
    ∙ summed-exact v ranges (a +ℤ get_range_size v r) sized.1 none_below (omega (arith, sum))
    ∙ ap (λ z. a +ℤ z +ℤ pos (sum_all (size_of v) ranges))
        (of_pos_part (get_range_size v r) sized.0)
    ∙ sum_positive a (size_of v r) (sum_all (size_of v) ranges)
