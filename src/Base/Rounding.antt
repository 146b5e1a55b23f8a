-- ===== src/Base/Rounding.antt =====
-- Integers as values of the type `double` of IEEE 754: 53 significant bits, rounded to the nearest,
-- and to the even one of two that are equally near.
use Prim.Native.Nat.{ℕ, zero, suc, ◌+◌, ◌*◌, ◌/◌, ◌%◌, ◌^◌, ◌<◌}
use mathlib.Core.Path.{◌≡◌, refl}
use mathlib.Core.Bool.{true, false, ◌&&◌, ◌||◌}
use native.Mathlib.Omega.{arith}
use dhcpd_pools.Base.Tests.{ltb, ◌==◌, if◌then◌else◌}
use dhcpd_pools.Base.Int.{ℤ, pos_part, neg_part, sub_ℕ}

-- How many bits a number has behind its first 53. The greatest double has 971.
unfoldable pub excess : (fuel n : ℕ) → ℕ
excess zero n = 0
excess (suc fuel) n = elim (ltb n (2 ^ 53)) [ true ↦ 0 | false ↦ suc (excess fuel (n / 2)) ]

-- The double next to a number.
unfoldable pub rounded : ℕ → ℕ
unfolding excess
rounded n =
    let step = 2 ^ excess 971 n in
    let quotient = n / step in
    let rest = n % step in
    if ltb step (2 * rest) || (2 * rest == step && quotient % 2 == 1)
    then (quotient + 1) * step
    else quotient * step

unfoldable pub round : ℤ → ℤ
unfolding rounded
round z = sub_ℕ (rounded (pos_part z)) (rounded (neg_part z))

excess_none : (n : ℕ) → n < 2 ^ 53 → excess 971 n ≡ 0
unfolding excess
excess_none n h = let small : ltb n (2 ^ 53) ≡ true = ground (arith, h) in rw (excess, small) refl

pub rounded-exact : (n : ℕ) → n < 2 ^ 53 → rounded n ≡ n
unfolding rounded
rounded-exact n h = rw (excess_none n h) (ground arith)

pub round-exact : (z : ℤ) → pos_part z < 2 ^ 53 → neg_part z < 2 ^ 53 → round z ≡ z
unfolding round
round-exact z p n = rw (rounded-exact (pos_part z) p, rounded-exact (neg_part z) n) (ground arith)
