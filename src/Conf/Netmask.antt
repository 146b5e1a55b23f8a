-- ===== src/Conf/Netmask.antt =====
-- The loop that turns a netmask into the length of its prefix.
use dhcpd_pools.Base.{
  ◌≡◌, refl, ℕ, zero, suc, ◌-◌, ◌*◌, ◌/◌, ◌%◌, ◌^◌, ◌<◌, none, some, arith, ◌==◌, Bool-cases, inl,
  inr, ap,
}
use native.Mathlib.Nat.{pow-zero, pow-suc, mul_assoc}
use dhcpd_pools.Conf.State.{mask_loop}

-- The netmask 0.0.0.0 makes the loop go on for ever.
pub mask_loop-zero : (fuel bits : ℕ) → mask_loop fuel 0 bits ≡ none
unfolding mask_loop
mask_loop-zero zero bits = refl
mask_loop-zero (suc fuel) bits = mask_loop-zero fuel (bits - 1)

pow_step : (m k a : ℕ) → a / 2 ≡ m * 2 ^ k → a % 2 ≡ 0 → a ≡ m * 2 ^ suc k
pow_step m k a h e = rw (pow-suc 2 k) (omega (arith, mul_assoc m (2 ^ k) 2))

-- For any other mask the loop ends, within as many rounds as the mask has bits. It has then shifted
-- out the zero bits at the end of the mask, k of them, and has taken k off the counter.
pub mask_loop_lem :
    (fuel a bits : ℕ)
    → 0 < a
    → a < 2 ^ fuel
    → (m : ℕ) × (k : ℕ) × (mask_loop fuel a bits ≡ some (m, bits - k))
      × (a ≡ m * 2 ^ k)
      × (m % 2 ≡ 1)
      × (k < fuel)
unfolding mask_loop
mask_loop_lem zero a bits p h = absurd (omega (arith, pow-zero 2))
mask_loop_lem (suc fuel) a bits p h = elim (Bool-cases (a % 2 == 0)) [
  | inl e ↦
      let even : a % 2 ≡ 0 = ground arith in
      let (m, k, runs, eq, odd, lt) =
        mask_loop_lem fuel (a / 2) (bits - 1) (omega arith) (omega (arith, pow-suc 2 fuel)) in
      (
        m,
        suc k,
        rw e (rw runs (ap (λ (x : ℕ). some (m, x)) (less_one k))),
        pow_step m k a eq even,
        odd,
        omega arith,
      )
  | inr e ↦ (
    a,
    0,
    rw e (ap (λ (x : ℕ). some (a, x)) (sub_zero bits)),
    omega (arith, pow-zero 2),
    ground arith,
    omega arith,
  )
]
  where
    sub_zero : (n : ℕ) → n ≡ n - 0
    sub_zero n = omega arith

    less_one : (k : ℕ) → bits - 1 - k ≡ bits - suc k
    less_one k = omega arith
