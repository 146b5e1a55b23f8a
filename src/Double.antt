-- ===== src/Double.antt =====
-- What the code uses of the type `double`. The arithmetic of the machine is not part of the program:
-- it is a parameter. `of_ℤ` is the conversion from an integer, `to_float` the rounding to `float`, and
-- `overflow` what a conversion to `unsigned long` gives where C leaves it undefined.
use dhcpd_pools.Base.{ℕ, ◌≡◌, Bool, true, false, Ordering, if◌then◌else◌, IsPreorder, arith}
use dhcpd_pools.Base.Int.{ℤ}

pub record Doubles : Type 1 where
  pub Double : Type 0
  pub lt : Double → Double → Bool
  pub of_ℤ : ℤ → Double
  pub mul : Double → Double → Double
  pub div : Double → Double → Double
  pub sub : Double → Double → Double
  pub to_float : Double → Double
  pub overflow : ℤ → ℕ

-- sort.c, comp_double
unfoldable pub comp_double : (d : Doubles) → d.Double → d.Double → Ordering
comp_double d f1 f2 =
    if d.lt f1 f2 then Ordering.lt else if d.lt f2 f1 then Ordering.gt else Ordering.eq

-- What IEEE 754 says of `<`: it is asymmetric, it orders all that is not a NaN, and it fails at a
-- NaN. The conversion of an integer is no NaN.
pub record IsOrdered (d : Doubles) : Type 0 where
  pub is_nan : d.Double → Bool
  pub asym : (a b : d.Double) → d.lt a b ≡ true → d.lt b a ≡ false
  pub not_lt_trans :
      (a b c : d.Double) → is_nan b ≡ false → d.lt b a ≡ false → d.lt c b ≡ false → d.lt c a ≡ false
  pub of_ℤ-number : (z : ℤ) → is_nan (d.of_ℤ z) ≡ false

-- On what is no NaN, comp_double orders.
pub comp_double-IsPreorder :
    (d : Doubles) (o : IsOrdered d) {A : Type 0} (key : A → d.Double)
    → ((a : A) → o.is_nan (key a) ≡ false)
    → IsPreorder (λ (a b : A). comp_double d (key a) (key b))
unfolding comp_double
comp_double-IsPreorder d o key number = record {
  flip = λ a b. ground (arith, o.asym (key a) (key b), o.asym (key b) (key a));
  trans = λ a b c h k. ground (
    arith,
    o.not_lt_trans (key a) (key b) (key c),
    number b,
    o.asym (key a) (key b),
    o.asym (key b) (key c),
    o.asym (key a) (key c),
    h,
    k,
  );
}
