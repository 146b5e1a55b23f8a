-- ===== src/Base/Comparing.antt =====
-- What a C comparison function returns, read by its sign, and the laws that a sort relies on.
use Prim.Native.Nat.{ℕ, Ordering}
use mathlib.Core.Path.{◌≡◌, refl}
use mathlib.Core.Bool.{Bool, true, false}
use mathlib.Core.List.{List, [], ◌∷◌}
use native.Mathlib.Omega.{arith}
use dhcpd_pools.Base.Tests.{ltb, if◌then◌else◌}

-- `r < 0`, `0 < r` and `r <= 0` for the `int` that a comparison returns.
abbrev pub is_negative : Ordering → Bool
is_negative Ordering.lt = true
is_negative Ordering.eq = false
is_negative Ordering.gt = false

abbrev pub is_positive : Ordering → Bool
is_positive Ordering.lt = false
is_positive Ordering.eq = false
is_positive Ordering.gt = true

abbrev pub opposite : Ordering → Ordering
opposite Ordering.lt = Ordering.gt
opposite Ordering.eq = Ordering.eq
opposite Ordering.gt = Ordering.lt

-- A comparison that orders its arguments, ties allowed.
pub record IsPreorder {ℓ} {A : Type ℓ} (cmp : A → A → Ordering) : Type ℓ where
  pub flip : (a b : A) → cmp b a ≡ opposite (cmp a b)
  pub trans :
      (a b c : A)
      → is_positive (cmp a b) ≡ false
      → is_positive (cmp b c) ≡ false
      → is_positive (cmp a c) ≡ false

module _ {ℓ} {A : Type ℓ} {cmp : A → A → Ordering} (o : IsPreorder cmp) where
  pub lt_of_lt_le :
      (a b c : A)
      → is_negative (cmp a b) ≡ true
      → is_positive (cmp b c) ≡ false
      → is_negative (cmp a c) ≡ true
  lt_of_lt_le a b c h k =
      ground (arith, o.trans a b c, o.trans b c a, o.flip a b, o.flip a c, o.flip b c)

  pub lt_of_le_lt :
      (a b c : A)
      → is_positive (cmp a b) ≡ false
      → is_negative (cmp b c) ≡ true
      → is_negative (cmp a c) ≡ true
  lt_of_le_lt a b c h k =
      ground (arith, o.trans a b c, o.trans c a b, o.flip a b, o.flip a c, o.flip b c)

-- The comparison that the code writes out for numbers.
abbrev pub lesser : ℕ → ℕ → ℕ
lesser a b = if ltb b a then b else a

abbrev pub greater : ℕ → ℕ → ℕ
greater a b = if ltb b a then a else b

abbrev pub comp_nat : ℕ → ℕ → Ordering
comp_nat a b = if ltb a b then Ordering.lt else if ltb b a then Ordering.gt else Ordering.eq

pub comp_nat-IsPreorder : IsPreorder comp_nat
comp_nat-IsPreorder = record { flip = λ a b. ground arith; trans = λ a b c h k. ground arith }

-- Two byte strings, compared at the first byte that differs; a proper prefix comes first. This is
-- memcmp on blocks of one length, and strcmp on texts that hold no zero byte.
unfoldable pub bytes_compare : List ℕ → List ℕ → Ordering
bytes_compare [] [] = Ordering.eq
bytes_compare [] (b ∷ y) = Ordering.lt
bytes_compare (a ∷ x) [] = Ordering.gt
bytes_compare (a ∷ x) (b ∷ y) =
    if ltb a b then Ordering.lt else if ltb b a then Ordering.gt else bytes_compare x y

bytes_compare-flip : (x y : List ℕ) → bytes_compare y x ≡ opposite (bytes_compare x y)
unfolding bytes_compare
bytes_compare-flip [] [] = refl
bytes_compare-flip [] (b ∷ y) = refl
bytes_compare-flip (a ∷ x) [] = refl
bytes_compare-flip (a ∷ x) (b ∷ y) = ground (arith, bytes_compare-flip x y)

bytes_compare_trans :
    (x y z : List ℕ)
    → is_positive (bytes_compare x y) ≡ false
    → is_positive (bytes_compare y z) ≡ false
    → is_positive (bytes_compare x z) ≡ false
unfolding bytes_compare
bytes_compare_trans [] y [] h k = refl
bytes_compare_trans [] y (c ∷ z) h k = refl
bytes_compare_trans (a ∷ x) [] z h k = cc
bytes_compare_trans (a ∷ x) (b ∷ y) [] h k = cc
bytes_compare_trans (a ∷ x) (b ∷ y) (c ∷ z) h k = ground (arith, bytes_compare_trans x y z)

pub bytes_compare-IsPreorder : IsPreorder bytes_compare
bytes_compare-IsPreorder = record { flip = bytes_compare-flip; trans = bytes_compare_trans }
