-- ===== src/Base/Result.antt =====
-- A result, or the reason for which the program stops.
use mathlib.Core.Path.{◌≡◌, refl}

pub data Result {ℓ κ} (E : Type ℓ) (A : Type κ) : Type (ℓ ⊔ κ) where
  err : E → Result E A
  ok : A → Result E A

module _ {ℓ κ μ} {E : Type ℓ} {A : Type κ} {B : Type μ} where
  infixl 5 ◌>>=◌
  -- The rest of the program, unless it has stopped.
  abbrev pub ◌>>=◌ : (m : Result E A) → (rest : A → Result E B) → Result E B
  err reason >>= rest = err reason
  ok value >>= rest = rest value

  pub >>=-eq-ok :
      (m : Result E A) (rest : A → Result E B) {b : B}
      → (m >>= rest) ≡ ok b
      → (a : A) × (m ≡ ok a) × (rest a ≡ ok b)
  >>=-eq-ok (ok a) rest h = (a, refl, h)
  >>=-eq-ok (err e) rest h = cc
