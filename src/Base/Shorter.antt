-- ===== src/Base/Shorter.antt =====
-- "Shorter than" on lists, a well-founded relation for recursion on parts of a list.
use Prim.Native.Nat.{ℕ, zero, suc, ◌<◌}
use mathlib.Core.List.{List}
use mathlib.Core.WellFounded.{Acc, WellFounded}
use native.Mathlib.Omega.{arith}
use dhcpd_pools.Base.Lists.{length}

module _ {ℓ} {A : Type ℓ} where
  abbrev pub Shorter : List A → List A → Type 0
  Shorter a b = length a < length b

  acc_below : (k : ℕ) (l : List A) → length l < k → Acc Shorter l
  acc_below zero l h = absurd (omega arith)
  acc_below (suc k) l h = Acc.intro l λ m shorter. acc_below k m (omega arith)

  unfoldable pub Shorter-wf : WellFounded Shorter
  unfolding acc_below
  Shorter-wf = record { apply = λ l. acc_below (suc (length l)) l (omega arith) }
