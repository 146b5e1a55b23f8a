-- ===== src/Sort/Engine.antt =====
-- `mergesort_ranges` of src/sort.c over any elements, for a test `less` that is the C function
-- `merge`: whether the left element has to stay in front of the right one.
--
-- The array `orig` is a list. Of the part that the insertion sort has done already the last element
-- comes first, since the inner loop walks it from its end.
pub mod Steps
pub mod Order
pub mod Ties
use mathlib.Core.Logic.{dite}
use mathlib.Core.WellFounded.{Acc}
use native.Mathlib.Decide.{dec_lt}
use dhcpd_pools.Base.{
  ◌/◌, ◌<◌, Bool, true, false, List, [], ◌∷◌, if◌then◌else◌, length, take, drop, length-take,
  length-drop, arith, reverse_aux,
}
use dhcpd_pools.Base.Shorter.{Shorter, Shorter-wf}

module _ {ℓ} {A : Type ℓ} (l : List A) (long : ¬ (length l < 8)) where
  pub Shorter-drop : Shorter (drop (length l / 2) l) l
  Shorter-drop = omega (arith, length-drop (length l / 2) l)

  pub Shorter-take : Shorter (take (length l / 2) l) l
  Shorter-take = omega (arith, length-take (length l / 2) l)

module _ {ℓ} {A : Type ℓ} (less : A → A → Bool) where
  -- The inner `for`: elements are moved up until one has to stay in front of `hold`.
  unfoldable pub insert_hold : (hold : A) (done : List A) → List A
  insert_hold hold [] = hold ∷ []
  insert_hold hold (x ∷ done) = if less x hold then hold ∷ x ∷ done else x ∷ insert_hold hold done

  -- The outer `for`, and the array that it leaves.
  unfoldable pub insert_all : (done left : List A) → List A
  insert_all done [] = reverse_aux done []
  insert_all done (x ∷ left) = insert_all (insert_hold x done) left

  -- The three `while` loops: `l` is what is left of the left half, `r` of the right half, and the
  -- result is what is written into `temp` from there on.
  unfoldable pub merge_halves : (l r : List A) → List A
  merge_halves [] r = r
  merge_halves (x ∷ l) [] = x ∷ l
  merge_halves (x ∷ l) (y ∷ r) = elim (less x y) [
    | true ↦ x ∷ merge_halves l (y ∷ r)
    | false ↦ y ∷ merge_halves (x ∷ l) r
  ]

  pub sort_acc : (l : List A) → Acc Shorter l → List A
  sort_acc l (Acc.intro _ below) =
      dite (dec_lt (length l) 8) (λ _. insert_all [] l)
        λ long.
          merge_halves (sort_acc (take (length l / 2) l) (below _ (Shorter-take l long)))
            (sort_acc (drop (length l / 2) l) (below _ (Shorter-drop l long)))

  unfoldable pub mergesort : List A → List A
  unfolding sort_acc insert_hold insert_all merge_halves
  mergesort l = sort_acc l (Shorter-wf.apply l)
