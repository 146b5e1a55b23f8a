-- ===== src/Sort/Engine/Steps.antt =====
-- The two equations of the sort, an induction over them, and that it rearranges its input.
use mathlib.Core.Logic.{dif_pos, dif_neg}
use mathlib.Core.List.{Perm, Permᴰ, append-nil}
use mathlib.Core.List.Permᴰ
use mathlib.Core.WellFounded.{Acc, Acc-prop, induction}
use native.Mathlib.Bridge.{le_prop}
use native.Mathlib.Decide.{dec_lt}
use dhcpd_pools.Base.{
  ◌/◌, ◌<◌, Bool, List, [], ◌∷◌, ◌++◌, ◌≡◌, refl, ap, ◌∙◌, inl, inr, Bool-cases, length, take, drop,
  take-append-drop,
}
use dhcpd_pools.Base.Shorter.{Shorter, Shorter-wf}
use dhcpd_pools.Sort.Engine.{
  Shorter-take, Shorter-drop, insert_hold, insert_all, merge_halves, sort_acc, mergesort,
}

module _ {ℓ} {A : Type ℓ} (less : A → A → Bool) where
  sort_acc-mergesort : (l : List A) (w : Acc Shorter l) → sort_acc less l w ≡ mergesort less l
  unfolding mergesort
  sort_acc-mergesort l w = ap (sort_acc less l) (Acc-prop w (Shorter-wf.apply l))

  sort_acc_short :
      (l : List A) (w : Acc Shorter l) → length l < 8 → sort_acc less l w ≡ insert_all less [] l
  unfolding sort_acc
  sort_acc_short l (Acc.intro _ below) h = dif_pos (dec_lt (length l) 8) le_prop h _ _

  sort_acc_long :
      (l : List A) (w : Acc Shorter l)
      → ¬ (length l < 8)
      → sort_acc less l w
        ≡ merge_halves less
            (mergesort less (take (length l / 2) l))
            (mergesort less (drop (length l / 2) l))
  unfolding sort_acc
  sort_acc_long l (Acc.intro _ below) h =
      dif_neg (dec_lt (length l) 8) h _ _ ∙ simp sort_acc-mergesort

  pub mergesort_short : (l : List A) → length l < 8 → mergesort less l ≡ insert_all less [] l
  unfolding mergesort
  mergesort_short l = sort_acc_short l (Shorter-wf.apply l)

  pub mergesort_long :
      (l : List A)
      → ¬ (length l < 8)
      → mergesort less l
        ≡ merge_halves less
            (mergesort less (take (length l / 2) l))
            (mergesort less (drop (length l / 2) l))
  unfolding mergesort
  mergesort_long l = sort_acc_long l (Shorter-wf.apply l)

  -- What holds of the insertion sort, and passes from two parts to their merge, holds of the sort.
  pub mergesort_induction {κ} :
      (P : List A → List A → Type κ)
      → ((l : List A) → P l (insert_all less [] l))
      → ((a b a' b' : List A) → P a a' → P b b' → P (a ++ b) (merge_halves less a' b'))
      → (l : List A) → P l (mergesort less l)
  mergesort_induction P short long l =
      induction Shorter-wf {C = λ l. P l (mergesort less l)} l λ l ih. elim (dec_lt (length l) 8) [
        | yes p ↦ rw (mergesort_short l p) (short l)
        | no p ↦
            let half = length l / 2 in
            rw (mergesort_long l p) (
              rw (take-append-drop half l) at (
                long (take half l) (drop half l) _ _ (ih _ (Shorter-take l p))
                  (ih _ (Shorter-drop l p))))
      ]

  insert_hold-perm : (h : A) (done : List A) → Permᴰ (insert_hold less h done) (h ∷ done)
  unfolding insert_hold
  insert_hold-perm h [] = Permᴰ.refl (h ∷ [])
  insert_hold-perm h (x ∷ done) = elim (Bool-cases (less x h)) [
    | inl t ↦ rw t (Permᴰ.refl (h ∷ x ∷ done))
    | inr t ↦ rw t (Permᴰ.trans (Permᴰ.cons refl (insert_hold-perm h done)) (Permᴰ.swap refl refl))
  ]

  insert_all-perm : (done left : List A) → Permᴰ (insert_all less done left) (left ++ done)
  unfolding insert_all
  insert_all-perm done [] = Permᴰ.reverse done
  insert_all-perm done (x ∷ left) =
      Permᴰ.trans (insert_all-perm (insert_hold less x done) left)
        (Permᴰ.trans (Permᴰ.append_left left (insert_hold-perm x done)) (Permᴰ.middle x left done))

  merge_halves-perm : (l r : List A) → Permᴰ (merge_halves less l r) (l ++ r)
  unfolding merge_halves
  merge_halves-perm [] r = Permᴰ.refl r
  merge_halves-perm (x ∷ l) [] = rw (append-nil l) (Permᴰ.refl (x ∷ l))
  merge_halves-perm (x ∷ l) (y ∷ r) = elim (Bool-cases (less x y)) [
    | inl t ↦ rw (t, merge_halves) (Permᴰ.cons refl (merge_halves-perm l (y ∷ r)))
    | inr t ↦
        rw (t, merge_halves)
          (Permᴰ.trans (Permᴰ.cons refl (merge_halves-perm (x ∷ l) r))
            (Permᴰ.symm (Permᴰ.middle y (x ∷ l) r)))
  ]

  pub mergesort-permutes : (l : List A) → Permᴰ (mergesort less l) l
  mergesort-permutes =
      mergesort_induction (λ l s. Permᴰ s l) (λ l. rw (append-nil l) at (insert_all-perm [] l))
        (λ a b a' b' p q.
          Permᴰ.trans (merge_halves-perm a' b')
            (Permᴰ.trans (Permᴰ.append_right b' p) (Permᴰ.append_left a q)))

  -- The sort loses no element and makes up none, whatever the test answers.
  pub mergesort-perm : (l : List A) → Perm (mergesort less l) l
  mergesort-perm l = ∣ mergesort-permutes l ∣₁
