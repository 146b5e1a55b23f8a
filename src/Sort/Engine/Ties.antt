-- ===== src/Sort/Engine/Ties.antt =====
-- What becomes of elements that tie: the sort turns their order round.
use mathlib.Core.List.{append-nil, append_assoc, reverse-append}
use dhcpd_pools.Base.{
  ◌∙◌, true, false, List, [], ◌∷◌, ◌++◌, ◌≡◌, refl, sym, ap, ap₂, inl, inr, Bool-cases, arith,
  reverse, reverse_aux, is_negative, is_positive, IsPreorder, Ordering,
}
use dhcpd_pools.Sort.Engine.{insert_hold, insert_all, merge_halves, mergesort}
use dhcpd_pools.Sort.Engine.Steps.{mergesort_induction}
use dhcpd_pools.Sort.Engine.Order.{
  All, ties, IsSorted, IsDescending, less, insert_hold-IsDescending, insert_all-IsSorted,
  merge_halves-IsSorted,
}

module _ {ℓ} {A : Type ℓ} (cmp : A → A → Ordering) (o : IsPreorder cmp) (t : A) where
  ties-append : (xs ys : List A) → ties cmp t (xs ++ ys) ≡ ties cmp t xs ++ ties cmp t ys
  unfolding ties
  ties-append [] ys = refl
  ties-append (x ∷ xs) ys = ground (arith, ties-append xs ys)

  ties-reverse_aux :
      (xs ys : List A)
      → ties cmp t (reverse_aux xs ys) ≡ reverse_aux (ties cmp t xs) (ties cmp t ys)
  unfolding ties
  ties-reverse_aux [] ys = refl
  ties-reverse_aux (x ∷ xs) ys = ties-reverse_aux xs (x ∷ ys) ∙ ground arith

  -- Past an element that is above `t` in a sorted list, nothing ties with it.
  ties-above :
      (x : A) (xs : List A)
      → is_negative (cmp t x) ≡ true
      → All (λ y. is_positive (cmp x y) ≡ false) xs
      → ties cmp t xs ≡ []
  unfolding ties
  ties-above x [] h all = refl
  ties-above x (y ∷ xs) h all =
      ground (arith, all.0, o.trans x y t all.0, o.flip y t, o.flip x t, ties-above x xs h all.1)

  ties-below :
      (x : A) (xs : List A)
      → is_negative (cmp x t) ≡ true
      → All (λ y. is_positive (cmp y x) ≡ false) xs
      → ties cmp t xs ≡ []
  unfolding ties
  ties-below x [] h all = refl
  ties-below x (y ∷ xs) h all =
      ground (arith, all.0, o.trans t y x, o.flip y t, o.flip x t, ties-below x xs h all.1)

  -- In the part that is done, read from its end, an element goes behind those that tie with it.
  insert_hold-ties :
      (h : A) (done : List A)
      → IsDescending cmp done
      → ties cmp t (insert_hold (less cmp) h done) ≡ ties cmp t done ++ ties cmp t (h ∷ [])
  unfolding insert_hold ties
  insert_hold-ties h [] d = refl
  insert_hold-ties h (x ∷ done) d = elim (Bool-cases (less cmp x h)) [
    | inl e ↦ rw e (
        ground (
          arith,
          o.flip x h,
          o.trans h t x,
          o.flip x t,
          o.flip h t,
          ties-below x done,
          d.0,
          o.trans h x t,
          append-nil (ties cmp t done),
        ))
    | inr e ↦ rw e (ground (arith, insert_hold-ties h done d.1))
  ]

  insert_all-ties :
      (done left : List A)
      → IsDescending cmp done
      → ties cmp t (insert_all (less cmp) done left) ≡ reverse (ties cmp t done ++ ties cmp t left)
  unfolding insert_all ties
  insert_all-ties done [] d =
      ties-reverse_aux done [] ∙ ap (λ xs. reverse xs) (sym (append-nil (ties cmp t done)))
  insert_all-ties done (x ∷ left) d =
      insert_all-ties (insert_hold (less cmp) x done) left (insert_hold-IsDescending cmp o x done d)
      ∙ ap (λ xs. reverse xs)
          (ap (λ xs. xs ++ ties cmp t left) (insert_hold-ties x done d)
            ∙ append_assoc (ties cmp t done) (ties cmp t (x ∷ [])) (ties cmp t left)
            ∙ ap (λ xs. ties cmp t done ++ xs) (sym (ties-append (x ∷ []) left)))

  merge_halves-ties :
      (l r : List A)
      → IsSorted cmp l
      → IsSorted cmp r
      → ties cmp t (merge_halves (less cmp) l r) ≡ ties cmp t r ++ ties cmp t l
  unfolding merge_halves ties
  merge_halves-ties [] r sl sr = sym (append-nil (ties cmp t r))
  merge_halves-ties (x ∷ l) [] sl sr = refl
  merge_halves-ties (x ∷ l) (y ∷ r) sl sr = elim (Bool-cases (less cmp x y)) [
    | inl e ↦
        rw (e, merge_halves)
          (ground (
            arith,
            merge_halves-ties l (y ∷ r) sl.1 sr,
            ties-above y r,
            sr.0,
            o.flip x t,
            o.flip y t,
            o.trans y t x,
            o.trans x t y,
            o.flip x y,
            append-nil (ties cmp t l),
          ))
    | inr e ↦ rw (e, merge_halves) (ground (arith, merge_halves-ties (x ∷ l) r sl sr.1))
  ]

  -- Elements that tie leave the sort in the opposite order: the sort is not stable.
  pub mergesort-ties : (l : List A) → ties cmp t (mergesort (less cmp) l) ≡ reverse (ties cmp t l)
  unfolding ties
  mergesort-ties l = got.1
    where
      got :
          IsSorted cmp (mergesort (less cmp) l)
          × (ties cmp t (mergesort (less cmp) l) ≡ reverse (ties cmp t l))
      got =
          mergesort_induction (less cmp)
            (λ xs s. IsSorted cmp s × (ties cmp t s ≡ reverse (ties cmp t xs)))
            (λ xs. (insert_all-IsSorted cmp o [] xs tt, insert_all-ties [] xs tt))
            (λ a b a' b' p q. (
              merge_halves-IsSorted cmp o a' b' p.0 q.0,
              merge_halves-ties a' b' p.0 q.0
                  ∙ ap₂ (λ (u v : List A). u ++ v) q.1 p.1
                  ∙ sym (reverse-append (ties cmp t a) (ties cmp t b))
                  ∙ ap (λ xs. reverse xs) (sym (ties-append a b)),
            ))
            l
