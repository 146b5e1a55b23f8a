-- ===== src/Sort/Engine/Order.antt =====
-- The order of the result, for a test that comes from a comparison which orders the elements.
use dhcpd_pools.Base.{
  Bool, true, false, List, [], ◌∷◌, ◌≡◌, inl, inr, Bool-cases, arith, reverse_aux, is_negative,
  is_positive, IsPreorder, Ordering,
}
use dhcpd_pools.Sort.Engine.{insert_hold, insert_all, merge_halves, mergesort}
use dhcpd_pools.Sort.Engine.Steps.{mergesort_induction}

abbrev pub All {ℓ κ} : {A : Type ℓ} → (A → Type κ) → List A → Type κ
All P [] = Unit
All P (x ∷ xs) = P x × All P xs

module _ {ℓ} {A : Type ℓ} (cmp : A → A → Ordering) where
  -- The elements that tie with `t`, in their order.
  unfoldable pub ties : A → List A → List A
  ties t [] = []
  ties t (x ∷ xs) =
      let rest = ties t xs in
      elim (cmp x t) [ Ordering.lt ↦ rest | Ordering.eq ↦ x ∷ rest | Ordering.gt ↦ rest ]

  -- No element comes before one that is less.
  abbrev pub IsSorted : List A → Type 0
  IsSorted [] = Unit {0}
  IsSorted (x ∷ xs) = All (λ y. is_positive (cmp x y) ≡ false) xs × IsSorted xs

  -- The same, from the end of the array.
  abbrev pub IsDescending : List A → Type 0
  IsDescending [] = Unit {0}
  IsDescending (x ∷ xs) = All (λ y. is_positive (cmp y x) ≡ false) xs × IsDescending xs

  abbrev pub less : A → A → Bool
  less x y = is_negative (cmp x y)

module _ {ℓ} {A : Type ℓ} (cmp : A → A → Ordering) (o : IsPreorder cmp) where
  le_of_not_lt : (x y : A) → is_negative (cmp x y) ≡ false → is_positive (cmp y x) ≡ false
  le_of_not_lt x y h = ground (arith, o.flip x y)

  le_of_lt : (x y : A) → is_negative (cmp x y) ≡ true → is_positive (cmp x y) ≡ false
  le_of_lt x y h = ground arith

  All-le :
      (a b : A) (l : List A)
      → is_positive (cmp a b) ≡ false
      → All (λ y. is_positive (cmp b y) ≡ false) l
      → All (λ y. is_positive (cmp a y) ≡ false) l
  All-le a b [] h all = tt
  All-le a b (y ∷ l) h all = (o.trans a b y h all.0, All-le a b l h all.1)

  All-ge :
      (a b : A) (l : List A)
      → is_positive (cmp b a) ≡ false
      → All (λ y. is_positive (cmp y b) ≡ false) l
      → All (λ y. is_positive (cmp y a) ≡ false) l
  All-ge a b [] h all = tt
  All-ge a b (y ∷ l) h all = (o.trans y b a all.0 h, All-ge a b l h all.1)

  All-insert_hold :
      (P : A → Type 0) (h : A) (done : List A)
      → P h
      → All P done
      → All P (insert_hold (less cmp) h done)
  unfolding insert_hold
  All-insert_hold P h [] p all = (p, tt)
  All-insert_hold P h (x ∷ done) p all = elim (Bool-cases (less cmp x h)) [
    | inl t ↦ rw t (p, all)
    | inr t ↦ rw t (all.0, All-insert_hold P h done p all.1)
  ]

  pub insert_hold-IsDescending :
      (h : A) (done : List A)
      → IsDescending cmp done
      → IsDescending cmp (insert_hold (less cmp) h done)
  unfolding insert_hold
  insert_hold-IsDescending h [] d = (tt, tt)
  insert_hold-IsDescending h (x ∷ done) d = elim (Bool-cases (less cmp x h)) [
    | inl t ↦ let le = le_of_lt x h t in rw t ((le, All-ge h x done le d.0), d)
    | inr t ↦ rw t (
      All-insert_hold (λ y. is_positive (cmp y x) ≡ false) h done (le_of_not_lt x h t) d.0,
      insert_hold-IsDescending h done d.1,
    )
  ]

  -- Everything of `xs` is at most everything of `ys`.
  abbrev Cross : (xs ys : List A) → Type 0
  Cross xs ys = All (λ x. All (λ y. is_positive (cmp x y) ≡ false) ys) xs

  Cross-nil : (xs : List A) → Cross xs []
  Cross-nil [] = tt
  Cross-nil (x ∷ xs) = (tt, Cross-nil xs)

  Cross-cons :
      (xs : List A) (x : A) (ys : List A)
      → All (λ y. is_positive (cmp y x) ≡ false) xs
      → Cross xs ys
      → Cross xs (x ∷ ys)
  Cross-cons [] x ys all c = tt
  Cross-cons (y ∷ xs) x ys all c = ((all.0, c.0), Cross-cons xs x ys all.1 c.1)

  reverse_aux-IsSorted :
      (xs ys : List A)
      → IsDescending cmp xs
      → IsSorted cmp ys
      → Cross xs ys
      → IsSorted cmp (reverse_aux xs ys)
  reverse_aux-IsSorted [] ys d s c = s
  reverse_aux-IsSorted (x ∷ xs) ys d s c =
      reverse_aux-IsSorted xs (x ∷ ys) d.1 (c.0, s) (Cross-cons xs x ys d.0 c.1)

  pub insert_all-IsSorted :
      (done left : List A) → IsDescending cmp done → IsSorted cmp (insert_all (less cmp) done left)
  unfolding insert_all
  insert_all-IsSorted done [] d = reverse_aux-IsSorted done [] d tt (Cross-nil done)
  insert_all-IsSorted done (x ∷ left) d =
      insert_all-IsSorted (insert_hold (less cmp) x done) left (insert_hold-IsDescending x done d)

  All-merge_halves :
      (P : A → Type 0) (l r : List A) → All P l → All P r → All P (merge_halves (less cmp) l r)
  unfolding merge_halves
  All-merge_halves P [] r a b = b
  All-merge_halves P (x ∷ l) [] a b = a
  All-merge_halves P (x ∷ l) (y ∷ r) a b = elim (Bool-cases (less cmp x y)) [
    | inl t ↦ rw (t, merge_halves) (a.0, All-merge_halves P l (y ∷ r) a.1 b)
    | inr t ↦ rw (t, merge_halves) (b.0, All-merge_halves P (x ∷ l) r a b.1)
  ]

  pub merge_halves-IsSorted :
      (l r : List A) → IsSorted cmp l → IsSorted cmp r → IsSorted cmp (merge_halves (less cmp) l r)
  unfolding merge_halves
  merge_halves-IsSorted [] r sl sr = sr
  merge_halves-IsSorted (x ∷ l) [] sl sr = sl
  merge_halves-IsSorted (x ∷ l) (y ∷ r) sl sr = elim (Bool-cases (less cmp x y)) [
    | inl t ↦
        let le = le_of_lt x y t in
        rw (t, merge_halves)
          (
            All-merge_halves (λ z. is_positive (cmp x z) ≡ false) l (y ∷ r) sl.0
                (le, All-le x y r le sr.0),
            merge_halves-IsSorted l (y ∷ r) sl.1 sr,
          )
    | inr t ↦
        let le = le_of_not_lt x y t in
        rw (t, merge_halves)
          (
            All-merge_halves (λ z. is_positive (cmp y z) ≡ false) (x ∷ l) r
                (le, All-le y x l le sl.0) sr.0,
            merge_halves-IsSorted (x ∷ l) r sl sr.1,
          )
  ]

  -- The sort puts no element before one that is less.
  pub mergesort-IsSorted : (l : List A) → IsSorted cmp (mergesort (less cmp) l)
  mergesort-IsSorted =
      mergesort_induction (less cmp) (λ l s. IsSorted cmp s) (λ l. insert_all-IsSorted [] l tt)
        λ a b a' b' p q. merge_halves-IsSorted a' b' p q
