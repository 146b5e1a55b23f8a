-- ===== src/Run/Analysis.antt =====
-- What the passes of `main` do together, for sorts that sort.
use mathlib.Core.List.{Perm, Permᴰ}
use mathlib.Core.List.Permᴰ
use mathlib.Core.Path.{subst}
use dhcpd_pools.Base.{
  ◌∙◌, ◌≡◌, refl, sym, ap, ap₂, ◌<◌, ◌^◌, Bool, true, false, List, [], ◌∷◌, Option, none, some,
  Ordering, arith, map, length, reverse, inl, inr, Bool-cases, is_positive, IsPreorder,
  if◌then◌else◌,
}
use dhcpd_pools.Double.{Doubles}
use dhcpd_pools.Data.{DhcpVersion, Range, Lease, LeaseType, active, free, backup, IpAddr}
use dhcpd_pools.Address.{leasecomp, rangecomp}
use dhcpd_pools.Address.Order.{ipcomp-IsPreorder, leasecomp-ipcomp}
use dhcpd_pools.Counting.{Networks, do_counting}
use dhcpd_pools.Counting.Matching.{in_range, matching}
use dhcpd_pools.Counting.Rewind.{AllAfter, IsAscending}
use dhcpd_pools.Counting.Totals.{tally, counted, range_plus}
use dhcpd_pools.Counting.Totals.Result.{do_counting-counted}
use dhcpd_pools.Sort.{Comparer, mergesort_ranges, flip_ranges}
use dhcpd_pools.Sort.Engine.Order.{All, IsSorted}
use dhcpd_pools.Sort.Engine.Steps.{mergesort-permutes}
use dhcpd_pools.Sort.Flip.{flip_ranges-reverse}
use dhcpd_pools.Leases.{Uthash}
use dhcpd_pools.Leases.Table.{same_key, same_key_comm, Absent, IsDistinct}
use dhcpd_pools.Run.{Qsort, prepare_data, analyse}

-- The documented behaviour of a sort: it rearranges, and orders by a comparison that orders.
pub record IsSort {A : Type 0} (sort : (A → A → Ordering) → List A → List A) : Type 0 where
  pub permutes : (cmp : A → A → Ordering) (l : List A) → Permᴰ (sort cmp l) l
  pub sorts : (cmp : A → A → Ordering) → IsPreorder cmp → (l : List A) → IsSorted cmp (sort cmp l)

leasecomp-IsPreorder : (v : DhcpVersion) → IsPreorder (leasecomp v)
leasecomp-IsPreorder v = record {
  flip = λ a b.
      rw (leasecomp-ipcomp v a b, leasecomp-ipcomp v b a) ((ipcomp-IsPreorder v).flip a.ip b.ip);
  trans = λ a b c h k. rw (leasecomp-ipcomp v a c) (
      (ipcomp-IsPreorder v).trans a.ip b.ip c.ip (rw (leasecomp-ipcomp v a b) at h)
        (rw (leasecomp-ipcomp v b c) at k));
}

module _ (v : DhcpVersion) where
  Absent-perm : (a : IpAddr) {l m : List Lease} → Permᴰ l m → Absent v a l → Absent v a m
  Absent-perm a Permᴰ.nil h = h
  Absent-perm a (Permᴰ.cons e p) h =
      (rw (ap (λ (x : Lease). same_key v x.ip a) e) at h.0, Absent-perm a p h.1)
  Absent-perm a (Permᴰ.swap e f) h = (
    rw (ap (λ (x : Lease). same_key v x.ip a) f) at h.1.0,
    (rw (ap (λ (x : Lease). same_key v x.ip a) e) at h.0, h.1.1),
  )
  Absent-perm a (Permᴰ.trans p q) h = Absent-perm a q (Absent-perm a p h)

  Absent-at : {x y : Lease} (l : List Lease) → x ≡ y → Absent v x.ip l → Absent v y.ip l
  Absent-at l e h = subst (λ (x : Lease). Absent v x.ip l) e h

  IsDistinct-perm : {l m : List Lease} → Permᴰ l m → IsDistinct v l → IsDistinct v m
  IsDistinct-perm Permᴰ.nil h = h
  IsDistinct-perm (Permᴰ.cons {l₂ = l₂} e p) h =
      (Absent-at l₂ e (Absent-perm _ p h.0), IsDistinct-perm p h.1)
  IsDistinct-perm (Permᴰ.swap {a = a} {b = b} {a' = a'} {b' = b'} {l = l} e f) h = (
    (
      ap₂ (λ (x y : Lease). same_key v x.ip y.ip) (sym e) (sym f)
          ∙ same_key_comm v a.ip b.ip
          ∙ h.0.0,
      Absent-at l f h.1.0,
    ),
    (Absent-at l e h.0.1, h.1.1),
  )
  IsDistinct-perm (Permᴰ.trans p q) h = IsDistinct-perm q (IsDistinct-perm p h)

  AllAfter-sorted :
      (l : Lease) (ls : List Lease)
      → All (λ y. is_positive (leasecomp v l y) ≡ false) ls
      → Absent v l.ip ls
      → AllAfter v l.ip ls
  unfolding same_key
  AllAfter-sorted l [] h d = tt
  AllAfter-sorted l (x ∷ ls) h d = (
    ground (
      arith,
      h.0,
      d.0,
      leasecomp-ipcomp v l x,
      (ipcomp-IsPreorder v).flip l.ip x.ip,
      (ipcomp-IsPreorder v).flip x.ip l.ip,
    ),
    AllAfter-sorted l ls h.1 d.1,
  )

  IsAscending-sorted :
      (ls : List Lease) → IsSorted (leasecomp v) ls → IsDistinct v ls → IsAscending v ls
  IsAscending-sorted [] h d = tt
  IsAscending-sorted (l ∷ ls) h d = (AllAfter-sorted l ls h.0 d.0, IsAscending-sorted ls h.1 d.1)

  tally-perm :
      (t : LeaseType) (r : Range) {l m : List Lease}
      → Permᴰ l m
      → tally t (matching v r l) ≡ tally t (matching v r m)
  unfolding tally matching
  tally-perm t r Permᴰ.nil = refl
  tally-perm t r (Permᴰ.cons {a = a} {b = b} {l₁ = l₁} {l₂ = l₂} e p) =
      ap (λ (x : Lease). tally t (matching v r (x ∷ l₁))) e
      ∙ elim (Bool-cases (in_range v r b.ip)) [
        | inl i ↦ rw (matching, i) (omega (arith, tally-perm t r p))
        | inr i ↦ rw (matching, i) (tally-perm t r p)
      ]
  tally-perm t r (Permᴰ.swap {a = a} {b = b} {a' = a'} {b' = b'} {l = l} e f) =
      ap₂ (λ (x y : Lease). tally t (matching v r (x ∷ y ∷ l))) e f
      ∙ elim (Bool-cases (in_range v r b'.ip)) [
        | inl i ↦ elim (Bool-cases (in_range v r a'.ip)) [
          | inl j ↦ rw (matching, i, j) (omega arith)
          | inr j ↦ rw (matching, i, j) refl
        ]
        | inr i ↦ elim (Bool-cases (in_range v r a'.ip)) [
          | inl j ↦ rw (matching, i, j) refl
          | inr j ↦ rw (matching, i, j) refl
        ]
      ]
  tally-perm t r (Permᴰ.trans p q) = tally-perm t r p ∙ tally-perm t r q

  counted-perm : {l m : List Lease} → Permᴰ l m → (r : Range) → counted v l r ≡ counted v m r
  counted-perm p r =
      λ i. range_plus r (tally-perm active r p i) (tally-perm free r p i) (tally-perm backup r p i)

  map-counted :
      {l m : List Lease}
      → Permᴰ l m
      → (ranges : List Range) → map (counted v l) ranges ≡ map (counted v m) ranges
  map-counted p [] = refl
  map-counted p (r ∷ ranges) =
      ap₂ (λ (x : Range) xs. x ∷ xs) (counted-perm p r) (map-counted p ranges)

length-perm : {l m : List Range} → Permᴰ l m → length l ≡ length m
length-perm Permᴰ.nil = refl
length-perm (Permᴰ.cons e p) = omega (arith, length-perm p)
length-perm (Permᴰ.swap e f) = refl
length-perm (Permᴰ.trans p q) = length-perm p ∙ length-perm q

length-map : (f : Range → Range) (l : List Range) → length (map f l) ≡ length l
length-map f [] = refl
length-map f (r ∷ l) = omega (arith, length-map f l)

module _ (u : Uthash) (hash_sorts : IsSort u.hash_sort) (qsort : Qsort)
    (sorts_ranges : IsSort qsort) (v : DhcpVersion) (table : List Lease) (ranges : List Range)
    (nets : Networks) (d : Doubles) where
  -- What do_counting is given, and what it leaves in the table of ranges.
  abbrev joined : List Range × Networks
  joined =
      do_counting d.overflow v (u.hash_sort (leasecomp v) table) (qsort (rangecomp v) ranges) nets

  joined-perm : IsDistinct v table → Permᴰ joined.0 (map (counted v table) ranges)
  joined-perm distinct =
      let sorted = u.hash_sort (leasecomp v) table in
      let permuted = hash_sorts.permutes (leasecomp v) table in
      let ascending =
        IsAscending-sorted v sorted (hash_sorts.sorts (leasecomp v) (leasecomp-IsPreorder v) table)
          (IsDistinct-perm v (Permᴰ.symm permuted) distinct) in
      let counts =
        do_counting-counted d.overflow v sorted (qsort (rangecomp v) ranges) nets ascending
        ∙ map-counted v permuted (qsort (rangecomp v) ranges) in
      rw counts (Permᴰ.map (counted v table) (sorts_ranges.permutes (rangecomp v) ranges))

  -- The table of ranges before it may be reversed.
  abbrev arranged : List (Option Comparer) → List Range
  arranged [] = joined.0
  arranged (p ∷ rest) = mergesort_ranges d v joined.1 (p ∷ rest) joined.0

  arranged-perm :
      (sorts : List (Option Comparer))
      → IsDistinct v table
      → Permᴰ (arranged sorts) (map (counted v table) ranges)
  unfolding mergesort_ranges
  arranged-perm [] distinct = joined-perm distinct
  arranged-perm (p ∷ rest) distinct =
      Permᴰ.trans (mergesort-permutes _ joined.0) (joined-perm distinct)

  analyse-arranged :
      (sorts : List (Option Comparer)) (reverse_order : Bool)
      → analyse u qsort v d sorts reverse_order table ranges nets ≡ (
          if reverse_order
          then (let o : Option (List Range × Networks) = elim (flip_ranges (arranged sorts)) [
            | none ↦ none
            | some flipped ↦ some (flipped, joined.1)
          ] in
              o)
          else some (arranged sorts, joined.1))
  unfolding analyse prepare_data
  analyse-arranged [] reverse_order = refl
  analyse-arranged (p ∷ rest) reverse_order = refl

  -- From the tables that the parsers leave to the table that is printed: for an uthash and a C
  -- library whose sorts sort, and a table of leases in which no address occurs twice, the passes
  -- of `main` return. Whatever the sort keys, the order of the lease file and that of the
  -- ranges, what is printed is a rearrangement of the ranges, each raised by the leases in it.
  pub analyse-counted :
      (sorts : List (Option Comparer)) (reverse_order : Bool)
      → IsDistinct v table
      → length ranges < 2 ^ 32
      → (out : List Range) × (final : Networks) × (analyse u qsort v d sorts reverse_order table
            ranges nets
          ≡ some (out, final))
        × Perm out (map (counted v table) ranges)
  analyse-counted sorts false distinct short =
      (arranged sorts, joined.1, analyse-arranged sorts false, ∣ arranged-perm sorts distinct ∣₁)
  analyse-counted sorts true distinct short =
      let p = arranged-perm sorts distinct in
      let e =
        flip_ranges-reverse (arranged sorts)
          (omega (arith, length-perm p, length-map (counted v table) ranges)) in
      (
        reverse (arranged sorts),
        joined.1,
        analyse-arranged sorts true ∙ rw e refl,
        ∣ Permᴰ.trans (Permᴰ.reverse (arranged sorts)) p ∣₁,
      )
