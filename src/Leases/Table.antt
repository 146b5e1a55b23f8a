-- ===== src/Leases/Table.antt =====
-- The table of leases: what uthash promises, and what the program makes of it.
use dhcpd_pools.Base.{
  ◌∙◌, ◌≡◌, ◌≢◌, refl, sym, ap, ℕ, zero, suc, Bool, true, false, List, [], ◌∷◌, ◌++◌, Option, none,
  some, Ordering, if◌then◌else◌, arith, inl, inr, Bool-cases, Option-cases,
}
use dhcpd_pools.Data.{DhcpVersion, ipv_unknown, ipv4, ipv6, IpAddr, as_v4, as_v6, LeaseType, Lease}
use dhcpd_pools.Address.{ipcomp, copy_ipaddr}
use dhcpd_pools.Address.Order.{ipcomp-IsPreorder}
use dhcpd_pools.Leases.{
  delete_all_leases, Uthash, find_lease, add_lease, delete_lease, replace_lease,
}

-- The bytes of the key are the same.
unfoldable pub same_key : DhcpVersion → IpAddr → IpAddr → Bool
same_key v a b = elim (ipcomp v a b) [
  | Ordering.lt ↦ false
  | Ordering.eq ↦ true
  | Ordering.gt ↦ false
]

-- The position of the first lease with a key.
unfoldable pub position : DhcpVersion → IpAddr → List Lease → Option ℕ
position v a [] = none
position v a (l ∷ ls) =
    let rest = position v a ls in
    if same_key v l.ip a then some 0 else elim rest [ none ↦ none | some i ↦ some (suc i) ]

unfoldable pub remove_at : List Lease → ℕ → List Lease
remove_at [] i = []
remove_at (l ∷ ls) zero = ls
remove_at (l ∷ ls) (suc i) = l ∷ remove_at ls i

-- The state that the table holds for an address.
unfoldable pub state_of : DhcpVersion → IpAddr → List Lease → Option LeaseType
state_of v a [] = none
state_of v a (l ∷ ls) = if same_key v l.ip a then some l.type else state_of v a ls

-- No lease of the list has the key.
abbrev pub Absent : DhcpVersion → IpAddr → List Lease → Type 0
Absent v a [] = Unit {0}
Absent v a (l ∷ ls) = (same_key v l.ip a ≡ false) × Absent v a ls

-- No key occurs twice.
abbrev pub IsDistinct : DhcpVersion → List Lease → Type 0
IsDistinct v [] = Unit {0}
IsDistinct v (l ∷ ls) = Absent v l.ip ls × IsDistinct v ls

-- The documented behaviour of uthash: in a table in which no key occurs twice, a search finds the
-- element with the key if there is one; an addition puts the element last, a deletion takes out that one element.
pub record IsUthash (u : Uthash) : Type 0 where
  pub find :
      (v : DhcpVersion) (ls : List Lease) (a : IpAddr)
      → IsDistinct v ls
      → u.hash_find v ls a ≡ position v a ls
  pub add : (v : DhcpVersion) (ls : List Lease) (l : Lease) → u.hash_add v ls l ≡ ls ++ l ∷ []
  pub del : (ls : List Lease) (i : ℕ) → u.hash_del ls i ≡ remove_at ls i

pub same_key_comm : (v : DhcpVersion) (a b : IpAddr) → same_key v a b ≡ same_key v b a
unfolding same_key
same_key_comm v a b = ground (arith, (ipcomp-IsPreorder v).flip a b)

same_key_trans :
    (v : DhcpVersion) (a b c : IpAddr) → same_key v a b ≡ true → same_key v a c ≡ same_key v b c
unfolding same_key
same_key_trans v a b c h = ground (
  arith,
  (ipcomp-IsPreorder v).flip a b,
  (ipcomp-IsPreorder v).flip a c,
  (ipcomp-IsPreorder v).flip b c,
  (ipcomp-IsPreorder v).trans a b c,
  (ipcomp-IsPreorder v).trans c b a,
  (ipcomp-IsPreorder v).trans b a c,
  (ipcomp-IsPreorder v).trans c a b,
)

copy_ipaddr-same_key :
    (v : DhcpVersion) (dst a b : IpAddr)
    → v ≢ ipv_unknown
    → same_key v (copy_ipaddr v dst a) b ≡ same_key v a b
unfolding same_key copy_ipaddr ipcomp as_v4 as_v6
copy_ipaddr-same_key ipv_unknown dst a b h = absurd (h refl)
copy_ipaddr-same_key ipv4 dst a b h = refl
copy_ipaddr-same_key ipv6 dst a b h = refl

Absent-same :
    (v : DhcpVersion) (a b : IpAddr) (ls : List Lease)
    → same_key v a b ≡ true
    → Absent v a ls
    → Absent v b ls
Absent-same v a b [] h all = tt
Absent-same v a b (l ∷ ls) h all = (
  same_key_comm v l.ip b ∙ sym (same_key_trans v a b l.ip h) ∙ same_key_comm v a l.ip ∙ all.0,
  Absent-same v a b ls h all.1,
)

Absent-remove_at :
    (v : DhcpVersion) (a : IpAddr) (ls : List Lease) (i : ℕ)
    → Absent v a ls
    → Absent v a (remove_at ls i)
unfolding remove_at
Absent-remove_at v a [] i h = tt
Absent-remove_at v a (l ∷ ls) zero h = h.1
Absent-remove_at v a (l ∷ ls) (suc i) h = (h.0, Absent-remove_at v a ls i h.1)

Absent-state_of :
    (v : DhcpVersion) (a : IpAddr) (ls : List Lease) → Absent v a ls → state_of v a ls ≡ none
unfolding state_of
Absent-state_of v a [] h = refl
Absent-state_of v a (l ∷ ls) h = rw h.0 (Absent-state_of v a ls h.1)

Absent-position :
    (v : DhcpVersion) (a : IpAddr) (ls : List Lease) → position v a ls ≡ none → Absent v a ls
unfolding position
Absent-position v a [] h = tt
Absent-position v a (l ∷ ls) h = elim (Bool-cases (same_key v l.ip a)) [
  | inl e ↦ absurd (some_not_none (rw e at h))
  | inr e ↦ (e, Absent-position v a ls (rest (rw e at h)))
]
  where
    some_not_none : ◌≡◌ {A = Option ℕ} (some 0) none → ⊥
    some_not_none q = cc

    rest :
        (let o : Option ℕ = elim (position v a ls) [ none ↦ none | some i ↦ some (suc i) ] in o)
          ≡ none
        → position v a ls ≡ none
    rest q = ground arith

-- What is left when the lease with a key is taken out.
record Removed (v : DhcpVersion) (a : IpAddr) (ls left : List Lease) : Type 0 where
  absent : Absent v a left
  distinct : IsDistinct v left
  others : (b : IpAddr) → same_key v a b ≡ false → state_of v b left ≡ state_of v b ls

remove_at-Removed :
    (v : DhcpVersion) (a : IpAddr) (ls : List Lease) (i : ℕ)
    → IsDistinct v ls
    → position v a ls ≡ some i
    → Removed v a ls (remove_at ls i)
unfolding position remove_at state_of
remove_at-Removed v a [] i d h = cc
remove_at-Removed v a (l ∷ ls) zero d h = elim (Bool-cases (same_key v l.ip a)) [
  | inl e ↦ record {
    absent = Absent-same v l.ip a ls e d.0;
    distinct = d.1;
    others = λ b ne. rw (same_key_trans v l.ip a b e, ne) refl;
  }
  | inr e ↦ absurd (ground (arith, e, h))
]
remove_at-Removed v a (l ∷ ls) (suc i) d h = elim (Bool-cases (same_key v l.ip a)) [
  | inl e ↦ absurd (ground (arith, e, h))
  | inr e ↦
      let r = remove_at-Removed v a ls i d.1 (ground (arith, e, h)) in
      record {
        absent = (e, r.absent);
        distinct = (Absent-remove_at v l.ip ls i d.0, r.distinct);
        others = λ b ne. rw (r.others b ne) refl;
      }
]

-- Adding a lease at the end, for a key that is absent.
Absent-append :
    (v : DhcpVersion) (a : IpAddr) (ls : List Lease) (l : Lease)
    → Absent v a ls
    → same_key v l.ip a ≡ false
    → Absent v a (ls ++ l ∷ [])
Absent-append v a [] l h e = (e, tt)
Absent-append v a (x ∷ ls) l h e = (h.0, Absent-append v a ls l h.1 e)

IsDistinct-append :
    (v : DhcpVersion) (ls : List Lease) (l : Lease)
    → IsDistinct v ls
    → Absent v l.ip ls
    → IsDistinct v (ls ++ l ∷ [])
IsDistinct-append v [] l d h = (tt, tt)
IsDistinct-append v (x ∷ ls) l d h = (
  Absent-append v x.ip ls l d.0 (same_key_comm v l.ip x.ip ∙ h.0),
  IsDistinct-append v ls l d.1 h.1,
)

state_of-append :
    (v : DhcpVersion) (b : IpAddr) (ls : List Lease) (l : Lease)
    → Absent v l.ip ls
    → state_of v b (ls ++ l ∷ []) ≡ (if same_key v l.ip b then some l.type else state_of v b ls)
unfolding state_of
state_of-append v b [] l h = refl
state_of-append v b (x ∷ ls) l h = ground (
  arith,
  state_of-append v b ls l h.1,
  h.0,
  same_key_trans v l.ip b x.ip,
  same_key_comm v x.ip b,
  same_key_comm v x.ip l.ip,
)

same_key_refl : (v : DhcpVersion) (a : IpAddr) → same_key v a a ≡ true
unfolding same_key
same_key_refl v a = ground (arith, (ipcomp-IsPreorder v).flip a a)

-- The table without the lease of an address.
unfoldable pub without : DhcpVersion → IpAddr → List Lease → List Lease
without v a ls = elim (position v a ls) [ none ↦ ls | some i ↦ remove_at ls i ]

without-Removed :
    (v : DhcpVersion) (a : IpAddr) (ls : List Lease)
    → IsDistinct v ls
    → Removed v a ls (without v a ls)
unfolding without
without-Removed v a ls d = elim (Option-cases (position v a ls)) [
  | inl e ↦
      rw (e, without)
        (record { absent = Absent-position v a ls e; distinct = d; others = λ b ne. refl })
  | inr (i, e) ↦ rw (e, without) (remove_at-Removed v a ls i d e)
]

abbrev new_lease : DhcpVersion → IpAddr → LeaseType → Lease
new_lease v a type = record { ip = copy_ipaddr v a a; type = type; ethernet = none }

module _ {u : Uthash} (laws : IsUthash u) where
  delete-without :
      (v : DhcpVersion) (ls : List Lease) (a : IpAddr)
      → (let left : List Lease = elim (position v a ls) [ none ↦ ls | some i ↦ u.hash_del ls i ] in
          left)
        ≡ without v a ls
  unfolding without
  delete-without v ls a = elim (Option-cases (position v a ls)) [
    | inl e ↦ rw (e, without) refl
    | inr (i, e) ↦ rw (e, without) (laws.del ls i)
  ]

  replace_lease-without :
      (v : DhcpVersion) (ls : List Lease) (a : IpAddr) (type : LeaseType)
      → v ≢ ipv_unknown
      → IsDistinct v ls
      → replace_lease u v ls a type ≡ without v a ls ++ new_lease v a type ∷ []
  unfolding replace_lease find_lease add_lease delete_lease
  replace_lease-without ipv_unknown ls a type known d = absurd (known refl)
  replace_lease-without ipv4 ls a type known d = rw (laws.find ipv4 ls a d) (
      laws.add ipv4 _ (new_lease ipv4 a type)
      ∙ ap (λ xs. xs ++ new_lease ipv4 a type ∷ []) (delete-without ipv4 ls a))
  replace_lease-without ipv6 ls a type known d = rw (laws.find ipv6 ls a d) (
      laws.add ipv6 _ (new_lease ipv6 a type)
      ∙ ap (λ xs. xs ++ new_lease ipv6 a type ∷ []) (delete-without ipv6 ls a))

  -- The keys stay distinct, and the table holds the new state.
  pub replace_lease-Effect :
      (v : DhcpVersion) (ls : List Lease) (a : IpAddr) (type : LeaseType)
      → v ≢ ipv_unknown
      → IsDistinct v ls
      → IsDistinct v (replace_lease u v ls a type)
        × ((b : IpAddr)
            → state_of v b (replace_lease u v ls a type)
              ≡ (if same_key v a b then some type else state_of v b ls))
  replace_lease-Effect v ls a type known d =
      let left = without v a ls in
      let l = new_lease v a type in
      let removed = without-Removed v a ls d in
      let key = copy_ipaddr-same_key v a a in
      let absent : Absent v l.ip left =
        Absent-same v a l.ip left (same_key_comm v a l.ip ∙ key a known ∙ same_key_refl v a)
          removed.absent in
      let e = replace_lease-without v ls a type known d in
      (
        rw e (IsDistinct-append v left l removed.distinct absent),
        λ b.
            rw (e, state_of-append v b left l absent, key b known)
              (ground (arith, removed.others b)),
      )

  -- Replacing the lease of an address keeps the keys distinct; the table then holds the new state
  -- for that address, and for every other address what it held before. It is for a known version
  -- and a table in which no key occurs twice.
  pub replace_lease-state_of :
      (v : DhcpVersion) (ls : List Lease) (a : IpAddr) (type : LeaseType) (b : IpAddr)
      → v ≢ ipv_unknown
      → IsDistinct v ls
      → IsDistinct v (replace_lease u v ls a type)
        × (state_of v b (replace_lease u v ls a type)
            ≡ (if same_key v a b then some type else state_of v b ls))
  replace_lease-state_of v ls a type b known d =
      let put = replace_lease-Effect v ls a type known d in (put.0, put.1 b)

  -- After the loop over all leases the table is empty.
  pub delete_all_leases-empty : (table : List Lease) → delete_all_leases u table table ≡ []
  unfolding delete_all_leases remove_at
  delete_all_leases-empty [] = refl
  delete_all_leases-empty (l ∷ table) =
      ap (delete_all_leases u table) (laws.del (l ∷ table) 0) ∙ delete_all_leases-empty table
