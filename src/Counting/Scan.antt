-- ===== src/Counting/Scan.antt =====
-- One round of the first loop of `do_counting` counts the leases that lie in its range.
use dhcpd_pools.Base.{
  ℕ, ◌∙◌, true, false, List, [], ◌∷◌, ◌≡◌, refl, sym, ap, inl, inr, is_negative, is_positive, arith,
  Bool-cases, if◌then◌else◌,
}
use dhcpd_pools.Base.Comparing.{lt_of_lt_le}
use dhcpd_pools.Base.Int.{ℤ}
use dhcpd_pools.Data.{DhcpVersion, IpAddr, Range, Lease}
use dhcpd_pools.Address.{ipcomp, get_range_size}
use dhcpd_pools.Address.Order.{ipcomp-IsPreorder}
use dhcpd_pools.Counting.{
  Networks, Place, restart, rewind, head_of, do_range, null, at, count_lease, scan_from, scan,
  on_network, add_available, to_ulong,
}
use dhcpd_pools.Counting.Matching.{
  in_range, matching, count_leases, SameRange, count_lease-SameRange, matching-SameRange,
}
use dhcpd_pools.Counting.Rewind.{
  restart-rewind, Precedes, AllAfter, IsAscending, unwind, IsStart, BelongsTo, IsAscending-rest,
  matching_before,
}

AllAfter-lt :
    (v : DhcpVersion) (a b : IpAddr) (ls : List Lease)
    → Precedes v a b
    → AllAfter v b ls
    → AllAfter v a ls
AllAfter-lt v a b [] h all = tt
AllAfter-lt v a b (l ∷ ls) h all = (
  lt_of_lt_le (ipcomp-IsPreorder v) a b l.ip h (ground (arith, all.0)),
  AllAfter-lt v a b ls h all.1,
)

matching_after :
    (v : DhcpVersion) (r : Range) (ls : List Lease) → AllAfter v r.last_ip ls → matching v r ls ≡ []
unfolding matching in_range
matching_after v r [] h = refl
matching_after v r (l ∷ ls) h =
    ground (arith, h.0, (ipcomp-IsPreorder v).flip r.last_ip l.ip, matching_after v r ls h.1)

-- The state after a lease that is not beyond the range.
abbrev after_lease : DhcpVersion → Lease → Range × Networks → Range × Networks
after_lease v l s = if is_negative (ipcomp v l.ip s.0.first_ip) then s else count_lease l s

after_lease-SameRange :
    (v : DhcpVersion) (l : Lease) (s : Range × Networks) → SameRange s.0 (after_lease v l s).0
after_lease-SameRange v l s = elim (Bool-cases (is_negative (ipcomp v l.ip s.0.first_ip))) [
  | inl t ↦ rw t (record { first_ip = refl; last_ip = refl; shared_net = refl })
  | inr t ↦ rw t (count_lease-SameRange l s)
]

after_lease-count :
    (v : DhcpVersion) (l : Lease) (after : List Lease) (s : Range × Networks)
    → is_positive (ipcomp v l.ip s.0.last_ip) ≡ false
    → count_leases (matching v s.0 after) (after_lease v l s)
      ≡ count_leases (matching v s.0 (l ∷ after)) s
unfolding matching in_range count_leases
after_lease-count v l after s h = elim (Bool-cases (is_negative (ipcomp v l.ip s.0.first_ip))) [
  | inl t ↦ rw t refl
  | inr t ↦ rw (t, h) refl
]

-- Nothing is counted where nothing matches.
count_leases_none : (ls : List Lease) (s : Range × Networks) → ls ≡ [] → count_leases ls s ≡ s
unfolding count_leases
count_leases_none ls s e = rw e refl

matching_nil : (v : DhcpVersion) (r : Range) → matching v r [] ≡ []
unfolding matching
matching_nil v r = refl

scan_from-count :
    (v : DhcpVersion) (before rest : List Lease) (s : Range × Networks)
    → IsAscending v rest
    → ((scan_from v s before rest).0 ≡ count_leases (matching v s.0 rest) s)
      × BelongsTo (unwind before rest) (scan_from v s before rest).1
unfolding scan_from
scan_from-count v before [] s asc =
    (sym (count_leases_none (matching v s.0 []) s (matching_nil v s.0)), tt)
scan_from-count v before (l ∷ after) s asc =
    elim (Bool-cases (is_positive (ipcomp v l.ip s.0.last_ip))) [
      | inl t ↦
          let none_left =
            matching_after v s.0 (l ∷ after)
              (beyond t, AllAfter-lt v s.0.last_ip l.ip after (beyond t) asc.0) in
          rw t (sym (count_leases_none (matching v s.0 (l ∷ after)) s none_left), refl)
      | inr t ↦
          let ih = scan_from-count v (l ∷ before) after (after_lease v l s) asc.1 in
          rw t (
            ih.0
                ∙ ap (λ ls. count_leases ls (after_lease v l s))
                    (matching-SameRange v after (after_lease-SameRange v l s))
                ∙ after_lease-count v l after s t,
            ih.1,
          )
    ]
  where
    beyond : is_positive (ipcomp v l.ip s.0.last_ip) ≡ true → Precedes v s.0.last_ip l.ip
    beyond t = ground (arith, t, (ipcomp-IsPreorder v).flip l.ip s.0.last_ip)

-- The reference for one round: all leases in the range are counted, then its size is added.
unfoldable pub count_range :
    (overflow : ℤ → ℕ) → DhcpVersion → List Lease → Range → Networks → Range × Networks
unfolding on_network add_available to_ulong
count_range overflow v leases r nets =
    let (r', nets') = count_leases (matching v r leases) (r, nets) in
    (r', on_network (add_available (to_ulong overflow (get_range_size v r'))) r'.shared_net nets')

scan-count :
    (v : DhcpVersion) (leases : List Lease) (r : Range) (nets : Networks) (p : Place)
    → IsAscending v leases
    → IsStart v r.first_ip leases p
    → (p ≡ null → leases ≡ [])
    → ((scan v (r, nets) p).0 ≡ count_leases (matching v r leases) (r, nets))
      × BelongsTo leases (scan v (r, nets) p).1
unfolding scan
scan-count v leases r nets null asc st empty =
    let none_left : matching v r leases ≡ [] = rw (empty refl) (matching_nil v r) in
    (sym (count_leases_none (matching v r leases) (r, nets) none_left), tt)
scan-count v leases r nets (at before l after) asc st empty =
    let whole = st.0 in
    let asc' = IsAscending-rest v before (l ∷ after) (rw whole asc) in
    let got = scan_from-count v before (l ∷ after) (r, nets) asc' in
    (
      got.0
          ∙ ap (λ ls. count_leases ls (r, nets))
              (sym (matching_before v r before (l ∷ after) st.1) ∙ ap (matching v r) whole),
      rw whole at got.1,
    )

restart-null : (leases : List Lease) (p : Place) → restart leases p ≡ null → leases ≡ []
unfolding restart head_of
restart-null [] p h = refl
restart-null (l ∷ ls) null h = cc
restart-null (l ∷ ls) (at before x after) h = cc

-- A round that starts anywhere in the ascending leases counts exactly the leases in its range, and
-- leaves a place from which the next round may start.
pub do_range-count :
    (overflow : ℤ → ℕ) (v : DhcpVersion) (leases : List Lease) (r : Range) (nets : Networks)
    (p : Place)
    → IsAscending v leases
    → BelongsTo leases p
    → ((do_range overflow v leases r nets p).0 ≡ count_range overflow v leases r nets)
      × BelongsTo leases (do_range overflow v leases r nets p).1
unfolding do_range count_range
do_range-count overflow v leases r nets p asc b =
    let q = restart leases (rewind v r.first_ip p) in
    let got =
      scan-count v leases r nets q asc (restart-rewind v r.first_ip leases p asc b)
        (restart-null leases (rewind v r.first_ip p)) in
    (rw got.0 refl, got.1)
