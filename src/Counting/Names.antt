-- ===== src/Counting/Names.antt =====
-- src/analyze.c: `do_counting` leaves the names of the networks as they are.
use dhcpd_pools.Base.{
  ◌≡◌, refl, sym, ◌∙◌, ap, ℕ, ◌==◌, List, [], ◌∷◌, Option, none, some, arith, inl, inr, Bool-cases,
  is_negative, is_positive,
}
use dhcpd_pools.Base.Int.{ℤ}
use dhcpd_pools.Data.{DhcpVersion, SharedNetwork, Range, LeaseType, active, free, backup, Lease}
use dhcpd_pools.Address.{ipcomp, get_range_size}
use dhcpd_pools.Counting.{
  Networks, update, bump_network, on_network, count_lease, Place, null, at, scan_from, scan, rewind,
  restart, to_ulong, add_available, do_range, walk_ranges, reset_all, add_range, sum_ranges,
  head_of, do_counting,
}

-- Two tables whose networks have the same names.
abbrev pub SameNames : Networks → Networks → Type 0
SameNames a b = (k : ℕ) → (a k).name ≡ (b k).name

update-SameNames :
    (nets : Networks) (k : ℕ) (n : SharedNetwork)
    → n.name ≡ (nets k).name
    → SameNames (update nets k n) nets
unfolding update
update-SameNames nets k n same j = elim (Bool-cases (j == k)) [
  | inl e ↦ let at_k : j ≡ k = ground arith in rw e (same ∙ ap (λ i. (nets i).name) (sym at_k))
  | inr e ↦ rw e refl
]

on_network-SameNames :
    (f : SharedNetwork → SharedNetwork)
    → ((n : SharedNetwork) → (f n).name ≡ n.name)
    → (net : Option ℕ) (nets : Networks) → SameNames (on_network f net nets) nets
unfolding on_network
on_network-SameNames f same none nets j = refl
on_network-SameNames f same (some k) nets j = update-SameNames nets k (f (nets k)) (same _) j

bump_network-name : (t : LeaseType) (n : SharedNetwork) → (bump_network t n).name ≡ n.name
unfolding bump_network
bump_network-name active n = refl
bump_network-name free n = refl
bump_network-name backup n = refl

count_lease-SameNames : (l : Lease) (s : Range × Networks) → SameNames (count_lease l s).1 s.1
unfolding count_lease
count_lease-SameNames l (r, nets) j =
    on_network-SameNames (bump_network l.type) (bump_network-name l.type) r.shared_net nets j

scan_from-SameNames :
    (v : DhcpVersion) (s : Range × Networks) (before rest : List Lease)
    → SameNames (scan_from v s before rest).0.1 s.1
unfolding scan_from
scan_from-SameNames v s before [] j = refl
scan_from-SameNames v s before (l ∷ after) j =
    elim (Bool-cases (is_positive (ipcomp v l.ip s.0.last_ip))) [
      | inl e ↦ rw e refl
      | inr e ↦ elim (Bool-cases (is_negative (ipcomp v l.ip s.0.first_ip))) [
        | inl f ↦ rw (e, f) (scan_from-SameNames v s (l ∷ before) after j)
        | inr f ↦
            rw (e, f)
              (scan_from-SameNames v (count_lease l s) (l ∷ before) after j
                ∙ count_lease-SameNames l s j)
      ]
    ]

scan-SameNames :
    (v : DhcpVersion) (s : Range × Networks) (l : Place) → SameNames (scan v s l).0.1 s.1
unfolding scan
scan-SameNames v s null j = refl
scan-SameNames v s (at before l after) j = scan_from-SameNames v s before (l ∷ after) j

do_range-SameNames :
    (overflow : ℤ → ℕ) (v : DhcpVersion) (leases : List Lease) (r : Range) (nets : Networks)
    (l : Place)
    → SameNames (do_range overflow v leases r nets l).0.1 nets
unfolding do_range add_available
do_range-SameNames overflow v leases r nets l j =
    let place = restart leases (rewind v r.first_ip l) in
    let scanned = scan v (r, nets) place in
    let ((r', nets'), l') = scanned in
    on_network-SameNames (add_available (to_ulong overflow (get_range_size v r'))) (λ n. refl)
      r'.shared_net nets' j
    ∙ scan-SameNames v (r, nets) place j

walk_ranges-SameNames :
    (overflow : ℤ → ℕ) (v : DhcpVersion) (leases : List Lease) (ranges : List Range)
    (nets : Networks) (l : Place)
    → SameNames (walk_ranges overflow v leases ranges nets l).1 nets
unfolding walk_ranges
walk_ranges-SameNames overflow v leases [] nets l j = refl
walk_ranges-SameNames overflow v leases (r ∷ ranges) nets l j =
    let ((r', nets'), l') = do_range overflow v leases r nets l in
    walk_ranges-SameNames overflow v leases ranges nets' l' j
    ∙ do_range-SameNames overflow v leases r nets l j

sum_ranges-name :
    (v : DhcpVersion) (ranges : List Range) (n : SharedNetwork)
    → (sum_ranges v ranges n).name ≡ n.name
unfolding sum_ranges add_range
sum_ranges-name v [] n = refl
sum_ranges-name v (r ∷ ranges) n = sum_ranges-name v ranges (add_range v r n)

pub do_counting-SameNames :
    (overflow : ℤ → ℕ) (v : DhcpVersion) (leases : List Lease) (ranges : List Range)
    (nets : Networks)
    → SameNames (do_counting overflow v leases ranges nets).1 nets
unfolding do_counting reset_all
do_counting-SameNames overflow v leases ranges nets j =
    let (ranges', nets') = walk_ranges overflow v leases ranges nets (head_of leases) in
    update-SameNames nets' 0 (sum_ranges v ranges' (reset_all (nets' 0)))
      (sum_ranges-name v ranges' (reset_all (nets' 0))) j
    ∙ walk_ranges-SameNames overflow v leases ranges nets (head_of leases) j
