-- ===== src/Counting/Totals.antt =====
-- What the counters of ranges and shared networks hold after `do_counting`.
pub mod Sizes
pub mod Result
use dhcpd_pools.Base.{
  ◌∙◌, ℕ, ◌+◌, ◌==◌, Bool, true, false, List, [], ◌∷◌, Option, none, some, ◌≡◌, ◌≢◌, refl, ap, map,
  arith, inl, inr, Bool-cases, if◌then◌else◌,
}
use dhcpd_pools.Base.Int.{ℤ, pos, ◌+ℤ◌}
use dhcpd_pools.Data.{DhcpVersion, SharedNetwork, Range, LeaseType, active, free, backup, Lease}
use dhcpd_pools.Address.{get_range_size}
use dhcpd_pools.Counting.{
  Networks, bump_range, bump_network, on_network, count_lease, update, add_available, to_ulong,
  sum_ranges, add_range, reset_all, do_counting,
}
use dhcpd_pools.Counting.Matching.{matching, count_leases}
use dhcpd_pools.Counting.Rewind.{IsAscending}
use dhcpd_pools.Counting.Scan.{count_range}
use dhcpd_pools.Counting.Reference.{count_ranges, reference, do_counting-reference}

abbrev pub is_type : LeaseType → LeaseType → ℕ
is_type active active = 1
is_type free free = 1
is_type backup backup = 1
is_type _ _ = 0

-- How many of the leases are in a state.
unfoldable pub tally : LeaseType → List Lease → ℕ
tally t [] = 0
tally t (l ∷ ls) = is_type t l.type + tally t ls

abbrev pub range_plus : Range → (a f b : ℕ) → Range
range_plus r a f b = record r {
  count = r.count + a;
  touched = r.touched + f;
  backups = r.backups + b;
}

abbrev pub network_plus : SharedNetwork → (a f b : ℕ) → SharedNetwork
network_plus n a f b = record n {
  used = n.used + a;
  touched = n.touched + f;
  backups = n.backups + b;
}

-- The range, after the leases whose addresses lie in it have been counted.
abbrev pub counted : DhcpVersion → List Lease → Range → Range
counted v leases r =
    let ls = matching v r leases in range_plus r (tally active ls) (tally free ls) (tally backup ls)

bump_range-plus :
    (t : LeaseType) (r : Range) (a f b : ℕ)
    → range_plus (bump_range t r) a f b
      ≡ range_plus r (is_type active t + a) (is_type free t + f) (is_type backup t + b)
unfolding bump_range
bump_range-plus active r a f b = ground arith
bump_range-plus free r a f b = ground arith
bump_range-plus backup r a f b = ground arith

bump_network-plus :
    (t : LeaseType) (n : SharedNetwork) (a f b : ℕ)
    → network_plus (bump_network t n) a f b
      ≡ network_plus n (is_type active t + a) (is_type free t + f) (is_type backup t + b)
unfolding bump_network
bump_network-plus active n a f b = ground arith
bump_network-plus free n a f b = ground arith
bump_network-plus backup n a f b = ground arith

bump_range-shared_net : (t : LeaseType) (r : Range) → (bump_range t r).shared_net ≡ r.shared_net
unfolding bump_range
bump_range-shared_net active r = refl
bump_range-shared_net free r = refl
bump_range-shared_net backup r = refl

count_leases-range :
    (ls : List Lease) (r : Range) (nets : Networks)
    → (count_leases ls (r, nets)).0
      ≡ range_plus r (tally active ls) (tally free ls) (tally backup ls)
unfolding count_leases count_lease tally
count_leases-range [] r nets = ground arith
count_leases-range (l ∷ ls) r nets =
    count_leases-range ls (bump_range l.type r) (on_network (bump_network l.type) r.shared_net nets)
    ∙ bump_range-plus l.type r (tally active ls) (tally free ls) (tally backup ls)

-- Whether a range is in the network of an index.
abbrev pub is_in : ℕ → Option ℕ → Bool
is_in k none = false
is_in k (some j) = k == j

on_network-at :
    (f : SharedNetwork → SharedNetwork) (p : Option ℕ) (nets : Networks) (k : ℕ)
    → on_network f p nets k ≡ (if is_in k p then f (nets k) else nets k)
unfolding on_network
on_network-at f none nets k = refl
on_network-at f (some j) nets k = elim (Bool-cases (k == j)) [
  | inl e ↦ rw e (ap (λ i. f (nets i)) (same e))
  | inr e ↦ rw e refl
]
  where
    same : (k == j) ≡ true → j ≡ k
    same e = ground arith

count_leases-network :
    (ls : List Lease) (r : Range) (nets : Networks) (k : ℕ)
    → (count_leases ls (r, nets)).1 k ≡ (
        if is_in k r.shared_net
        then network_plus (nets k) (tally active ls) (tally free ls) (tally backup ls)
        else nets k)
unfolding count_leases count_lease tally
count_leases-network [] r nets k = elim (Bool-cases (is_in k r.shared_net)) [
  | inl e ↦ rw e (ground arith)
  | inr e ↦ rw e refl
]
count_leases-network (l ∷ ls) r nets k =
    count_leases-network ls (bump_range l.type r)
      (on_network (bump_network l.type) r.shared_net nets) k
    ∙ rw (bump_range-shared_net l.type r, on_network-at (bump_network l.type) r.shared_net nets k)
        (elim (Bool-cases (is_in k r.shared_net)) [
          | inl e ↦ rw e (
              bump_network-plus l.type (nets k) (tally active ls) (tally free ls) (tally backup ls))
          | inr e ↦ rw e refl
        ])
