-- ===== src/Counting/Matching.antt =====
-- The reference for the counting: each range is held against every lease.
use dhcpd_pools.Base.{
  ◌∙◌, Bool, not, ◌&&◌, List, [], ◌∷◌, ◌++◌, ◌≡◌, refl, if◌then◌else◌, is_negative, is_positive,
  arith,
}
use dhcpd_pools.Data.{DhcpVersion, IpAddr, Range, LeaseType, active, free, backup, Lease}
use dhcpd_pools.Address.{ipcomp}
use dhcpd_pools.Counting.{Networks, bump_range, count_lease}

-- first_ip <= ip <= last_ip
unfoldable pub in_range : DhcpVersion → Range → IpAddr → Bool
in_range v r ip =
    not (is_negative (ipcomp v ip r.first_ip)) && not (is_positive (ipcomp v ip r.last_ip))

-- The leases whose address lies in the range.
unfoldable pub matching : DhcpVersion → Range → List Lease → List Lease
unfolding in_range
matching v r [] = []
matching v r (l ∷ ls) = let rest = matching v r ls in if in_range v r l.ip then l ∷ rest else rest

unfoldable pub count_leases : List Lease → Range × Networks → Range × Networks
count_leases [] s = s
count_leases (l ∷ ls) s = count_leases ls (count_lease l s)

-- The bounds of a range and its network are not touched by counting.
pub record SameRange (r r' : Range) : Type 0 where
  pub first_ip : r'.first_ip ≡ r.first_ip
  pub last_ip : r'.last_ip ≡ r.last_ip
  pub shared_net : r'.shared_net ≡ r.shared_net

pub SameRange-trans : {a b c : Range} → SameRange a b → SameRange b c → SameRange a c
SameRange-trans p q = record {
  first_ip = q.first_ip ∙ p.first_ip;
  last_ip = q.last_ip ∙ p.last_ip;
  shared_net = q.shared_net ∙ p.shared_net;
}

bump_range-SameRange : (t : LeaseType) (r : Range) → SameRange r (bump_range t r)
unfolding bump_range
bump_range-SameRange free r = record { first_ip = refl; last_ip = refl; shared_net = refl }
bump_range-SameRange active r = record { first_ip = refl; last_ip = refl; shared_net = refl }
bump_range-SameRange backup r = record { first_ip = refl; last_ip = refl; shared_net = refl }

pub count_lease-SameRange : (l : Lease) (s : Range × Networks) → SameRange s.0 (count_lease l s).0
unfolding count_lease
count_lease-SameRange l (r, nets) = bump_range-SameRange l.type r

pub count_leases-SameRange :
    (ls : List Lease) (s : Range × Networks) → SameRange s.0 (count_leases ls s).0
unfolding count_leases
count_leases-SameRange [] s = record { first_ip = refl; last_ip = refl; shared_net = refl }
count_leases-SameRange (l ∷ ls) s =
    SameRange-trans (count_lease-SameRange l s) (count_leases-SameRange ls (count_lease l s))

pub matching-SameRange :
    (v : DhcpVersion) {r r' : Range} (ls : List Lease)
    → SameRange r r'
    → matching v r' ls ≡ matching v r ls
unfolding matching
matching-SameRange v [] same = refl
matching-SameRange v (l ∷ ls) same = rw (same.first_ip, same.last_ip, matching-SameRange v ls same)

pub matching-append :
    (v : DhcpVersion) (r : Range) (xs ys : List Lease)
    → matching v r (xs ++ ys) ≡ matching v r xs ++ matching v r ys
unfolding matching
matching-append v r [] ys = refl
matching-append v r (x ∷ xs) ys = ground (arith, matching-append v r xs ys)
