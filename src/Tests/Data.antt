-- ===== src/Tests/Data.antt =====
-- Small tables of leases, ranges and networks, and functions in the place of the libraries.
use dhcpd_pools.Base.{
  ◌≢◌, refl, ℕ, ◌*◌, ◌/◌, ◌-◌, ◌^◌, true, false, List, [], ◌∷◌, ◌++◌, none, some, arith, ltb,
  is_negative,
}
use dhcpd_pools.Base.Int.{ℤ, pos, negsuc}
use dhcpd_pools.Base.Text.{codes}
use dhcpd_pools.Double.{Doubles, IsOrdered}
use dhcpd_pools.Data.{
  ipv_unknown, ipv4, v4, as_v4, SharedNetwork, Range, LeaseType, active, free, backup, Lease,
}
use dhcpd_pools.Address.{Inet, ipcomp, ipcomp_v4}
use dhcpd_pools.Counting.{Networks}
use dhcpd_pools.Counting.Rewind.{IsAscending}
use dhcpd_pools.Leases.{Uthash}
use dhcpd_pools.Sort.Engine.{mergesort}
use dhcpd_pools.Leases.Table.{position, remove_at, same_key, IsDistinct, IsUthash}

abbrev pub lease_at : ℕ → LeaseType → Lease
lease_at n t = record { ip = v4 n; type = t; ethernet = none }

abbrev pub range_of : (net first last : ℕ) → Range
range_of net first last = record {
  shared_net = some net;
  first_ip = v4 first;
  last_ip = v4 last;
  count = 0;
  touched = 0;
  backups = 0;
}

abbrev pub small_leases : List Lease
small_leases = lease_at 10 active ∷ lease_at 12 free ∷ lease_at 20 backup ∷ lease_at 21 active ∷ []

-- The ranges overlap, and the second lies before the first.
abbrev pub small_ranges : List Range
small_ranges = range_of 1 11 20 ∷ range_of 2 10 12 ∷ range_of 0 21 30 ∷ []

abbrev pub empty_network : SharedNetwork
empty_network = record {
  name = codes "net";
  available = pos 0;
  used = 0;
  touched = 0;
  backups = 0;
  netmask = pos 0;
}

abbrev pub small_networks : Networks
small_networks k = empty_network

pub small_leases-IsAscending : IsAscending ipv4 small_leases
unfolding ipcomp ipcomp_v4 as_v4
small_leases-IsAscending =
    ((refl, (refl, (refl, tt))), ((refl, (refl, tt)), ((refl, tt), (tt, tt))))

pub small_leases-IsDistinct : IsDistinct ipv4 small_leases
unfolding ipcomp ipcomp_v4 as_v4 same_key
small_leases-IsDistinct = ((refl, (refl, (refl, tt))), ((refl, (refl, tt)), ((refl, tt), (tt, tt))))

pub ipv4-known : ipv4 ≢ ipv_unknown
ipv4-known e = cc

-- An address is a single digit: `7` is 0.0.0.7.
abbrev pub digit_inet : Inet
digit_inet = record {
  inet_aton = λ s. elim s [ [] ↦ (false, 0) | ◌∷◌ c cs ↦ (true, c - 48) ];
  inet_pton = λ s. (false, []);
  ntohl = λ n. n;
}

abbrev pub list_table : Uthash
list_table = record {
  hash_find = λ v ls a. position v a ls;
  hash_add = λ v ls l. ls ++ l ∷ [];
  hash_del = remove_at;
  hash_sort = λ compare ls. mergesort (λ a b. is_negative (compare a b)) ls;
}

pub list_table-IsUthash : IsUthash list_table
list_table-IsUthash = record { find = λ v ls a d. refl; add = λ v ls l. refl; del = λ ls i. refl }

abbrev from_ℤ : ℤ → ℕ
from_ℤ (pos n) = n
from_ℤ (negsuc n) = 0

-- Natural numbers for doubles.
abbrev pub nat_doubles : Doubles
nat_doubles = record {
  Double = ℕ;
  lt = ltb;
  of_ℤ = from_ℤ;
  mul = λ a b. a * b;
  div = λ a b. a / b;
  sub = λ a b. a - b;
  to_float = λ a. a;
  overflow = λ z. 2 ^ 63;
}

pub nat_doubles-IsOrdered : IsOrdered nat_doubles
nat_doubles-IsOrdered = record {
  is_nan = λ a. false;
  asym = λ a b h. ground arith;
  not_lt_trans = λ a b c n h k. ground arith;
  of_ℤ-number = λ z. refl;
}
