-- ===== src/Data.antt =====
-- The data of src/dhcpd-pools.h: addresses, ranges, shared networks, leases.
--
-- The `double` counters (`count`, `touched`, `backups`, `used`) only ever count leases up from
-- zero, so they are natural numbers; a `double` holds each of them exactly below 2 ^ 53. The sizes
-- are integers for the same reason. Pointers into the array `shared_networks` are indices.
use dhcpd_pools.Base.{ℕ, ◌+◌, ◌*◌, ◌/◌, ◌%◌, ◌^◌, List, [], ◌∷◌, Option, get_or}
use dhcpd_pools.Base.Int.{ℤ}

abbrev pub Bytes : Type 0
Bytes = List ℕ

-- `enum dhcp_version`; the constructor also says which functions the function pointers hold.
pub data DhcpVersion : Type 0 where
  ipv_unknown ipv4 ipv6 : DhcpVersion

-- `union ipaddr_t`, by the member that was written last.
pub data IpAddr : Type 0 where
  v4 : ℕ → IpAddr
  v6 : Bytes → IpAddr

-- Reading the other member of the union reads its bytes, least significant first; the bytes that a
-- write of `v4` leaves alone are taken as zero. No run of the program reads across: the version
-- is chosen before the first address is stored, and never changes again.
unfoldable pub as_v4 : IpAddr → ℕ
as_v4 (v4 n) = n
as_v4 (v6 b) = get_or b 0 0 + 2 ^ 8 * get_or b 1 0 + 2 ^ 16 * get_or b 2 0 + 2 ^ 24 * get_or b 3 0

unfoldable pub as_v6 : IpAddr → Bytes
as_v6 (v6 b) = b
as_v6 (v4 n) =
    (n % 256)
    ∷ (n / 2 ^ 8 % 256)
    ∷ (n / 2 ^ 16 % 256)
    ∷ (n / 2 ^ 24 % 256)
    ∷ 0
    ∷ 0
    ∷ 0
    ∷ 0
    ∷ 0
    ∷ 0
    ∷ 0
    ∷ 0
    ∷ 0
    ∷ 0
    ∷ 0
    ∷ 0
    ∷ []

-- `struct shared_network_t`
pub record SharedNetwork : Type 0 where
  pub name : Bytes
  pub available : ℤ
  pub used : ℕ
  pub touched : ℕ
  pub backups : ℕ
  pub netmask : ℤ

-- `struct range_t`; `shared_net` is an index into `shared_networks`, `none` is NULL.
pub record Range : Type 0 where
  pub shared_net : Option ℕ
  pub first_ip : IpAddr
  pub last_ip : IpAddr
  pub count : ℕ
  pub touched : ℕ
  pub backups : ℕ

-- `enum ltype`
pub data LeaseType : Type 0 where
  active free backup : LeaseType

-- `struct leases_t`, without the links of the hash table
pub record Lease : Type 0 where
  pub ip : IpAddr
  pub type : LeaseType
  pub ethernet : Option Bytes
