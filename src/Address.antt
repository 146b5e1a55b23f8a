-- ===== src/Address.antt =====
-- The functions that depend on the IP version: src/other.c (`parse_ipaddr`, `copy_ipaddr`,
-- `get_range_size`) and src/sort.c (`ipcomp`, `leasecomp`, `rangecomp`). The program selects one of
-- each by a function pointer, all of which `set_ipv_functions` sets together; here they are one
-- function by clauses on the version.
pub mod Order
pub mod Size
use dhcpd_pools.Base.{
  ℕ, ◌+◌, ◌-◌, ◌%◌, ◌^◌, Bool, true, false, List, [], ◌∷◌, Ordering, bytes_compare, ltb,
  if◌then◌else◌,
}
use dhcpd_pools.Base.Rounding.{round}
use dhcpd_pools.Base.Int.{ℤ, pos, ◌+ℤ◌, ◌-ℤ◌, scale}
use dhcpd_pools.Data.{
  Bytes, DhcpVersion, ipv_unknown, ipv4, ipv6, IpAddr, v4, v6, as_v4, as_v6, Range, Lease,
}

-- sort.c

unfoldable pub ipcomp_v4 : IpAddr → IpAddr → Ordering
unfolding as_v4
ipcomp_v4 a b =
    if ltb (as_v4 a) (as_v4 b)
    then Ordering.lt
    else if ltb (as_v4 b) (as_v4 a)
    then Ordering.gt
    else Ordering.eq

unfoldable pub ipcomp_v6 : IpAddr → IpAddr → Ordering
unfolding as_v6
ipcomp_v6 a b = bytes_compare (as_v6 a) (as_v6 b)

-- The sign of the `int` that is returned; no caller looks at more.
unfoldable pub ipcomp : DhcpVersion → IpAddr → IpAddr → Ordering
unfolding ipcomp_v4 ipcomp_v6
ipcomp ipv_unknown a b = Ordering.eq
ipcomp ipv4 a b = ipcomp_v4 a b
ipcomp ipv6 a b = ipcomp_v6 a b

unfoldable pub leasecomp : DhcpVersion → Lease → Lease → Ordering
unfolding as_v4 as_v6
leasecomp ipv_unknown a b = Ordering.eq
leasecomp ipv4 a b =
    if ltb (as_v4 a.ip) (as_v4 b.ip)
    then Ordering.lt
    else if ltb (as_v4 b.ip) (as_v4 a.ip)
    then Ordering.gt
    else Ordering.eq
leasecomp ipv6 a b = bytes_compare (as_v6 a.ip) (as_v6 b.ip)

unfoldable pub rangecomp : DhcpVersion → Range → Range → Ordering
rangecomp v r1 r2 = ipcomp v r1.first_ip r2.first_ip

-- other.c

-- What the system's address functions answer. `inet_aton` and `inet_pton` (for AF_INET6) return
-- whether they succeeded and what the address structure holds afterwards, also on a failure.
pub record Inet : Type 0 where
  pub inet_aton : Bytes → Bool × ℕ
  pub inet_pton : Bytes → Bool × Bytes
  pub ntohl : ℕ → ℕ

-- Whether the text was an address, the version from then on, and what `*dst` holds.
pub record Parsed : Type 0 where
  pub success : Bool
  pub ip_version : DhcpVersion
  pub dst : IpAddr

module _ (inet : Inet) where
  unfoldable pub parse_ipaddr_v4 : Bytes → Parsed
  parse_ipaddr_v4 src =
      let (rv, addr) = inet.inet_aton src in
      record { success = rv; ip_version = ipv4; dst = v4 (inet.ntohl addr) }

  unfoldable pub parse_ipaddr_v6 : Bytes → Parsed
  parse_ipaddr_v6 src =
      let (rv, addr) = inet.inet_pton src in
      record { success = rv; ip_version = ipv6; dst = v6 addr }

  unfoldable pub parse_ipaddr_init : Bytes → IpAddr → Parsed
  unfolding parse_ipaddr_v4 parse_ipaddr_v6
  parse_ipaddr_init src dst =
      if (inet.inet_aton src).0
      then parse_ipaddr_v4 src
      else if (inet.inet_pton src).0
      then parse_ipaddr_v6 src
      else record { success = false; ip_version = ipv_unknown; dst = dst }

  unfoldable pub parse_ipaddr : DhcpVersion → Bytes → IpAddr → Parsed
  unfolding parse_ipaddr_init parse_ipaddr_v4 parse_ipaddr_v6
  parse_ipaddr ipv_unknown src dst = parse_ipaddr_init src dst
  parse_ipaddr ipv4 src dst = parse_ipaddr_v4 src
  parse_ipaddr ipv6 src dst = parse_ipaddr_v6 src

-- What `*dst` holds after the copy.
unfoldable pub copy_ipaddr : DhcpVersion → (dst src : IpAddr) → IpAddr
unfolding as_v4 as_v6
copy_ipaddr ipv_unknown dst src = dst
copy_ipaddr ipv4 dst src = v4 (as_v4 src)
copy_ipaddr ipv6 dst src = v6 (as_v6 src)

-- `r->last_ip.v4 - r->first_ip.v4 + 1` in the type `uint32_t`
unfoldable pub get_range_size_v4 : Range → ℕ
unfolding as_v4
get_range_size_v4 r = (as_v4 r.last_ip + 2 ^ 32 - as_v4 r.first_ip + 1) % 2 ^ 32

-- The loop of get_range_size_v6 over what is left of the two addresses. `size` is a double: an
-- integer of 53 significant bits, rounded at each sum; to multiply it by 256 is exact.
unfoldable pub size_loop : ℤ → (last first : Bytes) → ℤ
size_loop size (l ∷ last) (f ∷ first) =
    size_loop (round (scale 256 size +ℤ (pos l -ℤ pos f))) last first
size_loop size _ _ = size

unfoldable pub get_range_size_v6 : Range → ℤ
unfolding size_loop as_v6
get_range_size_v6 r = round (size_loop (pos 0) (as_v6 r.last_ip) (as_v6 r.first_ip) +ℤ pos 1)

unfoldable pub get_range_size : DhcpVersion → Range → ℤ
unfolding get_range_size_v4 get_range_size_v6
get_range_size ipv_unknown r = pos 0
get_range_size ipv4 r = pos (get_range_size_v4 r)
get_range_size ipv6 r = get_range_size_v6 r
