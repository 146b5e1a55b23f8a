-- ===== src/Conf/State.antt =====
-- The state of `parse_config` in src/getdata.c: its local variables, the global tables that it
-- fills, and the helpers that it calls.
--
-- The array `ranges` is a function from indices, with what its memory holds behind `num_ranges` too;
-- `ranges_size` is the variable RANGES, the number of its entries. Pointers into the arrays are
-- indices. `word` is the bytes of the buffer before index `i`, so `i` is its length.
use dhcpd_pools.Base.{
  ℕ, zero, suc, ◌+◌, ◌-◌, ◌/◌, ◌%◌, ◌==◌, Bool, ◌&&◌, ◌||◌, [], ◌∷◌, ◌++◌, Option, none, some,
  if◌then◌else◌, leb, ltb, is_positive, take, lesser, greater, Bool-cases, inl, inr, false, refl,
  ◌≡◌, arith,
}
use dhcpd_pools.Base.Int.{ℤ}
use dhcpd_pools.Base.Text.{codes, contains}
use dhcpd_pools.Data.{Bytes, DhcpVersion, ipv4, IpAddr, v4, Range}
use dhcpd_pools.Address.{ipcomp}
use dhcpd_pools.Counting.{Networks}

-- `enum isc_conf_parser`
pub data Clause : Type 0 where
  nothing_interesting range_first_ip range_second_ip sharednet an_include subnet netmask : Clause

pub data Failure : Type 0 where
  cannot_open parsing_failed too_many_networks endless_netmask includes_too_deep : Failure
  out_of_memory dangling_range reads_before_word : Failure

-- The pointer `range_p` into the array `ranges`; `dangling` is one into a block that xrealloc has freed.
pub data RangePointer : Type 0 where
  unset dangling : RangePointer
  at_entry : (k : ℕ) → RangePointer

pub record Globals : Type 0 where
  pub ip_version : DhcpVersion
  pub shared_networks : Networks
  pub num_shared_networks : ℕ
  pub ranges : ℕ → Range
  pub num_ranges : ℕ
  pub ranges_size : ℕ

pub record Parser : Type 0 where
  pub globals : Globals
  pub newclause : Bool
  pub comment : Bool
  pub one_ip_range : Bool
  pub quote : ℕ
  pub braces : ℤ
  pub argument : Clause
  pub word : Bytes
  pub braces_shared : ℤ
  pub addr : IpAddr
  pub range_p : RangePointer
  pub shared_p : ℕ

abbrev pub maxlen : ℕ
maxlen = 1024

abbrev pub max_shared_networks : ℕ
max_shared_networks = 8192

-- `isspace` in the C locale
unfoldable pub isspace : ℕ → Bool
isspace c = c == b' ' || (leb 9 c && leb c 13)

unfoldable pub is_interesting_config_clause : Bool → Bytes → Clause
unfolding contains
is_interesting_config_clause all_as_shared s =
    if contains s (codes "range")
    then range_first_ip
    else if contains s (codes "shared-network")
    then sharednet
    else if all_as_shared && contains s (codes "subnet")
    then subnet
    else if all_as_shared && contains s (codes "netmask")
    then netmask
    else if contains s (codes "include")
    then an_include
    else nothing_interesting

unfoldable pub reorder_last_first : DhcpVersion → Range → Range
reorder_last_first v r =
    if is_positive (ipcomp v r.first_ip r.last_ip)
    then record r { first_ip = r.last_ip; last_ip = r.first_ip }
    else r

-- For IPv4 the smaller end comes first.
pub reorder_last_first-v4 :
    (r : Range) (a b : ℕ)
    → reorder_last_first ipv4 (record r { first_ip = v4 a; last_ip = v4 b })
      ≡ record r { first_ip = v4 (lesser a b); last_ip = v4 (greater a b) }
unfolding reorder_last_first ipcomp
reorder_last_first-v4 r a b = elim (Bool-cases (ltb b a)) [
  | inl e ↦ let greater_first : ltb a b ≡ false = ground (arith, e) in rw (e, greater_first) refl
  | inr e ↦ elim (Bool-cases (ltb a b)) [ inl f ↦ rw (e, f) refl | inr f ↦ rw (e, f) refl ]
]

-- A write to the array of ranges.
unfoldable pub write_range : (ℕ → Range) → ℕ → Range → ℕ → Range
write_range ranges k r j = if j == k then r else ranges j

-- `while ((addr.v4 & 0x01) == 0) { addr.v4 >>= 1; netmask--; }`; The result is
-- the last `addr` and the netmask; `none` is a loop that goes on.
unfoldable pub mask_loop : (fuel addr bits : ℕ) → Option (ℕ × ℕ)
mask_loop zero addr bits = none
mask_loop (suc fuel) addr bits =
    let rest = mask_loop fuel (addr / 2) (bits - 1) in
    if addr % 2 == 0 then rest else some (addr, bits)

-- `%d` for a number below 100
unfoldable pub two_digits : ℕ → Bytes
two_digits n = if ltb n 10 then (b'0' + n) ∷ [] else (b'0' + n / 10) ∷ (b'0' + n % 10) ∷ []

-- `snprintf(word, MAXLEN-1, "%s/%d", name, netmask)`
unfoldable pub cidr_name : Bytes → ℕ → Bytes
unfolding two_digits
cidr_name name bits = take 1022 (name ++ b'/' ∷ two_digits bits)
