-- ===== src/Leases.antt =====
-- The lease file: src/getdata.c `parse_leases`, src/other.c `xstrstr`, and src/hash.c.
--
-- uthash is a library. The elements that it links are the program's own, so the table `leases` is
-- the list of its elements in the order in which the table is walked; a pointer to an element is
-- its position. The macros are the parameter `Uthash`.
pub mod Classify
pub mod Table
pub mod Parse
use dhcpd_pools.Base.{
  ℕ, zero, suc, ◌-◌, ◌==◌, Bool, true, false, ◌&&◌, ◌||◌, List, [], ◌∷◌, ◌++◌, Option, none, some,
  Ordering, if◌then◌else◌, ltb, length, take, drop, reverse, get_elem?,
}
use dhcpd_pools.Base.Text.{codes, c_string, has_prefix, char_at}
use dhcpd_pools.Data.{
  Bytes, DhcpVersion, ipv_unknown, ipv4, ipv6, IpAddr, LeaseType, active, free, backup, Lease,
}
use dhcpd_pools.Address.{Inet, Parsed, parse_ipaddr, copy_ipaddr}

-- `enum prefix_t`
pub data Prefix : Type 0 where
  lease binding_state_free binding_state_abandoned binding_state_expired : Prefix
  binding_state_released binding_state_active binding_state_backup hardware_ethernet : Prefix
  num_of_prefix : Prefix

-- The `switch (str[16])` of xstrstr_v4, on a line of at least 16 bytes.
unfoldable pub switch_v4 : Bytes → Option Prefix
switch_v4 str =
    let c = char_at str 16 in
    if c == b'f'
    then (if has_prefix (codes "  binding state free;") str then some binding_state_free else none)
    else if c == b'a'
    then (if has_prefix (codes "  binding state active;") str
        then some binding_state_active
        else if has_prefix (codes "  binding state abandoned;") str
        then some binding_state_abandoned
        else none)
    else if c == b'e'
    then (if has_prefix (codes "  binding state expired;") str
        then some binding_state_expired
        else none)
    else if c == b'r'
    then (if has_prefix (codes "  binding state released;") str
        then some binding_state_released
        else none)
    else if c == b'b'
    then (if has_prefix (codes "  binding state backup;") str
        then some binding_state_backup
        else none)
    else if c == b'n'
    then (if has_prefix (codes "  hardware ethernet") str then some hardware_ethernet else none)
    else none

unfoldable pub xstrstr_v4 : Bytes → Prefix
unfolding switch_v4
xstrstr_v4 str =
    let len = if char_at str 2 == b'b' || char_at str 2 == b'h' then length str else 0 in
    elim (if ltb 15 len then switch_v4 str else none) [
      | some p ↦ p
      | none ↦ if has_prefix (codes "lease ") str then lease else num_of_prefix
    ]

-- The `switch (str[18])` of xstrstr_v6.
unfoldable pub switch_v6 : Bytes → Option Prefix
switch_v6 str =
    let c = char_at str 18 in
    if c == b'f'
    then (if has_prefix (codes "    binding state free;") str
        then some binding_state_free
        else none)
    else if c == b'a'
    then (if has_prefix (codes "    binding state active;") str
        then some binding_state_active
        else if has_prefix (codes "    binding state abandoned;") str
        then some binding_state_abandoned
        else none)
    else if c == b'e'
    then (if has_prefix (codes "    binding state expired;") str
        then some binding_state_expired
        else none)
    else if c == b'r'
    then (if has_prefix (codes "    binding state released;") str
        then some binding_state_released
        else none)
    else if c == b'b'
    then (if has_prefix (codes "    binding state backup;") str
        then some binding_state_backup
        else none)
    else if c == b'n'
    then (if has_prefix (codes "  hardware ethernet") str then some hardware_ethernet else none)
    else none

unfoldable pub xstrstr_v6 : Bytes → Prefix
unfolding switch_v6
xstrstr_v6 str =
    let len = if char_at str 4 == b'b' || char_at str 2 == b'h' then length str else 0 in
    elim (if ltb 17 len then switch_v6 str else none) [
      | some p ↦ p
      | none ↦ if has_prefix (codes "  iaaddr ") str then lease else num_of_prefix
    ]

-- `memcmp` is zero where the texts agree, so each test holds for the lines that do not begin so.
unfoldable pub xstrstr_init : Bytes → Prefix × DhcpVersion
xstrstr_init str =
    if has_prefix (codes "lease ") str
    then (if has_prefix (codes "  iaaddr ") str
        then (num_of_prefix, ipv_unknown)
        else (lease, ipv6))
    else (lease, ipv4)

-- The kind of line, and the version from then on.
unfoldable pub xstrstr : DhcpVersion → Bytes → Prefix × DhcpVersion
unfolding xstrstr_init xstrstr_v4 xstrstr_v6
xstrstr ipv_unknown str = xstrstr_init str
xstrstr ipv4 str = (xstrstr_v4 str, ipv4)
xstrstr ipv6 str = (xstrstr_v6 str, ipv6)

-- The macros of uthash: HASH_FIND_INT and HASH_FIND_V6, HASH_ADD_INT and HASH_ADD_V6, HASH_DEL and
-- HASH_SORT. The keys are the bytes of the address, by version.
pub record Uthash : Type 0 where
  pub hash_find : DhcpVersion → List Lease → IpAddr → Option ℕ
  pub hash_add : DhcpVersion → List Lease → Lease → List Lease
  pub hash_del : List Lease → ℕ → List Lease
  pub hash_sort : (Lease → Lease → Ordering) → List Lease → List Lease

module _ (u : Uthash) where
  unfoldable pub find_lease : DhcpVersion → List Lease → IpAddr → Option ℕ
  find_lease ipv_unknown leases addr = none
  find_lease ipv4 leases addr = u.hash_find ipv4 leases addr
  find_lease ipv6 leases addr = u.hash_find ipv6 leases addr

  -- The memory that xmalloc returns is written whole, but for the bytes of the union that the
  -- version does not use.
  abbrev new_lease : DhcpVersion → IpAddr → LeaseType → Lease
  new_lease v addr type = record { ip = copy_ipaddr v addr addr; type = type; ethernet = none }

  unfoldable pub add_lease : DhcpVersion → List Lease → IpAddr → LeaseType → List Lease
  unfolding copy_ipaddr
  add_lease ipv_unknown leases addr type = leases
  add_lease ipv4 leases addr type = u.hash_add ipv4 leases (new_lease ipv4 addr type)
  add_lease ipv6 leases addr type = u.hash_add ipv6 leases (new_lease ipv6 addr type)

  unfoldable pub delete_lease : List Lease → ℕ → List Lease
  delete_lease leases i = u.hash_del leases i

  -- The loop over the leases of the table, each of which is its first when its turn comes.
  unfoldable pub delete_all_leases : (turns table : List Lease) → List Lease
  delete_all_leases [] table = table
  delete_all_leases (l ∷ turns) table = delete_all_leases turns (u.hash_del table 0)

  -- `if ((lease = find_lease(&addr)) != NULL) delete_lease(lease); add_lease(&addr, type);`
  unfoldable pub replace_lease : DhcpVersion → List Lease → IpAddr → LeaseType → List Lease
  unfolding find_lease add_lease delete_lease
  replace_lease v leases addr type =
      let left : List Lease = elim (find_lease v leases addr) [
        | none ↦ leases
        | some i ↦ delete_lease leases i
      ] in
      add_lease v left addr type

-- lease->ethernet = ..., for the lease at a position.
unfoldable pub set_ethernet : List Lease → ℕ → Bytes → List Lease
set_ethernet [] i mac = []
set_ethernet (l ∷ ls) zero mac = record l { ethernet = some mac } ∷ ls
set_ethernet (l ∷ ls) (suc i) mac = l ∷ set_ethernet ls i mac

-- The bytes up to the first space.
unfoldable pub up_to_space : Bytes → Bytes
up_to_space [] = []
up_to_space (c ∷ s) = if c == b' ' then [] else c ∷ up_to_space s

pub record LeaseFile : Type 0 where
  pub ip_version : DhcpVersion
  pub addr : IpAddr
  pub leases : List Lease
  pub backups_found : Bool

module _ (inet : Inet) (u : Uthash) (print_mac_addreses : Bool) where
  -- case PREFIX_LEASE. The bytes that the buffer holds behind the end of a line that is shorter than the
  -- offset are left out.
  unfoldable pub read_address : Bytes → LeaseFile → LeaseFile
  unfolding up_to_space c_string parse_ipaddr
  read_address line s =
      let offset : ℕ = elim s.ip_version [ ipv4 ↦ 6 | ipv6 ↦ 9 | ipv_unknown ↦ 9 ] in
      let parsed = parse_ipaddr inet s.ip_version (up_to_space (drop offset line)) s.addr in
      record s { ip_version = parsed.ip_version; addr = parsed.dst }

  unfoldable pub set_state : LeaseType → LeaseFile → LeaseFile
  unfolding replace_lease
  set_state type s = record s { leases = replace_lease u s.ip_version s.leases s.addr type }

  -- case PREFIX_HARDWARE_ETHERNET
  unfoldable pub read_ethernet : Bytes → LeaseFile → LeaseFile
  unfolding find_lease set_ethernet c_string
  read_ethernet line s =
      if print_mac_addreses
      then elim (find_lease u s.ip_version s.leases s.addr) [
        | none ↦ s
        | some i ↦ record s { leases = set_ethernet s.leases i (c_string (take 17 (drop 20 line))) }
      ]
      else s

  -- The `switch` on the kind of the line.
  unfoldable pub apply_line : Prefix → Bytes → LeaseFile → LeaseFile
  unfolding read_address set_state read_ethernet
  apply_line lease line s = read_address line s
  apply_line binding_state_free line s = set_state free s
  apply_line binding_state_abandoned line s = set_state free s
  apply_line binding_state_expired line s = set_state free s
  apply_line binding_state_released line s = set_state free s
  apply_line binding_state_active line s = set_state active s
  apply_line binding_state_backup line s = record (set_state backup s) { backups_found = true }
  apply_line hardware_ethernet line s = read_ethernet line s
  apply_line num_of_prefix line s = s

  unfoldable pub step_line : Bytes → LeaseFile → LeaseFile
  unfolding xstrstr apply_line
  step_line line s =
      let (prefix, version) = xstrstr s.ip_version line in
      apply_line prefix line (record s { ip_version = version })

  unfoldable pub step_lines : List Bytes → LeaseFile → LeaseFile
  step_lines [] s = s
  step_lines (line ∷ lines) s = step_lines lines (step_line line s)

-- What the buffer `line` holds in the rounds of the loop: each call of fgets reads up to a newline, or
-- 1023 bytes. A call that meets the end of the file at once leaves the buffer as it was, and the
-- loop looks at it again. `room` is what the buffer has left, `acc` the line so far, backwards.
unfoldable pub lines_from : (line acc : Bytes) (room : ℕ) → Bytes → List Bytes
unfolding c_string
lines_from line [] room [] = line ∷ []
lines_from line (c ∷ acc) room [] = c_string (reverse (c ∷ acc)) ∷ []
lines_from line acc room (c ∷ file) =
    let full = c_string (reverse (c ∷ acc)) in
    let ends = c == b'\n' || ltb room 2 in
    let rest =
      lines_from (if ends then full else line) (if ends then [] else c ∷ acc)
        (if ends then 1023 else room - 1) file in
    if ends then full ∷ rest else rest

unfoldable pub parse_leases : Inet → Uthash → Bool → Bytes → LeaseFile → LeaseFile
unfolding lines_from step_lines step_line has_prefix
parse_leases inet u print_mac file s = step_lines inet u print_mac (lines_from [] [] 1023 file) s
