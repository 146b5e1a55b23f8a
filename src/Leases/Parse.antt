-- ===== src/Leases/Parse.antt =====
-- The lease file against the map that it describes: for each address, the last state that the file
-- gives it.
use dhcpd_pools.Base.{
  ◌∙◌, ◌≡◌, ◌≢◌, refl, sym, ℕ, zero, suc, Bool, List, [], ◌∷◌, Option, none, some, if◌then◌else◌,
  inl, inr, Bool-cases, Option-cases, drop,
}
use dhcpd_pools.Data.{
  Bytes, DhcpVersion, ipv_unknown, ipv4, ipv6, IpAddr, LeaseType, active, free, backup, Lease,
}
use dhcpd_pools.Address.{Inet, parse_ipaddr}
use dhcpd_pools.Leases.{
  Prefix, lease, binding_state_free, binding_state_abandoned, binding_state_expired,
  binding_state_released, binding_state_active, binding_state_backup, hardware_ethernet,
  num_of_prefix, xstrstr, Uthash, find_lease, set_ethernet, up_to_space, LeaseFile, read_address,
  set_state, read_ethernet, apply_line, step_line, step_lines,
}
use dhcpd_pools.Leases.Table.{
  IsUthash, same_key, state_of, Absent, IsDistinct, replace_lease-Effect,
}

-- The state that a line gives to the address of the current lease, if it gives one.
abbrev pub new_state : Prefix → Option LeaseType
new_state lease = none
new_state binding_state_free = some free
new_state binding_state_abandoned = some free
new_state binding_state_expired = some free
new_state binding_state_released = some free
new_state binding_state_active = some active
new_state binding_state_backup = some backup
new_state hardware_ethernet = none
new_state num_of_prefix = none

-- The address of the current lease after a line, for a known version.
unfoldable pub next_addr : Inet → DhcpVersion → Prefix → Bytes → IpAddr → IpAddr
next_addr inet v lease line a =
    let offset : ℕ = elim v [ ipv4 ↦ 6 | ipv6 ↦ 9 | ipv_unknown ↦ 9 ] in
    (parse_ipaddr inet v (up_to_space (drop offset line)) a).dst
next_addr inet v _ line a = a

-- What the lines say of an address `b`: the state that the last of them gives it, or else `before`.
unfoldable pub last_state :
    Inet
    → DhcpVersion
    → (b : IpAddr) → (lines : List Bytes) (addr : IpAddr) → (before : Option LeaseType)
    → Option LeaseType
last_state inet v b [] addr before = before
last_state inet v b (line ∷ lines) addr before =
    let p = (xstrstr v line).0 in
    last_state inet v b lines (next_addr inet v p line addr)
      (elim (new_state p) [ none ↦ before | some t ↦ if same_key v addr b then some t else before ])

set_ethernet-Absent :
    (v : DhcpVersion) (a : IpAddr) (ls : List Lease) (i : ℕ) (mac : Bytes)
    → Absent v a ls
    → Absent v a (set_ethernet ls i mac)
unfolding set_ethernet
set_ethernet-Absent v a [] i mac h = tt
set_ethernet-Absent v a (l ∷ ls) zero mac h = h
set_ethernet-Absent v a (l ∷ ls) (suc i) mac h = (h.0, set_ethernet-Absent v a ls i mac h.1)

set_ethernet-IsDistinct :
    (v : DhcpVersion) (ls : List Lease) (i : ℕ) (mac : Bytes)
    → IsDistinct v ls
    → IsDistinct v (set_ethernet ls i mac)
unfolding set_ethernet
set_ethernet-IsDistinct v [] i mac d = tt
set_ethernet-IsDistinct v (l ∷ ls) zero mac d = d
set_ethernet-IsDistinct v (l ∷ ls) (suc i) mac d =
    (set_ethernet-Absent v l.ip ls i mac d.0, set_ethernet-IsDistinct v ls i mac d.1)

set_ethernet-state_of :
    (v : DhcpVersion) (b : IpAddr) (ls : List Lease) (i : ℕ) (mac : Bytes)
    → state_of v b (set_ethernet ls i mac) ≡ state_of v b ls
unfolding set_ethernet state_of
set_ethernet-state_of v b [] i mac = refl
set_ethernet-state_of v b (l ∷ ls) zero mac = refl
set_ethernet-state_of v b (l ∷ ls) (suc i) mac = rw (set_ethernet-state_of v b ls i mac) refl

xstrstr-version : (v : DhcpVersion) (line : Bytes) → v ≢ ipv_unknown → (xstrstr v line).1 ≡ v
unfolding xstrstr
xstrstr-version ipv_unknown line known = absurd (known refl)
xstrstr-version ipv4 line known = refl
xstrstr-version ipv6 line known = refl

parse_ipaddr-version :
    (inet : Inet) (v : DhcpVersion) (src : Bytes) (dst : IpAddr)
    → v ≢ ipv_unknown
    → (parse_ipaddr inet v src dst).ip_version ≡ v
unfolding parse_ipaddr
parse_ipaddr-version inet ipv_unknown src dst known = absurd (known refl)
parse_ipaddr-version inet ipv4 src dst known = refl
parse_ipaddr-version inet ipv6 src dst known = refl

-- What one line does to the version, the address and the table.
record Effect (inet : Inet) (p : Prefix) (line : Bytes) (s s' : LeaseFile) : Type 0 where
  version : s'.ip_version ≡ s.ip_version
  addr : s'.addr ≡ next_addr inet s.ip_version p line s.addr
  distinct : IsDistinct s.ip_version s'.leases
  states :
      (b : IpAddr)
      → state_of s.ip_version b s'.leases ≡ (
          let o : Option LeaseType = elim (new_state p) [
            | none ↦ state_of s.ip_version b s.leases
            | some t ↦
                if same_key s.ip_version s.addr b then some t else state_of s.ip_version b s.leases
          ] in
          o)

module _ (inet : Inet) {u : Uthash} (laws : IsUthash u) (print_mac : Bool) where
  set_state-Effect :
      (p : Prefix) (t : LeaseType) (line : Bytes) (s : LeaseFile)
      → new_state p ≡ some t
      → next_addr inet s.ip_version p line s.addr ≡ s.addr
      → s.ip_version ≢ ipv_unknown
      → IsDistinct s.ip_version s.leases
      → Effect inet p line s (set_state inet u print_mac t s)
  unfolding set_state
  set_state-Effect p t line s e stay known d =
      let put = replace_lease-Effect laws s.ip_version s.leases s.addr t known d in
      record { version = refl; addr = sym stay; distinct = put.0; states = λ b. rw e (put.1 b) }

  read_ethernet-Effect :
      (line : Bytes) (s : LeaseFile)
      → IsDistinct s.ip_version s.leases
      → Effect inet hardware_ethernet line s (read_ethernet inet u print_mac line s)
  unfolding read_ethernet next_addr
  read_ethernet-Effect line s d = elim (Bool-cases print_mac) [
    | inl e ↦ elim (Option-cases (find_lease u s.ip_version s.leases s.addr)) [
      | inl f ↦ rw (e, f) (record { version = refl; addr = refl; distinct = d; states = λ b. refl })
      | inr (i, f) ↦
          rw (e, f)
            (record {
              version = refl;
              addr = refl;
              distinct = set_ethernet-IsDistinct s.ip_version s.leases i _ d;
              states = λ b. set_ethernet-state_of s.ip_version b s.leases i _;
            })
    ]
    | inr e ↦ rw e (record { version = refl; addr = refl; distinct = d; states = λ b. refl })
  ]

  apply_line-Effect :
      (p : Prefix) (line : Bytes) (s : LeaseFile)
      → s.ip_version ≢ ipv_unknown
      → IsDistinct s.ip_version s.leases
      → Effect inet p line s (apply_line inet u print_mac p line s)
  unfolding apply_line read_address next_addr
  apply_line-Effect lease line s known d = record {
    version = parse_ipaddr-version inet s.ip_version _ s.addr known;
    addr = refl;
    distinct = d;
    states = λ b. refl;
  }
  apply_line-Effect binding_state_free line s known d =
      set_state-Effect binding_state_free free line s refl refl known d
  apply_line-Effect binding_state_abandoned line s known d =
      set_state-Effect binding_state_abandoned free line s refl refl known d
  apply_line-Effect binding_state_expired line s known d =
      set_state-Effect binding_state_expired free line s refl refl known d
  apply_line-Effect binding_state_released line s known d =
      set_state-Effect binding_state_released free line s refl refl known d
  apply_line-Effect binding_state_active line s known d =
      set_state-Effect binding_state_active active line s refl refl known d
  apply_line-Effect binding_state_backup line s known d =
      let e = set_state-Effect binding_state_backup backup line s refl refl known d in
      record { version = e.version; addr = e.addr; distinct = e.distinct; states = e.states }
  apply_line-Effect hardware_ethernet line s known d = read_ethernet-Effect line s d
  apply_line-Effect num_of_prefix line s known d = record {
    version = refl;
    addr = refl;
    distinct = d;
    states = λ b. refl;
  }

  step_line-Effect :
      (line : Bytes) (s : LeaseFile)
      → s.ip_version ≢ ipv_unknown
      → IsDistinct s.ip_version s.leases
      → Effect inet (xstrstr s.ip_version line).0 line s (step_line inet u print_mac line s)
  unfolding step_line
  step_line-Effect line s known d =
      rw (xstrstr-version s.ip_version line known)
        (apply_line-Effect (xstrstr s.ip_version line).0 line s known d)

  -- For all addresses at once.
  pub step_lines-Effect :
      (lines : List Bytes) (s : LeaseFile)
      → s.ip_version ≢ ipv_unknown
      → IsDistinct s.ip_version s.leases
      → IsDistinct s.ip_version (step_lines inet u print_mac lines s).leases
        × ((b : IpAddr)
            → state_of s.ip_version b (step_lines inet u print_mac lines s).leases
              ≡ last_state inet s.ip_version b lines s.addr (state_of s.ip_version b s.leases))
        × ((step_lines inet u print_mac lines s).ip_version ≡ s.ip_version)
  unfolding step_lines last_state step_line
  step_lines-Effect [] s known d = (d, λ b. refl, refl)
  step_lines-Effect (line ∷ lines) s known d =
      let e = step_line-Effect line s known d in
      let s' = step_line inet u print_mac line s in
      let (d', states, version) =
        step_lines-Effect lines s' (λ q. known (sym e.version ∙ q)) (rw e.version e.distinct) in
      (
        rw e.version at d',
        λ b. rw (e.addr, e.states b) at (rw e.version at (states b)),
        version ∙ e.version,
      )

  -- The table after the lines of a lease file is the map that the lines describe: an address has the
  -- state that the last line about it gives, or the state that it had before; and no address
  -- occurs twice. The IP version is known from the
  -- start, and no address occurs twice before.
  pub step_lines-last_state :
      (lines : List Bytes) (s : LeaseFile) (b : IpAddr)
      → s.ip_version ≢ ipv_unknown
      → IsDistinct s.ip_version s.leases
      → IsDistinct s.ip_version (step_lines inet u print_mac lines s).leases
        × (state_of s.ip_version b (step_lines inet u print_mac lines s).leases
            ≡ last_state inet s.ip_version b lines s.addr (state_of s.ip_version b s.leases))
  step_lines-last_state lines s b known d =
      let all = step_lines-Effect lines s known d in (all.0, all.1 b)
