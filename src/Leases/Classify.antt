-- ===== src/Leases/Classify.antt =====
-- The kinds of lines, against plain tests of the line's beginning.
use dhcpd_pools.Base.{
  ◌∙◌, ◌==◌, ◌||◌, ◌<◌, length, true, false, ◌≡◌, refl, arith, inl, inr, Bool-cases, if◌then◌else◌,
}
use dhcpd_pools.Base.Text.{codes, has_prefix, has_prefix-char_at, has_prefix-length, char_at}
use dhcpd_pools.Data.{Bytes, ipv4, ipv6}
use dhcpd_pools.Leases.{
  Prefix, lease, binding_state_free, binding_state_abandoned, binding_state_expired,
  binding_state_released, binding_state_active, binding_state_backup, hardware_ethernet,
  num_of_prefix, xstrstr_v4, xstrstr_v6, xstrstr_init,
}

-- The first of the keywords with which the line begins.
unfoldable pub classify_v4 : Bytes → Prefix
classify_v4 str =
    if has_prefix (codes "  binding state free;") str
    then binding_state_free
    else if has_prefix (codes "  binding state active;") str
    then binding_state_active
    else if has_prefix (codes "  binding state abandoned;") str
    then binding_state_abandoned
    else if has_prefix (codes "  binding state expired;") str
    then binding_state_expired
    else if has_prefix (codes "  binding state released;") str
    then binding_state_released
    else if has_prefix (codes "  binding state backup;") str
    then binding_state_backup
    else if has_prefix (codes "  hardware ethernet") str
    then hardware_ethernet
    else if has_prefix (codes "lease ") str
    then lease
    else num_of_prefix

-- A line that begins with a keyword gets past the test of its third byte and of its length.
module _ (str : Bytes) where
  gate_v4 :
      (p : Bytes)
      → (char_at p 2 == b'b' || char_at p 2 == b'h') ≡ true
      → 16 < length p
      → has_prefix p str ≡ true
      → (15 < length str)
        × ((char_at str 2 == b'b' || char_at str 2 == b'h') ≡ true)
        × (char_at str 16 ≡ char_at p 16)
  gate_v4 p c n h = (
    omega (arith, has_prefix-length p str h),
    rw (has_prefix-char_at p str 2 h (omega arith)) c,
    has_prefix-char_at p str 16 h n,
  )

  -- xstrstr_v4, which looks at two bytes before it compares, finds the kind of the line that
  -- comparing it with every keyword in turn finds.
  pub xstrstr_v4-classify : xstrstr_v4 str ≡ classify_v4 str
  unfolding xstrstr_v4 classify_v4
  xstrstr_v4-classify = ground (
    arith,
    gate_v4 (codes "  binding state free;") refl (omega arith),
    gate_v4 (codes "  binding state active;") refl (omega arith),
    gate_v4 (codes "  binding state abandoned;") refl (omega arith),
    gate_v4 (codes "  binding state expired;") refl (omega arith),
    gate_v4 (codes "  binding state released;") refl (omega arith),
    gate_v4 (codes "  binding state backup;") refl (omega arith),
    gate_v4 (codes "  hardware ethernet") refl (omega arith),
  )

-- The first of the keywords of an IPv6 lease file with which the line begins.
unfoldable pub classify_v6 : Bytes → Prefix
classify_v6 str =
    if has_prefix (codes "    binding state free;") str
    then binding_state_free
    else if has_prefix (codes "    binding state active;") str
    then binding_state_active
    else if has_prefix (codes "    binding state abandoned;") str
    then binding_state_abandoned
    else if has_prefix (codes "    binding state expired;") str
    then binding_state_expired
    else if has_prefix (codes "    binding state released;") str
    then binding_state_released
    else if has_prefix (codes "    binding state backup;") str
    then binding_state_backup
    else if has_prefix (codes "  iaaddr ") str
    then lease
    else num_of_prefix

module _ (str : Bytes) where
  gate_v6 :
      (p : Bytes)
      → char_at p 4 ≡ b'b'
      → 18 < length p
      → has_prefix p str ≡ true
      → (17 < length str) × (char_at str 4 ≡ b'b') × (char_at str 18 ≡ char_at p 18)
  gate_v6 p c n h = (
    omega (arith, has_prefix-length p str h),
    has_prefix-char_at p str 4 h (omega arith) ∙ c,
    has_prefix-char_at p str 18 h n,
  )

  -- xstrstr_v6 finds the kind of the line that comparing it with every keyword in turn finds, with
  -- no keyword for the hardware address: a line that begins with `  hardware ethernet` has a `t` in
  -- the place where the code looks for an `n`.
  pub xstrstr_v6-classify : xstrstr_v6 str ≡ classify_v6 str
  unfolding xstrstr_v6 classify_v6
  xstrstr_v6-classify = ground (
    arith,
    gate_v6 (codes "    binding state free;") refl (omega arith),
    gate_v6 (codes "    binding state active;") refl (omega arith),
    gate_v6 (codes "    binding state abandoned;") refl (omega arith),
    gate_v6 (codes "    binding state expired;") refl (omega arith),
    gate_v6 (codes "    binding state released;") refl (omega arith),
    gate_v6 (codes "    binding state backup;") refl (omega arith),
    λ (h : has_prefix (codes "  hardware ethernet") str ≡ true).
        has_prefix-char_at (codes "  hardware ethernet") str 18 h (omega arith),
  )

  not_both : has_prefix (codes "lease ") str ≡ true → has_prefix (codes "  iaaddr ") str ≡ false
  not_both h = ground (
    arith,
    has_prefix-char_at (codes "lease ") str 0 h (omega arith),
    λ (k : has_prefix (codes "  iaaddr ") str ≡ true).
        has_prefix-char_at (codes "  iaaddr ") str 0 k (omega arith),
  )

  -- While the version is unknown, every line counts as the begin of a lease, and it is a line that
  -- begins with `lease `, as IPv4 lease files have them, that selects IPv6; any other line, also
  -- one that begins with `  iaaddr `, selects IPv4.
  pub xstrstr_init_lem :
      xstrstr_init str ≡ (lease, if has_prefix (codes "lease ") str then ipv6 else ipv4)
  unfolding xstrstr_init
  xstrstr_init_lem = elim (Bool-cases (has_prefix (codes "lease ") str)) [
    | inl h ↦ rw (h, not_both h) refl
    | inr h ↦ rw h refl
  ]
