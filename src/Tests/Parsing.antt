-- ===== src/Tests/Parsing.antt =====
-- The two parsers, on small files.
use dhcpd_pools.Base.{
  ◌≡◌, refl, ℕ, ◌-◌, ◌*◌, ◌^◌, ◌%◌, ◌<◌, ◌≤◌, true, false, List, [], ◌∷◌, Option, none, some, arith,
  if◌then◌else◌,
}
use dhcpd_pools.Base.Text.{codes, c_string, has_prefix}
use dhcpd_pools.Base.Result.{Result, ok, err}
use dhcpd_pools.Data.{Bytes, ipv4, ipv6, ipv_unknown, v4, active}
use dhcpd_pools.Leases.{
  lease, xstrstr_v4, xstrstr_v6, xstrstr_init, LeaseFile, step_lines, replace_lease,
}
use dhcpd_pools.Leases.Classify.{
  classify_v4, classify_v6, xstrstr_v4-classify, xstrstr_v6-classify, xstrstr_init_lem,
}
use dhcpd_pools.Leases.Table.{state_of, same_key, IsDistinct, replace_lease-state_of}
use dhcpd_pools.Leases.Parse.{last_state, step_lines-last_state}
use dhcpd_pools.Conf.State.{Globals, Failure, cannot_open, nothing_interesting, Parser, mask_loop}
use dhcpd_pools.Conf.{initial, step, steps, parse_config}
use dhcpd_pools.Conf.Clauses.{is_plain, behind_range, new_range, steps-range}
use dhcpd_pools.Conf.Netmask.{mask_loop-zero, mask_loop_lem}
use dhcpd_pools.Base.Int.{◌-ℤ◌, ◌+ℤ◌}
use dhcpd_pools.Counting.{update}
use dhcpd_pools.Base.Machine.{unquoted}
use dhcpd_pools.Output.Words.{AllNames}
use dhcpd_pools.Conf.Names.Steps.{parse_config-AllNames}
use dhcpd_pools.Conf.Safety.Writes.{WritesInside, InsideResult}
use dhcpd_pools.Conf.Safety.{IsRoomy, IsSafe, SafeResult, step-Safe, parse_config-IsRoomy}
use dhcpd_pools.Tests.Data.{
  digit_inet, list_table, list_table-IsUthash, small_leases, small_leases-IsDistinct,
  small_networks, range_of, ipv4-known,
}

abbrev start_file : LeaseFile
start_file = record { ip_version = ipv4; addr = v4 0; leases = small_leases; backups_found = false }

abbrev two_leases : List Bytes
two_leases =
    codes "lease 7 {"
    ∷ codes "  binding state active;"
    ∷ codes "}"
    ∷ codes "lease 7 {"
    ∷ codes "  binding state free;"
    ∷ []

step_lines-last_state_example :
    IsDistinct ipv4 (step_lines digit_inet list_table true two_leases start_file).leases
    × (state_of ipv4 (v4 7) (step_lines digit_inet list_table true two_leases start_file).leases
        ≡ last_state digit_inet ipv4 (v4 7) two_leases (v4 0) (state_of ipv4 (v4 7) small_leases))
step_lines-last_state_example =
    step_lines-last_state digit_inet list_table-IsUthash true two_leases start_file (v4 7)
      ipv4-known small_leases-IsDistinct

replace_lease-state_of_example :
    IsDistinct ipv4 (replace_lease list_table ipv4 small_leases (v4 20) active)
    × (state_of ipv4 (v4 20) (replace_lease list_table ipv4 small_leases (v4 20) active) ≡ (
        if same_key ipv4 (v4 20) (v4 20) then some active else state_of ipv4 (v4 20) small_leases))
replace_lease-state_of_example =
    replace_lease-state_of list_table-IsUthash ipv4 small_leases (v4 20) active (v4 20) ipv4-known
      small_leases-IsDistinct

xstrstr_v4-classify_example :
    xstrstr_v4 (codes "  binding state backup;") ≡ classify_v4 (codes "  binding state backup;")
xstrstr_v4-classify_example = xstrstr_v4-classify (codes "  binding state backup;")

xstrstr_v6-classify_example :
    xstrstr_v6 (codes "  hardware ethernet 00:00;")
    ≡ classify_v6 (codes "  hardware ethernet 00:00;")
xstrstr_v6-classify_example = xstrstr_v6-classify (codes "  hardware ethernet 00:00;")

xstrstr_init_lem_example :
    xstrstr_init (codes "lease 7 {")
    ≡ (lease, if has_prefix (codes "lease ") (codes "lease 7 {") then ipv6 else ipv4)
xstrstr_init_lem_example = xstrstr_init_lem (codes "lease 7 {")

mask_loop-zero_example : mask_loop 32 0 32 ≡ none
mask_loop-zero_example = mask_loop-zero 32 32

mask_loop_lem_example :
    (m : ℕ) × (k : ℕ) × (mask_loop 32 4294967040 32 ≡ some (m, 32 - k))
    × (4294967040 ≡ m * 2 ^ k)
    × (m % 2 ≡ 1)
    × (k < 32)
mask_loop_lem_example = mask_loop_lem 32 4294967040 32 (omega arith) (omega arith)

abbrev pub start_globals : Globals
start_globals = record {
  ip_version = ipv_unknown;
  shared_networks = small_networks;
  num_shared_networks = 0;
  ranges = λ k. range_of 0 0 0;
  num_ranges = 0;
  ranges_size = 64;
}

start_globals-IsRoomy : IsRoomy 4096 start_globals
start_globals-IsRoomy = record {
  ranges = omega arith;
  memory = omega arith;
  networks = omega arith;
}

abbrev in_range_word : Parser
in_range_word = record (initial digit_inet 4096 (v4 0) 0 start_globals) { word = codes "range" }

in_range_word-IsSafe : IsSafe 4096 0 0 in_range_word
in_range_word-IsSafe = record {
  roomy = start_globals-IsRoomy;
  word = omega arith;
  range_p = tt;
  shared_p = omega arith;
  more_ranges = omega arith;
  more_networks = omega arith;
}

abbrev no_include : Bytes → ℕ → Globals → Result Failure Globals
no_include file net g = err cannot_open

step-Safe_example :
    SafeResult 4096 0 0 (step digit_inet 4096 false no_include b' ' in_range_word)
    × InsideResult start_globals (step digit_inet 4096 false no_include b' ' in_range_word)
step-Safe_example =
    step-Safe 4096 0 0 (omega arith) digit_inet false no_include (λ w net g h le roomy e. cc) b' '
      in_range_word in_range_word-IsSafe (λ w net g h le roomy e. cc)

abbrev one_file : Bytes → Option Bytes
one_file name = some (codes "range 1 5;")

abbrev parsed_file : Result Failure Globals
parsed_file =
    parse_config digit_inet 4096 one_file false (v4 0) 1 true (codes "dhcpd.conf") 0 start_globals

abbrev parsed : Globals
parsed = elim parsed_file [ ok h ↦ h | err f ↦ start_globals ]

parsed_file-ok : parsed_file ≡ ok parsed
unfolding parse_config step
parsed_file-ok = refl

parse_config-IsRoomy_example :
    IsRoomy 4096 parsed
    × (0 ≤ parsed.num_ranges)
    × (0 ≤ parsed.num_shared_networks)
    × WritesInside start_globals parsed
parse_config-IsRoomy_example =
    parse_config-IsRoomy digit_inet 4096 (omega arith) one_file false (v4 0) 1 true
      (codes "dhcpd.conf") 0 start_globals parsed (omega arith) start_globals-IsRoomy parsed_file-ok

steps-range_example :
    (q : Parser) × (steps digit_inet 4096 false no_include
        (codes "5 3;")
        (behind_range digit_inet 4096 false no_include in_range_word)
      ≡ ok q)
    × (q.globals.num_ranges ≡ 1)
    × (q.globals.ranges 0
        ≡ new_range digit_inet 4096 false no_include (codes "5") (codes "3") in_range_word)
    × (q.argument ≡ nothing_interesting)
unfolding is_plain c_string
steps-range_example =
    steps-range digit_inet 4096 false no_include b'5' [] b'3' [] in_range_word (refl, tt) (refl, tt)
      (omega arith) (omega arith) refl (omega arith) (omega arith)

-- A network whose name has a blank in it.
abbrev quoted_file : Bytes → Option Bytes
quoted_file name = some (codes "shared-network \"a b\" { range 1 5; }")

abbrev quoted_result : Result Failure Globals
quoted_result =
    parse_config digit_inet 4096 quoted_file false (v4 0) 1 true (codes "dhcpd.conf") 0
      start_globals

abbrev quoted_globals : Globals
quoted_globals = elim quoted_result [ ok h ↦ h | err f ↦ start_globals ]

quoted_name : (quoted_globals.shared_networks 1).name ≡ codes "a b"
unfolding parse_config step ◌-ℤ◌ ◌+ℤ◌ update
quoted_name = refl

parse_config-AllNames_example : AllNames unquoted quoted_globals.shared_networks
unfolding parse_config step ◌-ℤ◌ ◌+ℤ◌
parse_config-AllNames_example =
    parse_config-AllNames digit_inet 4096 quoted_file false (v4 0) 1 true (codes "dhcpd.conf") 0
      start_globals quoted_globals (λ k. (refl, (refl, (refl, tt)))) refl
