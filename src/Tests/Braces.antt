-- ===== src/Tests/Braces.antt =====
-- Braces without a blank beside them, in the configuration.
use dhcpd_pools.Base.{◌≡◌, refl, ℕ, true, false, [], some}
use dhcpd_pools.Base.Int.{◌-ℤ◌, ◌+ℤ◌}
use dhcpd_pools.Base.Text.{codes}
use dhcpd_pools.Base.Result.{Result, ok, err}
use dhcpd_pools.Data.{Bytes, v4}
use dhcpd_pools.Counting.{update}
use dhcpd_pools.Conf.State.{Failure, Globals}
use dhcpd_pools.Conf.{parse_config, step}
use dhcpd_pools.Tests.Data.{digit_inet}
use dhcpd_pools.Tests.Parsing.{start_globals}

abbrev parsed : Bytes → Result Failure Globals
parsed text =
    parse_config digit_inet 4096 (λ name. some text) false (v4 0) 1 true (codes "dhcpd.conf") 0
      start_globals

abbrev num_ranges_of : Result Failure Globals → ℕ
num_ranges_of (ok g) = g.num_ranges
num_ranges_of (err f) = 0

abbrev first_name_of : Result Failure Globals → Bytes
first_name_of (ok g) = (g.shared_networks 1).name
first_name_of (err f) = []

-- A range of one address is lost if a brace follows its semicolon at once.
blank_brace : num_ranges_of (parsed (codes "pool {range 5; }\n")) ≡ 1
unfolding parse_config step ◌-ℤ◌ ◌+ℤ◌
blank_brace = refl

no_blank_brace : num_ranges_of (parsed (codes "pool {range 5;}\n")) ≡ 0
unfolding parse_config step ◌-ℤ◌ ◌+ℤ◌
no_blank_brace = refl

-- A brace behind the name of a network becomes a part of the name, and the first range is lost.
brace_in_name : first_name_of (parsed (codes "shared-network d{ range 1 5; }\n")) ≡ codes "d{"
unfolding parse_config step ◌-ℤ◌ ◌+ℤ◌ update
brace_in_name = refl

brace_in_name_range : num_ranges_of (parsed (codes "shared-network d{ range 1 5; }\n")) ≡ 0
unfolding parse_config step ◌-ℤ◌ ◌+ℤ◌
brace_in_name_range = refl
