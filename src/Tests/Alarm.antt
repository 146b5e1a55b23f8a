-- ===== src/Tests/Alarm.antt =====
-- The alarms, on the small tables.
use mathlib.Core.Option.{map as map_option}
use dhcpd_pools.Base.{
  ◌≡◌, refl, ℕ, inl, true, false, List, ◌∷◌, ◌++◌, Option, none, some, arith, length, map,
}
use dhcpd_pools.Data.{ipv4, Range}
use dhcpd_pools.Address.{get_range_size}
use dhcpd_pools.Alarm.{
  Limits, Report, no_tally, range_level, range_loop, output_alarming, r_bit, s_bit, a_bit,
}
use dhcpd_pools.Alarm.Ranges.{tally, visited, range_loop-visited}
use dhcpd_pools.Alarm.Status.{worst, headline_of, range_levels, net_levels, output_alarming-status}
use dhcpd_pools.Alarm.Perf.{output_alarming-returns, output_alarming-out_of_bounds}
use dhcpd_pools.Tests.Data.{nat_doubles, small_networks, small_ranges, range_of}

abbrev limits : Limits nat_doubles
limits = record {
  warning = 20;
  critical = 50;
  warn_count = 1000;
  crit_count = 1000;
  minsize = 1;
  snet_alarms = true;
  perfdata = false;
  header_limit = 3;
  number_limit = 7;
}

-- Four of ten addresses are in use, then a range in a shared network.
abbrev watched_ranges : List Range
watched_ranges = record (range_of 0 1 10) { count = 4 } ∷ small_ranges

range_loop-visited_example :
    range_loop nat_doubles ipv4 limits watched_ranges (length watched_ranges) 0 no_tally
    ≡ some (
      tally
          (map
            (range_level nat_doubles ipv4 limits)
            (visited nat_doubles ipv4 limits watched_ranges))
          no_tally,
      length (visited nat_doubles ipv4 limits watched_ranges),
    )
range_loop-visited_example = range_loop-visited nat_doubles ipv4 limits watched_ranges

abbrev outcome : Option (ℕ × Option Report)
outcome = output_alarming nat_doubles ipv4 limits watched_ranges small_networks 1

abbrev report : Option Report
report = elim outcome [ none ↦ none | some out ↦ out.1 ]

outcome-some : outcome ≡ some (1, report)
unfolding output_alarming get_range_size
outcome-some = refl

output_alarming-status_example :
    (1
      ≡ worst (
          range_levels nat_doubles ipv4 limits watched_ranges small_networks 1
          ++ net_levels nat_doubles ipv4 limits watched_ranges small_networks 1))
    × (map_option (λ r. r.headline) report ≡ headline_of 7 1)
output_alarming-status_example =
    output_alarming-status nat_doubles ipv4 limits watched_ranges small_networks 1 1 report
      outcome-some

output_alarming-returns_example :
    (out : ℕ × Option Report) × (output_alarming nat_doubles ipv4 limits watched_ranges
        small_networks 1
      ≡ some out)
output_alarming-returns_example =
    output_alarming-returns nat_doubles ipv4 limits watched_ranges small_networks 1 (inl refl)

abbrev ranges_only : Limits nat_doubles
ranges_only = record limits { perfdata = true; number_limit = 5 }

output_alarming-out_of_bounds_example :
    output_alarming nat_doubles ipv4 ranges_only watched_ranges small_networks 2 ≡ none
unfolding r_bit s_bit a_bit
output_alarming-out_of_bounds_example =
    output_alarming-out_of_bounds nat_doubles ipv4 ranges_only watched_ranges small_networks 2
      (omega arith) refl refl refl refl refl
