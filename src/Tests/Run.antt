-- ===== src/Tests/Run.antt =====
-- The options and the passes of `main`, on the small tables.
use mathlib.Core.List.{Perm}
use dhcpd_pools.Base.{
  ◌≢◌, refl, ◌==◌, length, if◌then◌else◌, Option, none, ◌≡◌, ◌-◌, true, false, List, [], ◌∷◌, some,
  arith, map, is_negative,
}
use dhcpd_pools.Base.Text.{codes}
use dhcpd_pools.Data.{Bytes, ipv_unknown, ipv4, v4, IpAddr, Range, Lease}
use dhcpd_pools.Counting.{Networks}
use dhcpd_pools.Counting.Totals.{counted}
use dhcpd_pools.Sort.{comp_cur}
use dhcpd_pools.Sort.Engine.{mergesort}
use dhcpd_pools.Sort.Engine.Steps.{mergesort-permutes}
use dhcpd_pools.Sort.Engine.Order.{mergesort-IsSorted}
use dhcpd_pools.Run.{Argument, limit, warning, sort, Settings, Strtod, set_options, Qsort, analyse}
use dhcpd_pools.Run.Options.{MaskedResult, set_options-Masked}
use dhcpd_pools.Run.Analysis.{IsSort, analyse-counted}
use dhcpd_pools.Base.Result.{Result, ok, err}
use dhcpd_pools.Conf.State.{Failure, Globals}
use dhcpd_pools.Conf.{parse_config, step}
use dhcpd_pools.Leases.{lines_from}
use dhcpd_pools.Leases.Table.{state_of, IsDistinct}
use dhcpd_pools.Leases.Parse.{last_state}
use dhcpd_pools.Output.{Sheet}
use dhcpd_pools.Run.Job.{prepare_memory, entries, config_of, job, job-counted}
use dhcpd_pools.Tests.Data.{
  digit_inet, list_table-IsUthash, range_of, ipv4-known, nat_doubles, list_table, small_leases,
  small_leases-IsDistinct, small_ranges, small_networks,
}

abbrev pub merge_qsort : Qsort
merge_qsort compare ranges = mergesort (λ a b. is_negative (compare a b)) ranges

pub list_table-IsSort : IsSort list_table.hash_sort
list_table-IsSort = record {
  permutes = λ compare ls. mergesort-permutes _ ls;
  sorts = λ compare o ls. mergesort-IsSorted compare o ls;
}

pub merge_qsort-IsSort : IsSort merge_qsort
merge_qsort-IsSort = record {
  permutes = λ compare ls. mergesort-permutes _ ls;
  sorts = λ compare o ls. mergesort-IsSorted compare o ls;
}

analyse-counted_example :
    (out : List Range) × (final : Networks) × (analyse list_table merge_qsort ipv4 nat_doubles
        (some comp_cur ∷ [])
        true
        small_leases
        small_ranges
        small_networks
      ≡ some (out, final))
    × Perm out (map (counted ipv4 small_leases) small_ranges)
analyse-counted_example =
    analyse-counted list_table list_table-IsSort merge_qsort merge_qsort-IsSort ipv4 small_leases
      small_ranges small_networks nat_doubles (some comp_cur ∷ []) true small_leases-IsDistinct
      (omega arith)

-- A number is a single digit.
abbrev pub digit_strtod : Strtod nat_doubles
digit_strtod s = elim s [ [] ↦ (0, false, []) | ◌∷◌ c cs ↦ (c - 48, false, cs) ]

abbrev settings : Settings nat_doubles
settings = record {
  dhcpdconf_file = codes "/etc/dhcpd.conf";
  dhcpdlease_file = codes "/var/dhcpd.leases";
  output_file = [];
  sorts = [];
  reverse_order = false;
  all_as_shared = false;
  limits = record {
    warning = 80;
    critical = 90;
    warn_count = 4294967296;
    crit_count = 4294967296;
    minsize = 0;
    snet_alarms = false;
    perfdata = false;
    header_limit = 7;
    number_limit = 7;
  };
  format = codes "t";
}

abbrev arguments : List Argument
arguments = limit (codes "32") ∷ warning (codes "5") ∷ sort (codes "nc") ∷ []

set_options-Masked_example : MaskedResult (set_options nat_doubles digit_strtod arguments settings)
set_options-Masked_example =
    set_options-Masked nat_doubles digit_strtod arguments settings (omega arith, omega arith)

abbrev pub two_files : Bytes → Option Bytes
two_files name =
    if length name == 15
    then some (codes "range 1 5;")
    else some (codes "lease 3 {\n  binding state active;\n")

abbrev empty_memory : Globals
empty_memory = prepare_memory small_networks (λ k. range_of 0 0 0)

abbrev configured : Result Failure Globals
configured =
    config_of digit_inet list_table merge_qsort 4096 1 two_files (v4 0) nat_doubles settings true
      empty_memory

abbrev small_globals : Globals
small_globals = elim configured [ ok g ↦ g | err f ↦ empty_memory ]

configured-ok : configured ≡ ok small_globals
unfolding parse_config step prepare_memory
configured-ok = refl

small_globals-known : small_globals.ip_version ≢ ipv_unknown
unfolding parse_config step prepare_memory
small_globals-known e = ipv4-known e

job-counted_example :
    (sheet : Sheet) × (table : List Lease) × (job digit_inet list_table merge_qsort 4096 1 two_files
        (v4 0)
        nat_doubles
        settings
        true
        empty_memory
      ≡ ok sheet)
    × IsDistinct small_globals.ip_version table
    × ((b : IpAddr)
        → state_of small_globals.ip_version b table
          ≡ last_state digit_inet small_globals.ip_version b
              (lines_from [] [] 1023 (codes "lease 3 {\n  binding state active;\n"))
              (v4 0)
              none)
    × Perm sheet.ranges (
        map
          (counted small_globals.ip_version table)
          (entries small_globals.ranges 0 small_globals.num_ranges))
job-counted_example =
    job-counted digit_inet list_table merge_qsort 4096 1 two_files (v4 0) nat_doubles settings true
      list_table-IsUthash list_table-IsSort merge_qsort-IsSort (omega arith) (omega arith)
      small_networks (λ k. range_of 0 0 0) small_globals
      (codes "lease 3 {\n  binding state active;\n") configured-ok small_globals-known refl
