-- ===== src/Run/Job.antt =====
-- src/dhcpd-pools.c: `prepare_memory`, and the part of `main` from the two files to the table that the
-- output functions print.
use mathlib.Core.List.{Perm}
use dhcpd_pools.Base.{
  ℕ, zero, suc, ◌≤◌, ◌<◌, ◌^◌, Bool, true, false, List, [], ◌∷◌, Option, none, some, ◌≡◌, ◌≢◌, refl,
  ap, arith, map, length,
}
use dhcpd_pools.Base.Text.{codes}
use dhcpd_pools.Base.Result.{Result, ok, err}
use dhcpd_pools.Double.{Doubles}
use dhcpd_pools.Data.{Bytes, ipv_unknown, IpAddr, Range, Lease}
use dhcpd_pools.Address.{Inet}
use dhcpd_pools.Counting.{Networks}
use dhcpd_pools.Counting.Totals.{counted}
use dhcpd_pools.Conf.State.{Failure, Globals}
use dhcpd_pools.Conf.{parse_config}
use dhcpd_pools.Conf.Safety.{IsRoomy, parse_config-IsRoomy}
use dhcpd_pools.Leases.{Uthash, LeaseFile, lines_from, parse_leases}
use dhcpd_pools.Leases.Table.{IsUthash, state_of, IsDistinct}
use dhcpd_pools.Leases.Parse.{last_state, step_lines-Effect}
use dhcpd_pools.Output.{Sheet}
use dhcpd_pools.Run.{Settings, Qsort, prepare_data, analyse}
use dhcpd_pools.Run.Analysis.{IsSort, analyse-counted}

-- `networks` and `ranges` are what xmalloc returns.
unfoldable pub prepare_memory : (networks : Networks) (ranges : ℕ → Range) → Globals
prepare_memory networks ranges = record {
  ip_version = ipv_unknown;
  shared_networks = λ k. elim k [
    | zero ↦ record (networks 0) { name = codes "All networks"; used = 0; touched = 0; backups = 0 }
    | suc n ↦ networks (suc n)
  ];
  num_shared_networks = 0;
  ranges = ranges;
  num_ranges = 0;
  ranges_size = 64;
}

-- The first entries of a table.
unfoldable pub entries : (table : ℕ → Range) (start num : ℕ) → List Range
entries table start zero = []
entries table start (suc num) = table start ∷ entries table (suc start) num

length-entries : (table : ℕ → Range) (start num : ℕ) → length (entries table start num) ≡ num
unfolding entries
length-entries table start zero = refl
length-entries table start (suc num) = ap suc (length-entries table (suc start) num)

-- The tables that the program starts with have room for one range and one network more.
pub prepare_memory-IsRoomy :
    (limit : ℕ) (networks : Networks) (ranges : ℕ → Range)
    → 64 ≤ limit
    → IsRoomy limit (prepare_memory networks ranges)
unfolding prepare_memory
prepare_memory-IsRoomy limit networks ranges more = record {
  ranges = omega arith;
  memory = more;
  networks = omega arith;
}

-- Why there is no table.
pub data Trouble : Type 0 where
  config_fails : Failure → Trouble
  leases_missing out_of_bounds : Trouble

module _ (inet : Inet) (u : Uthash) (qsort : Qsort) (limit fuel : ℕ) (files : Bytes → Option Bytes)
    (garbage : IpAddr) (d : Doubles) (settings : Settings d) (print_mac_addreses : Bool) where
  abbrev pub config_of : Globals → Result Failure Globals
  config_of =
      parse_config inet limit files settings.all_as_shared garbage fuel true settings.dhcpdconf_file
        0

  abbrev pub leases_of : Globals → Bytes → LeaseFile
  leases_of g file =
      parse_leases inet u print_mac_addreses file
        (record { ip_version = g.ip_version; addr = garbage; leases = []; backups_found = false })

  -- The table of leases is sorted in place.
  unfoldable pub sheet_of : Globals → LeaseFile → List Range → Networks → Sheet
  unfolding prepare_data
  sheet_of g l ranges networks = record {
    ip_version = l.ip_version;
    header_limit = settings.limits.header_limit;
    number_limit = settings.limits.number_limit;
    backups_found = l.backups_found;
    print_mac_addreses = print_mac_addreses;
    leases = (prepare_data u qsort l.ip_version l.leases ranges).0;
    ranges = ranges;
    shared_networks = networks;
    num_shared_networks = g.num_shared_networks;
  }

  unfoldable pub analysed :
      Globals → LeaseFile → Option (List Range × Networks) → Result Trouble Sheet
  unfolding sheet_of
  analysed g l none = err out_of_bounds
  analysed g l (some (ranges, networks)) = ok (sheet_of g l ranges networks)

  unfoldable pub with_leases : Globals → Option Bytes → Result Trouble Sheet
  unfolding analysed analyse parse_leases
  with_leases g none = err leases_missing
  with_leases g (some file) =
      let l = leases_of g file in
      analysed g l (
        analyse u qsort l.ip_version d settings.sorts settings.reverse_order l.leases
          (entries g.ranges 0 g.num_ranges) g.shared_networks)

  unfoldable pub with_config : Result Failure Globals → Result Trouble Sheet
  unfolding with_leases
  with_config (err f) = err (config_fails f)
  with_config (ok g) = with_leases g (files settings.dhcpdlease_file)

  -- From the two files to the table.
  unfoldable pub job : Globals → Result Trouble Sheet
  unfolding with_config parse_config
  job memory = with_config (config_of memory)

  tabulated :
      IsSort u.hash_sort
      → IsSort qsort
      → (g : Globals) (l : LeaseFile) → IsDistinct l.ip_version l.leases
      → g.num_ranges < 2 ^ 32
      → (sheet : Sheet) × (analysed g l (
            analyse u qsort l.ip_version d settings.sorts settings.reverse_order l.leases
              (entries g.ranges 0 g.num_ranges)
              g.shared_networks)
          ≡ ok sheet)
        × Perm sheet.ranges (map (counted l.ip_version l.leases) (entries g.ranges 0 g.num_ranges))
  unfolding analysed sheet_of
  tabulated hash_sorts sorts_ranges g l distinct short =
      let (out, final, e, permutes) =
        analyse-counted u hash_sorts qsort sorts_ranges l.ip_version l.leases
          (entries g.ranges 0 g.num_ranges) g.shared_networks d settings.sorts
          settings.reverse_order distinct (omega (arith, length-entries g.ranges 0 g.num_ranges)) in
      (sheet_of g l out final, ap (analysed g l) e, permutes)

  ranges-bound :
      64 ≤ limit
      → limit < 2 ^ 31
      → (networks : Networks) (ranges : ℕ → Range) (g : Globals)
      → config_of (prepare_memory networks ranges) ≡ ok g
      → g.num_ranges < 2 ^ 32
  ranges-bound more less networks ranges g parsed =
      let safe =
        parse_config-IsRoomy inet limit less files settings.all_as_shared garbage fuel true
          settings.dhcpdconf_file 0 (prepare_memory networks ranges) g (omega arith)
          (prepare_memory-IsRoomy limit networks ranges more) parsed in
      omega (arith, safe.0.ranges, safe.0.memory)

  -- From the two files to the printed table. The memory for ranges has a bound between 64 entries and
  -- 2 ^ 31, uthash and the sorts do what they document, the configuration is parsed and tells the version
  -- of its addresses, and the lease file is there. Then the program comes to the output. What it prints
  -- is a rearrangement of the ranges of the configuration, each raised by the leases in it, and these
  -- are a table in which each address has the state that the last line about it gives and none occurs twice.
  pub job-counted :
      IsUthash u
      → IsSort u.hash_sort
      → IsSort qsort
      → 64 ≤ limit
      → limit < 2 ^ 31
      → (networks : Networks) (ranges : ℕ → Range) (g : Globals) (file : Bytes)
      → config_of (prepare_memory networks ranges) ≡ ok g
      → g.ip_version ≢ ipv_unknown
      → files settings.dhcpdlease_file ≡ some file
      → (sheet : Sheet) × (table : List Lease) × (job (prepare_memory networks ranges) ≡ ok sheet)
        × IsDistinct g.ip_version table
        × ((b : IpAddr)
            → state_of g.ip_version b table
              ≡ last_state inet g.ip_version b (lines_from [] [] 1023 file) garbage none)
        × Perm sheet.ranges (map (counted g.ip_version table) (entries g.ranges 0 g.num_ranges))
  unfolding job with_config with_leases parse_leases state_of
  job-counted laws hash_sorts sorts_ranges more less networks ranges g file parsed known there =
      let start : LeaseFile = record {
        ip_version = g.ip_version;
        addr = garbage;
        leases = [];
        backups_found = false;
      } in
      let (distinct, states, version) =
        step_lines-Effect inet laws print_mac_addreses (lines_from [] [] 1023 file) start known
          tt in
      let l = leases_of g file in
      let (sheet, e, permutes) =
        tabulated hash_sorts sorts_ranges g l (rw version distinct)
          (ranges-bound more less networks ranges g parsed) in
      (sheet, l.leases, rw (parsed, there) e, distinct, states, rw version at permutes)
