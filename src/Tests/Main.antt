-- ===== src/Tests/Main.antt =====
-- The whole program, on two small files.
use dhcpd_pools.Base.{◌≡◌, ◌≢◌, refl, ℕ, true, false, List, [], ◌∷◌, ◌++◌, some, inl, arith}
use dhcpd_pools.Base.Text.{codes}
use dhcpd_pools.Base.Result.{Result, ok, err}
use dhcpd_pools.Data.{Bytes, v4, ipv_unknown}
use dhcpd_pools.Alarm.{a_bit}
use dhcpd_pools.Alarm.Status.{worst}
use dhcpd_pools.Conf.State.{Failure, Globals}
use dhcpd_pools.Conf.{parse_config, step}
use dhcpd_pools.Output.{Sheet, stdout}
use dhcpd_pools.Output.Csv.Reader.{read_csv}
use dhcpd_pools.Output.Csv.Columns.{tables, sum_row}
use dhcpd_pools.Run.{
  Argument, format, warning, Settings, set_options, Stop, output_json, select_output,
}
use dhcpd_pools.Run.Job.{prepare_memory, config_of, job}
use dhcpd_pools.Run.World.{Build, World}
use dhcpd_pools.Run.Main.{defaults, main, returns}
use dhcpd_pools.Run.Report.{IsWritable, main-csv}
use dhcpd_pools.Run.Alarming.{looked_at, first_word, word_of, main-alarming}
use dhcpd_pools.Run.Liveness.{StatusBound, main-returns}
use dhcpd_pools.Tests.Data.{
  digit_inet, list_table, list_table-IsUthash, nat_doubles, small_networks, range_of, ipv4-known,
}
use dhcpd_pools.Tests.Output.{
  small_sheet, digit_printf, digit_printf-IsPrintf, digit_ntop, digit_ntop-IsNtop,
}
use dhcpd_pools.Tests.Run.{
  merge_qsort, merge_qsort-IsSort, list_table-IsSort, digit_strtod, two_files,
}

abbrev build : Build nat_doubles
build = record {
  dhcpdconf_file = codes "/etc/dhcpd.conf";
  dhcpdlease_file = codes "/var/dhcpd.leases";
  output_limit = codes "77";
  output_format = codes "t";
  alarm_warn = 80;
  alarm_crit = 90;
  package_string = codes "pools";
  package_url = codes "http:";
  package_bugreport = codes "bugs";
}

abbrev world : World nat_doubles
world = record {
  inet = digit_inet;
  uthash = list_table;
  qsort = merge_qsort;
  strtod = digit_strtod;
  printf = digit_printf;
  ntop = digit_ntop;
  limit = 4096;
  files = two_files;
  modified = λ name. some (codes "now");
  opens = λ name. true;
  closes = λ stream. true;
  flushes = true;
  garbage = v4 0;
  networks = small_networks;
  ranges = λ k. range_of 0 0 0;
  program_name = codes "pools";
}

abbrev settings_of : Result Stop (Settings nat_doubles) → Settings nat_doubles
settings_of (ok s) = s
settings_of (err stop) = defaults nat_doubles build world

abbrev csv_argv : List Argument
csv_argv = format (codes "c") ∷ []

abbrev csv_settings : Settings nat_doubles
csv_settings =
    settings_of (set_options nat_doubles digit_strtod csv_argv (defaults nat_doubles build world))

abbrev alarm_argv : List Argument
alarm_argv = warning (codes "5") ∷ []

abbrev alarm_settings : Settings nat_doubles
alarm_settings =
    settings_of (set_options nat_doubles digit_strtod alarm_argv (defaults nat_doubles build world))

abbrev memory : Globals
memory = prepare_memory small_networks (λ k. range_of 0 0 0)

abbrev no_sheet : Sheet
no_sheet = small_sheet

abbrev sheet_with : Settings nat_doubles → Sheet
sheet_with settings =
    elim (job digit_inet list_table merge_qsort 4096 1 two_files (v4 0) nat_doubles settings false
      memory) [ ok s ↦ s | err reason ↦ no_sheet ]

writable : (settings : Settings nat_doubles) → IsWritable nat_doubles build world settings
writable settings = record { opens = λ h. refl; closes = refl; flushes = refl }

main-csv_example :
    (text : Bytes) × (main nat_doubles build world 1 csv_argv ≡ returns 0 stdout text)
    × (read_csv text
        ≡ some (
            tables digit_printf digit_ntop (sheet_with csv_settings)
            ++ sum_row digit_printf digit_ntop (sheet_with csv_settings)))
unfolding defaults set_options select_output job prepare_memory a_bit step
main-csv_example =
    main-csv nat_doubles build world csv_settings digit_printf-IsPrintf digit_ntop-IsNtop
      (λ k. (refl, (refl, (refl, tt)))) (writable csv_settings) 1 csv_argv false
      (sheet_with csv_settings) refl refl refl refl

main-alarming_example :
    (ret_val : ℕ) × (text : Bytes) × (main nat_doubles build world 1 alarm_argv
      ≡ returns ret_val stdout text)
    × (ret_val ≡ worst (looked_at nat_doubles alarm_settings.limits (sheet_with alarm_settings)))
    × (first_word text ≡ word_of alarm_settings.limits.number_limit ret_val)
unfolding defaults set_options select_output job prepare_memory step
main-alarming_example =
    main-alarming nat_doubles build world alarm_settings (writable alarm_settings) (inl refl) 1
      alarm_argv false (sheet_with alarm_settings) refl refl refl

abbrev json_argv : List Argument
json_argv = format (codes "j") ∷ []

abbrev json_settings : Settings nat_doubles
json_settings =
    settings_of (set_options nat_doubles digit_strtod json_argv (defaults nat_doubles build world))

abbrev configured : Result Failure Globals
configured =
    config_of digit_inet list_table merge_qsort 4096 1 two_files (v4 0) nat_doubles json_settings
      false memory

abbrev globals : Globals
globals = elim configured [ ok g ↦ g | err f ↦ memory ]

globals-known : globals.ip_version ≢ ipv_unknown
unfolding defaults set_options step prepare_memory parse_config
globals-known e = ipv4-known e

main-returns_example :
    (ret_val : ℕ) × (text : Bytes) × (main nat_doubles build world 1 json_argv
      ≡ returns ret_val stdout text)
    × StatusBound output_json ret_val
unfolding defaults set_options select_output step prepare_memory parse_config
main-returns_example =
    main-returns nat_doubles build world json_settings list_table-IsUthash list_table-IsSort
      merge_qsort-IsSort (omega arith) (omega arith) (writable json_settings) 1 json_argv
      output_json false globals (codes "lease 3 {\n  binding state active;\n") refl refl refl
      globals-known refl tt
