-- ===== src/Run/Report.antt =====
-- src/dhcpd-pools.c: `main` comes to its end, and what it has written then.
use dhcpd_pools.Base.{◌≡◌, refl, ◌∙◌, ℕ, ◌&&◌, not, Bool, true, false, List, [], ◌∷◌, ◌++◌, some}
use dhcpd_pools.Base.Machine.{unquoted}
use dhcpd_pools.Base.Text.{char_at}
use dhcpd_pools.Base.Result.{ok}
use dhcpd_pools.Double.{Doubles}
use dhcpd_pools.Data.{Bytes}
use dhcpd_pools.Alarm.{a_bit}
use dhcpd_pools.Output.{Sheet, Stream, stdout, file, deliver}
use dhcpd_pools.Output.Words.{IsPrintf, IsNtop, AllNames}
use dhcpd_pools.Output.Csv.Reader.{read_csv}
use dhcpd_pools.Output.Csv.Columns.{tables, sum_row}
use dhcpd_pools.Output.Csv.Table.{output_csv-rows}
use dhcpd_pools.Run.{Settings, Argument, Output, output_csv, set_options, select_output, is_empty}
use dhcpd_pools.Run.Job.{prepare_memory, job}
use dhcpd_pools.Run.Cleanup.{clean_up}
use dhcpd_pools.Run.World.{Build, World}
use dhcpd_pools.Run.Main.{
  returns, printed, defaults, output_analysis, leave, written, output_sheet, do_the_job, main,
}
use dhcpd_pools.Output.Csv
use dhcpd_pools.Run.Names.{prepare_memory-AllNames, job-AllNames}

-- Where the text goes.
abbrev pub stream_of : Bytes → Stream
stream_of [] = stdout
stream_of (c ∷ name) = file (c ∷ name)

module _ (d : Doubles) (build : Build d) (w : World d) (settings : Settings d) where
  -- The file can be opened, if there is one, and all streams can be closed and flushed.
  pub record IsWritable : Type 0 where
    pub opens : is_empty settings.output_file ≡ false → w.opens settings.output_file ≡ true
    pub closes : w.closes (stream_of settings.output_file) ≡ true
    pub flushes : w.flushes ≡ true

  delivered :
      (output_file text : Bytes)
      → (is_empty output_file ≡ false → w.opens output_file ≡ true)
      → w.closes (stream_of output_file) ≡ true
      → (deliver w.opens w.closes output_file text ≡ some (stream_of output_file, text))
        × ((not (is_empty output_file) && not (w.opens output_file)) ≡ false)
  unfolding deliver
  delivered [] text o k = (rw k refl, refl)
  delivered (c ∷ name) text o k = (rw (o refl, k) refl, rw (o refl) refl)

  pub output_sheet-returns :
      IsWritable
      → (output : Output) (s : Sheet) (ret_val : ℕ) (text : Bytes)
      → output_analysis d build w settings output s ≡ printed ret_val text
      → output_sheet d build w settings output s
        ≡ returns ret_val (stream_of settings.output_file) text
  unfolding output_sheet written leave clean_up
  output_sheet-returns o output s ret_val text e =
      let (sent, open_file) = delivered settings.output_file text o.opens o.closes in
      rw (output_sheet, open_file, e, written, sent, leave, clean_up, o.flushes) refl

  pub main-output_sheet :
      (fuel : ℕ) (argv : List Argument) (output : Output) (print_mac_addreses : Bool) (s : Sheet)
      → set_options d w.strtod argv (defaults d build w) ≡ ok settings
      → select_output (char_at settings.format 0) ≡ ok (output, print_mac_addreses)
      → job w.inet w.uthash w.qsort w.limit fuel w.files w.garbage d settings print_mac_addreses
          (prepare_memory w.networks w.ranges)
        ≡ ok s
      → main d build w fuel argv ≡ output_sheet d build w settings output s
  unfolding main do_the_job
  main-output_sheet fuel argv output print_mac_addreses s a b c =
      rw (main, a, b, do_the_job, c) refl

  -- With the CSV format, if the options are good, the two files give a table, the output can be opened,
  -- closed and flushed, and the line of the sum has no columns for backup leases, main returns 0. What it has
  -- written reads back as the rows of the table, whatever names the configuration gives to
  -- the networks. It is assumed that numbers and addresses are written as words (`IsPrintf`, `IsNtop`), and that
  -- the memory for the names holds no quote at first.
  pub main-csv :
      IsPrintf w.printf
      → IsNtop w.ntop
      → AllNames unquoted w.networks
      → IsWritable
      → (fuel : ℕ) (argv : List Argument) (print_mac_addreses : Bool) (s : Sheet)
      → set_options d w.strtod argv (defaults d build w) ≡ ok settings
      → select_output (char_at settings.format 0) ≡ ok (output_csv, print_mac_addreses)
      → job w.inet w.uthash w.qsort w.limit fuel w.files w.garbage d settings print_mac_addreses
          (prepare_memory w.networks w.ranges)
        ≡ ok s
      → (s.backups_found && a_bit s.number_limit) ≡ false
      → (text : Bytes) × (main d build w fuel argv
          ≡ returns 0 (stream_of settings.output_file) text)
        × (read_csv text ≡ some (tables w.printf w.ntop s ++ sum_row w.printf w.ntop s))
  unfolding output_analysis
  main-csv words addresses named o fuel argv macs s a b c sums = (
    Csv.output_csv d w.printf w.ntop s,
    main-output_sheet fuel argv output_csv macs s a b c
        ∙ output_sheet-returns o output_csv s 0 _ refl,
    output_csv-rows w.printf words w.ntop addresses s
        (job-AllNames w.inet w.uthash w.qsort w.limit fuel w.files w.garbage d settings macs
          (prepare_memory w.networks w.ranges) s (prepare_memory-AllNames w.networks w.ranges named)
          c)
        sums,
  )
