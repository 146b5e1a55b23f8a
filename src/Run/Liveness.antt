-- ===== src/Run/Liveness.antt =====
-- src/dhcpd-pools.c: `main` comes to its end with every format.
use dhcpd_pools.Base.{
  sym, ap, ◌≡◌, ◌≢◌, ◌⊎◌, refl, ◌∙◌, ℕ, ◌≤◌, ◌<◌, ◌^◌, Bool, true, false, List, [], ◌∷◌, some,
  arith, inl, inr, Option-cases,
}
use dhcpd_pools.Base.Text.{char_at}
use dhcpd_pools.Base.Result.{ok}
use dhcpd_pools.Double.{Doubles}
use dhcpd_pools.Data.{Bytes, ipv_unknown}
use dhcpd_pools.Alarm.{Level, critical, warning, okay, ignored, s_bit}
use dhcpd_pools.Alarm.Status.{severity, worst}
use dhcpd_pools.Conf.State.{Globals}
use dhcpd_pools.Leases.Table.{IsUthash}
use dhcpd_pools.Output.{Sheet}
use dhcpd_pools.Output.HtmlParts.{html_header}
use dhcpd_pools.Output.Html
use dhcpd_pools.Run.{
  Stop, illegal_mask, illegal_number, unknown_sort, deprecated_output, unknown_output,
  shows_version, shows_help, unknown_option, Settings, Argument, Output, output_txt,
  output_alarming, output_html, output_xml, output_json, output_csv, set_options, select_output,
}
use dhcpd_pools.Run.Analysis.{IsSort}
use dhcpd_pools.Run.Job.{prepare_memory, config_of, job-counted}
use dhcpd_pools.Run.World.{Build, World}
use dhcpd_pools.Run.Usage.{Farewell, out, usage, print_version}
use dhcpd_pools.Run.Main.{
  stops, status_of, farewell, page, printed, returns, defaults, output_analysis, main,
}
use dhcpd_pools.Run.Report.{stream_of, IsWritable, main-output_sheet, output_sheet-returns}
use dhcpd_pools.Run.Alarming.{looked_at, alarm_output-worst}

worst-bound : (levels : List Level) → worst levels ≤ 2
unfolding worst severity
worst-bound [] = omega arith
worst-bound (critical ∷ levels) = omega (arith, worst-bound levels)
worst-bound (warning ∷ levels) = omega (arith, worst-bound levels)
worst-bound (okay ∷ levels) = omega (arith, worst-bound levels)
worst-bound (ignored ∷ levels) = omega (arith, worst-bound levels)

-- Only the alarm output has a status of its own.
abbrev pub StatusBound : Output → ℕ → Type 0
StatusBound output_alarming n = n ≤ 2
StatusBound output_txt n = n ≡ 0
StatusBound output_html n = n ≡ 0
StatusBound output_xml n = n ≡ 0
StatusBound output_json n = n ≡ 0
StatusBound output_csv n = n ≡ 0

module _ (d : Doubles) (build : Build d) (w : World d) (settings : Settings d) where
  -- What a format needs beyond the table: the time of the lease file, or that no performance data are
  -- asked for, or for shared networks in the number limit and without `--snet-alarms`.
  abbrev pub IsPrintable : Output → Type 0
  IsPrintable output_html = (outstr : Bytes) × (w.modified settings.dhcpdlease_file ≡ some outstr)
  IsPrintable output_alarming =
      (settings.limits.perfdata ≡ false)
      ⊎ ((settings.limits.snet_alarms ≡ false) × (s_bit settings.limits.number_limit ≡ true))
  IsPrintable output_txt = Unit {0}
  IsPrintable output_xml = Unit {0}
  IsPrintable output_json = Unit {0}
  IsPrintable output_csv = Unit {0}

  output_analysis-printed :
      (output : Output) (s : Sheet)
      → IsPrintable output
      → (ret_val : ℕ) × (text : Bytes) × (output_analysis d build w settings output s
          ≡ printed ret_val text)
        × StatusBound output ret_val
  unfolding output_analysis Html.output_html html_header
  output_analysis-printed output_txt s h = (0, _, refl, refl)
  output_analysis-printed output_xml s h = (0, _, refl, refl)
  output_analysis-printed output_json s h = (0, _, refl, refl)
  output_analysis-printed output_csv s h = (0, _, refl, refl)
  output_analysis-printed output_html s (outstr, e) =
      elim (Option-cases (Html.output_html d w.printf w.ntop s (page d build w settings))) [
        | inl f ↦ cc (rw (Html.output_html, html_header, e) at f)
        | inr (text, f) ↦ (0, text, rw (output_analysis, f) refl, refl)
      ]
  output_analysis-printed output_alarming s h =
      let (text, e, word) =
        alarm_output-worst d w.printf w.ntop settings.limits w.program_name s h in
      (_, text, rw (output_analysis, e) refl, worst-bound (looked_at d settings.limits s))

  -- The program comes to its end, with any format. The memory for ranges has a bound between 64 entries and
  -- 2 ^ 31, uthash and the sorts do what they document, the options are good, the configuration is parsed and
  -- tells the version of its addresses, the lease file is there, the output can be opened, closed and
  -- flushed, and the format has what it needs (`IsPrintable`). Then main returns, and the text is in the file
  -- or on the standard output; the status is 0, and for the alarm output at most 2.
  pub main-returns :
      IsUthash w.uthash
      → IsSort w.uthash.hash_sort
      → IsSort w.qsort
      → 64 ≤ w.limit
      → w.limit < 2 ^ 31
      → IsWritable d build w settings
      → (fuel : ℕ) (argv : List Argument) (output : Output) (print_mac_addreses : Bool)
        (g : Globals) (file : Bytes)
      → set_options d w.strtod argv (defaults d build w) ≡ ok settings
      → select_output (char_at settings.format 0) ≡ ok (output, print_mac_addreses)
      → config_of w.inet w.uthash w.qsort w.limit fuel w.files w.garbage d settings
          print_mac_addreses
          (prepare_memory w.networks w.ranges)
        ≡ ok g
      → g.ip_version ≢ ipv_unknown
      → w.files settings.dhcpdlease_file ≡ some file
      → IsPrintable output
      → (ret_val : ℕ) × (text : Bytes) × (main d build w fuel argv
          ≡ returns ret_val (stream_of settings.output_file) text)
        × StatusBound output ret_val
  main-returns laws hash_sorts sorts_ranges more less o fuel argv output macs g file a b parsed
        known there h =
      let (s, table, c, distinct, states, counted) =
        job-counted w.inet w.uthash w.qsort w.limit fuel w.files w.garbage d settings macs laws
          hash_sorts sorts_ranges more less w.networks w.ranges g file parsed known there in
      let (ret_val, text, e, bound) = output_analysis-printed output s h in
      (
        ret_val,
        text,
        main-output_sheet d build w settings fuel argv output macs s a b c
            ∙ output_sheet-returns d build w settings o output s ret_val text e,
        bound,
      )

  said :
      {g : Farewell} (f : Farewell)
      → some g ≡ some f
      → (some g.status ≡ some f.status) × (f.stream ≡ g.stream)
  said {g} f e =
      let same : g ≡ f = cc in
      (ap (λ (x : Farewell). some x.status) same, ap (λ (x : Farewell). x.stream) (sym same))

  -- The texts that the program prints on request go to the standard output, and the program ends with
  -- the status that they carry.
  farewell-status_of :
      (reason : Stop) (f : Farewell)
      → farewell d build w reason ≡ some f
      → (status_of (stops reason) ≡ some f.status) × (f.stream ≡ out)
  unfolding farewell status_of usage print_version
  farewell-status_of shows_version f e = said f e
  farewell-status_of shows_help f e = said f e
  farewell-status_of illegal_mask f e = cc
  farewell-status_of illegal_number f e = cc
  farewell-status_of unknown_sort f e = cc
  farewell-status_of deprecated_output f e = cc
  farewell-status_of unknown_output f e = cc
  farewell-status_of unknown_option f e = cc
