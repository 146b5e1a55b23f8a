-- ===== src/Run/Alarming.antt =====
-- src/dhcpd-pools.c and src/output.c: the exit status of `main` for the alarm output, and the first word
-- of its text.
use mathlib.Core.Option.{map as map_option}
use dhcpd_pools.Base.{
  ◌≡◌, ◌⊎◌, refl, ap, ◌∙◌, ℕ, ◌==◌, Bool, true, false, List, [], ◌∷◌, ◌++◌, Option, none, some,
  if◌then◌else◌, Bool-cases, inl, inr,
}
use dhcpd_pools.Base.Text.{codes, char_at}
use dhcpd_pools.Base.Result.{ok}
use dhcpd_pools.Double.{Doubles}
use dhcpd_pools.Data.{Bytes}
use dhcpd_pools.Alarm.{
  Limits, Level, Headline, head_critical, head_warning, head_ok, Report, a_bit, s_bit,
}
use dhcpd_pools.Alarm.Status.{worst, headline_of, range_levels, net_levels, output_alarming-status}
use dhcpd_pools.Alarm.Perf.{output_alarming-returns}
use dhcpd_pools.Output.{Printf, Ntop, Sheet, format}
use dhcpd_pools.Output.Alarming.{alarm_head, alarm_text, alarm_output}
use dhcpd_pools.Run.{Settings, Argument, output_alarming, set_options, select_output}
use dhcpd_pools.Run.Job.{prepare_memory, job}
use dhcpd_pools.Run.World.{Build, World}
use dhcpd_pools.Run.Main.{returns, defaults, output_analysis, main}
use dhcpd_pools.Run.Report.{stream_of, IsWritable, main-output_sheet, output_sheet-returns}

-- What stands in front of the first colon.
unfoldable pub first_word : Bytes → Bytes
first_word [] = []
first_word (c ∷ text) = if c == b':' then [] else c ∷ first_word text

-- The word that a monitoring system shows for an exit status; without the third bit of the number limit
-- nothing is printed if all is well.
unfoldable pub word_of : (number_limit status : ℕ) → Bytes
unfolding a_bit
word_of number_limit status =
    if status == 2
    then codes "CRITICAL"
    else if status == 1
    then codes "WARNING"
    else if a_bit number_limit
    then codes "OK"
    else []

abbrev headline_word : Option Headline → Bytes
headline_word none = []
headline_word (some head_critical) = codes "CRITICAL"
headline_word (some head_warning) = codes "WARNING"
headline_word (some head_ok) = codes "OK"

headline_word-headline_of :
    (mask code : ℕ) → headline_word (headline_of mask code) ≡ word_of mask code
unfolding headline_of word_of
headline_word-headline_of mask code = elim (Bool-cases (code == 2)) [
  | inl e ↦ rw e refl
  | inr e ↦ elim (Bool-cases (code == 1)) [
    | inl f ↦ rw (e, f) refl
    | inr f ↦ elim (Bool-cases (a_bit mask)) [
      | inl h ↦ rw (e, f, h) refl
      | inr h ↦ rw (e, f, h) refl
    ]
  ]
]

-- The entries that output_alarming looks at.
abbrev pub looked_at : (d : Doubles) → Limits d → Sheet → List Level
looked_at d config s =
    range_levels d s.ip_version config s.ranges s.shared_networks s.num_shared_networks
    ++ net_levels d s.ip_version config s.ranges s.shared_networks s.num_shared_networks

module _ (d : Doubles) (pf : Printf d) (ntop : Ntop) (config : Limits d) (program_name : Bytes)
    (s : Sheet) where
  headed :
      (h : Headline) (rest : Bytes)
      → first_word (alarm_head d pf ntop config program_name s h ++ rest) ≡ headline_word (some h)
  unfolding first_word alarm_head format
  headed head_critical rest = refl
  headed head_warning rest = refl
  headed head_ok rest = refl

  first_word-alarm_text :
      (report : Option Report)
      → first_word (alarm_text d pf ntop config program_name s report)
        ≡ headline_word (map_option (λ r. r.headline) report)
  unfolding alarm_text first_word
  first_word-alarm_text none = refl
  first_word-alarm_text (some report) = headed report.headline _

  pub alarm_output-worst :
      (config.perfdata ≡ false)
        ⊎ ((config.snet_alarms ≡ false) × (s_bit config.number_limit ≡ true))
      → (text : Bytes) × (alarm_output d pf ntop config program_name s
          ≡ some (worst (looked_at d config s), text))
        × (first_word text ≡ word_of config.number_limit (worst (looked_at d config s)))
  unfolding alarm_output
  alarm_output-worst h =
      let ((code, report), e) =
        output_alarming-returns d s.ip_version config s.ranges s.shared_networks
          s.num_shared_networks h in
      let (c, k) =
        output_alarming-status d s.ip_version config s.ranges s.shared_networks
          s.num_shared_networks code report e in
      (
        alarm_text d pf ntop config program_name s report,
        rw (alarm_output, e)
            (ap (λ n. some (n, alarm_text d pf ntop config program_name s report)) c),
        first_word-alarm_text report
            ∙ ap headline_word k
            ∙ headline_word-headline_of config.number_limit code
            ∙ ap (word_of config.number_limit) c,
      )

module _ (d : Doubles) (build : Build d) (w : World d) (settings : Settings d) where
  -- With the alarm format, if the options are good, the two files give a table, the output can be opened,
  -- closed and flushed, and no performance data are asked for (or `--snet-alarms` is off and the
  -- number limit asks for the shared networks): main returns the status of the worst range or
  -- network it looked at, and the text that it has written begins with the word for that status.
  pub main-alarming :
      IsWritable d build w settings
      → (settings.limits.perfdata ≡ false)
        ⊎ ((settings.limits.snet_alarms ≡ false) × (s_bit settings.limits.number_limit ≡ true))
      → (fuel : ℕ) (argv : List Argument) (print_mac_addreses : Bool) (s : Sheet)
      → set_options d w.strtod argv (defaults d build w) ≡ ok settings
      → select_output (char_at settings.format 0) ≡ ok (output_alarming, print_mac_addreses)
      → job w.inet w.uthash w.qsort w.limit fuel w.files w.garbage d settings print_mac_addreses
          (prepare_memory w.networks w.ranges)
        ≡ ok s
      → (ret_val : ℕ) × (text : Bytes) × (main d build w fuel argv
          ≡ returns ret_val (stream_of settings.output_file) text)
        × (ret_val ≡ worst (looked_at d settings.limits s))
        × (first_word text ≡ word_of settings.limits.number_limit ret_val)
  unfolding output_analysis
  main-alarming o h fuel argv macs s a b c =
      let (text, e, word) =
        alarm_output-worst d w.printf w.ntop settings.limits w.program_name s h in
      (
        _,
        text,
        main-output_sheet d build w settings fuel argv output_alarming macs s a b c
            ∙ output_sheet-returns d build w settings o output_alarming s _ text
                (rw (output_analysis, e) refl),
        refl,
        word,
      )
