-- ===== src/Output/Alarming.antt =====
-- src/output.c: the text that `output_alarming` prints.
--
-- What it prints of its tables is the report of Alarm; the formats and their arguments are here.
use dhcpd_pools.Base.{ℕ, ◌==◌, not, ◌&&◌, List, [], ◌∷◌, ◌++◌, Option, none, some}
use mathlib.Core.Option
use dhcpd_pools.Base.Text.{codes}
use dhcpd_pools.Base.Int.{pos}
use dhcpd_pools.Double.{Doubles}
use dhcpd_pools.Data.{Bytes, SharedNetwork, Range}
use dhcpd_pools.Sort.{range_size}
use dhcpd_pools.Alarm.{
  Limits, Tally, Headline, head_critical, head_warning, head_ok, Report, r_bit, output_alarming,
}
use dhcpd_pools.Output.{
  Printf, Ntop, Sheet, Arg, str, dbl, int, ntop_ipaddr, format, fprintf, count, when,
}

module _ (d : Doubles) (pf : Printf d) (ntop : Ntop) (config : Limits d) (program_name : Bytes)
    (s : Sheet) where
  abbrev print : Bytes → List (Arg d) → Bytes
  print = fprintf d pf

  -- The first word of the line.
  unfoldable pub alarm_head : Headline → Bytes
  unfolding format
  alarm_head head_critical = print (codes "CRITICAL: %s:") (str program_name ∷ [])
  alarm_head head_warning = print (codes "WARNING: %s:") (str program_name ∷ [])
  alarm_head head_ok = print (codes "OK:") []

  -- The three counters, and that of what is ignored if it is not zero, under two formats.
  unfoldable pub alarm_counters : (counters ignored : Bytes) → Tally → Bytes
  unfolding format
  alarm_counters counters ignored t =
      print counters (int t.criticals ∷ int t.warnings ∷ int t.okays ∷ [])
      ++ when (not (t.ignoreds == 0)) (print ignored (int t.ignoreds ∷ []))

  -- A percentage of a size.
  unfoldable pub limit_of : d.Double → d.Double → d.Double
  limit_of size percent = d.div (d.mul size percent) (d.of_ℤ (pos 100))

  -- The performance data of a range.
  unfoldable pub alarm_range : Range → Bytes
  unfolding format ntop_ipaddr limit_of
  alarm_range r =
      let size = range_size d s.ip_version r in
      let first = ntop_ipaddr ntop s.ip_version r.first_ip in
      print (codes " %s_r=") (str first ∷ [])
      ++ (print (codes "%g;%g;%g;0;%g") (
            count d pf r.count
            ∷ dbl (limit_of size config.warning)
            ∷ dbl (limit_of size config.critical)
            ∷ dbl size
            ∷ [])
          ++ (print (codes " %s_rt=%g") (str first ∷ count d pf r.touched ∷ [])
              ++ when s.backups_found
                  (print (codes " %s_rbu=%g") (str first ∷ count d pf r.backups ∷ []))))

  unfoldable pub alarm_ranges : List Range → Bytes
  unfolding alarm_range
  alarm_ranges [] = []
  alarm_ranges (r ∷ ranges) = alarm_range r ++ alarm_ranges ranges

  -- The performance data of a shared network.
  unfoldable pub alarm_network : SharedNetwork → Bytes
  unfolding format limit_of
  alarm_network n =
      let available = d.of_ℤ n.available in
      print (codes " '%s_s'=%g;%g;%g;0;%g") (
        str n.name
        ∷ count d pf n.used
        ∷ dbl (limit_of available config.warning)
        ∷ dbl (limit_of available config.critical)
        ∷ dbl available
        ∷ [])
      ++ (print (codes " '%s_st'=%g") (str n.name ∷ count d pf n.touched ∷ [])
          ++ when s.backups_found
              (print (codes " '%s_sbu'=%g") (str n.name ∷ count d pf n.backups ∷ [])))

  unfoldable pub alarm_networks : List ℕ → Bytes
  unfolding alarm_network
  alarm_networks [] = []
  alarm_networks (k ∷ ks) = alarm_network (s.shared_networks k) ++ alarm_networks ks

  unfoldable pub alarm_range_part : Option (Tally × List Range) → Bytes
  unfolding format alarm_counters alarm_ranges
  alarm_range_part none = print (codes " ") []
  alarm_range_part (some (t, ranges)) =
      alarm_counters (codes " Ranges - crit: %d warn: %d ok: %d") (codes " ignored: %d") t
      ++ (alarm_counters (codes "; | range_crit=%d range_warn=%d range_ok=%d")
            (codes " range_ignored=%d") t
          ++ (alarm_ranges ranges ++ print (codes "\n") []))

  unfoldable pub alarm_network_part : Option (Tally × List ℕ) → Bytes
  unfolding format alarm_counters alarm_networks r_bit
  alarm_network_part none = []
  alarm_network_part (some (t, ks)) =
      alarm_counters (codes "Shared nets - crit: %d warn: %d ok: %d") (codes " ignored: %d") t
      ++ (alarm_counters (codes "; | snet_crit=%d snet_warn=%d snet_ok=%d")
            (codes " snet_ignored=%d") t
          ++ (alarm_networks ks
              ++ when (config.perfdata && r_bit config.header_limit) (print (codes "\n") [])))

  -- What is printed; nothing at the early return.
  unfoldable pub alarm_text : Option Report → Bytes
  unfolding format alarm_head alarm_range_part alarm_network_part
  alarm_text none = []
  alarm_text (some report) =
      alarm_head report.headline
      ++ (alarm_range_part report.range_part
          ++ (alarm_network_part report.net_part ++ print (codes "\n") []))

  -- The exit status and the text; `none` is a read out of bounds.
  unfoldable pub alarm_output : Option (ℕ × Bytes)
  unfolding output_alarming alarm_text
  alarm_output =
      Option.map (λ (o : ℕ × Option Report). (o.0, alarm_text o.1))
        (output_alarming d s.ip_version config s.ranges s.shared_networks s.num_shared_networks)
