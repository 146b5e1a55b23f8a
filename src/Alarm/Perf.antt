-- ===== src/Alarm/Perf.antt =====
-- The performance data of output_alarming: where its reads are in bounds, and where not.
use dhcpd_pools.Base.{
  ℕ, zero, suc, ◌≤◌, ◌<◌, Bool, true, false, List, [], ◌∷◌, Option, none, some, ◌≡◌, refl, ◌⊎◌, inl,
  inr, ◌&&◌, arith, length, get_elem?,
}
use dhcpd_pools.Double.{Doubles}
use dhcpd_pools.Data.{DhcpVersion, Range}
use dhcpd_pools.Counting.{Networks}
use dhcpd_pools.Alarm.{
  Limits, Tally, no_tally, r_bit, s_bit, a_bit, Headline, Report, choose_headline, part, assemble,
  print_report, range_perf, net_perf, output_alarming,
}
use dhcpd_pools.Alarm.Ranges.{tally, visited-all}
use dhcpd_pools.Alarm.Status.{range_levels, net_levels, range_end, net_end, output_alarming-report}

module _ (d : Doubles) (v : DhcpVersion) (config : Limits d) where
  get_elem?-in :
      (ranges : List Range) (i : ℕ)
      → i < length ranges
      → (r : Range) × (get_elem? ranges i ≡ some r)
  get_elem?-in [] i h = absurd (omega arith)
  get_elem?-in (r ∷ ranges) zero h = (r, refl)
  get_elem?-in (r ∷ ranges) (suc i) h = get_elem?-in ranges i (omega arith)

  range_perf-in :
      (ranges : List Range) (rounds p : ℕ)
      → rounds ≤ p
      → p ≤ length ranges
      → (rs : List Range) × (range_perf d v config ranges rounds p ≡ some rs)
  unfolding range_perf
  range_perf-in ranges zero p h k = ([], refl)
  range_perf-in ranges (suc rounds) zero h k = absurd (omega arith)
  range_perf-in ranges (suc rounds) (suc p) h k =
      let (r, e) = get_elem?-in ranges p (omega arith) in
      let (rs, f) = range_perf-in ranges rounds p (omega arith) (omega arith) in
      rw (range_perf, e, f) (_, refl)

  net_perf-in :
      (nets : Networks) (rounds p : ℕ)
      → rounds ≤ p
      → (ks : List ℕ) × (net_perf d v config nets rounds p ≡ some ks)
  unfolding net_perf
  net_perf-in nets zero p h = ([], refl)
  net_perf-in nets (suc rounds) zero h = absurd (omega arith)
  net_perf-in nets (suc rounds) (suc p) h =
      let (ks, f) = net_perf-in nets rounds p (omega arith) in rw (net_perf, f) (_, refl)

  -- A part is printed if its data are read in bounds, or not read at all.
  part-in :
      {A : Type 0} (print : Bool) (t : Tally) (perf : Bool) (entries : Option (List A))
      → (perf ≡ true → (xs : List A) × (entries ≡ some xs))
      → (p : Option (Tally × List A)) × (part print t perf entries ≡ some p)
  unfolding part
  part-in false t perf entries h = (none, refl)
  part-in true t false entries h = (some (t, []), refl)
  part-in true t true entries h = let (xs, e) = h refl in (some (t, xs), rw e refl)

  assemble-in :
      (ret_val : ℕ) (head : Option Headline) (rp : Option (Tally × List Range))
      (sp : Option (Tally × List ℕ))
      → (out : ℕ × Option Report) × (assemble ret_val head (some rp) (some sp) ≡ some out)
  unfolding assemble
  assemble-in ret_val none rp sp = (_, refl)
  assemble-in ret_val (some head) rp sp = (_, refl)

  -- output_alarming returns, in bounds, if no performance data are asked for; and with them if
  -- `--snet-alarms` is off and the number limit asks for the shared networks.
  pub output_alarming-returns :
      (ranges : List Range) (nets : Networks) (num : ℕ)
      → (config.perfdata ≡ false)
        ⊎ ((config.snet_alarms ≡ false) × (s_bit config.number_limit ≡ true))
      → (out : ℕ × Option Report) × (output_alarming d v config ranges nets num ≡ some out)
  unfolding print_report
  output_alarming-returns ranges nets num h =
      let (rp, e) =
        part-in (r_bit config.header_limit)
          (tally (range_levels d v config ranges nets num) no_tally)
          (config.perfdata && r_bit config.number_limit)
          (range_perf d v config ranges (length ranges) (range_end d v config ranges nets num))
          (range_data h) in
      let (sp, f) =
        part-in (s_bit config.header_limit) (tally (net_levels d v config ranges nets num) no_tally)
          (config.perfdata && r_bit config.header_limit)
          (net_perf d v config nets num (net_end d v config ranges nets num)) (net_data h) in
      rw (output_alarming-report d v config ranges nets num, print_report, e, f)
        (assemble-in _ _ rp sp)
    where
      range_data :
          (config.perfdata ≡ false)
            ⊎ ((config.snet_alarms ≡ false) × (s_bit config.number_limit ≡ true))
          → (config.perfdata && r_bit config.number_limit) ≡ true
          → (rs : List Range) × (range_perf d v config ranges
                (length ranges)
                (range_end d v config ranges nets num)
              ≡ some rs)
      range_data (inl off) on = absurd (ground arith)
      range_data (inr (off, s)) on =
          let bit : r_bit config.number_limit ≡ true = ground arith in
          rw (bit, visited-all d v config ranges off)
            (range_perf-in ranges (length ranges) (length ranges) (omega arith) (omega arith))

      net_data :
          (config.perfdata ≡ false)
            ⊎ ((config.snet_alarms ≡ false) × (s_bit config.number_limit ≡ true))
          → (config.perfdata && r_bit config.header_limit) ≡ true
          → (ks : List ℕ) × (net_perf d v config nets num (net_end d v config ranges nets num)
              ≡ some ks)
      net_data (inl off) on = absurd (ground arith)
      net_data (inr (off, s)) on = rw s (net_perf-in nets num num (omega arith))

  net_perf-out :
      (nets : Networks) (rounds : ℕ) → net_perf d v config nets (suc (suc rounds)) 0 ≡ none
  unfolding net_perf
  net_perf-out nets rounds = refl

  part-out :
      {A : Type 0} (print : Bool) (t : Tally) (perf : Bool) (entries : Option (List A))
      → print ≡ true
      → perf ≡ true
      → entries ≡ none
      → part print t perf entries ≡ none
  unfolding part
  part-out print t perf entries shown on out = rw (shown, on, out) refl

  assemble-out :
      (ret_val : ℕ) (head : Option Headline) (rp : Option (Option (Tally × List Range)))
      → (head ≡ none → ⊥)
      → assemble ret_val head rp none ≡ none
  unfolding assemble
  assemble-out ret_val none rp h = absurd (h refl)
  assemble-out ret_val (some head) none h = refl
  assemble-out ret_val (some head) (some rp) h = refl

  choose_headline-some :
      (mask : ℕ) (t s : Tally) → a_bit mask ≡ true → choose_headline mask t s ≡ none → ⊥
  unfolding choose_headline
  choose_headline-some mask t s a e = ground arith

  -- With performance data, a header limit that asks for ranges and for networks, a number limit that
  -- asks for the entry for all networks (so that nothing returns early) but not for networks, and two
  -- networks or more, there is a read out of bounds: the entries of the networks are printed, but the
  -- pointer has never left the entry for all networks, and is moved to before the array.
  pub output_alarming-out_of_bounds :
      (ranges : List Range) (nets : Networks) (num : ℕ)
      → 2 ≤ num
      → config.perfdata ≡ true
      → r_bit config.header_limit ≡ true
      → s_bit config.header_limit ≡ true
      → a_bit config.number_limit ≡ true
      → s_bit config.number_limit ≡ false
      → output_alarming d v config ranges nets num ≡ none
  unfolding print_report
  output_alarming-out_of_bounds ranges nets zero two p r s a out = absurd (omega arith)
  output_alarming-out_of_bounds ranges nets (suc zero) two p r s a out = absurd (omega arith)
  output_alarming-out_of_bounds ranges nets (suc (suc num)) two p r s a out =
      let printed =
        part-out (s_bit config.header_limit)
          (tally (net_levels d v config ranges nets (suc (suc num))) no_tally)
          (config.perfdata && r_bit config.header_limit)
          (net_perf d v config nets (suc (suc num))
            (net_end d v config ranges nets (suc (suc num))))
          s (ground arith) (rw out (net_perf-out nets num)) in
      rw (output_alarming-report d v config ranges nets (suc (suc num)), print_report, printed)
        (assemble-out _ _ _ (
          choose_headline-some config.number_limit
            (tally (range_levels d v config ranges nets (suc (suc num))) no_tally)
            (tally (net_levels d v config ranges nets (suc (suc num))) no_tally) a))
