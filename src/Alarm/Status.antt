-- ===== src/Alarm/Status.antt =====
-- The exit status of output_alarming and the first word it prints.
use dhcpd_pools.Base.{
  ◌∙◌, ℕ, ◌==◌, false, List, [], ◌∷◌, ◌++◌, Option, none, some, ◌≡◌, refl, sym, ap, inl, inr,
  Bool-cases, if◌then◌else◌, ◌&&◌, arith, length, map, ltb,
}
use Prim.Native.Nat.{max}
use mathlib.Core.Option.{map as map_option, some-injective}
use dhcpd_pools.Double.{Doubles}
use dhcpd_pools.Data.{DhcpVersion, Range}
use dhcpd_pools.Counting.{Networks}
use dhcpd_pools.Alarm.{
  Limits, Level, critical, warning, okay, ignored, Tally, no_tally, bump, r_bit, s_bit, a_bit,
  range_level, net_level, range_walk, net_walk, Headline, head_critical, head_warning, head_ok,
  Report, exit_status, choose_headline, part, assemble, range_perf, net_perf, print_report,
  output_alarming,
}
use dhcpd_pools.Alarm.Ranges.{tally, networks_from, visited, range_loop-visited, net_loop-networks}

unfoldable pub severity : Level → ℕ
severity critical = 2
severity warning = 1
severity okay = 0
severity ignored = 0

-- The exit status that plugins of a monitor are to give: that of the worst entry.
unfoldable pub worst : List Level → ℕ
unfolding severity
worst [] = 0
worst (x ∷ xs) = max (severity x) (worst xs)

unfoldable pub headline_of : (number_limit status : ℕ) → Option Headline
unfolding a_bit
headline_of mask status =
    if status == 2
    then some head_critical
    else if status == 1
    then some head_warning
    else if a_bit mask
    then some head_ok
    else none

-- The exit status that belongs to one tally.
unfoldable status : Tally → ℕ
status t = if ltb 0 t.criticals then 2 else if ltb 0 t.warnings then 1 else 0

status-bump : (x : Level) (t : Tally) → status (bump x t) ≡ max (status t) (severity x)
unfolding status bump severity
status-bump critical t = ground arith
status-bump warning t = ground arith
status-bump okay t = ground arith
status-bump ignored t = ground arith

status-tally : (xs : List Level) (t : Tally) → status (tally xs t) ≡ max (status t) (worst xs)
unfolding tally worst
status-tally [] t = omega arith
status-tally (x ∷ xs) t = omega (arith, status-tally xs (bump x t), status-bump x t)

worst-append : (xs ys : List Level) → worst (xs ++ ys) ≡ max (worst xs) (worst ys)
unfolding worst
worst-append [] ys = omega arith
worst-append (x ∷ xs) ys = omega (arith, worst-append xs ys)

exit_status-max : (t s : Tally) → exit_status t s ≡ max (status t) (status s)
unfolding exit_status status
exit_status-max t s = ground arith

status-none : status no_tally ≡ 0
unfolding status
status-none = refl

pub exit_status-worst :
    (xs ys : List Level) → exit_status (tally xs no_tally) (tally ys no_tally) ≡ worst (xs ++ ys)
exit_status-worst xs ys = omega (
  arith,
  exit_status-max (tally xs no_tally) (tally ys no_tally),
  status-tally xs no_tally,
  status-tally ys no_tally,
  worst-append xs ys,
  status-none,
)

-- The bits in the choice of the headline are idle: a counter above zero has its bit.
choose_headline-status :
    (mask : ℕ) (t s : Tally)
    → ((r_bit mask ≡ false) → t ≡ no_tally)
    → ((s_bit mask ≡ false) → s ≡ no_tally)
    → choose_headline mask t s ≡ headline_of mask (exit_status t s)
unfolding choose_headline headline_of exit_status
choose_headline-status mask t s no_r no_s = elim (Bool-cases (r_bit mask)) [
  | inl r ↦ elim (Bool-cases (s_bit mask)) [
    | inl b ↦ ground arith
    | inr b ↦
        let e = no_s b in
        let c = ap (λ x. x.criticals) e in let w = ap (λ x. x.warnings) e in ground arith
  ]
  | inr r ↦
      let e = no_r r in
      let c = ap (λ x. x.criticals) e in
      let w = ap (λ x. x.warnings) e in
      elim (Bool-cases (s_bit mask)) [
        | inl b ↦ ground arith
        | inr b ↦
            let e' = no_s b in
            let c' = ap (λ x. x.criticals) e' in let w' = ap (λ x. x.warnings) e' in ground arith
      ]
]

assemble-status :
    (ret_val : ℕ) (head : Option Headline) (rp : Option (Option (Tally × List Range)))
    (sp : Option (Option (Tally × List ℕ))) (code : ℕ) (report : Option Report)
    → assemble ret_val head rp sp ≡ some (code, report)
    → (code ≡ ret_val) × (map_option (λ r. r.headline) report ≡ head)
unfolding assemble
assemble-status ret_val none rp sp code report e = grind arith
assemble-status ret_val (some head) none sp code report e = cc
assemble-status ret_val (some head) (some rp) none code report e = cc
assemble-status ret_val (some head) (some rp) (some sp) code report e =
    let same = some-injective _ _ e in
    (sym (ap (λ x. x.0) same), ap (λ x. map_option (λ r. r.headline) x.1) (sym same))

module _ (d : Doubles) (v : DhcpVersion) (config : Limits d) (ranges : List Range) (nets : Networks)
    (num : ℕ) where
  -- What is looked at: each part if its bit is set in the number limit.
  unfoldable pub range_levels : List Level
  range_levels =
      if r_bit config.number_limit
      then map (range_level d v config) (visited d v config ranges)
      else []

  unfoldable pub net_levels : List Level
  net_levels =
      if s_bit config.number_limit
      then map (net_level d v config) (networks_from nets 1 num)
      else []

  -- Where the two pointers are after the loops.
  abbrev pub range_end : ℕ
  range_end = if r_bit config.number_limit then length (visited d v config ranges) else 0

  abbrev pub net_end : ℕ
  net_end = if s_bit config.number_limit then num else 0

  net_walk-levels : net_walk d v config nets num ≡ (tally net_levels no_tally, net_end)
  unfolding net_walk net_levels tally
  net_walk-levels = elim (Bool-cases (s_bit config.number_limit)) [
    | inl b ↦ rw b (
        net_loop-networks d v config nets num 0 no_tally
        ∙ ap (λ n. (tally (map (net_level d v config) (networks_from nets 1 num)) no_tally, n))
            (omega arith))
    | inr b ↦ rw b refl
  ]

  range_walk-levels : range_walk d v config ranges ≡ some (tally range_levels no_tally, range_end)
  unfolding range_walk range_levels tally
  range_walk-levels = elim (Bool-cases (r_bit config.number_limit)) [
    | inl b ↦ rw b (range_loop-visited d v config ranges)
    | inr b ↦ rw b refl
  ]

  -- How output_alarming works once its loops are known.
  pub output_alarming-report :
      output_alarming d v config ranges nets num
      ≡ print_report d v config ranges nets num
          (tally range_levels no_tally, range_end)
          (tally net_levels no_tally, net_end)
  unfolding output_alarming
  output_alarming-report = rw (output_alarming, range_walk-levels, net_walk-levels) refl

  print_report-status :
      (t s : Tally) (p q : ℕ) (code : ℕ) (report : Option Report)
      → print_report d v config ranges nets num (t, p) (s, q) ≡ some (code, report)
      → (code ≡ exit_status t s)
        × (map_option (λ r. r.headline) report ≡ choose_headline config.number_limit t s)
  unfolding print_report
  print_report-status t s p q code report e =
      assemble-status (exit_status t s) (choose_headline config.number_limit t s)
        (part (r_bit config.header_limit) t (config.perfdata && r_bit config.number_limit)
          (range_perf d v config ranges (length ranges) p))
        (part (s_bit config.header_limit) s (config.perfdata && r_bit config.header_limit)
          (net_perf d v config nets num q))
        code report e

  -- Whenever output_alarming returns, its exit status is that of the worst entry it looked at: 2
  -- if one is critical, otherwise 1 if one is to be warned of, otherwise 0; and the first word it
  -- prints says the same, where nothing is printed if all is well and the number limit lacks
  -- its third bit.
  pub output_alarming-status :
      (code : ℕ) (report : Option Report)
      → output_alarming d v config ranges nets num ≡ some (code, report)
      → (code ≡ worst (range_levels ++ net_levels))
        × (map_option (λ r. r.headline) report ≡ headline_of config.number_limit code)
  unfolding range_levels net_levels tally
  output_alarming-status code report e =
      let (c, h) =
        print_report-status (tally range_levels no_tally) (tally net_levels no_tally) range_end
          net_end code report (sym output_alarming-report ∙ e) in
      let bits =
        choose_headline-status config.number_limit (tally range_levels no_tally)
          (tally net_levels no_tally) no_ranges no_nets in
      (
        c ∙ exit_status-worst range_levels net_levels,
        h ∙ bits ∙ ap (headline_of config.number_limit) (sym c),
      )
    where
      no_ranges : r_bit config.number_limit ≡ false → tally range_levels no_tally ≡ no_tally
      no_ranges b = rw b refl

      no_nets : s_bit config.number_limit ≡ false → tally net_levels no_tally ≡ no_tally
      no_nets b = rw b refl
