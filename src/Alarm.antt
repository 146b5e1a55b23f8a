-- ===== src/Alarm.antt =====
-- src/output.c: `output_alarming`, which compares the counters with the alarm limits and picks the
-- exit status; the limits are a part of `struct configuration_t` of src/dhcpd-pools.h.
--
-- The pointers `range_p` and `shared_p` are indices, and `none` is a read outside of the array
-- of ranges or of networks. The size that is read behind the last range is not used. What is printed
-- is a report here: the first word, the counters and the entries of the performance data; its text is in
-- Output/Alarming.
pub mod Ranges
pub mod Status
pub mod Perf
use dhcpd_pools.Base.{
  ℕ, zero, suc, ◌+◌, ◌-◌, ◌/◌, ◌%◌, ◌^◌, ◌==◌, ltb, Bool, true, false, not, ◌&&◌, ◌||◌, List, [],
  ◌∷◌, Option, none, some, if◌then◌else◌, get_elem?, length,
}
use dhcpd_pools.Base.Int.{ℤ, pos, negsuc}
use dhcpd_pools.Double.{Doubles}
use dhcpd_pools.Data.{DhcpVersion, Range, SharedNetwork}
use dhcpd_pools.Counting.{Networks}
use dhcpd_pools.Sort.{range_size}

-- What output_alarming reads of the configuration. The two limits are bit fields of three bits.
pub record Limits (d : Doubles) : Type 0 where
  pub warning : d.Double
  pub critical : d.Double
  pub warn_count : d.Double
  pub crit_count : d.Double
  pub minsize : d.Double
  pub snet_alarms : Bool
  pub perfdata : Bool
  pub header_limit : ℕ
  pub number_limit : ℕ

-- `enum limbits`
unfoldable pub r_bit : ℕ → Bool
r_bit mask = mask % 2 == 1

unfoldable pub s_bit : ℕ → Bool
s_bit mask = mask / 2 % 2 == 1

unfoldable pub a_bit : ℕ → Bool
a_bit mask = mask / 4 % 2 == 1

-- Which counter an entry raises.
pub data Level : Type 0 where
  critical warning okay ignored : Level

-- The counters rc, rw, ro, ri of the ranges, or sc, sw, so, si of the shared networks.
pub record Tally : Type 0 where
  pub criticals : ℕ
  pub warnings : ℕ
  pub okays : ℕ
  pub ignoreds : ℕ

abbrev pub no_tally : Tally
no_tally = record { criticals = 0; warnings = 0; okays = 0; ignoreds = 0 }

unfoldable pub bump : Level → Tally → Tally
bump critical t = record t { criticals = t.criticals + 1 }
bump warning t = record t { warnings = t.warnings + 1 }
bump okay t = record t { okays = t.okays + 1 }
bump ignored t = record t { ignoreds = t.ignoreds + 1 }

-- `available == 0`
unfoldable pub is_zero : ℤ → Bool
is_zero (pos n) = n == 0
is_zero (negsuc n) = false

-- `range_p->shared_net != shared_networks`
unfoldable pub in_shared_net : Range → Bool
in_shared_net r = elim r.shared_net [ none ↦ true | some k ↦ not (k == 0) ]

module _ (d : Doubles) (v : DhcpVersion) (config : Limits d) where
  -- `(float)(100 * n) / size`, assigned to a float
  unfoldable pub percentage : ℕ → d.Double → d.Double
  percentage n size =
      d.to_float (d.div (d.to_float (d.mul (d.of_ℤ (pos 100)) (d.of_ℤ (pos n)))) size)

  -- The tests of the first loop on one range.
  unfoldable pub range_level : Range → Level
  unfolding percentage
  range_level r =
      let size = range_size d v r in
      let perc = percentage r.count size in
      let left = d.sub size (d.of_ℤ (pos r.count)) in
      if d.lt config.minsize size
      then if d.lt config.critical perc && d.lt left config.crit_count
        then critical
        else if d.lt config.warning perc && d.lt left config.warn_count
        then warning
        else okay
      else ignored

  -- The tests of the second loop on one shared network: they compare `used` with the count limits.
  unfoldable pub net_level : SharedNetwork → Level
  unfolding percentage is_zero
  net_level n =
      let available = d.of_ℤ n.available in
      let used = d.of_ℤ (pos n.used) in
      let perc = if is_zero n.available then d.of_ℤ (pos 100) else percentage n.used available in
      if d.lt config.minsize available
      then if d.lt config.critical perc && d.lt used config.crit_count
        then critical
        else if d.lt config.warning perc && d.lt used config.warn_count
        then warning
        else okay
      else ignored

  -- The first loop: `rounds` is num_ranges - i. A range in a shared network is left by `continue`,
  -- which does not move `range_p` on.
  unfoldable pub range_loop : List Range → (rounds range_p : ℕ) → Tally → Option (Tally × ℕ)
  unfolding range_level in_shared_net bump
  range_loop ranges zero range_p t = some (t, range_p)
  range_loop ranges (suc rounds) range_p t = elim (get_elem? ranges range_p) [
    | none ↦ none
    | some r ↦ elim (config.snet_alarms && in_shared_net r) [
      | true ↦ range_loop ranges rounds range_p t
      | false ↦ range_loop ranges rounds (suc range_p) (bump (range_level r) t)
    ]
  ]

  -- The second loop; `shared_p` is moved on before the first look.
  unfoldable pub net_loop : Networks → (rounds shared_p : ℕ) → Tally → Tally × ℕ
  unfolding net_level bump
  net_loop nets zero shared_p t = (t, shared_p)
  net_loop nets (suc rounds) shared_p t =
      net_loop nets rounds (suc shared_p) (bump (net_level (nets (suc shared_p))) t)

  -- The ranges of the performance data, in the order they are printed.
  unfoldable pub range_perf : List Range → (rounds range_p : ℕ) → Option (List Range)
  range_perf ranges zero range_p = some []
  range_perf ranges (suc rounds) zero = none
  range_perf ranges (suc rounds) (suc range_p) =
      let rest = range_perf ranges rounds range_p in
      elim (get_elem? ranges range_p) [
        | none ↦ none
        | some r ↦ elim rest [
          | none ↦ none
          | some rs ↦ some (if d.lt config.minsize (range_size d v r) then r ∷ rs else rs)
        ]
      ]

  -- The indices of the networks of the performance data.
  unfoldable pub net_perf : Networks → (rounds shared_p : ℕ) → Option (List ℕ)
  net_perf nets zero shared_p = some []
  net_perf nets (suc zero) zero =
      some (if d.lt config.minsize (d.of_ℤ (nets 0).available) then 0 ∷ [] else [])
  net_perf nets (suc (suc rounds)) zero = none
  net_perf nets (suc rounds) (suc shared_p) = elim (net_perf nets rounds shared_p) [
    | none ↦ none
    | some ks ↦ some (
        if d.lt config.minsize (d.of_ℤ (nets (suc shared_p)).available)
        then suc shared_p ∷ ks
        else ks)
  ]

-- The first word of the line.
pub data Headline : Type 0 where
  head_critical head_warning head_ok : Headline

-- What is printed: the counters of a part stand in it if the header limit asks for them.
pub record Report : Type 0 where
  pub headline : Headline
  pub range_part : Option (Tally × List Range)
  pub net_part : Option (Tally × List ℕ)

unfoldable pub exit_status : (range_tally net_tally : Tally) → ℕ
exit_status r s =
    if ltb 0 s.criticals || ltb 0 r.criticals
    then 2
    else if ltb 0 s.warnings || ltb 0 r.warnings
    then 1
    else 0

-- `none` is the return before anything is printed.
unfoldable pub choose_headline :
    (number_limit : ℕ) (range_tally net_tally : Tally) → Option Headline
unfolding r_bit s_bit a_bit
choose_headline number_limit r s =
    if (ltb 0 r.criticals && r_bit number_limit) || (ltb 0 s.criticals && s_bit number_limit)
    then some head_critical
    else if (ltb 0 r.warnings && r_bit number_limit) || (ltb 0 s.warnings && s_bit number_limit)
    then some head_warning
    else if a_bit number_limit
    then some head_ok
    else none

-- A part of the report that is printed under a condition, and may read out of bounds.
unfoldable pub part :
    {A : Type 0} → Bool → Tally → Bool → Option (List A) → Option (Option (Tally × List A))
part false t perf entries = some none
part true t false entries = some (some (t, []))
part true t true none = none
part true t true (some entries) = some (some (t, entries))

-- The end of output_alarming: the early return, or both parts.
unfoldable pub assemble :
    ℕ
    → Option Headline
    → Option (Option (Tally × List Range))
    → Option (Option (Tally × List ℕ))
    → Option (ℕ × Option Report)
assemble ret_val none rp sp = some (ret_val, none)
assemble ret_val (some head) none sp = none
assemble ret_val (some head) (some rp) none = none
assemble ret_val (some head) (some rp) (some sp) =
    some (ret_val, some (record { headline = head; range_part = rp; net_part = sp }))

-- The exit status and what is printed; `none` is a read out of bounds.
module _ (d : Doubles) (v : DhcpVersion) (config : Limits d) where
  unfoldable pub print_report :
      List Range
      → Networks
      → (num_shared_networks : ℕ) → (range_walk net_walk : Tally × ℕ) → Option (ℕ × Option Report)
  unfolding exit_status choose_headline part range_perf net_perf r_bit s_bit assemble
  print_report ranges nets num (rt, range_p) (st, shared_p) =
      let range_data = range_perf d v config ranges (length ranges) range_p in
      let net_data = net_perf d v config nets num shared_p in
      let perf = config.perfdata in
      assemble (exit_status rt st) (choose_headline config.number_limit rt st)
        (part (r_bit config.header_limit) rt (perf && r_bit config.number_limit) range_data)
        (part (s_bit config.header_limit) st (perf && r_bit config.header_limit) net_data)

  -- The first loop, if the ranges are asked for.
  unfoldable pub range_walk : List Range → Option (Tally × ℕ)
  unfolding range_loop r_bit
  range_walk ranges =
      if r_bit config.number_limit
      then range_loop d v config ranges (length ranges) 0 no_tally
      else some (no_tally, 0)

  -- The second loop, if the shared networks are asked for.
  unfoldable pub net_walk : Networks → (num_shared_networks : ℕ) → Tally × ℕ
  unfolding net_loop s_bit
  net_walk nets num =
      if s_bit config.number_limit then net_loop d v config nets num 0 no_tally else (no_tally, 0)

  unfoldable pub output_alarming :
      List Range → Networks → (num_shared_networks : ℕ) → Option (ℕ × Option Report)
  unfolding range_walk net_walk print_report
  output_alarming ranges nets num = elim (range_walk ranges) [
    | none ↦ none
    | some walked ↦ print_report ranges nets num walked (net_walk nets num)
  ]
