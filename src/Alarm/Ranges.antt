-- ===== src/Alarm/Ranges.antt =====
-- The loops of output_alarming against a tally over lists.
use mathlib.Core.List.{append_assoc}
use dhcpd_pools.Base.{
  ◌∙◌, ℕ, zero, suc, ◌+◌, true, false, List, [], ◌∷◌, ◌++◌, some, ◌≡◌, refl, sym, ap, inl, inr,
  Bool-cases, if◌then◌else◌, ◌&&◌, arith, get_elem?, length, map,
}
use dhcpd_pools.Base.Lists.{length-append}
use dhcpd_pools.Double.{Doubles}
use dhcpd_pools.Data.{DhcpVersion, Range, SharedNetwork}
use dhcpd_pools.Counting.{Networks}
use dhcpd_pools.Alarm.{
  Limits, Level, Tally, no_tally, bump, in_shared_net, range_level, net_level, range_loop, net_loop,
}

-- An entry for each counter that is raised, one after the other.
unfoldable pub tally : List Level → Tally → Tally
unfolding bump
tally [] t = t
tally (x ∷ xs) t = tally xs (bump x t)

-- The networks at `from`, `from + 1`, ...
unfoldable pub networks_from : Networks → (from num : ℕ) → List SharedNetwork
networks_from nets from zero = []
networks_from nets from (suc num) = nets from ∷ networks_from nets (suc from) num

get_elem?-here :
    (before : List Range) (r : Range) (rest : List Range)
    → get_elem? (before ++ r ∷ rest) (length before) ≡ some r
get_elem?-here [] r rest = refl
get_elem?-here (b ∷ before) r rest = get_elem?-here before r rest

module _ (d : Doubles) (v : DhcpVersion) (config : Limits d) where
  -- The ranges up to the first one that `--snet-alarms` leaves out.
  unfoldable pub visited : List Range → List Range
  visited [] = []
  visited (r ∷ rs) =
      let rest = visited rs in if config.snet_alarms && in_shared_net r then [] else r ∷ rest

  stuck :
      (ranges : List Range) (rounds p : ℕ) (t : Tally) (r : Range)
      → get_elem? ranges p ≡ some r
      → (config.snet_alarms && in_shared_net r) ≡ true
      → range_loop d v config ranges rounds p t ≡ some (t, p)
  unfolding range_loop
  stuck ranges zero p t r here skip = refl
  stuck ranges (suc rounds) p t r here skip =
      rw (range_loop, here, in_shared_net, skip) (stuck ranges rounds p t r here skip)

  range_loop-step :
      (before : List Range) (r : Range) (rest : List Range) (t : Tally)
      → range_loop d v config
          ((before ++ r ∷ []) ++ rest)
          (length rest)
          (length (before ++ r ∷ []))
          t
        ≡ some (
          tally (map (range_level d v config) (visited rest)) t,
          length (before ++ r ∷ []) + length (visited rest),
        )
      → range_loop d v config (before ++ r ∷ rest) (length rest) (suc (length before)) t
        ≡ some (
          tally (map (range_level d v config) (visited rest)) t,
          length before + suc (length (visited rest)),
        )
  range_loop-step before r rest t e =
      let one : length (before ++ r ∷ []) ≡ suc (length before) =
        omega (arith, length-append before (r ∷ [])) in
      let at_end : length (before ++ r ∷ []) + length (visited rest)
          ≡ length before + suc (length (visited rest)) =
        omega (arith, one) in
      rw (sym one, sym (append_assoc before (r ∷ []) rest), sym at_end) e

  range_loop-rest :
      (rest before : List Range) (t : Tally)
      → range_loop d v config (before ++ rest) (length rest) (length before) t
        ≡ some (
          tally (map (range_level d v config) (visited rest)) t,
          length before + length (visited rest),
        )
  unfolding range_loop tally visited
  range_loop-rest [] before t = ap (λ n. some (t, n)) (omega arith)
  range_loop-rest (r ∷ rest) before t = elim (Bool-cases (config.snet_alarms && in_shared_net r)) [
    | inl skip ↦
        rw (range_loop, get_elem?-here before r rest, skip)
          (stuck (before ++ r ∷ rest) (length rest) (length before) t r
              (get_elem?-here before r rest) skip
            ∙ ap (λ n. some (t, n)) (omega arith))
    | inr keep ↦
        rw (range_loop, get_elem?-here before r rest, keep)
          (range_loop-step before r rest (bump (range_level d v config r) t)
            (range_loop-rest rest (before ++ r ∷ []) (bump (range_level d v config r) t)))
  ]

  -- The loop on the ranges raises one counter for each range it visits, in bounds. These are
  -- all ranges, or under `--snet-alarms` the ones before the first range in a shared network: there
  -- the loop stays, since `continue` does not move the pointer on, and no later range is ever
  -- looked at. Either way the pointer ends behind the last range visited.
  pub range_loop-visited :
      (ranges : List Range)
      → range_loop d v config ranges (length ranges) 0 no_tally
        ≡ some (
          tally (map (range_level d v config) (visited ranges)) no_tally,
          length (visited ranges),
        )
  range_loop-visited ranges =
      range_loop-rest ranges [] no_tally
      ∙ ap (λ n. some (tally (map (range_level d v config) (visited ranges)) no_tally, n))
          (omega arith)

  pub visited-all : (ranges : List Range) → config.snet_alarms ≡ false → visited ranges ≡ ranges
  unfolding visited
  visited-all [] off = refl
  visited-all (r ∷ ranges) off = rw off (ap (λ rs. r ∷ rs) (visited-all ranges off))

  -- The loop on the shared networks raises one counter for each of the entries 1, ..., num, and the
  -- pointer ends at the last of them.
  pub net_loop-networks :
      (nets : Networks) (num p : ℕ) (t : Tally)
      → net_loop d v config nets num p t
        ≡ (tally (map (net_level d v config) (networks_from nets (suc p) num)) t, p + num)
  unfolding net_loop tally networks_from
  net_loop-networks nets zero p t = ap (λ n. (t, n)) (omega arith)
  net_loop-networks nets (suc num) p t =
      net_loop-networks nets num (suc p) (bump (net_level d v config (nets (suc p))) t)
      ∙ ap
          (λ n. (
            tally (map (net_level d v config) (networks_from nets (suc (suc p)) num))
                (bump (net_level d v config (nets (suc p))) t),
            n,
          ))
          (omega arith)
