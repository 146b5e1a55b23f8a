-- ===== src/Run.antt =====
-- src/dhcpd-pools.c: the options of the command line, the choice of the output, and the passes of
-- `main` in their order; `prepare_data` of src/analyze.c and `strtod_or_err` of src/other.c.
--
-- getopt_long is library code: what it returns is the list of the options that are given. A text ends
-- where its list of bytes ends. `strtod` is a parameter.
pub mod Options
pub mod Analysis
pub mod Job
pub mod Usage
pub mod Cleanup
pub mod World
pub mod Main
pub mod Names
pub mod Report
pub mod Alarming
pub mod Liveness
use dhcpd_pools.Base.{
  ℕ, ◌-◌, ◌==◌, Bool, true, false, ◌&&◌, ◌||◌, not, List, [], ◌∷◌, ◌++◌, Option, none, some,
  Ordering, if◌then◌else◌, leb, ltb, take,
}
use dhcpd_pools.Base.Text.{codes, char_at}
use dhcpd_pools.Base.Result.{Result, ok, err, ◌>>=◌}
use dhcpd_pools.Double.{Doubles}
use dhcpd_pools.Data.{Bytes, DhcpVersion, Range, Lease}
use dhcpd_pools.Address.{leasecomp, rangecomp}
use dhcpd_pools.Counting.{Networks, do_counting}
use dhcpd_pools.Sort.{Comparer, field_selector, mergesort_ranges, flip_ranges}
use dhcpd_pools.Leases.{Uthash}
use dhcpd_pools.Alarm.{Limits}

-- Why the program stops before it does its job.
pub data Stop : Type 0 where
  illegal_mask illegal_number unknown_sort deprecated_output unknown_output : Stop
  shows_version shows_help unknown_option : Stop

unfoldable pub return_limit : ℕ → Result Stop ℕ
return_limit c = if leb b'0' c && ltb c b'8' then ok (c - b'0') else err illegal_mask

-- What getopt_long returns, with `optarg`.
pub data Argument : Type 0 where
  config leases format sort output limit : (optarg : Bytes) → Argument
  warning critical warn_count crit_count minsize : (optarg : Bytes) → Argument
  reverse_order snet_alarms perfdata all_as_shared version help unknown : Argument

-- The part of the configuration that the options set, and the local variable with the format.
pub record Settings (d : Doubles) : Type 0 where
  pub dhcpdconf_file : Bytes
  pub dhcpdlease_file : Bytes
  pub output_file : Bytes
  pub sorts : List (Option Comparer)
  pub reverse_order : Bool
  pub all_as_shared : Bool
  pub limits : Limits d
  pub format : Bytes

-- The loop of the option `s` over the characters of `optarg`.
unfoldable pub sort_fields : Bytes → Result Stop (List (Option Comparer))
unfolding field_selector
sort_fields [] = ok []
sort_fields (c ∷ cs) =
    let rest = sort_fields cs in
    elim (field_selector c) [
      | none ↦ err unknown_sort
      | some func ↦ rest >>= λ sorts. ok (func ∷ sorts)
    ]

-- The result of strtod, whether it set `errno`, and what it left unread.
abbrev pub Strtod : Doubles → Type 0
Strtod d = Bytes → d.Double × Bool × Bytes

abbrev pub is_empty : Bytes → Bool
is_empty [] = true
is_empty (c ∷ s) = false

module _ (d : Doubles) (strtod : Strtod d) where
  -- A text of which nothing was read leaves itself unread, so that the test `str == end` adds nothing
  -- to the test of what is left.
  unfoldable pub strtod_or_err : Bytes → Result Stop d.Double
  strtod_or_err str =
      let (num, failed, left) = strtod str in
      if is_empty str || failed || not (is_empty left) then err illegal_number else ok num

  abbrev on_limits : (Limits d → Limits d) → Settings d → Settings d
  on_limits f s = record s { limits = f s.limits }

  -- The alarm output is chosen before the number is read.
  abbrev alarming : Bytes → (d.Double → Limits d → Limits d) → Settings d → Result Stop (Settings d)
  alarming optarg set s =
      strtod_or_err optarg >>= λ x. ok (on_limits (set x) (record s { format = codes "a" }))

  -- The `switch (c)`.
  unfoldable pub set_option : Argument → Settings d → Result Stop (Settings d)
  unfolding return_limit sort_fields strtod_or_err
  set_option (config optarg) s = ok (record s { dhcpdconf_file = take 1023 optarg })
  set_option (leases optarg) s = ok (record s { dhcpdlease_file = take 1023 optarg })
  set_option (format optarg) s = ok (record s { format = optarg })
  set_option (sort optarg) s =
      sort_fields optarg >>= λ sorts. ok (record s { sorts = s.sorts ++ sorts })
  set_option reverse_order s = ok (record s { reverse_order = true })
  set_option (output optarg) s = ok (record s { output_file = take 1023 optarg })
  set_option (limit optarg) s = return_limit (char_at optarg 0) >>= λ h.
      return_limit (char_at optarg 1) >>= λ n.
      ok (on_limits (λ l. record l { header_limit = h; number_limit = n }) s)
  set_option snet_alarms s = ok (on_limits (λ l. record l { snet_alarms = true }) s)
  set_option (warning optarg) s = alarming optarg (λ x l. record l { warning = x }) s
  set_option (critical optarg) s = alarming optarg (λ x l. record l { critical = x }) s
  set_option (warn_count optarg) s = alarming optarg (λ x l. record l { warn_count = x }) s
  set_option (crit_count optarg) s = alarming optarg (λ x l. record l { crit_count = x }) s
  set_option (minsize optarg) s =
      strtod_or_err optarg >>= λ x. ok (on_limits (λ l. record l { minsize = x }) s)
  set_option perfdata s = ok (on_limits (λ l. record l { perfdata = true }) s)
  set_option all_as_shared s = ok (record s { all_as_shared = true })
  set_option version s = err shows_version
  set_option help s = err shows_help
  set_option unknown s = err unknown_option

  -- The loop over the options.
  unfoldable pub set_options : List Argument → Settings d → Result Stop (Settings d)
  unfolding set_option
  set_options [] s = ok s
  set_options (a ∷ rest) s = set_option a s >>= set_options rest

-- `output_analysis`
pub data Output : Type 0 where
  output_txt output_alarming output_html output_xml output_json output_csv : Output

-- The output function, and `config.print_mac_addreses`.
unfoldable pub select_output : ℕ → Result Stop (Output × Bool)
select_output c =
    if c == b't'
    then ok (output_txt, false)
    else if c == b'a'
    then ok (output_alarming, false)
    else if c == b'h'
    then err deprecated_output
    else if c == b'H'
    then ok (output_html, false)
    else if c == b'x'
    then ok (output_xml, false)
    else if c == b'X'
    then ok (output_xml, true)
    else if c == b'j'
    then ok (output_json, false)
    else if c == b'J'
    then ok (output_json, true)
    else if c == b'c'
    then ok (output_csv, false)
    else err unknown_output

-- The sort of the C library.
abbrev pub Qsort : Type 0
Qsort = (Range → Range → Ordering) → List Range → List Range

module _ (u : Uthash) (qsort : Qsort) (v : DhcpVersion) where
  unfoldable pub prepare_data : List Lease → List Range → List Lease × List Range
  unfolding leasecomp rangecomp
  prepare_data table ranges = (u.hash_sort (leasecomp v) table, qsort (rangecomp v) ranges)

  -- The passes of `main` between the parsers and the output. `none` is a read out of bounds.
  unfoldable pub analyse :
      (d : Doubles) (sorts : List (Option Comparer)) (reverse_order : Bool)
      → List Lease
      → List Range
      → Networks
      → Option (List Range × Networks)
  unfolding prepare_data do_counting mergesort_ranges flip_ranges
  analyse d sorts reverse table ranges nets =
      let (table', ranges') = prepare_data table ranges in
      let (counted, nets') = do_counting d.overflow v table' ranges' nets in
      let sorted : List Range = elim sorts [
        | [] ↦ counted
        | ◌∷◌ p rest ↦ mergesort_ranges d v nets' (p ∷ rest) counted
      ] in
      if reverse
      then elim (flip_ranges sorted) [ none ↦ none | some flipped ↦ some (flipped, nets') ]
      else some (sorted, nets')
