-- ===== src/Sort.antt =====
-- src/sort.c: the comparisons of ranges and the sort of the table of ranges, and `flip_ranges` of
-- src/other.c.
--
-- A comparison function is named by a constructor; `none` is the NULL that stands for the names of
-- the shared networks. The double that `get_range_size` returns is an integer, converted.
pub mod Engine
pub mod Ranges
pub mod Flip
use dhcpd_pools.Base.{
  ℕ, suc, zero, ◌+◌, ◌-◌, ◌%◌, ◌^◌, ◌==◌, Bool, true, false, List, [], ◌∷◌, Option, none, some,
  Ordering, if◌then◌else◌, is_positive, is_negative, bytes_compare, get_elem?, length,
}
use dhcpd_pools.Base.Int.{pos}
use dhcpd_pools.Double.{Doubles, comp_double}
use dhcpd_pools.Data.{Bytes, DhcpVersion, Range}
use dhcpd_pools.Address.{ipcomp, get_range_size}
use dhcpd_pools.Counting.{Networks}
use dhcpd_pools.Sort.Engine.{mergesort}

pub data Comparer : Type 0 where
  comp_ip comp_max comp_cur comp_percent comp_touched comp_tc comp_tcperc : Comparer

module _ (d : Doubles) (v : DhcpVersion) where
  -- the `double` that a range's size, or a counter, is
  abbrev pub range_size : Range → d.Double
  range_size r = d.of_ℤ (get_range_size v r)

  unfoldable pub ret_percent : Range → d.Double
  ret_percent r = d.div (d.of_ℤ (pos r.count)) (range_size r)

  unfoldable pub ret_tc : Range → d.Double
  ret_tc r = d.of_ℤ (pos (r.count + r.touched))

  unfoldable pub ret_tcperc : Range → d.Double
  unfolding ret_tc
  ret_tcperc r = d.div (ret_tc r) (range_size r)

  -- A call through the function pointer.
  unfoldable pub call : Comparer → Range → Range → Ordering
  unfolding ret_percent ret_tc ret_tcperc
  call comp_ip r1 r2 = ipcomp v r1.first_ip r2.first_ip
  call comp_max r1 r2 = comp_double d (range_size r1) (range_size r2)
  call comp_cur r1 r2 = comp_double d (d.of_ℤ (pos r1.count)) (d.of_ℤ (pos r2.count))
  call comp_percent r1 r2 = comp_double d (ret_percent r1) (ret_percent r2)
  call comp_touched r1 r2 = comp_double d (d.of_ℤ (pos r1.touched)) (d.of_ℤ (pos r2.touched))
  call comp_tc r1 r2 = comp_double d (ret_tc r1) (ret_tc r2)
  call comp_tcperc r1 r2 = comp_double d (ret_tcperc r1) (ret_tcperc r2)

-- `range->shared_net->name`. The parser leaves no `shared_net` at NULL, where C would crash.
unfoldable pub net_name : Networks → Option ℕ → Bytes
net_name nets none = []
net_name nets (some k) = (nets k).name

-- `none` is the exit with "unknown sort order".
unfoldable pub field_selector : ℕ → Option (Option Comparer)
field_selector c =
    if c == b'n'
    then some none
    else if c == b'i'
    then some (some comp_ip)
    else if c == b'm'
    then some (some comp_max)
    else if c == b'c'
    then some (some comp_cur)
    else if c == b'p'
    then some (some comp_percent)
    else if c == b't'
    then some (some comp_touched)
    else if c == b'T'
    then some (some comp_tc)
    else if c == b'e'
    then some (some comp_tcperc)
    else none

module _ (d : Doubles) (v : DhcpVersion) (nets : Networks) where
  -- One round of the loop in `merge`.
  unfoldable pub compare_by : Option Comparer → Range → Range → Ordering
  unfolding net_name call
  compare_by none left right =
      bytes_compare (net_name nets left.shared_net) (net_name nets right.shared_net)
  compare_by (some func) left right = call d v func left right

  -- `merge`, over the list `config.sorts`
  unfoldable pub merge : List (Option Comparer) → Range → Range → Bool
  unfolding compare_by
  merge [] left right = false
  merge (p ∷ sorts) left right =
      let ret = compare_by p left right in
      if is_positive ret then false else if is_negative ret then true else merge sorts left right

  unfoldable pub mergesort_ranges : List (Option Comparer) → List Range → List Range
  unfolding merge mergesort
  mergesort_ranges sorts orig = mergesort (merge sorts) orig

-- The loop of `flip_ranges`: `rounds` is num_ranges - j. `none` is a read out of bounds.
unfoldable pub flip_loop : List Range → (rounds i : ℕ) → Option (List Range)
flip_loop flip_me zero i = some []
flip_loop flip_me (suc rounds) i =
    let rest = flip_loop flip_me rounds ((i + 2 ^ 32 - 1) % 2 ^ 32) in
    elim (get_elem? flip_me i) [
      | none ↦ none
      | some r ↦ elim rest [ none ↦ none | some tmp ↦ some (r ∷ tmp) ]
    ]

unfoldable pub flip_ranges : List Range → Option (List Range)
unfolding flip_loop
flip_ranges flip_me = flip_loop flip_me (length flip_me) ((length flip_me + 2 ^ 32 - 1) % 2 ^ 32)
