-- ===== src/Tests/Sorting.antt =====
-- The sort and the reversal of the table of ranges, and the sizes of ranges.
use mathlib.Core.List.{Perm}
use dhcpd_pools.Base.{
  ◌≡◌, refl, ◌+◌, ◌-◌, ◌^◌, ◌==◌, if◌then◌else◌, List, [], ◌∷◌, Option, some, reverse, arith,
}
use dhcpd_pools.Base.Int.{pos, scale, ◌+ℤ◌, ◌-ℤ◌}
use dhcpd_pools.Data.{ipv4, v4, v6, Range, as_v4, as_v6}
use dhcpd_pools.Base.Rounding.{round}
use dhcpd_pools.Address.{get_range_size_v4, get_range_size_v6}
use dhcpd_pools.Address.Size.{number, get_range_size_v4_lem, get_range_size_v6-number}
use dhcpd_pools.Sort.{Comparer, comp_ip, comp_cur, mergesort_ranges, flip_ranges}
use dhcpd_pools.Sort.Engine.Order.{IsSorted, ties}
use dhcpd_pools.Sort.Ranges.{
  lexicographic, mergesort_ranges-perm, mergesort_ranges-IsSorted, mergesort_ranges-ties,
}
use dhcpd_pools.Sort.Flip.{flip_ranges-reverse}
use dhcpd_pools.Tests.Data.{
  nat_doubles, nat_doubles-IsOrdered, small_networks, small_ranges, range_of,
}

-- By the number of leases, then by address.
abbrev cur_ip : List (Option Comparer)
cur_ip = some comp_cur ∷ some comp_ip ∷ []

mergesort_ranges-perm_example :
    Perm (mergesort_ranges nat_doubles ipv4 small_networks cur_ip small_ranges) small_ranges
mergesort_ranges-perm_example =
    mergesort_ranges-perm nat_doubles ipv4 small_networks cur_ip small_ranges

mergesort_ranges-IsSorted_example :
    IsSorted
      (lexicographic nat_doubles ipv4 small_networks cur_ip)
      (mergesort_ranges nat_doubles ipv4 small_networks cur_ip small_ranges)
mergesort_ranges-IsSorted_example =
    mergesort_ranges-IsSorted nat_doubles ipv4 small_networks nat_doubles-IsOrdered cur_ip
      small_ranges (tt, (tt, tt))

mergesort_ranges-ties_example :
    ties
      (lexicographic nat_doubles ipv4 small_networks cur_ip)
      (range_of 1 11 20)
      (mergesort_ranges nat_doubles ipv4 small_networks cur_ip small_ranges)
    ≡ reverse (
        ties (lexicographic nat_doubles ipv4 small_networks cur_ip) (range_of 1 11 20) small_ranges)
mergesort_ranges-ties_example =
    mergesort_ranges-ties nat_doubles ipv4 small_networks nat_doubles-IsOrdered cur_ip small_ranges
      (range_of 1 11 20) (tt, (tt, tt))

flip_ranges-reverse_example : flip_ranges small_ranges ≡ some (reverse small_ranges)
flip_ranges-reverse_example = flip_ranges-reverse small_ranges (omega arith)

get_range_size_v4_lem_example :
    get_range_size_v4 (range_of 0 10 19)
    ≡ (if as_v4 (v4 19) - as_v4 (v4 10) == 2 ^ 32 - 1 then 0 else as_v4 (v4 19) - as_v4 (v4 10) + 1)
unfolding as_v4
get_range_size_v4_lem_example = get_range_size_v4_lem (range_of 0 10 19) (omega arith) (omega arith)

-- Two bytes of an address stand for the sixteen.
abbrev range_v6 : Range
range_v6 = record (range_of 0 0 0) { first_ip = v6 (1 ∷ 255 ∷ []); last_ip = v6 (2 ∷ 3 ∷ []) }

get_range_size_v6-number_example :
    get_range_size_v6 range_v6
    ≡ pos (number 0 (as_v6 range_v6.last_ip)) +ℤ pos 1 -ℤ pos (number 0 (as_v6 range_v6.first_ip))
unfolding as_v6
get_range_size_v6-number_example =
    get_range_size_v6-number range_v6 refl (refl, (refl, tt)) (refl, (refl, tt)) (omega arith)
      (omega arith)

-- The first range of tests/confs/v6, dead:abba:1000::2 to dead:abba:1000:ff:ffff:ffff:ffff:ffff, has
-- 2 ^ 72 - 2 addresses; the double that holds its size is 2 ^ 72.
abbrev large_range_v6 : Range
large_range_v6 = record (range_of 0 0 0) {
  first_ip = v6 (222 ∷ 173 ∷ 171 ∷ 186 ∷ 16 ∷ 0 ∷ 0 ∷ 0 ∷ 0 ∷ 0 ∷ 0 ∷ 0 ∷ 0 ∷ 0 ∷ 0 ∷ 2 ∷ []);
  last_ip = v6 (
      222 ∷ 173 ∷ 171 ∷ 186 ∷ 16 ∷ 0 ∷ 0 ∷ 255 ∷ 255 ∷ 255 ∷ 255 ∷ 255 ∷ 255 ∷ 255 ∷ 255 ∷ 255
      ∷ []);
}

rounded_size : get_range_size_v6 large_range_v6 ≡ pos (2 ^ 72)
unfolding get_range_size_v6 round ◌+ℤ◌ scale ◌-ℤ◌
rounded_size = refl
