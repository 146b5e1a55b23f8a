-- ===== src/Tests/Counting.antt =====
-- The counting, on the small tables.
use dhcpd_pools.Base.{◌≡◌, ◌≢◌, refl, map, ◌+◌, ℕ, arith}
use dhcpd_pools.Data.{ipv4, backup}
use dhcpd_pools.Counting.{do_counting}
use dhcpd_pools.Counting.Reference.{reference, do_counting-reference}
use dhcpd_pools.Counting.Totals.{counted}
use dhcpd_pools.Counting.Totals.Result.{
  network_counted, found, do_counting-counted, do_counting-network, do_counting-all,
}
use dhcpd_pools.Counting.Totals.Sizes.{sum_in, sum_all, size_of, AllSized}
use dhcpd_pools.Base.Int.{pos}
use dhcpd_pools.Address.{get_range_size}
use dhcpd_pools.Tests.Data.{
  small_leases, small_ranges, small_networks, nat_doubles, empty_network, small_leases-IsAscending,
}

do_counting-reference_example :
    do_counting nat_doubles.overflow ipv4 small_leases small_ranges small_networks
    ≡ reference nat_doubles.overflow ipv4 small_leases small_ranges small_networks
do_counting-reference_example =
    do_counting-reference nat_doubles.overflow ipv4 small_leases small_ranges small_networks
      small_leases-IsAscending

do_counting-counted_example :
    (do_counting nat_doubles.overflow ipv4 small_leases small_ranges small_networks).0
    ≡ map (counted ipv4 small_leases) small_ranges
do_counting-counted_example =
    do_counting-counted nat_doubles.overflow ipv4 small_leases small_ranges small_networks
      small_leases-IsAscending

one_not_zero : ◌≢◌ {A = ℕ} 1 0
one_not_zero e = cc

small_sizes : AllSized ipv4 small_ranges
unfolding get_range_size
small_sizes = (refl, (refl, (refl, tt)))

do_counting-network_example :
    (do_counting nat_doubles.overflow ipv4 small_leases small_ranges small_networks).1 1
    ≡ network_counted nat_doubles.overflow ipv4 small_leases 1 small_ranges empty_network
unfolding sum_in get_range_size
do_counting-network_example =
    do_counting-network nat_doubles.overflow ipv4 small_leases 1 small_ranges small_networks
      small_leases-IsAscending one_not_zero small_sizes refl (omega arith)

do_counting-all_example :
    (do_counting nat_doubles.overflow ipv4 small_leases small_ranges small_networks).1 0
    ≡ record empty_network {
      available = pos (sum_all (size_of ipv4) small_ranges);
      used = sum_all (λ r. (counted ipv4 small_leases r).count) small_ranges;
      touched = sum_all (λ r. (counted ipv4 small_leases r).touched) small_ranges;
      backups =
          0
          + sum_in 0 (found nat_doubles.overflow ipv4 small_leases backup) small_ranges
          + sum_all (λ r. (counted ipv4 small_leases r).backups) small_ranges;
    }
unfolding sum_all get_range_size
do_counting-all_example =
    do_counting-all nat_doubles.overflow ipv4 small_leases small_ranges small_networks
      small_leases-IsAscending small_sizes (omega arith)
