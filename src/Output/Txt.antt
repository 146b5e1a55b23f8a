-- ===== src/Output/Txt.antt =====
-- src/output.c: `output_txt`.
pub mod Columns
use dhcpd_pools.Base.{
  ℕ, ◌+◌, Bool, true, false, ◌&&◌, List, [], ◌∷◌, ◌++◌, Option, none, some, if◌then◌else◌,
}
use dhcpd_pools.Base.Text.{codes}
use dhcpd_pools.Double.{Doubles}
use dhcpd_pools.Data.{Bytes, DhcpVersion, ipv_unknown, ipv4, ipv6, SharedNetwork, Range}
use dhcpd_pools.Sort.{range_size}
use dhcpd_pools.Alarm.{r_bit, s_bit, a_bit, is_zero}
use dhcpd_pools.Output.{
  Printf, Ntop, Sheet, Arg, str, dbl, width, ntop_ipaddr, format, plain, fprintf, count, ratio,
  net_ratio, print_ranges, print_networks, when,
}

unfoldable pub max_ipaddr_length : DhcpVersion → ℕ
max_ipaddr_length ipv6 = 39
max_ipaddr_length ipv4 = 16
max_ipaddr_length ipv_unknown = 16

module _ (d : Doubles) (pf : Printf d) (ntop : Ntop) (s : Sheet) where
  abbrev print : Bytes → List (Arg d) → Bytes
  print = fprintf d pf

  -- The columns of the header of the ranges.
  unfoldable pub txt_range_heads : Bytes
  unfolding format max_ipaddr_length
  txt_range_heads = print (codes "%-20s%-*s   %-*s %5s %5s %10s  %5s %5s %9s") (
      str (codes "shared net name")
      ∷ width (max_ipaddr_length s.ip_version)
      ∷ str (codes "first ip")
      ∷ width (max_ipaddr_length s.ip_version)
      ∷ str (codes "last ip")
      ∷ str (codes "max")
      ∷ str (codes "cur")
      ∷ str (codes "percent")
      ∷ str (codes "touch")
      ∷ str (codes "t+c")
      ∷ str (codes "t+c perc")
      ∷ [])

  -- The end of a header.
  unfoldable pub txt_heads_end : Bytes
  unfolding format
  txt_heads_end =
      when s.backups_found (print (codes "     bu  bu perc") []) ++ print (codes "\n") []

  unfoldable pub txt_location : Option ℕ → Bytes
  unfolding format
  txt_location none = print (codes "not_defined         ") []
  txt_location (some k) = print (codes "%-20s") (str (s.shared_networks k).name ∷ [])

  -- The columns of a range, up to those for backup leases.
  unfoldable pub txt_range_columns : Range → Bytes
  unfolding format txt_location ntop_ipaddr ratio max_ipaddr_length
  txt_range_columns r =
      let size = range_size d s.ip_version r in
      txt_location r.shared_net
      ++ (print (codes "%-*s") (
            width (max_ipaddr_length s.ip_version)
            ∷ str (ntop_ipaddr ntop s.ip_version r.first_ip)
            ∷ [])
          ++ print (codes " - %-*s %5g %5g %10.3f  %5g %5g %9.3f") (
              width (max_ipaddr_length s.ip_version)
              ∷ str (ntop_ipaddr ntop s.ip_version r.last_ip)
              ∷ dbl size
              ∷ count d pf r.count
              ∷ dbl (ratio d pf r.count size)
              ∷ count d pf r.touched
              ∷ count d pf (r.touched + r.count)
              ∷ dbl (ratio d pf (r.touched + r.count) size)
              ∷ []))

  -- One round of the loop on the ranges.
  unfoldable pub txt_range : Range → Bytes
  unfolding format txt_range_columns ratio
  txt_range r =
      txt_range_columns r
      ++ (when s.backups_found (
            print (codes "%7g %8.3f") (
              count d pf r.backups ∷ dbl (ratio d pf r.backups (range_size d s.ip_version r)) ∷ []))
          ++ print (codes "\n") [])

  -- The columns of the header of the shared networks, and of the sum.
  unfoldable pub txt_net_heads : Bytes
  unfolding format
  txt_net_heads =
      print (codes "name                   max   cur     percent  touch    t+c  t+c perc") []

  -- The columns of a shared network, and of the sum, up to those for backup leases.
  unfoldable pub txt_net_columns : SharedNetwork → Bytes
  unfolding format net_ratio
  txt_net_columns n = print (codes "%-20s %5g %5g %10.3f %7g %6g %9.3f") (
      str n.name
      ∷ dbl (d.of_ℤ n.available)
      ∷ count d pf n.used
      ∷ dbl (net_ratio d pf n.used n.available)
      ∷ count d pf n.touched
      ∷ count d pf (n.touched + n.used)
      ∷ dbl (net_ratio d pf (n.touched + n.used) n.available)
      ∷ [])

  -- One round of the loop on the shared networks: the share of the backup leases has no test for zero.
  unfoldable pub txt_net : SharedNetwork → Bytes
  unfolding format txt_net_columns ratio
  txt_net n =
      txt_net_columns n
      ++ (when s.backups_found (
            print (codes "%7g %8.3f")
              (count d pf n.backups ∷ dbl (ratio d pf n.backups (d.of_ℤ n.available)) ∷ []))
          ++ print (codes "\n") [])

  -- The line of the sum: here the number of backup leases has the test.
  unfoldable pub txt_sum : SharedNetwork → Bytes
  unfolding format txt_net_columns ratio is_zero
  txt_sum n =
      txt_net_columns n
      ++ (when s.backups_found (
            print (codes "%7g %8.3f") (
              (if is_zero n.available then dbl pf.nan else count d pf n.backups)
              ∷ dbl (ratio d pf n.backups (d.of_ℤ n.available))
              ∷ []))
          ++ print (codes "\n") [])

  -- The text that output_txt writes.
  unfoldable pub output_txt : Bytes
  unfolding format txt_range_heads txt_heads_end txt_range txt_net_heads txt_net txt_sum
      print_ranges print_networks r_bit s_bit a_bit
  output_txt =
      when (r_bit s.header_limit)
        (print (codes "Ranges:\n") [] ++ (txt_range_heads ++ txt_heads_end))
      ++ (when (r_bit s.number_limit) (print_ranges txt_range s.ranges)
          ++ (when (r_bit s.number_limit && s_bit s.header_limit) (print (codes "\n") [])
              ++ (when (s_bit s.header_limit)
                    (print (codes "Shared networks:\n") [] ++ (txt_net_heads ++ txt_heads_end))
                  ++ (when (s_bit s.number_limit)
                        (print_networks txt_net s.shared_networks 0 s.num_shared_networks)
                      ++ (when (s_bit s.number_limit && a_bit s.header_limit)
                            (print (codes "\n") [])
                          ++ (when (a_bit s.header_limit) (
                                print (codes "Sum of all ranges:\n") []
                                ++ (txt_net_heads ++ txt_heads_end))
                              ++ when (a_bit s.number_limit) (txt_sum (s.shared_networks 0))))))))
