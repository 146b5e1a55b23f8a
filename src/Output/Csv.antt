-- ===== src/Output/Csv.antt =====
-- src/output.c: `output_csv`.
pub mod Reader
pub mod Columns
pub mod Rows
pub mod Table
use dhcpd_pools.Base.{ℕ, ◌+◌, Bool, List, [], ◌∷◌, ◌++◌, Option, none, some, length}
use dhcpd_pools.Base.Text.{codes}
use dhcpd_pools.Base.Int.{pos}
use dhcpd_pools.Double.{Doubles}
use dhcpd_pools.Data.{Bytes, SharedNetwork, Range}
use dhcpd_pools.Sort.{range_size}
use dhcpd_pools.Alarm.{r_bit, s_bit, a_bit}
use dhcpd_pools.Output.{
  Printf, Ntop, Sheet, Arg, str, dbl, ntop_ipaddr, format, plain, fprintf, count, ratio, net_ratio,
  print_ranges, print_networks, when,
}

module _ (d : Doubles) (pf : Printf d) (ntop : Ntop) (s : Sheet) where
  abbrev print : Bytes → List (Arg d) → Bytes
  print = fprintf d pf

  unfoldable pub csv_range_header : Bytes
  unfolding format
  csv_range_header =
      print (codes "\"Ranges:\"\n") []
      ++ (print
            (codes
              "\"shared net name\",\"first ip\",\"last ip\",\"max\",\"cur\",\"percent\",\"touch\",\"t+c\",\"t+c perc\"")
            []
          ++ (when s.backups_found (print (codes ",\"bu\",\"bu perc\"") [])
              ++ print (codes "\n") []))

  -- The name of the shared network of a range.
  unfoldable pub csv_location : Option ℕ → Bytes
  unfolding format
  csv_location none = print (codes "\"not_defined\",") []
  csv_location (some k) = print (codes "\"%s\",") (str (s.shared_networks k).name ∷ [])

  -- One round of the loop on the ranges.
  unfoldable pub csv_range : Range → Bytes
  unfolding format csv_location ntop_ipaddr ratio
  csv_range r =
      let size = range_size d s.ip_version r in
      csv_location r.shared_net
      ++ (print (codes "\"%s\",") (str (ntop_ipaddr ntop s.ip_version r.first_ip) ∷ [])
          ++ (print (codes "\"%s\",\"%g\",\"%g\",\"%.3f\",\"%g\",\"%g\",\"%.3f\"") (
                str (ntop_ipaddr ntop s.ip_version r.last_ip)
                ∷ dbl size
                ∷ count d pf r.count
                ∷ dbl (ratio d pf r.count size)
                ∷ count d pf r.touched
                ∷ count d pf (r.touched + r.count)
                ∷ dbl (ratio d pf (r.touched + r.count) size)
                ∷ [])
              ++ (when s.backups_found (
                    print (codes ",\"%g\",\"%.3f\"")
                      (count d pf r.backups ∷ dbl (ratio d pf r.backups size) ∷ []))
                  ++ print (codes "\n") [])))

  -- The header of the shared networks, and of the sum, behind its first line.
  unfoldable pub csv_net_header : Bytes
  unfolding format
  csv_net_header =
      print (codes "\"name\",\"max\",\"cur\",\"percent\",\"touch\",\"t+c\",\"t+c perc\"") []
      ++ (when s.backups_found (print (codes ",\"bu\",\"bu perc\"") []) ++ print (codes "\n") [])

  -- The columns of a shared network, and of all networks.
  unfoldable pub csv_net_columns : SharedNetwork → Bytes
  unfolding format net_ratio
  csv_net_columns n = print (codes "\"%s\",\"%g\",\"%g\",\"%.3f\",\"%g\",\"%g\",\"%.3f\"") (
      str n.name
      ∷ dbl (d.of_ℤ n.available)
      ∷ count d pf n.used
      ∷ dbl (net_ratio d pf n.used n.available)
      ∷ count d pf n.touched
      ∷ count d pf (n.touched + n.used)
      ∷ dbl (net_ratio d pf (n.touched + n.used) n.available)
      ∷ [])

  -- One round of the loop on the shared networks.
  unfoldable pub csv_net : SharedNetwork → Bytes
  unfolding format csv_net_columns net_ratio
  csv_net n =
      csv_net_columns n
      ++ (when s.backups_found (
            print (codes ",\"%g\",\"%.3f\"")
              (count d pf n.backups ∷ dbl (net_ratio d pf n.backups n.available) ∷ []))
          ++ print (codes "\n") [])

  -- The line with the sum.
  unfoldable pub csv_sum : SharedNetwork → Bytes
  unfolding format csv_net_columns net_ratio
  csv_sum n =
      csv_net_columns n
      ++ (when s.backups_found (
            print (codes "%7g %8.3f")
              (count d pf n.backups ∷ dbl (net_ratio d pf n.backups n.available) ∷ []))
          ++ print (codes "\n") [])

  -- The text that output_csv writes.
  unfoldable pub output_csv : Bytes
  unfolding format csv_range_header csv_range csv_net_header csv_net csv_sum print_ranges
      print_networks r_bit s_bit a_bit
  output_csv =
      when (r_bit s.header_limit) csv_range_header
      ++ (when (r_bit s.number_limit) (print_ranges csv_range s.ranges ++ print (codes "\n") [])
          ++ (when (s_bit s.header_limit)
                (print (codes "\"Shared networks:\"\n") [] ++ csv_net_header)
              ++ (when (s_bit s.number_limit) (
                    print_networks csv_net s.shared_networks 0 s.num_shared_networks
                    ++ print (codes "\n") [])
                  ++ (when (a_bit s.header_limit)
                        (print (codes "\"Sum of all ranges:\"\n") [] ++ csv_net_header)
                      ++ when (a_bit s.number_limit) (csv_sum (s.shared_networks 0))))))
