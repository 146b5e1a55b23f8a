-- ===== src/Output/Xml.antt =====
-- src/output.c: `output_xml`.
pub mod Reader
pub mod Tree
pub mod Pieces
pub mod Text
use dhcpd_pools.Base.{ℕ, Bool, true, false, List, [], ◌∷◌, ◌++◌, Option, none, some}
use dhcpd_pools.Base.Text.{codes}
use dhcpd_pools.Base.Int.{pos}
use dhcpd_pools.Double.{Doubles}
use dhcpd_pools.Data.{Bytes, SharedNetwork, Range, Lease}
use dhcpd_pools.Sort.{range_size}
use dhcpd_pools.Alarm.{r_bit, s_bit, a_bit}
use dhcpd_pools.Output.{
  Printf, Ntop, Sheet, Arg, str, dbl, ntop_ipaddr, format, plain, fprintf, count, print_ranges,
  print_networks, when, is_active, put_ethernet,
}

module _ (d : Doubles) (pf : Printf d) (ntop : Ntop) (s : Sheet) where
  abbrev print : Bytes → List (Arg d) → Bytes
  print = fprintf d pf

  unfoldable pub xml_lease : Lease → Bytes
  unfolding ntop_ipaddr put_ethernet
  xml_lease l =
      codes "<active_lease>\n\t<ip>"
      ++ (ntop_ipaddr ntop s.ip_version l.ip
          ++ (codes "</ip>\n\t<macaddress>"
              ++ (put_ethernet l.ethernet ++ codes "</macaddress>\n</active_lease>\n")))

  -- The loop on the leases.
  unfoldable pub xml_leases : List Lease → Bytes
  unfolding xml_lease is_active
  xml_leases [] = []
  xml_leases (l ∷ leases) = when (is_active l.type) (xml_lease l) ++ xml_leases leases

  unfoldable pub xml_location : Option ℕ → Bytes
  unfolding format
  xml_location none = print (codes "\t<location></location>\n") []
  xml_location (some k) =
      print (codes "\t<location>%s</location>\n") (str (s.shared_networks k).name ∷ [])

  -- One round of the loop on the ranges.
  unfoldable pub xml_range : Range → Bytes
  unfolding format xml_location ntop_ipaddr
  xml_range r =
      let size = range_size d s.ip_version r in
      print (codes "<subnet>\n") []
      ++ (xml_location r.shared_net
          ++ (print (codes "\t<range>%s ") (str (ntop_ipaddr ntop s.ip_version r.first_ip) ∷ [])
              ++ (print (codes "- %s</range>\n")
                    (str (ntop_ipaddr ntop s.ip_version r.last_ip) ∷ [])
                  ++ (print (codes "\t<defined>%g</defined>\n") (dbl size ∷ [])
                      ++ (print (codes "\t<used>%g</used>\n") (count d pf r.count ∷ [])
                          ++ (print (codes "\t<touched>%g</touched>\n") (count d pf r.touched ∷ [])
                              ++ (print (codes "\t<free>%g</free>\n")
                                    (dbl (d.sub size (d.of_ℤ (pos r.count))) ∷ [])
                                  ++ print (codes "</subnet>\n") [])))))))

  -- What a shared network and the sum print between their tags.
  unfoldable pub xml_net : SharedNetwork → Bytes
  unfolding format
  xml_net n =
      print (codes "\t<location>%s</location>\n") (str n.name ∷ [])
      ++ (print (codes "\t<defined>%g</defined>\n") (dbl (d.of_ℤ n.available) ∷ [])
          ++ (print (codes "\t<used>%g</used>\n") (count d pf n.used ∷ [])
              ++ (print (codes "\t<touched>%g</touched>\n") (count d pf n.touched ∷ [])
                  ++ print (codes "\t<free>%g</free>\n")
                      (dbl (d.sub (d.of_ℤ n.available) (d.of_ℤ (pos n.used))) ∷ []))))

  -- One round of the loop on the shared networks.
  unfoldable pub xml_shared_network : SharedNetwork → Bytes
  unfolding format xml_net
  xml_shared_network n =
      print (codes "<shared-network>\n") [] ++ (xml_net n ++ print (codes "</shared-network>\n") [])

  unfoldable pub xml_summary : SharedNetwork → Bytes
  unfolding format xml_net
  xml_summary n = print (codes "<summary>\n") [] ++ (xml_net n ++ print (codes "</summary>\n") [])

  -- The text that output_xml writes.
  unfoldable pub output_xml : Bytes
  unfolding format xml_leases xml_range xml_shared_network xml_summary print_ranges print_networks
      r_bit s_bit a_bit
  output_xml =
      print (codes "<dhcpstatus>\n") []
      ++ (when s.print_mac_addreses (xml_leases s.leases)
          ++ (when (r_bit s.number_limit) (print_ranges xml_range s.ranges)
              ++ (when (s_bit s.number_limit)
                    (print_networks xml_shared_network s.shared_networks 0 s.num_shared_networks)
                  ++ (when (a_bit s.header_limit) (xml_summary (s.shared_networks 0))
                      ++ print (codes "</dhcpstatus>\n") []))))
