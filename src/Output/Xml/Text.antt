-- ===== src/Output/Xml/Text.antt =====
-- The XML text, read back: its loops, and the whole.
use dhcpd_pools.Base.{ℕ, zero, suc, List, [], ◌∷◌, some, ◌≡◌, refl, ap}
use dhcpd_pools.Base.Text.{codes}
use dhcpd_pools.Base.Machine.{run_then}
use dhcpd_pools.Double.{Doubles}
use dhcpd_pools.Data.{Range, Lease}
use dhcpd_pools.Alarm.{r_bit, s_bit, a_bit}
use dhcpd_pools.Output.{Printf, Ntop, Sheet, format, is_active, print_ranges, print_networks}
use dhcpd_pools.Output.Words.{IsPrintf, IsNtop, AllNames, AllEthernets}
use dhcpd_pools.Output.Xml.{xml_leases, xml_range, xml_shared_network, output_xml}
use dhcpd_pools.Output.Xml.Reader.{
  empty_content, frame, content, read, is_character, root_of, read_xml,
}
use dhcpd_pools.Output.Xml.Pieces.{
  Grows, Grows-when, lease_read, shared_network_read, summary_read, range_read,
}
use dhcpd_pools.Output.Xml.Tree.{and_leases, and_ranges, and_networks, status}

module _ {d : Doubles} (pf : Printf d) (words : IsPrintf pf) (ntop : Ntop) (addresses : IsNtop ntop)
    (s : Sheet) (names : AllNames is_character s.shared_networks) where
  leases_read :
      (leases : List Lease)
      → AllEthernets is_character leases
      → Grows (xml_leases d pf ntop s leases) (λ inner. and_leases pf ntop s inner leases)
  unfolding xml_leases
  leases_read [] h tag before inner outer = record { reaches = refl }
  leases_read (l ∷ leases) h tag before inner outer =
      run_then _
        (Grows-when (is_active l.type) _ _ (lease_read pf words ntop addresses s names l h.0) tag
          before inner outer)
        (leases_read leases h.1 tag before _ outer)

  ranges_read :
      (ranges : List Range)
      → Grows
          (print_ranges (xml_range d pf ntop s) ranges)
          (λ inner. and_ranges pf ntop s inner ranges)
  unfolding print_ranges
  ranges_read [] tag before inner outer = record { reaches = refl }
  ranges_read (r ∷ ranges) tag before inner outer =
      run_then _ (range_read pf words ntop addresses s names r tag before inner outer)
        (ranges_read ranges tag before _ outer)

  networks_read :
      (p num : ℕ)
      → Grows
          (print_networks (xml_shared_network d pf ntop s) s.shared_networks p num)
          (λ inner. and_networks pf ntop s inner p num)
  unfolding print_networks
  networks_read p zero tag before inner outer = record { reaches = refl }
  networks_read p (suc num) tag before inner outer =
      run_then _
        (shared_network_read pf words ntop addresses s names (suc p) tag before inner outer)
        (networks_read (suc p) num tag before _ outer)

  -- Read as XML, the text is the element that the tables give: the sections that the limits select, with
  -- their elements in order, if no name and no hardware address holds `<` or `&`, and numbers and
  -- addresses are written as words (`IsPrintf`, `IsNtop`).
  pub output_xml-status :
      AllEthernets is_character s.leases
      → read_xml (output_xml d pf ntop s) ≡ some (status pf ntop s)
  unfolding output_xml format read_xml root_of read
  output_xml-status ethernets =
      let tag = codes "dhcpstatus" in
      let before = codes "\n" in
      let outer = frame [] [] empty_content ∷ [] in
      ap root_of
        (run_then {start = content (frame [] [] empty_content) []} (codes "<dhcpstatus>\n")
          (record { reaches = refl })
          (run_then _
            (Grows-when s.print_mac_addreses _ _ (leases_read s.leases ethernets) tag before _
              outer)
            (run_then _
              (Grows-when (r_bit s.number_limit) _ _ (ranges_read s.ranges) tag before _ outer)
              (run_then _
                (Grows-when (s_bit s.number_limit) _ _ (networks_read 0 s.num_shared_networks) tag
                  before _ outer)
                (run_then _
                  (Grows-when (a_bit s.header_limit) _ _
                    (summary_read pf words ntop addresses s names) tag before _ outer)
                  (record { reaches = refl })))))).reaches
