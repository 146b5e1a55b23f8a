-- ===== src/Output/Xml/Tree.antt =====
-- The element that the XML text stands for, from the tables.
use dhcpd_pools.Base.{ℕ, zero, suc, List, [], ◌∷◌, ◌++◌, Option, none, some, if◌then◌else◌}
use dhcpd_pools.Base.Text.{codes}
use dhcpd_pools.Base.Int.{pos}
use dhcpd_pools.Double.{Doubles}
use dhcpd_pools.Data.{Bytes, SharedNetwork, Range, Lease}
use dhcpd_pools.Sort.{range_size}
use dhcpd_pools.Alarm.{r_bit, s_bit, a_bit}
use dhcpd_pools.Output.{Printf, Ntop, Sheet, ntop_ipaddr, is_active, put_ethernet}
use dhcpd_pools.Output.Xml.Reader.{Element, element, Elements, empty_content, and_element}

module _ {d : Doubles} (pf : Printf d) (ntop : Ntop) (s : Sheet) where
  abbrev pub location_name : Option ℕ → Bytes
  location_name none = []
  location_name (some k) = (s.shared_networks k).name

  abbrev pub leaf : (tag text : Bytes) → Element
  leaf tag text = element tag text empty_content

  abbrev pub lease_element : Lease → Element
  lease_element l = element (codes "active_lease") (codes "\n\t") (
      and_element
        (and_element empty_content (leaf (codes "ip") (ntop_ipaddr ntop s.ip_version l.ip)))
        (leaf (codes "macaddress") (put_ethernet l.ethernet)))

  abbrev pub and_leases : Elements → List Lease → Elements
  and_leases inner [] = inner
  and_leases inner (l ∷ leases) =
      and_leases (if is_active l.type then and_element inner (lease_element l) else inner) leases

  -- The elements that a range and a network share.
  abbrev pub and_counts : Elements → (size : d.Double) (used touched : ℕ) → Elements
  and_counts inner size used touched =
      and_element
        (and_element
          (and_element (and_element inner (leaf (codes "defined") (pf.percent_g size)))
            (leaf (codes "used") (pf.percent_g (d.of_ℤ (pos used)))))
          (leaf (codes "touched") (pf.percent_g (d.of_ℤ (pos touched)))))
        (leaf (codes "free") (pf.percent_g (d.sub size (d.of_ℤ (pos used)))))

  abbrev pub range_element : Range → Element
  range_element r = element (codes "subnet") (codes "\n\t") (
      and_counts
        (and_element
          (and_element empty_content (leaf (codes "location") (location_name r.shared_net)))
          (leaf (codes "range") (
            ntop_ipaddr ntop s.ip_version r.first_ip
            ++ codes " - "
            ++ ntop_ipaddr ntop s.ip_version r.last_ip)))
        (range_size d s.ip_version r) r.count r.touched)

  abbrev pub net_element : (tag : Bytes) → SharedNetwork → Element
  net_element tag n = element tag (codes "\n\t") (
      and_counts (and_element empty_content (leaf (codes "location") n.name)) (d.of_ℤ n.available)
        n.used n.touched)

  abbrev pub and_ranges : Elements → List Range → Elements
  and_ranges inner [] = inner
  and_ranges inner (r ∷ ranges) = and_ranges (and_element inner (range_element r)) ranges

  abbrev pub and_networks : Elements → (shared_p num : ℕ) → Elements
  and_networks inner p zero = inner
  and_networks inner p (suc num) =
      and_networks
        (and_element inner (net_element (codes "shared-network") (s.shared_networks (suc p))))
        (suc p) num

  abbrev pub status : Element
  status =
      let leases =
        if s.print_mac_addreses then and_leases empty_content s.leases else empty_content in
      let subnets = if r_bit s.number_limit then and_ranges leases s.ranges else leases in
      let networks =
        if s_bit s.number_limit then and_networks subnets 0 s.num_shared_networks else subnets in
      element (codes "dhcpstatus") (codes "\n") (
        if a_bit s.header_limit
        then and_element networks (net_element (codes "summary") (s.shared_networks 0))
        else networks)
