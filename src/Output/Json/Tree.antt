-- ===== src/Output/Json/Tree.antt =====
-- The value that the JSON text stands for, from the tables.
use dhcpd_pools.Base.{ℕ, Bool, List, [], ◌∷◌, ◌++◌, Option, none, some, if◌then◌else◌}
use dhcpd_pools.Base.Text.{codes}
use dhcpd_pools.Base.Int.{pos}
use dhcpd_pools.Double.{Doubles}
use dhcpd_pools.Data.{Bytes, SharedNetwork, Range, Lease}
use dhcpd_pools.Sort.{range_size}
use dhcpd_pools.Alarm.{r_bit, s_bit, a_bit}
use dhcpd_pools.Output.{Printf, Ntop, Sheet, ntop_ipaddr, is_active, put_ethernet}
use dhcpd_pools.Output.Json.{visited}
use dhcpd_pools.Output.Json.Reader.{
  Json, string, word, array, object, Values, empty_list, and_value, Members, empty_record,
  and_member,
}

module _ {d : Doubles} (pf : Printf d) (ntop : Ntop) (s : Sheet) where
  abbrev pub text_of : Option ℕ → Bytes
  text_of none = []
  text_of (some k) = (s.shared_networks k).name

  abbrev pub number : d.Double → Json
  number x = word (pf.percent_g x)

  abbrev pub lease_value : Lease → Json
  lease_value l = object (
      and_member
        (and_member empty_record (codes "ip") (string (ntop_ipaddr ntop s.ip_version l.ip)))
        (codes "macaddress") (string (put_ethernet l.ethernet)))

  -- The active leases, behind what an array holds.
  abbrev pub and_leases : Values → List Lease → Values
  and_leases values [] = values
  and_leases values (l ∷ leases) =
      and_leases (if is_active l.type then and_value values (lease_value l) else values) leases

  -- Members that a range and a network share.
  abbrev pub and_three : Members → (size : d.Double) (used touched : ℕ) → Members
  and_three members size used touched =
      and_member
        (and_member (and_member members (codes "defined") (number size)) (codes "used")
          (number (d.of_ℤ (pos used))))
        (codes "touched") (number (d.of_ℤ (pos touched)))

  abbrev pub and_counts : Members → (size : d.Double) (used touched : ℕ) → Members
  and_counts members size used touched =
      and_member (and_three members size used touched) (codes "free")
        (number (d.sub size (d.of_ℤ (pos used))))

  abbrev pub range_value : Range → Json
  range_value r = object (
      and_counts
        (and_member (and_member empty_record (codes "location") (string (text_of r.shared_net)))
          (codes "range")
          (string (
            ntop_ipaddr ntop s.ip_version r.first_ip
            ++ codes " - "
            ++ ntop_ipaddr ntop s.ip_version r.last_ip)))
        (range_size d s.ip_version r) r.count r.touched)

  abbrev pub net_value : SharedNetwork → Json
  net_value n = object (
      and_counts (and_member empty_record (codes "location") (string n.name)) (d.of_ℤ n.available)
        n.used n.touched)

  abbrev pub and_all {ℓ} : {A : Type ℓ} → (A → Json) → Values → List A → Values
  and_all value values [] = values
  and_all value values (x ∷ xs) = and_all value (and_value values (value x)) xs

  abbrev pub when_member : Bool → Members → (key : Bytes) → Json → Members
  when_member c members key v = if c then and_member members key v else members

  abbrev pub with_leases : Members
  with_leases =
      when_member s.print_mac_addreses empty_record (codes "active_leases")
        (array (and_leases empty_list s.leases))

  abbrev pub with_subnets : Members
  with_subnets =
      when_member (r_bit s.number_limit) with_leases (codes "subnets")
        (array (and_all range_value empty_list s.ranges))

  abbrev pub with_networks : Members
  with_networks = when_member (s_bit s.number_limit) with_subnets (codes "shared-networks") (
      array (
        and_all (λ k. net_value (s.shared_networks k)) empty_list
          (visited 0 s.num_shared_networks)))

  abbrev pub report : Json
  report = object (
      when_member (a_bit s.header_limit) with_networks (codes "summary")
        (net_value (s.shared_networks 0)))
