-- ===== src/Output/Json.antt =====
-- src/output.c: `output_json`.
pub mod Reader
pub mod Tree
pub mod Pieces
pub mod Loops
pub mod Text
use dhcpd_pools.Base.{
  ℕ, zero, suc, ◌+◌, ◌==◌, Bool, true, false, List, [], ◌∷◌, ◌++◌, Option, none, some, ltb, length,
  if◌then◌else◌,
}
use dhcpd_pools.Base.Text.{codes}
use dhcpd_pools.Base.Int.{pos}
use dhcpd_pools.Double.{Doubles}
use dhcpd_pools.Data.{Bytes, SharedNetwork, Range, Lease}
use dhcpd_pools.Counting.{Networks}
use dhcpd_pools.Sort.{range_size}
use dhcpd_pools.Alarm.{r_bit, s_bit, a_bit}
use dhcpd_pools.Output.{
  Printf, Ntop, Sheet, Arg, str, dbl, ntop_ipaddr, format, plain, fprintf, count, when, is_active,
  put_ethernet,
}

-- The positions in the table that `shared_p++` visits.
unfoldable pub visited : (shared_p num : ℕ) → List ℕ
visited shared_p zero = []
visited shared_p (suc num) = suc shared_p ∷ visited (suc shared_p) num

module _ (d : Doubles) (pf : Printf d) (ntop : Ntop) (s : Sheet) where
  abbrev print : Bytes → List (Arg d) → Bytes
  print = fprintf d pf

  -- The comma between two leases: `i` tells whether one has been written.
  unfoldable pub lease_comma : ℕ → Bytes
  lease_comma i = if i == 0 then [] else codes ","

  unfoldable pub json_lease : Lease → Bytes
  unfolding ntop_ipaddr put_ethernet
  json_lease l =
      codes "\n         { \"ip\":\""
      ++ (ntop_ipaddr ntop s.ip_version l.ip
          ++ (codes "\", \"macaddress\":\"" ++ (put_ethernet l.ethernet ++ codes "\" }")))

  -- The loop on the leases.
  unfoldable pub json_leases : (i : ℕ) → List Lease → Bytes
  unfolding json_lease lease_comma is_active
  json_leases i [] = []
  json_leases i (l ∷ leases) =
      when (is_active l.type) (lease_comma i ++ json_lease l)
      ++ json_leases (if is_active l.type then 1 else i) leases

  unfoldable pub json_location : Option ℕ → Bytes
  unfolding format
  json_location none = print (codes "\"location\":\"\", ") []
  json_location (some k) =
      print (codes "\"location\":\"%s\", ") (str (s.shared_networks k).name ∷ [])

  -- A round of the loop on the ranges, to the end of the last value.
  unfoldable pub json_range : Range → Bytes
  unfolding format json_location ntop_ipaddr
  json_range r =
      let size = range_size d s.ip_version r in
      print (codes "         ") []
      ++ (print (codes "{ ") []
          ++ (json_location r.shared_net
              ++ (print (codes "\"range\":\"%s")
                    (str (ntop_ipaddr ntop s.ip_version r.first_ip) ∷ [])
                  ++ (print (codes " - %s\", ") (str (ntop_ipaddr ntop s.ip_version r.last_ip) ∷ [])
                      ++ (print (codes "\"defined\":%g, ") (dbl size ∷ [])
                          ++ (print (codes "\"used\":%g, ") (count d pf r.count ∷ [])
                              ++ (print (codes "\"touched\":%g, ") (count d pf r.touched ∷ [])
                                  ++ print (codes "\"free\":%g ")
                                      (dbl (d.sub size (d.of_ℤ (pos r.count))) ∷ []))))))))

  -- A round of the loop on the shared networks, to the end of the last value.
  unfoldable pub json_net : SharedNetwork → Bytes
  unfolding format
  json_net n =
      print (codes "         ") []
      ++ (print (codes "{ ") []
          ++ (print (codes "\"location\":\"%s\", ") (str n.name ∷ [])
              ++ (print (codes "\"defined\":%g, ") (dbl (d.of_ℤ n.available) ∷ [])
                  ++ (print (codes "\"used\":%g, ") (count d pf n.used ∷ [])
                      ++ (print (codes "\"touched\":%g, ") (count d pf n.touched ∷ [])
                          ++ print (codes "\"free\":%g ")
                              (dbl (d.sub (d.of_ℤ n.available) (d.of_ℤ (pos n.used))) ∷ []))))))

  -- The end of a round: `i + 1 < num` puts a comma behind the object.
  unfoldable pub json_end : (num i : ℕ) → Bytes
  unfolding format
  json_end num i = if ltb (i + 1) num then print (codes "},\n") [] else print (codes "}\n") []

  -- The loops on the ranges and on the shared networks.
  unfoldable pub json_items {ℓ} : {A : Type ℓ} → (A → Bytes) → (num i : ℕ) → List A → Bytes
  unfolding json_end
  json_items item num i [] = []
  json_items item num i (x ∷ xs) = item x ++ (json_end num i ++ json_items item num (suc i) xs)

  unfoldable pub json_summary : SharedNetwork → Bytes
  unfolding format
  json_summary n =
      print (codes "   \"summary\": {\n") []
      ++ (print (codes "         \"location\":\"%s\",\n") (str n.name ∷ [])
          ++ (print (codes "         \"defined\":%g,\n") (dbl (d.of_ℤ n.available) ∷ [])
              ++ (print (codes "         \"used\":%g,\n") (count d pf n.used ∷ [])
                  ++ (print (codes "         \"touched\":%g,\n") (count d pf n.touched ∷ [])
                      ++ (print (codes "         \"free\":%g\n")
                            (dbl (d.sub (d.of_ℤ n.available) (d.of_ℤ (pos n.used))) ∷ [])
                          ++ print (codes "   }") [])))))

  -- The three sections that are lists.
  unfoldable pub json_active_leases : Bytes
  unfolding format json_leases
  json_active_leases =
      print (codes "   \"active_leases\": [") []
      ++ (json_leases 0 s.leases ++ print (codes "\n   ]") [])

  unfoldable pub json_subnets : Bytes
  unfolding format json_items json_range
  json_subnets =
      print (codes "   \"subnets\": [\n") []
      ++ (json_items json_range (length s.ranges) 0 s.ranges ++ print (codes "   ]") [])

  unfoldable pub json_shared_networks : Bytes
  unfolding format json_items json_net visited
  json_shared_networks =
      print (codes "   \"shared-networks\": [\n") []
      ++ (json_items (λ k. json_net (s.shared_networks k)) s.num_shared_networks 0
            (visited 0 s.num_shared_networks)
          ++ print (codes "   ]") [])

  -- A section under its condition, behind a comma if there is one before it; and `sep++`.
  unfoldable pub section : Bool → (sep : ℕ) → Bytes → Bytes
  unfolding format
  section c sep text = when c ((if sep == 0 then [] else print (codes ",\n") []) ++ text)

  abbrev pub counted : Bool → ℕ → ℕ
  counted c sep = if c then suc sep else sep

  -- The text that output_json writes.
  unfoldable pub output_json : Bytes
  unfolding format section json_active_leases json_subnets json_shared_networks json_summary r_bit
      s_bit a_bit
  output_json =
      let with_leases = counted s.print_mac_addreses 0 in
      let with_subnets = counted (r_bit s.number_limit) with_leases in
      let with_networks = counted (s_bit s.number_limit) with_subnets in
      print (codes "{\n") []
      ++ (when s.print_mac_addreses json_active_leases
          ++ (section (r_bit s.number_limit) with_leases json_subnets
              ++ (section (s_bit s.number_limit) with_subnets json_shared_networks
                  ++ (section (a_bit s.header_limit) with_networks
                        (json_summary (s.shared_networks 0))
                      ++ print (codes "\n}\n") []))))
