-- ===== src/Output/Json/Text.antt =====
-- The JSON text, read back: its sections, and the whole.
use dhcpd_pools.Base.{
  ℕ, zero, suc, ◌==◌, Bool, true, false, List, [], ◌∷◌, ◌++◌, some, ◌≡◌, refl, sym, ap, arith,
  length,
}
use dhcpd_pools.Base.Text.{codes}
use dhcpd_pools.Base.Int.{pos}
use dhcpd_pools.Base.Machine.{Runs, run_then}
use dhcpd_pools.Double.{Doubles}
use dhcpd_pools.Data.{Bytes}
use dhcpd_pools.Alarm.{r_bit, s_bit, a_bit}
use dhcpd_pools.Output.{Printf, Ntop, Sheet, Arg, dbl, str, count, fprintf, format}
use dhcpd_pools.Output.Words.{IsPrintf, IsNtop, AllNames, AllEthernets}
use dhcpd_pools.Output.Json.{
  json_leases, json_range, json_net, json_summary, json_active_leases, json_subnets,
  json_shared_networks, section, counted, output_json, visited,
}
use dhcpd_pools.Output.Json.Reader.{
  Json, array, object, Values, empty_list, and_value, Members, empty_record, and_member, Frame,
  in_array, in_object, Reader, value_next, key_next, value_done, read, is_text_byte, value_of,
  read_json, read_string,
}
use dhcpd_pools.Output.Json.Pieces.{number_read, range_read, net_read}
use dhcpd_pools.Output.Json.Loops.{array_open, loop_read, leases_read}
use dhcpd_pools.Output.Json.Tree.{and_leases, range_value, net_value, and_all, when_member, report}

suc-zero : (n : ℕ) → (suc n == 0) ≡ false
suc-zero n = ground arith

length-visited : (p num : ℕ) → length (visited p num) ≡ num
unfolding visited
length-visited p zero = refl
length-visited p (suc num) = ap suc (length-visited (suc p) num)

module _ {d : Doubles} (pf : Printf d) (words : IsPrintf pf) (ntop : Ntop) (addresses : IsNtop ntop)
    (s : Sheet) (names : AllNames is_text_byte s.shared_networks) where
  abbrev print : Bytes → List (Arg d) → Bytes
  print = fprintf d pf

  -- A section that is a list, from its key to its bracket.
  array_read :
      (opening body closing : Bytes) (key : Bytes) (items : Values) (first : Bool)
      (members : Members)
      → Runs read
          (key_next first members [])
          opening
          (array_open empty_list (in_object members key ∷ []))
      → Runs read
          (array_open empty_list (in_object members key ∷ []))
          body
          (array_open items (in_object members key ∷ []))
      → Runs read
          (array_open items (in_object members key ∷ []))
          closing
          (value_done (array items) (in_object members key ∷ []))
      → Runs read
          (key_next first members [])
          (opening ++ (body ++ closing))
          (value_done (array items) (in_object members key ∷ []))
  array_read opening body closing key items first members h k l =
      run_then opening h (run_then body k l)

  newline_read :
      (items : Values) (frames : List Frame)
      → Runs read (array_open items frames) (codes "\n") (array_open items frames)
  unfolding read
  newline_read empty_list frames = record { reaches = refl }
  newline_read (and_value items v) (in_array w ∷ frames) = record { reaches = refl }
  newline_read (and_value items v) (in_object members key ∷ frames) = record { reaches = refl }
  newline_read (and_value items v) [] = record { reaches = refl }

  bracket_read :
      (items : Values) (frames : List Frame)
      → Runs read (array_open items frames) (codes "   ]") (value_done (array items) frames)
  unfolding read
  bracket_read empty_list frames = record { reaches = refl }
  bracket_read (and_value items v) frames = record { reaches = refl }

  -- Where the reader is behind a section, and behind the comma of the next.
  abbrev object_open : Members → Reader
  object_open empty_record = key_next true empty_record []
  object_open (and_member members key v) = value_done v (in_object members key ∷ [])

  abbrev size : Members → ℕ
  size empty_record = 0
  size (and_member members key v) = suc (size members)

  section-read :
      (c : Bool) (members : Members) (sep : ℕ) (key text : Bytes) (v : Json)
      → sep ≡ size members
      → ((first : Bool)
          → Runs read (key_next first members []) text (value_done v (in_object members key ∷ [])))
      → Runs read
          (object_open members)
          (section d pf ntop s c sep text)
          (object_open (when_member pf ntop s c members key v))
  unfolding section format read
  section-read false members sep key text v e h = record { reaches = refl }
  section-read true empty_record sep key text v e h = rw e (h true)
  section-read true (and_member members key' v') sep key text v e h =
      rw (e, suc-zero (size members)) (run_then (codes ",\n") (record { reaches = refl }) (h false))

  counted-size :
      (c : Bool) (members : Members) (sep : ℕ) (key : Bytes) (v : Json)
      → sep ≡ size members
      → counted d pf ntop s c sep ≡ size (when_member pf ntop s c members key v)
  counted-size true members sep key v e = ap suc e
  counted-size false members sep key v e = e

  active_leases_read :
      AllEthernets is_text_byte s.leases
      → (first : Bool) (members : Members)
      → Runs read (key_next first members []) (json_active_leases d pf ntop s) (
          value_done
            (array (and_leases pf ntop s empty_list s.leases))
            (in_object members (codes "active_leases") ∷ []))
  unfolding json_active_leases format read
  active_leases_read h first members =
      array_read (codes "   \"active_leases\": [") (json_leases d pf ntop s 0 s.leases)
        (codes "\n   ]") _ (and_leases pf ntop s empty_list s.leases) first members
        (record { reaches = refl })
        (leases_read pf words ntop addresses s names s.leases empty_list _ h)
        (run_then (codes "\n") (newline_read _ _) (bracket_read _ _))

  subnets_read :
      (first : Bool) (members : Members)
      → Runs read (key_next first members []) (json_subnets d pf ntop s) (
          value_done
            (array (and_all pf ntop s (range_value pf ntop s) empty_list s.ranges))
            (in_object members (codes "subnets") ∷ []))
  unfolding json_subnets format read
  subnets_read first members =
      array_read (codes "   \"subnets\": [\n") _ (codes "   ]") _ _ first members
        (record { reaches = refl })
        (loop_read pf words ntop addresses s names (json_range d pf ntop s) _ _ _ _
          (λ r items first. range_read pf words ntop addresses s names r items _ first) s.ranges
          (length s.ranges) refl)
        (bracket_read _ _)

  networks_read :
      (first : Bool) (members : Members)
      → Runs read (key_next first members []) (json_shared_networks d pf ntop s) (
          value_done
            (array (
              and_all pf ntop s
                (λ k. net_value pf ntop s (s.shared_networks k))
                empty_list
                (visited 0 s.num_shared_networks)))
            (in_object members (codes "shared-networks") ∷ []))
  unfolding json_shared_networks format read
  networks_read first members =
      array_read (codes "   \"shared-networks\": [\n") _ (codes "   ]") _ _ first members
        (record { reaches = refl })
        (loop_read pf words ntop addresses s names (λ k. json_net d pf ntop s (s.shared_networks k))
          _ _ _ _ (λ k items first. net_read pf words ntop addresses s names k items _ first)
          (visited 0 s.num_shared_networks) s.num_shared_networks
          (sym (length-visited 0 s.num_shared_networks)))
        (bracket_read _ _)

  summary_read :
      (first : Bool) (members : Members)
      → Runs read (key_next first members []) (json_summary d pf ntop s (s.shared_networks 0)) (
          value_done
            (net_value pf ntop s (s.shared_networks 0))
            (in_object members (codes "summary") ∷ []))
  unfolding json_summary format read
  summary_read first members =
      let n = s.shared_networks 0 in
      run_then (codes "   \"summary\": {\n") (record { reaches = refl })
        (run_then (print (codes "         \"location\":\"%s\",\n") (str n.name ∷ []))
          (record { reaches = read_string n.name _ [] _ (names 0) })
          (run_then (print (codes "         \"defined\":%g,\n") (dbl (d.of_ℤ n.available) ∷ []))
            (record { reaches = number_read pf words ntop addresses s names _ _ _ })
            (run_then (print (codes "         \"used\":%g,\n") (count d pf n.used ∷ []))
              (record { reaches = number_read pf words ntop addresses s names _ _ _ })
              (run_then (print (codes "         \"touched\":%g,\n") (count d pf n.touched ∷ []))
                (record { reaches = number_read pf words ntop addresses s names _ _ _ })
                (run_then
                  (print (codes "         \"free\":%g\n")
                    (dbl (d.sub (d.of_ℤ n.available) (d.of_ℤ (pos n.used))) ∷ []))
                  (record { reaches = number_read pf words ntop addresses s names _ _ _ })
                  (record { reaches = refl }))))))

  end_read :
      (members : Members)
      → Runs read (object_open members) (codes "\n}\n") (value_done (object members) [])
  unfolding read
  end_read empty_record = record { reaches = refl }
  end_read (and_member members key v) = record { reaches = refl }

  -- Read as JSON, the text is the object that the tables give: the sections that the limits select, with
  -- their items in order, if no name and no hardware address holds a quote, a backslash or a control byte,
  -- and numbers and addresses are written as words (`IsPrintf`, `IsNtop`).
  pub output_json-report :
      AllEthernets is_text_byte s.leases
      → read_json (output_json d pf ntop s) ≡ some (report pf ntop s)
  unfolding output_json section format read_json value_of read
  output_json-report ethernets =
      let leases =
        counted-size s.print_mac_addreses empty_record 0 (codes "active_leases") _ refl in
      let subnets = counted-size (r_bit s.number_limit) _ _ (codes "subnets") _ leases in
      let networks = counted-size (s_bit s.number_limit) _ _ (codes "shared-networks") _ subnets in
      ap value_of
        (run_then {start = value_next false []} (codes "{\n") (record { reaches = refl })
          (run_then _
            (section-read s.print_mac_addreses empty_record 0 _ _ _ refl
              (λ first. active_leases_read ethernets first _))
            (run_then _
              (section-read (r_bit s.number_limit) _ _ _ _ _ leases (λ first. subnets_read first _))
              (run_then _
                (section-read (s_bit s.number_limit) _ _ _ _ _ subnets
                  (λ first. networks_read first _))
                (run_then _
                  (section-read (a_bit s.header_limit) _ _ _ _ _ networks
                    (λ first. summary_read first _))
                  (end_read _)))))).reaches
