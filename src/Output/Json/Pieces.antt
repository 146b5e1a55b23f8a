-- ===== src/Output/Json/Pieces.antt =====
-- The parts of the JSON text, read back: a lease, a range, a network.
use dhcpd_pools.Base.{
  ◌∙◌, ℕ, Bool, true, false, List, [], ◌∷◌, ◌++◌, Option, none, some, ◌≡◌, refl, ap, arith,
}
use dhcpd_pools.Base.Text.{codes}
use dhcpd_pools.Base.Int.{pos}
use dhcpd_pools.Base.Machine.{run, Runs, run_then, AllBytes, is_word_byte}
use dhcpd_pools.Double.{Doubles}
use dhcpd_pools.Data.{Bytes, Range, Lease, IpAddr}
use dhcpd_pools.Sort.{range_size}
use dhcpd_pools.Output.{
  Printf, Ntop, Sheet, Arg, dbl, str, count, fprintf, format, ntop_ipaddr, put_ethernet,
}
use dhcpd_pools.Output.Words.{dashed, IsPrintf, IsNtop, AllNames, AllBytes-ntop}
use dhcpd_pools.Output.Json.{json_lease, json_location, json_range, json_net}
use dhcpd_pools.Output.Json.Reader.{
  string, Values, Members, empty_record, and_member, Frame, in_array, in_object, value_next,
  key_next, in_word, value_done, read, is_text_byte, read_string, read_word,
}
use dhcpd_pools.Output.Json.Tree.{text_of, number, lease_value, and_three}

pub text-word : (c : ℕ) → is_word_byte c ≡ true → is_text_byte c ≡ true
unfolding is_word_byte is_text_byte
text-word c h = ground arith

module _ {d : Doubles} (pf : Printf d) (words : IsPrintf pf) (ntop : Ntop) (addresses : IsNtop ntop)
    (s : Sheet) (names : AllNames is_text_byte s.shared_networks) where
  text_ip : (ip : IpAddr) → AllBytes is_text_byte (ntop_ipaddr ntop s.ip_version ip)
  text_ip ip = AllBytes-ntop is_text_byte text-word ntop addresses s.ip_version ip

  pub lease_read :
      (l : Lease) (items : Values) (frames : List Frame) (first : Bool)
      → AllBytes is_text_byte (put_ethernet l.ethernet)
      → Runs read
          (value_next first (in_array items ∷ frames))
          (json_lease d pf ntop s l)
          (value_done (lease_value pf ntop s l) (in_array items ∷ frames))
  unfolding json_lease read
  lease_read l items frames first h =
      let ip = ntop_ipaddr ntop s.ip_version l.ip in
      record {
        reaches =
            read_string ip _ [] _ (text_ip l.ip)
            ∙ read_string (put_ethernet l.ethernet) (codes "\" }") [] _ h;
      }

  -- A number behind its key.
  pub number_read :
      (x : d.Double) (rest : Bytes) (frames : List Frame)
      → run read (value_next false frames) (pf.percent_g x ++ rest)
        ≡ run read (in_word (pf.percent_g x) frames) rest
  number_read x rest frames =
      read_word (pf.percent_g x) rest false frames (words.g_written x) (words.g_word x)

  abbrev print : Bytes → List (Arg d) → Bytes
  print = fprintf d pf

  counts_read :
      (members : Members) (frames : List Frame) (size : d.Double) (used touched : ℕ)
      → Runs read
          (key_next false members frames)
          (print (codes "\"defined\":%g, ") (dbl size ∷ [])
            ++ (print (codes "\"used\":%g, ") (count d pf used ∷ [])
                ++ (print (codes "\"touched\":%g, ") (count d pf touched ∷ [])
                    ++ print (codes "\"free\":%g ") (dbl (d.sub size (d.of_ℤ (pos used))) ∷ []))))
          (value_done
            (number pf ntop s (d.sub size (d.of_ℤ (pos used))))
            (in_object (and_three pf ntop s members size used touched) (codes "free") ∷ frames))
  unfolding format read
  counts_read members frames size used touched =
      run_then (print (codes "\"defined\":%g, ") (dbl size ∷ []))
        (record { reaches = number_read size _ _ })
        (run_then (print (codes "\"used\":%g, ") (count d pf used ∷ []))
          (record { reaches = number_read _ _ _ })
          (run_then (print (codes "\"touched\":%g, ") (count d pf touched ∷ []))
            (record { reaches = number_read _ _ _ }) (record { reaches = number_read _ _ _ })))

  -- What stands in front of the counts of a range.
  abbrev pub place : Range → Members
  place r =
      and_member
        (and_member empty_record (codes "location") (string (text_of pf ntop s r.shared_net)))
        (codes "range")
        (string (
          ntop_ipaddr ntop s.ip_version r.first_ip
          ++ codes " - "
          ++ ntop_ipaddr ntop s.ip_version r.last_ip))

  location_read :
      (o : Option ℕ) (frames : List Frame)
      → Runs read (key_next true empty_record frames) (json_location d pf ntop s o) (
          key_next false
            (and_member empty_record (codes "location") (string (text_of pf ntop s o)))
            frames)
  unfolding json_location format read
  location_read none frames = record { reaches = refl }
  location_read (some k) frames = record {
    reaches = read_string (s.shared_networks k).name _ [] _ (names k);
  }

  pub range_read :
      (r : Range) (items : Values) (frames : List Frame) (first : Bool)
      → let size = range_size d s.ip_version r in
        Runs read (value_next first (in_array items ∷ frames)) (json_range d pf ntop s r) (
          value_done (number pf ntop s (d.sub size (d.of_ℤ (pos r.count)))) (
            in_object (and_three pf ntop s (place r) size r.count r.touched) (codes "free")
            ∷ in_array items
            ∷ frames))
  unfolding json_range format read
  range_read r items frames first =
      let frames' = in_array items ∷ frames in
      let first_ip = ntop_ipaddr ntop s.ip_version r.first_ip in
      let last_ip = ntop_ipaddr ntop s.ip_version r.last_ip in
      run_then (print (codes "         ") []) (record { reaches = refl })
        (run_then (print (codes "{ ") []) (record { reaches = refl })
          (run_then (json_location d pf ntop s r.shared_net) (location_read r.shared_net frames') (
            run_then (print (codes "\"range\":\"%s") (str first_ip ∷ []))
              (record { reaches = read_string first_ip [] [] _ (text_ip r.first_ip) })
              (run_then (print (codes " - %s\", ") (str last_ip ∷ []))
                (record {
                  reaches =
                      read_string last_ip _ (((first_ip ++ codes " ") ++ codes "-") ++ codes " ") _
                        (text_ip r.last_ip)
                      ∙ ap
                          (λ t.
                            key_next false
                              (and_member
                                (and_member empty_record (codes "location")
                                  (string (text_of pf ntop s r.shared_net)))
                                (codes "range") (string t))
                              frames')
                          (dashed first_ip last_ip);
                })
                (counts_read (place r) frames' (range_size d s.ip_version r) r.count r.touched)))))

  pub net_read :
      (k : ℕ) (items : Values) (frames : List Frame) (first : Bool)
      → let n = s.shared_networks k in
        Runs read (value_next first (in_array items ∷ frames)) (json_net d pf ntop s n) (
          value_done (number pf ntop s (d.sub (d.of_ℤ n.available) (d.of_ℤ (pos n.used)))) (
            in_object
              (and_three pf ntop s
                (and_member empty_record (codes "location") (string n.name))
                (d.of_ℤ n.available)
                n.used
                n.touched)
              (codes "free")
            ∷ in_array items
            ∷ frames))
  unfolding json_net format read
  net_read k items frames first =
      let n = s.shared_networks k in
      run_then (print (codes "         ") []) (record { reaches = refl })
        (run_then (print (codes "{ ") []) (record { reaches = refl })
          (run_then (print (codes "\"location\":\"%s\", ") (str n.name ∷ []))
            (record { reaches = read_string n.name _ [] _ (names k) })
            (counts_read (and_member empty_record (codes "location") (string n.name)) _
              (d.of_ℤ n.available) n.used n.touched)))
