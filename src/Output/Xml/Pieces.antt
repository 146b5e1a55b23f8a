-- ===== src/Output/Xml/Pieces.antt =====
-- The parts of the XML text, read back: a lease, a range, a network.
use dhcpd_pools.Base.{
  ◌∙◌, ℕ, Bool, true, false, List, [], ◌∷◌, ◌++◌, Option, none, some, ◌≡◌, refl, ap, arith,
  if◌then◌else◌,
}
use dhcpd_pools.Base.Text.{codes}
use dhcpd_pools.Base.Int.{pos}
use dhcpd_pools.Base.Machine.{run, Runs, run_then, AllBytes, is_word_byte}
use dhcpd_pools.Double.{Doubles}
use dhcpd_pools.Data.{Bytes, Range, Lease, IpAddr}
use dhcpd_pools.Sort.{range_size}
use dhcpd_pools.Output.{
  Printf, Ntop, Sheet, Arg, str, dbl, count, fprintf, format, ntop_ipaddr, put_ethernet, when,
}
use dhcpd_pools.Output.Words.{IsPrintf, IsNtop, AllNames, dashed, AllBytes-ntop, AllBytes-g}
use dhcpd_pools.Output.Xml.{
  xml_lease, xml_location, xml_range, xml_net, xml_shared_network, xml_summary,
}
use dhcpd_pools.Output.Xml.Reader.{
  Element, Elements, empty_content, and_element, Frame, frame, Reader, content, read, is_character,
  read_text,
}
use dhcpd_pools.Output.Xml.Tree.{
  location_name, leaf, lease_element, and_counts, range_element, net_element,
}

pub character-word : (c : ℕ) → is_word_byte c ≡ true → is_character c ≡ true
unfolding is_word_byte is_character
character-word c h = ground arith

-- A text that adds elements to what is open, whatever that is.
abbrev pub Grows : Bytes → (Elements → Elements) → Type 0
Grows text grow =
    (tag before : Bytes) (inner : Elements) (outer : List Frame)
    → Runs read (content (frame tag before inner) outer) text
        (content (frame tag before (grow inner)) outer)

pub Grows-when :
    (c : Bool) (text : Bytes) (grow : Elements → Elements)
    → Grows text grow
    → Grows (when c text) (λ inner. if c then grow inner else inner)
Grows-when true text grow h tag before inner outer = h tag before inner outer
Grows-when false text grow h tag before inner outer = record { reaches = refl }

module _ {d : Doubles} (pf : Printf d) (words : IsPrintf pf) (ntop : Ntop) (addresses : IsNtop ntop)
    (s : Sheet) (names : AllNames is_character s.shared_networks) where
  abbrev print : Bytes → List (Arg d) → Bytes
  print = fprintf d pf

  ip_text : (ip : IpAddr) → AllBytes is_character (ntop_ipaddr ntop s.ip_version ip)
  ip_text ip = AllBytes-ntop is_character character-word ntop addresses s.ip_version ip

  number_read :
      (x : d.Double) (rest tag : Bytes) (outer : List Frame)
      → run read (content (frame tag [] empty_content) outer) (pf.percent_g x ++ rest)
        ≡ run read (content (frame tag (pf.percent_g x) empty_content) outer) rest
  number_read x rest tag outer =
      read_text (pf.percent_g x) rest tag [] outer
        (AllBytes-g is_character character-word pf words x)

  pub lease_read :
      (l : Lease)
      → AllBytes is_character (put_ethernet l.ethernet)
      → Grows (xml_lease d pf ntop s l) (λ inner. and_element inner (lease_element pf ntop s l))
  unfolding xml_lease read
  lease_read l h tag before inner outer = record {
    reaches =
        read_text (ntop_ipaddr ntop s.ip_version l.ip) _ _ [] _ (ip_text l.ip)
        ∙ read_text (put_ethernet l.ethernet) _ _ [] _ h;
  }

  -- A line that is one element, behind another element.
  abbrev Line : (text name w : Bytes) → Type 0
  Line text name w =
      (tag before : Bytes) (inner : Elements) (e : Element) (outer : List Frame)
      → Runs read (content (frame tag before (and_element inner e)) outer) text (
          content (frame tag before (and_element (and_element inner e) (leaf pf ntop s name w)))
            outer)

  line_read :
      (opening name closing : Bytes) (x : d.Double) {current : Frame} {grown : Reader}
      {outer : List Frame}
      → Runs read
          (content current outer)
          opening
          (content (frame name [] empty_content) (current ∷ outer))
      → Runs read
          (content (frame name (pf.percent_g x) empty_content) (current ∷ outer))
          closing
          grown
      → Runs read (content current outer) (opening ++ (pf.percent_g x ++ closing)) grown
  line_read opening name closing x {current} {grown} {outer} h k =
      run_then opening h
        (record { reaches = number_read x closing name (current ∷ outer) ∙ k.reaches })

  defined-Line :
      (x : d.Double)
      → Line
          (print (codes "\t<defined>%g</defined>\n") (dbl x ∷ []))
          (codes "defined")
          (pf.percent_g x)
  unfolding format read
  defined-Line x tag before inner e outer =
      line_read (codes "\t<defined>") (codes "defined") (codes "</defined>\n") x
        (record { reaches = refl }) (record { reaches = refl })

  used-Line :
      (x : d.Double)
      → Line (print (codes "\t<used>%g</used>\n") (dbl x ∷ [])) (codes "used") (pf.percent_g x)
  unfolding format read
  used-Line x tag before inner e outer =
      line_read (codes "\t<used>") (codes "used") (codes "</used>\n") x (record { reaches = refl })
        (record { reaches = refl })

  touched-Line :
      (x : d.Double)
      → Line
          (print (codes "\t<touched>%g</touched>\n") (dbl x ∷ []))
          (codes "touched")
          (pf.percent_g x)
  unfolding format read
  touched-Line x tag before inner e outer =
      line_read (codes "\t<touched>") (codes "touched") (codes "</touched>\n") x
        (record { reaches = refl }) (record { reaches = refl })

  free-Line :
      (x : d.Double)
      → Line (print (codes "\t<free>%g</free>\n") (dbl x ∷ [])) (codes "free") (pf.percent_g x)
  unfolding format read
  free-Line x tag before inner e outer =
      line_read (codes "\t<free>") (codes "free") (codes "</free>\n") x (record { reaches = refl })
        (record { reaches = refl })

  counts_read :
      (tag before : Bytes) (inner : Elements) (e : Element) (outer : List Frame) (size : d.Double)
      (used touched : ℕ)
      → Runs read
          (content (frame tag before (and_element inner e)) outer)
          (print (codes "\t<defined>%g</defined>\n") (dbl size ∷ [])
            ++ (print (codes "\t<used>%g</used>\n") (count d pf used ∷ [])
                ++ (print (codes "\t<touched>%g</touched>\n") (count d pf touched ∷ [])
                    ++ print
                        (codes "\t<free>%g</free>\n")
                        (dbl (d.sub size (d.of_ℤ (pos used))) ∷ []))))
          (content
            (frame tag before (and_counts pf ntop s (and_element inner e) size used touched))
            outer)
  counts_read tag before inner e outer size used touched =
      run_then _ (defined-Line size tag before inner e outer) (
        run_then _ (used-Line (d.of_ℤ (pos used)) tag before _ _ outer) (
          run_then _ (touched-Line (d.of_ℤ (pos touched)) tag before _ _ outer)
            (free-Line (d.sub size (d.of_ℤ (pos used))) tag before _ _ outer)))

  net_read :
      (k : ℕ) (tag : Bytes) (outer : List Frame)
      → let n = s.shared_networks k in
        Runs read (content (frame tag (codes "\n") empty_content) outer) (xml_net d pf ntop s n) (
          content
            (frame tag (codes "\n\t") (
              and_counts pf ntop s
                (and_element empty_content (leaf pf ntop s (codes "location") n.name))
                (d.of_ℤ n.available)
                n.used
                n.touched))
            outer)
  unfolding xml_net format read
  net_read k tag outer =
      let n = s.shared_networks k in
      run_then (print (codes "\t<location>%s</location>\n") (str n.name ∷ []))
        (record { reaches = read_text n.name _ _ [] _ (names k) })
        (counts_read tag (codes "\n\t") empty_content _ outer (d.of_ℤ n.available) n.used n.touched)

  pub shared_network_read :
      (k : ℕ)
      → Grows (xml_shared_network d pf ntop s (s.shared_networks k)) (λ inner.
        and_element inner (net_element pf ntop s (codes "shared-network") (s.shared_networks k)))
  unfolding xml_shared_network format read
  shared_network_read k tag before inner outer =
      run_then (codes "<shared-network>\n") (record { reaches = refl })
        (run_then _ (net_read k _ _) (record { reaches = refl }))

  pub summary_read :
      Grows
        (xml_summary d pf ntop s (s.shared_networks 0))
        (λ inner. and_element inner (net_element pf ntop s (codes "summary") (s.shared_networks 0)))
  unfolding xml_summary format read
  summary_read tag before inner outer =
      run_then (codes "<summary>\n") (record { reaches = refl })
        (run_then _ (net_read 0 _ _) (record { reaches = refl }))

  location_read :
      (o : Option ℕ) (outer : List Frame)
      → Runs read
          (content (frame (codes "subnet") (codes "\n") empty_content) outer)
          (xml_location d pf ntop s o)
          (content
            (frame (codes "subnet") (codes "\n\t") (
              and_element empty_content
                (leaf pf ntop s (codes "location") (location_name pf ntop s o))))
            outer)
  unfolding xml_location format read
  location_read none outer = record { reaches = refl }
  location_read (some k) outer = record {
    reaches = read_text (s.shared_networks k).name _ _ [] _ (names k);
  }

  -- The line with the two ends of a range: up to the dash, and from there.
  first_read :
      (a : IpAddr) (tag before : Bytes) (inner : Elements) (e : Element) (outer : List Frame)
      → let current = frame tag before (and_element inner e) in
        Runs read
          (content current outer)
          (print (codes "\t<range>%s ") (str (ntop_ipaddr ntop s.ip_version a) ∷ []))
          (content
            (frame (codes "range") (ntop_ipaddr ntop s.ip_version a ++ codes " ") empty_content)
            (current ∷ outer))
  unfolding format read
  first_read a tag before inner e outer = record {
    reaches = read_text (ntop_ipaddr ntop s.ip_version a) (codes " ") _ [] _ (ip_text a);
  }

  last_read :
      (first_ip : Bytes) (b : IpAddr) (tag before : Bytes) (inner : Elements) (outer : List Frame)
      → Runs read
          (content
            (frame (codes "range") (first_ip ++ codes " ") empty_content)
            (frame tag before inner ∷ outer))
          (print (codes "- %s</range>\n") (str (ntop_ipaddr ntop s.ip_version b) ∷ []))
          (content
            (frame tag before (
              and_element inner (
                leaf pf ntop s
                  (codes "range")
                  (first_ip ++ codes " - " ++ ntop_ipaddr ntop s.ip_version b))))
            outer)
  unfolding format read
  last_read first_ip b tag before inner outer =
      let last_ip = ntop_ipaddr ntop s.ip_version b in
      record {
        reaches =
            read_text last_ip (codes "</range>\n") (codes "range")
              (((first_ip ++ codes " ") ++ codes "-") ++ codes " ") (frame tag before inner ∷ outer)
              (ip_text b)
            ∙ ap
                (λ t.
                  content (frame tag before (and_element inner (leaf pf ntop s (codes "range") t)))
                    outer)
                (dashed first_ip last_ip);
      }

  pub range_read :
      (r : Range)
      → Grows (xml_range d pf ntop s r) (λ inner. and_element inner (range_element pf ntop s r))
  unfolding xml_range format read
  range_read r tag before inner outer =
      run_then (codes "<subnet>\n") (record { reaches = refl })
        (run_then _ (location_read r.shared_net _) (
          run_then _ (first_read r.first_ip _ _ _ _ _) (
            run_then _ (last_read _ r.last_ip _ _ _ _) (
              run_then _ (defined-Line (range_size d s.ip_version r) _ _ _ _ _) (
                run_then _ (used-Line (d.of_ℤ (pos r.count)) _ _ _ _ _) (
                  run_then _ (touched-Line (d.of_ℤ (pos r.touched)) _ _ _ _ _) (
                    run_then _
                      (free-Line (d.sub (range_size d s.ip_version r) (d.of_ℤ (pos r.count))) _ _ _
                        _ _)
                      (record { reaches = refl }))))))))
