-- ===== src/Output/Csv/Rows.antt =====
-- The rows of the CSV text, as a reader of CSV finds them.
use mathlib.Core.List.{append_assoc, append-nil}
use dhcpd_pools.Base.{
  ℕ, zero, suc, ◌+◌, true, List, [], ◌∷◌, ◌++◌, Option, none, some, ◌≡◌, refl, sym, ap, arith, map,
  inl, inr, Bool-cases,
}
use dhcpd_pools.Base.Text.{codes}
use dhcpd_pools.Base.Machine.{Runs, run_then, AllBytes, is_word_byte}
use dhcpd_pools.Double.{Doubles}
use dhcpd_pools.Data.{Bytes, IpAddr, Range}
use dhcpd_pools.Sort.{range_size}
use dhcpd_pools.Output.{
  Printf, Ntop, Sheet, Arg, str, dbl, count, fprintf, ntop_ipaddr, format, ratio, net_ratio,
  print_ranges, print_networks, when,
}
use dhcpd_pools.Output.Csv.Reader.{
  Row, between_rows, field_start, closed, read, unquoted, read_word, further, read_fields, Adds,
  Adds-append, Adds-nil,
}
use dhcpd_pools.Output.Words.{IsPrintf, IsNtop, AllNames, AllBytes-ntop, AllBytes-g, AllBytes-f3}
use dhcpd_pools.Output.Csv.Columns.{
  with_backups, g_of, location, range_columns, net_columns, net_backups, network_rows, net_header,
}
use dhcpd_pools.Output.Csv.{csv_location, csv_range, csv_net_header, csv_net_columns, csv_net}

pub unquoted-word : (c : ℕ) → is_word_byte c ≡ true → unquoted c ≡ true
unfolding is_word_byte
unquoted-word c h = ground arith

module _ {d : Doubles} (pf : Printf d) (words : IsPrintf pf) (ntop : Ntop) (addresses : IsNtop ntop)
    (s : Sheet) (names : AllNames unquoted s.shared_networks) where
  pub csv_location-read :
      (o : Option ℕ) (rows : List Row)
      → Runs read
          (between_rows rows)
          (csv_location d pf ntop s o)
          (field_start (location pf ntop s o ∷ []) rows)
  unfolding csv_location format read
  csv_location-read none rows = record { reaches = refl }
  csv_location-read (some k) rows = record {
    reaches = read_word (s.shared_networks k).name _ [] rows (names k);
  }

  unquoted_g : (x : d.Double) → AllBytes unquoted (pf.percent_g x)
  unquoted_g x = AllBytes-g unquoted unquoted-word pf words x

  unquoted_f3 : (x : d.Double) → AllBytes unquoted (pf.percent_f3 x)
  unquoted_f3 x = AllBytes-f3 unquoted unquoted-word pf words x

  unquoted_ip : (ip : IpAddr) → AllBytes unquoted (ntop_ipaddr ntop s.ip_version ip)
  unquoted_ip ip = AllBytes-ntop unquoted unquoted-word ntop addresses s.ip_version ip

  abbrev print : Bytes → List (Arg d) → Bytes
  print = fprintf d pf

  -- The end of a line, with or without the columns for backup leases.
  pub csv-backups :
      (f : Bytes) (row : Row) (rows : List Row) (b : ℕ) (x : d.Double)
      → Runs read
          (closed f row rows)
          (when s.backups_found (print (codes ",\"%g\",\"%.3f\"") (count d pf b ∷ dbl x ∷ []))
            ++ print (codes "\n") [])
          (between_rows (
            rows
            ++ ((row ++ f ∷ []) ++ with_backups pf ntop s (g_of pf ntop s b ∷ pf.percent_f3 x ∷ []))
              ∷ []))
  unfolding format read
  csv-backups f row rows b x = elim (Bool-cases s.backups_found) [
    | inl e ↦ rw e (
        run_then (print (codes ",\"%g\",\"%.3f\"") (count d pf b ∷ dbl x ∷ []))
          (record {
            reaches =
                read_fields (g_of pf ntop s b) (pf.percent_f3 x ∷ []) (row ++ f ∷ []) rows
                  (unquoted_g _, (unquoted_f3 x, tt));
          })
          (record {
            reaches =
                ap (λ (r : Row). between_rows (rows ++ r ∷ []))
                  (append_assoc (row ++ f ∷ []) (g_of pf ntop s b ∷ []) (pf.percent_f3 x ∷ []));
          }))
    | inr e ↦ rw e (record {
      reaches = ap (λ (r : Row). between_rows (rows ++ r ∷ [])) (sym (append-nil (row ++ f ∷ [])));
    })
  ]

  pub csv_range-read :
      (r : Range) (rows : List Row)
      → Runs read
          (between_rows rows)
          (csv_range d pf ntop s r)
          (between_rows (rows ++ range_columns pf ntop s r ∷ []))
  unfolding csv_range format read
  csv_range-read r rows =
      let size = range_size d s.ip_version r in
      let first = ntop_ipaddr ntop s.ip_version r.first_ip in
      let last = ntop_ipaddr ntop s.ip_version r.last_ip in
      let place = location pf ntop s r.shared_net in
      let numbers : List Bytes =
        pf.percent_g size
        ∷ g_of pf ntop s r.count
        ∷ pf.percent_f3 (ratio d pf r.count size)
        ∷ g_of pf ntop s r.touched
        ∷ g_of pf ntop s (r.touched + r.count)
        ∷ pf.percent_f3 (ratio d pf (r.touched + r.count) size)
        ∷ [] in
      run_then (csv_location d pf ntop s r.shared_net) (csv_location-read r.shared_net rows) (
        run_then (print (codes "\"%s\",") (str first ∷ []))
          (record {
            reaches = read_word first (b'"' ∷ b',' ∷ []) (place ∷ []) rows (unquoted_ip r.first_ip);
          })
          (run_then (b'"' ∷ (last ++ b'"' ∷ further numbers))
            (record {
              reaches = read_fields last numbers (place ∷ first ∷ []) rows (
                unquoted_ip r.last_ip,
                (
                  unquoted_g _,
                  (
                    unquoted_g _,
                    (unquoted_f3 _, (unquoted_g _, (unquoted_g _, (unquoted_f3 _, tt)))),
                  ),
                ),
              );
            })
            (csv-backups (pf.percent_f3 (ratio d pf (r.touched + r.count) size))
              (place
                ∷ first
                ∷ last
                ∷ pf.percent_g size
                ∷ g_of pf ntop s r.count
                ∷ pf.percent_f3 (ratio d pf r.count size)
                ∷ g_of pf ntop s r.touched
                ∷ g_of pf ntop s (r.touched + r.count)
                ∷ [])
              rows r.backups (ratio d pf r.backups size))))

  pub csv_net_columns-read :
      (k : ℕ) (rows : List Row)
      → let n = s.shared_networks k in
        Runs read (between_rows rows) (csv_net_columns d pf ntop s n) (
          closed
            (pf.percent_f3 (net_ratio d pf (n.touched + n.used) n.available))
            (n.name
              ∷ pf.percent_g (d.of_ℤ n.available)
              ∷ g_of pf ntop s n.used
              ∷ pf.percent_f3 (net_ratio d pf n.used n.available)
              ∷ g_of pf ntop s n.touched
              ∷ g_of pf ntop s (n.touched + n.used)
              ∷ [])
            rows)
  unfolding csv_net_columns format read
  csv_net_columns-read k rows =
      let n = s.shared_networks k in
      record {
        reaches =
            read_fields n.name
              (pf.percent_g (d.of_ℤ n.available)
                ∷ g_of pf ntop s n.used
                ∷ pf.percent_f3 (net_ratio d pf n.used n.available)
                ∷ g_of pf ntop s n.touched
                ∷ g_of pf ntop s (n.touched + n.used)
                ∷ pf.percent_f3 (net_ratio d pf (n.touched + n.used) n.available)
                ∷ [])
              [] rows
              (
                names k,
                (
                  unquoted_g _,
                  (
                    unquoted_g _,
                    (unquoted_f3 _, (unquoted_g _, (unquoted_g _, (unquoted_f3 _, tt)))),
                  ),
                ),
              );
      }

  pub csv_net-read :
      (k : ℕ)
      → Adds (csv_net d pf ntop s (s.shared_networks k)) (
          (net_columns pf ntop s (s.shared_networks k)
            ++ net_backups pf ntop s (s.shared_networks k))
          ∷ [])
  unfolding csv_net
  csv_net-read k rows =
      run_then (csv_net_columns d pf ntop s (s.shared_networks k)) (csv_net_columns-read k rows)
        (csv-backups _ _ rows (s.shared_networks k).backups _)

  pub print_networks-Adds :
      (p num : ℕ)
      → Adds
          (print_networks (csv_net d pf ntop s) s.shared_networks p num)
          (network_rows pf ntop s p num)
  unfolding print_networks
  print_networks-Adds p zero = Adds-nil
  print_networks-Adds p (suc num) =
      Adds-append (csv_net d pf ntop s (s.shared_networks (suc p))) _ _ _ (csv_net-read (suc p))
        (print_networks-Adds (suc p) num)

  pub print_ranges-Adds :
      (ranges : List Range)
      → Adds (print_ranges (csv_range d pf ntop s) ranges) (map (range_columns pf ntop s) ranges)
  unfolding print_ranges
  print_ranges-Adds [] = Adds-nil
  print_ranges-Adds (r ∷ ranges) =
      Adds-append (csv_range d pf ntop s r) _ (range_columns pf ntop s r ∷ [])
        (map (range_columns pf ntop s) ranges) (csv_range-read r) (print_ranges-Adds ranges)

  pub csv_net_header-Adds : Adds (csv_net_header d pf ntop s) (net_header pf ntop s ∷ [])
  unfolding csv_net_header format read
  csv_net_header-Adds rows = elim (Bool-cases s.backups_found) [
    | inl e ↦ rw e (record { reaches = refl })
    | inr e ↦ rw e (record { reaches = refl })
  ]
