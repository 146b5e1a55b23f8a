-- ===== src/Output/Csv/Table.antt =====
-- The whole CSV text, read back.
use dhcpd_pools.Base.{
  ◌-◌, true, false, ◌&&◌, List, [], ◌∷◌, ◌++◌, none, some, ◌≡◌, refl, ap, arith, inl, inr,
  Bool-cases, length,
}
use dhcpd_pools.Base.Text.{codes}
use dhcpd_pools.Base.Machine.{Runs, run_then}
use dhcpd_pools.Double.{Doubles}
use dhcpd_pools.Data.{Bytes}
use dhcpd_pools.Alarm.{r_bit, s_bit, a_bit}
use dhcpd_pools.Output.{
  Printf, Ntop, Sheet, dbl, format, print_ranges, print_networks, when, pad, fprintf,
}
use dhcpd_pools.Output.Words.{IsPrintf, IsNtop, AllNames}
use dhcpd_pools.Output.Csv.{
  csv_range_header, csv_range, csv_net_header, csv_net, csv_sum, output_csv,
}
use dhcpd_pools.Output.Csv.Reader.{
  Row, Reader, between_rows, closed, failed, read, rows_of, read_csv, unquoted, Adds, Adds-append,
  Adds-when, closed-fails,
}
use dhcpd_pools.Output.Csv.Columns.{net_columns, range_header, title, tables, sum_row}
use dhcpd_pools.Output.Csv.Rows.{
  csv_net_columns-read, print_networks-Adds, print_ranges-Adds, csv_net_header-Adds,
}

module _ {d : Doubles} (pf : Printf d) (words : IsPrintf pf) (ntop : Ntop) (addresses : IsNtop ntop)
    (s : Sheet) (names : AllNames unquoted s.shared_networks) where
  range_header-Adds :
      Adds
        (csv_range_header d pf ntop s)
        (title pf ntop s (codes "Ranges:") ∷ range_header pf ntop s ∷ [])
  unfolding csv_range_header format read
  range_header-Adds =
      Adds-append (codes "\"Ranges:\"\n") _ (title pf ntop s (codes "Ranges:") ∷ []) _
        (λ rows. record { reaches = refl })
        (λ rows. elim (Bool-cases s.backups_found) [
          | inl e ↦ rw e (record { reaches = refl })
          | inr e ↦ rw e (record { reaches = refl })
        ])

  empty_line-Adds : Adds (fprintf d pf (codes "\n") []) ([] ∷ [])
  unfolding format read
  empty_line-Adds rows = record { reaches = refl }

  -- The text before the sum adds those rows, whatever follows it.
  csv_tables-read :
      {rest : Bytes} {end : Reader}
      → Runs read (between_rows (tables pf ntop s)) rest end
      → Runs read
          (between_rows [])
          (when (r_bit s.header_limit) (csv_range_header d pf ntop s)
            ++ (when
                  (r_bit s.number_limit)
                  (print_ranges (csv_range d pf ntop s) s.ranges ++ fprintf d pf (codes "\n") [])
                ++ (when (s_bit s.header_limit) (
                      fprintf d pf (codes "\"Shared networks:\"\n") []
                      ++ csv_net_header d pf ntop s)
                    ++ (when (s_bit s.number_limit) (
                          print_networks
                            (csv_net d pf ntop s)
                            s.shared_networks
                            0
                            s.num_shared_networks
                          ++ fprintf d pf (codes "\n") [])
                        ++ (when (a_bit s.header_limit) (
                              fprintf d pf (codes "\"Sum of all ranges:\"\n") []
                              ++ csv_net_header d pf ntop s)
                            ++ rest)))))
          end
  unfolding format read
  csv_tables-read r =
      run_then _ (Adds-when (r_bit s.header_limit) _ _ (λ _. range_header-Adds) []) (
        run_then _
          (Adds-when (r_bit s.number_limit) _ _
            (λ _.
              Adds-append _ _ _ _ (print_ranges-Adds pf words ntop addresses s names s.ranges)
                empty_line-Adds)
            _)
          (run_then _
            (Adds-when (s_bit s.header_limit) _ _
              (λ _.
                Adds-append (codes "\"Shared networks:\"\n") _
                  (title pf ntop s (codes "Shared networks:") ∷ []) _
                  (λ rows. record { reaches = refl })
                  (csv_net_header-Adds pf words ntop addresses s names))
              _)
            (run_then _
              (Adds-when (s_bit s.number_limit) _ _
                (λ _.
                  Adds-append _ _ _ _
                    (print_networks-Adds pf words ntop addresses s names 0 s.num_shared_networks)
                    empty_line-Adds)
                _)
              (run_then _
                (Adds-when (a_bit s.header_limit) _ _
                  (λ _.
                    Adds-append (codes "\"Sum of all ranges:\"\n") _
                      (title pf ntop s (codes "Sum of all ranges:") ∷ []) _
                      (λ rows. record { reaches = refl })
                      (csv_net_header-Adds pf words ntop addresses s names))
                  _)
                r))))

  csv_sum-Adds :
      s.backups_found ≡ false
      → Adds
          (csv_sum d pf ntop s (s.shared_networks 0))
          (net_columns pf ntop s (s.shared_networks 0) ∷ [])
  unfolding csv_sum format read
  csv_sum-Adds e rows =
      run_then _ (csv_net_columns-read pf words ntop addresses s names 0 rows)
        (rw e (record { reaches = refl }))

  sum-Adds :
      (s.backups_found && a_bit s.number_limit) ≡ false
      → Adds
          (when (a_bit s.number_limit) (csv_sum d pf ntop s (s.shared_networks 0)))
          (sum_row pf ntop s)
  sum-Adds e = Adds-when (a_bit s.number_limit) _ _ (λ printed. csv_sum-Adds (grind arith))

  -- Read back as CSV, the text is the rows of the tables that the limits select, with each field
  -- in its column, if no name holds a quote and the line of the sum has no columns for backup leases, and
  -- numbers and addresses are written as words (`IsPrintf`, `IsNtop`).
  pub output_csv-rows :
      (s.backups_found && a_bit s.number_limit) ≡ false
      → read_csv (output_csv d pf ntop s) ≡ some (tables pf ntop s ++ sum_row pf ntop s)
  unfolding output_csv read_csv rows_of
  output_csv-rows e = ap rows_of (csv_tables-read (sum-Adds e (tables pf ntop s))).reaches

  sum_backups-fails :
      (field : Bytes) (row : Row) (rows : List Row) (x y : d.Double)
      → Runs read
          (closed field row rows)
          (fprintf d pf (codes "%7g %8.3f") (dbl x ∷ dbl y ∷ []))
          failed
  unfolding format pad
  sum_backups-fails field row rows x y = record {
    reaches =
        closed-fails (7 - length (pf.percent_g x)) (pf.percent_g x) _ field row rows
          (words.g_word x);
  }

  csv_sum-fails :
      (rows : List Row)
      → s.backups_found ≡ true
      → Runs read (between_rows rows) (csv_sum d pf ntop s (s.shared_networks 0)) failed
  unfolding csv_sum format read
  csv_sum-fails rows e =
      run_then _ (csv_net_columns-read pf words ntop addresses s names 0 rows)
        (rw e (run_then _ (sum_backups-fails _ _ rows _ _) (record { reaches = refl })))

  sum-fails :
      s.backups_found ≡ true
      → a_bit s.number_limit ≡ true
      → Runs read
          (between_rows (tables pf ntop s))
          (when (a_bit s.number_limit) (csv_sum d pf ntop s (s.shared_networks 0)))
          failed
  sum-fails e f = rw f (csv_sum-fails (tables pf ntop s) e)

  -- With backup leases and a line for the sum, the reader of CSV stops at the columns for backup leases in
  -- that line, which are not in quotes, if no name holds a quote, and numbers and addresses are written as
  -- words (`IsPrintf`, `IsNtop`).
  pub output_csv-sum_backups :
      s.backups_found ≡ true
      → a_bit s.number_limit ≡ true
      → read_csv (output_csv d pf ntop s) ≡ none
  unfolding output_csv read_csv rows_of
  output_csv-sum_backups e f = ap rows_of (csv_tables-read (sum-fails e f)).reaches
