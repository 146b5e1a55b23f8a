-- ===== src/Output/Html/Text.antt =====
-- The HTML page, read back.
use mathlib.Core.Option
use mathlib.Core.List.{append-nil}
use dhcpd_pools.Base.{
  Bool, true, false, List, [], ◌∷◌, ◌++◌, some, ◌≡◌, refl, sym, ap, inl, inr, Bool-cases,
  if◌then◌else◌,
}
use dhcpd_pools.Base.Text.{codes}
use dhcpd_pools.Base.Machine.{Runs, run_then}
use dhcpd_pools.Double.{Doubles}
use dhcpd_pools.Data.{Bytes}
use dhcpd_pools.Alarm.{r_bit, s_bit, a_bit}
use dhcpd_pools.Output.{Printf, Ntop, Sheet, format, when}
use dhcpd_pools.Output.Words.{IsPrintf, IsNtop, AllNames}
use dhcpd_pools.Output.HtmlParts.{
  Page, start_tag, end_tag, output_line, table_start, table_end, newsection, html_header_text,
  html_header,
}
use dhcpd_pools.Output.Html.{
  html_row, html_net_head, html_range_head, html_body, html_table, html_tables, output_html,
}
use dhcpd_pools.Output.Xml.Reader.{is_character}
use dhcpd_pools.Output.Html.Reader.{Row, read_so_far, Reader, in_text, read, tables_of, read_html}
use dhcpd_pools.Output.Html.Tables.{net_head, range_head, table, page_tables}
use dhcpd_pools.Output.Html.Frame.{IsPage, page_open, page_at, header_read, footer_read}
use dhcpd_pools.Output.Html.Rows.{newline, AddsRows, net_row_read, net_rows_read, range_rows_read}

AddsRows-when :
    (c : Bool) (text : Bytes) (more : List Row)
    → AddsRows text more
    → AddsRows (when c text) (if c then more else [])
AddsRows-when true text more h opened rows tables = h opened rows tables
AddsRows-when false text more h opened rows tables = record {
  reaches = ap (λ r. in_text newline (read_so_far opened [] r tables)) (sym (append-nil rows));
}

module _ {d : Doubles} (pf : Printf d) (ntop : Ntop) (s : Sheet) where
  net_head_read : AddsRows (html_net_head d pf ntop s) (net_head pf ntop s ∷ [])
  unfolding html_net_head html_row start_tag end_tag output_line format read
  net_head_read opened rows tables = elim (Bool-cases s.backups_found) [
    | inl e ↦ rw e (record { reaches = refl })
    | inr e ↦ rw e (record { reaches = refl })
  ]

  range_head_read : AddsRows (html_range_head d pf ntop s) (range_head pf ntop s ∷ [])
  unfolding html_range_head html_row start_tag end_tag output_line format read
  range_head_read opened rows tables = elim (Bool-cases s.backups_found) [
    | inl e ↦ rw e (record { reaches = refl })
    | inr e ↦ rw e (record { reaches = refl })
  ]

  body_read :
      (text : Bytes) (more : List Row)
      → AddsRows text more
      → AddsRows (html_body d pf ntop s text) more
  unfolding html_body start_tag end_tag format read
  body_read text more h opened rows tables =
      run_then (start_tag d pf (codes "tbody")) (record { reaches = refl })
        (run_then text (h (codes "tbody" ∷ opened) rows tables) (record { reaches = refl }))

  abbrev table_at : List Row → List (List Row) → Reader
  table_at rows tables = in_text newline (read_so_far (codes "table" ∷ page_open) [] rows tables)

  table-read :
      (title id summary head body : Bytes) (with_head with_body : Bool) (head_row : Row)
      (body_rows : List Row) (tables : List (List Row))
      → Runs read (page_at pf tables) (newsection d pf title) (page_at pf tables)
      → Runs read (page_at pf tables) (table_start d pf id summary) (table_at [] tables)
      → AddsRows head (head_row ∷ [])
      → AddsRows body body_rows
      → Runs read
          (page_at pf tables)
          (html_table d pf ntop s title id summary head body with_head with_body)
          (page_at pf (tables ++ table pf ntop s with_head with_body head_row body_rows ∷ []))
  unfolding html_table table_end format read
  table-read title id summary head body with_head with_body head_row body_rows tables h k l m =
      run_then (newsection d pf title) h (
        run_then (table_start d pf id summary) k (
          run_then (when with_head head)
            (AddsRows-when with_head head (head_row ∷ []) l _ [] tables)
            (run_then (when with_body body)
              (AddsRows-when with_body body body_rows m _ (if with_head then head_row ∷ [] else [])
                tables)
              (record { reaches = refl }))))

module _ {d : Doubles} (pf : Printf d) (words : IsPrintf pf) (ntop : Ntop) (addresses : IsNtop ntop)
    (s : Sheet) (names : AllNames is_character s.shared_networks) where
  abbrev TableLines : (title id summary : Bytes) → Type 0
  TableLines title id summary =
      (tables : List (List Row))
      → Runs read (page_at pf tables) (newsection d pf title) (page_at pf tables)
        × Runs read (page_at pf tables) (table_start d pf id summary) (table_at pf ntop s [] tables)

  all-TableLines : TableLines (codes "Sum of all") (codes "a") (codes "all")
  unfolding newsection table_start output_line format read
  all-TableLines tables = (record { reaches = refl }, record { reaches = refl })

  networks-TableLines : TableLines (codes "Shared networks") (codes "s") (codes "snet")
  unfolding newsection table_start output_line format read
  networks-TableLines tables = (record { reaches = refl }, record { reaches = refl })

  ranges-TableLines : TableLines (codes "Ranges") (codes "r") (codes "ranges")
  unfolding newsection table_start output_line format read
  ranges-TableLines tables = (record { reaches = refl }, record { reaches = refl })

  tables_read :
      Runs read (page_at pf []) (html_tables d pf ntop s) (page_at pf (page_tables pf ntop s))
  unfolding html_tables
  tables_read =
      run_then _
        (table-read pf ntop s (codes "Sum of all") (codes "a") (codes "all") _ _
          (a_bit s.header_limit) (a_bit s.number_limit) _ _ [] (all-TableLines []).0
          (all-TableLines []).1 (net_head_read pf ntop s)
          (body_read pf ntop s _ _ (net_row_read pf words ntop addresses s names 0)))
        (run_then _
          (table-read pf ntop s (codes "Shared networks") (codes "s") (codes "snet") _ _
            (s_bit s.header_limit) (s_bit s.number_limit) _ _ _ (networks-TableLines _).0
            (networks-TableLines _).1 (net_head_read pf ntop s)
            (body_read pf ntop s _ _
              (net_rows_read pf words ntop addresses s names 0 s.num_shared_networks)))
          (table-read pf ntop s (codes "Ranges") (codes "r") (codes "ranges") _ _
            (r_bit s.header_limit) (r_bit s.number_limit) _ _ _ (ranges-TableLines _).0
            (ranges-TableLines _).1 (range_head_read pf ntop s)
            (body_read pf ntop s _ _ (range_rows_read pf words ntop addresses s names s.ranges))))

  -- If the time of the lease file can be written, no name and nothing that the page takes from outside
  -- holds `<` or `&`, its address no quote (`IsPage`), and numbers and addresses are written as words
  -- (`IsPrintf`, `IsNtop`), then in the HTML page every element is closed in its place, and its three
  -- tables have the rows that the limits select, with each field in its cell.
  pub output_html-tables :
      (page : Page) (outstr : Bytes)
      → page.modified ≡ some outstr
      → IsPage page outstr
      → Option.map read_html (output_html d pf ntop s page) ≡ some (some (page_tables pf ntop s))
  unfolding output_html html_header read_html tables_of
  output_html-tables page outstr e h = rw e (
      ap (λ r. some (tables_of r))
        (run_then (html_header_text d pf page.dhcpdlease_file outstr) (header_read pf page outstr h)
          (run_then (html_tables d pf ntop s) tables_read
            (footer_read pf page outstr (page_tables pf ntop s) h))).reaches)
