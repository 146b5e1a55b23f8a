-- ===== src/Output/Html/Rows.antt =====
-- The rows of the HTML tables, read back.
use mathlib.Core.List.{append_assoc, append-nil}
use dhcpd_pools.Base.{
  ℕ, zero, suc, List, [], ◌∷◌, ◌++◌, Option, none, some, ◌≡◌, refl, sym, ap, inl, inr, Bool-cases,
  map,
}
use dhcpd_pools.Base.Text.{codes}
use dhcpd_pools.Base.Machine.{Runs, run_then, AllBytes}
use dhcpd_pools.Double.{Doubles}
use dhcpd_pools.Data.{Bytes, Range, IpAddr}
use dhcpd_pools.Output.{Printf, Ntop, Sheet, format, ntop_ipaddr, print_ranges, print_networks}
use dhcpd_pools.Output.Words.{IsPrintf, IsNtop, AllNames, AllBytes-ntop, AllBytes-g, AllBytes-f3}
use dhcpd_pools.Output.HtmlParts.{
  lines, start_tag, end_tag, output_line, output_double, output_float,
}
use dhcpd_pools.Output.Html.{html_row, html_net, html_location, html_range}
use dhcpd_pools.Output.Xml.Reader.{is_character}
use dhcpd_pools.Output.Xml.Pieces.{character-word}
use dhcpd_pools.Output.Html.Reader.{Row, read_so_far, in_text, read, read_text}
use dhcpd_pools.Output.Html.Tables.{
  with_backups, net_cells, net_backups, location_cell, range_cells, range_backups, net_rows,
  range_rows,
}

abbrev pub newline : Bytes
newline = codes "\n"

abbrev pub AllCells : Row → Type 0
AllCells [] = Unit {0}
AllCells (w ∷ ws) = AllBytes is_character w × AllCells ws

-- Rows that a text adds, inside of any elements.
abbrev pub AddsRows : Bytes → List Row → Type 0
AddsRows text more =
    (opened : List Bytes) (rows : List Row) (tables : List (List Row))
    → Runs read (in_text newline (read_so_far opened [] rows tables)) text
        (in_text newline (read_so_far opened [] (rows ++ more) tables))

pub data Kind : Type 0 where
  heading data_cell : Kind

abbrev pub tag : Kind → Bytes
tag heading = codes "th"
tag data_cell = codes "td"

module _ {d : Doubles} (pf : Printf d) where
  cell_read :
      (kind : Kind) (w : Bytes) (opened : List Bytes) (row : Row) (rows : List Row)
      (tables : List (List Row))
      → AllBytes is_character w
      → Runs read
          (in_text newline (read_so_far opened row rows tables))
          (output_line d pf (tag kind) w)
          (in_text newline (read_so_far opened (row ++ w ∷ []) rows tables))
  unfolding output_line format read
  cell_read heading w opened row rows tables h = record { reaches = read_text w _ [] _ h }
  cell_read data_cell w opened row rows tables h = record { reaches = read_text w _ [] _ h }

  cells_read :
      (kind : Kind) (ws : Row) (opened : List Bytes) (row : Row) (rows : List Row)
      (tables : List (List Row))
      → AllCells ws
      → Runs read
          (in_text newline (read_so_far opened row rows tables))
          (lines (map (output_line d pf (tag kind)) ws))
          (in_text newline (read_so_far opened (row ++ ws) rows tables))
  cells_read kind [] opened row rows tables h = record {
    reaches = ap (λ r. in_text newline (read_so_far opened r rows tables)) (sym (append-nil row));
  }
  cells_read kind (w ∷ ws) opened row rows tables h = rw (← append_assoc row (w ∷ []) ws) (
      run_then (output_line d pf (tag kind) w) (cell_read kind w opened row rows tables h.0)
        (cells_read kind ws opened (row ++ w ∷ []) rows tables h.1))

module _ {d : Doubles} (pf : Printf d) (words : IsPrintf pf) (ntop : Ntop) (addresses : IsNtop ntop)
    (s : Sheet) (names : AllNames is_character s.shared_networks) where
  text_g : (x : d.Double) → AllBytes is_character (pf.percent_g x)
  text_g x = AllBytes-g is_character character-word pf words x

  text_f3 : (x : d.Double) → AllBytes is_character (pf.percent_f3 x)
  text_f3 x = AllBytes-f3 is_character character-word pf words x

  text_ip : (ip : IpAddr) → AllBytes is_character (ntop_ipaddr ntop s.ip_version ip)
  text_ip ip = AllBytes-ntop is_character character-word ntop addresses s.ip_version ip

  text_location : (o : Option ℕ) → AllBytes is_character (location_cell pf ntop s o)
  unfolding is_character
  text_location none =
      (refl, (refl, (refl, (refl, (refl, (refl, (refl, (refl, (refl, (refl, (refl, tt)))))))))))
  text_location (some k) = names k

  pub row_read :
      (kind : Kind) (cells backups : Row)
      → AllCells cells
      → AllCells backups
      → AddsRows
          (html_row d pf ntop s
            (map (output_line d pf (tag kind)) cells)
            (map (output_line d pf (tag kind)) backups))
          (with_backups pf ntop s cells backups ∷ [])
  unfolding html_row start_tag end_tag format read
  row_read kind cells backups h k opened rows tables =
      let inside = codes "tr" ∷ opened in
      run_then (start_tag d pf (codes "tr")) (record { reaches = refl })
        (run_then (lines (map (output_line d pf (tag kind)) cells))
          (cells_read pf kind cells inside [] rows tables h)
          (elim (Bool-cases s.backups_found) [
            | inl e ↦ rw e (
                run_then (lines (map (output_line d pf (tag kind)) backups))
                  (cells_read pf kind backups inside cells rows tables k)
                  (record { reaches = refl }))
            | inr e ↦ rw e (record {
              reaches =
                  ap (λ r. in_text newline (read_so_far opened [] (rows ++ r ∷ []) tables))
                    (sym (append-nil cells));
            })
          ]))

  pub net_row_read :
      (k : ℕ)
      → AddsRows (html_net d pf ntop s (s.shared_networks k)) (
          with_backups pf ntop s
            (net_cells pf ntop s (s.shared_networks k))
            (net_backups pf ntop s (s.shared_networks k))
          ∷ [])
  unfolding html_net format output_line output_double output_float
  net_row_read k =
      let n = s.shared_networks k in
      row_read data_cell (net_cells pf ntop s n) (net_backups pf ntop s n)
        (names k, (text_g _, (text_g _, (text_f3 _, (text_g _, (text_g _, (text_f3 _, tt)))))))
        (text_g _, (text_f3 _, tt))

  html_location-cell :
      (o : Option ℕ)
      → html_location d pf ntop s o ≡ output_line d pf (codes "td") (location_cell pf ntop s o)
  unfolding html_location
  html_location-cell none = refl
  html_location-cell (some k) = refl

  pub range_row_read :
      (r : Range)
      → AddsRows
          (html_range d pf ntop s r)
          (with_backups pf ntop s (range_cells pf ntop s r) (range_backups pf ntop s r) ∷ [])
  unfolding html_range format output_line output_double output_float
  range_row_read r = rw (html_location-cell r.shared_net) (
      row_read data_cell (range_cells pf ntop s r) (range_backups pf ntop s r)
        (
          text_location r.shared_net,
          (
            text_ip r.first_ip,
            (
              text_ip r.last_ip,
              (text_g _, (text_g _, (text_f3 _, (text_g _, (text_g _, (text_f3 _, tt)))))),
            ),
          ),
        )
        (text_g _, (text_f3 _, tt)))

  AddsRows-append :
      (a : Bytes) (b : Bytes) (x y : List Row)
      → AddsRows a x
      → AddsRows b y
      → AddsRows (a ++ b) (x ++ y)
  AddsRows-append a b x y h k opened rows tables =
      rw (← append_assoc rows x y) (run_then a (h opened rows tables) (k opened (rows ++ x) tables))

  AddsRows-nil : AddsRows [] []
  AddsRows-nil opened rows tables = record {
    reaches = ap (λ r. in_text newline (read_so_far opened [] r tables)) (sym (append-nil rows));
  }

  pub net_rows_read :
      (p num : ℕ)
      → AddsRows
          (print_networks (html_net d pf ntop s) s.shared_networks p num)
          (net_rows pf ntop s p num)
  unfolding print_networks
  net_rows_read p zero = AddsRows-nil
  net_rows_read p (suc num) =
      AddsRows-append _ _ _ _ (net_row_read (suc p)) (net_rows_read (suc p) num)

  pub range_rows_read :
      (ranges : List Range)
      → AddsRows (print_ranges (html_range d pf ntop s) ranges) (range_rows pf ntop s ranges)
  unfolding print_ranges
  range_rows_read [] = AddsRows-nil
  range_rows_read (r ∷ ranges) = AddsRows-append _ _ _ _ (range_row_read r) (range_rows_read ranges)
