-- ===== src/Output/Html.antt =====
-- src/output.c: `output_html` and the functions that it calls.
pub mod Reader
pub mod Tables
pub mod Rows
pub mod Frame
pub mod Text
use dhcpd_pools.Base.{ℕ, ◌+◌, Bool, List, [], ◌∷◌, ◌++◌, Option, none, some}
use mathlib.Core.Option
use dhcpd_pools.Base.Text.{codes}
use dhcpd_pools.Double.{Doubles}
use dhcpd_pools.Data.{Bytes, SharedNetwork, Range}
use dhcpd_pools.Sort.{range_size}
use dhcpd_pools.Alarm.{r_bit, s_bit, a_bit}
use dhcpd_pools.Base.Int.{pos}
use dhcpd_pools.Output.{
  Printf, Ntop, Sheet, Arg, str, dbl, ntop_ipaddr, format, plain, fprintf, ratio, net_ratio,
  print_ranges, print_networks, when,
}
use dhcpd_pools.Output.HtmlParts.{
  Page, lines, html_top, html_scripts, html_header_text, html_header, html_footer, start_tag,
  end_tag, output_line, output_double, output_float, table_start, table_end, newsection,
}

module _ (d : Doubles) (pf : Printf d) (ntop : Ntop) (s : Sheet) where
  abbrev th : Bytes → Bytes
  th = output_line d pf (codes "th")

  abbrev td : Bytes → Bytes
  td = output_line d pf (codes "td")

  abbrev td_double : d.Double → Bytes
  td_double = output_double d pf (codes "td")

  abbrev td_count : ℕ → Bytes
  td_count n = td_double (d.of_ℤ (pos n))

  abbrev td_float : d.Double → Bytes
  td_float = output_float d pf (codes "td")

  -- A row, with or without the cells for backup leases.
  unfoldable pub html_row : (cells backups : List Bytes) → Bytes
  unfolding start_tag end_tag
  html_row cells backups =
      start_tag d pf (codes "tr")
      ++ (lines cells ++ (when s.backups_found (lines backups) ++ end_tag d pf (codes "tr")))

  -- The head of the tables of the shared networks and of the sum.
  unfoldable pub html_net_head : Bytes
  unfolding start_tag end_tag html_row output_line
  html_net_head =
      start_tag d pf (codes "thead")
      ++ (html_row
            (th (codes "name")
              ∷ th (codes "max")
              ∷ th (codes "cur")
              ∷ th (codes "percent")
              ∷ th (codes "touch")
              ∷ th (codes "t+c")
              ∷ th (codes "t+c perc")
              ∷ [])
            (th (codes "bu") ∷ th (codes "bu perc") ∷ [])
          ++ end_tag d pf (codes "thead"))

  -- The row of a shared network, and of the sum.
  unfoldable pub html_net : SharedNetwork → Bytes
  unfolding html_row output_line output_double output_float net_ratio
  html_net n =
      html_row
        (td n.name
          ∷ td_double (d.of_ℤ n.available)
          ∷ td_count n.used
          ∷ td_float (net_ratio d pf n.used n.available)
          ∷ td_count n.touched
          ∷ td_count (n.touched + n.used)
          ∷ td_float (net_ratio d pf (n.touched + n.used) n.available)
          ∷ [])
        (td_count n.backups ∷ td_float (net_ratio d pf n.backups n.available) ∷ [])

  unfoldable pub html_range_head : Bytes
  unfolding start_tag end_tag html_row output_line
  html_range_head =
      start_tag d pf (codes "thead")
      ++ (html_row
            (th (codes "shared net name")
              ∷ th (codes "first ip")
              ∷ th (codes "last ip")
              ∷ th (codes "max")
              ∷ th (codes "cur")
              ∷ th (codes "percent")
              ∷ th (codes "touch")
              ∷ th (codes "t+c")
              ∷ th (codes "t+c perc")
              ∷ [])
            (th (codes "bu") ∷ th (codes "bu perc") ∷ [])
          ++ end_tag d pf (codes "thead"))

  unfoldable pub html_location : Option ℕ → Bytes
  unfolding output_line
  html_location none = td (codes "not_defined")
  html_location (some k) = td (s.shared_networks k).name

  unfoldable pub html_range : Range → Bytes
  unfolding html_row html_location output_line output_double output_float ratio ntop_ipaddr
  html_range r =
      let size = range_size d s.ip_version r in
      html_row
        (html_location r.shared_net
          ∷ td (ntop_ipaddr ntop s.ip_version r.first_ip)
          ∷ td (ntop_ipaddr ntop s.ip_version r.last_ip)
          ∷ td_double size
          ∷ td_count r.count
          ∷ td_float (ratio d pf r.count size)
          ∷ td_count r.touched
          ∷ td_count (r.touched + r.count)
          ∷ td_float (ratio d pf (r.touched + r.count) size)
          ∷ [])
        (td_count r.backups ∷ td_float (ratio d pf r.backups size) ∷ [])

  unfoldable pub html_body : Bytes → Bytes
  unfolding start_tag end_tag
  html_body rows = start_tag d pf (codes "tbody") ++ (rows ++ end_tag d pf (codes "tbody"))

  -- A section with its table.
  unfoldable pub html_table :
      (title id summary head body : Bytes) (with_head with_body : Bool) → Bytes
  unfolding newsection table_start table_end
  html_table title id summary head body with_head with_body =
      newsection d pf title
      ++ (table_start d pf id summary
          ++ (when with_head head ++ (when with_body body ++ table_end d pf)))

  unfoldable pub html_tables : Bytes
  unfolding html_table html_body html_net_head html_net html_range_head html_range print_networks
      print_ranges r_bit s_bit a_bit
  html_tables =
      html_table (codes "Sum of all") (codes "a") (codes "all") html_net_head
        (html_body (html_net (s.shared_networks 0))) (a_bit s.header_limit) (a_bit s.number_limit)
      ++ (html_table (codes "Shared networks") (codes "s") (codes "snet") html_net_head
            (html_body (print_networks html_net s.shared_networks 0 s.num_shared_networks))
            (s_bit s.header_limit) (s_bit s.number_limit)
          ++ html_table (codes "Ranges") (codes "r") (codes "ranges") html_range_head
              (html_body (print_ranges html_range s.ranges)) (r_bit s.header_limit)
              (r_bit s.number_limit))

  -- The text that output_html writes, unless it stops at the time of the lease file.
  unfoldable pub output_html : Page → Option Bytes
  unfolding html_header html_footer html_tables
  output_html page =
      Option.map
        (λ header. header ++ (html_tables ++ html_footer d pf page.package_string page.package_url))
        (html_header d pf page.dhcpdlease_file page.modified)
