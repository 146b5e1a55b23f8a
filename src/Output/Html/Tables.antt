-- ===== src/Output/Html/Tables.antt =====
-- The tables that the HTML page shows, from the tables of the program.
use dhcpd_pools.Base.{
  ℕ, zero, suc, ◌+◌, Bool, List, [], ◌∷◌, ◌++◌, Option, none, some, if◌then◌else◌,
}
use dhcpd_pools.Base.Text.{codes}
use dhcpd_pools.Base.Int.{pos}
use dhcpd_pools.Double.{Doubles}
use dhcpd_pools.Data.{Bytes, SharedNetwork, Range}
use dhcpd_pools.Sort.{range_size}
use dhcpd_pools.Alarm.{r_bit, s_bit, a_bit}
use dhcpd_pools.Output.{Printf, Ntop, Sheet, ntop_ipaddr, ratio, net_ratio}
use dhcpd_pools.Output.Html.Reader.{Row}

module _ {d : Doubles} (pf : Printf d) (ntop : Ntop) (s : Sheet) where
  abbrev pub number : ℕ → Bytes
  number n = pf.percent_g (d.of_ℤ (pos n))

  abbrev pub percent : d.Double → Bytes
  percent x = pf.percent_f3 (d.to_float x)

  abbrev pub with_backups : (cells backups : Row) → Row
  with_backups cells backups = cells ++ (if s.backups_found then backups else [])

  abbrev pub net_head : Row
  net_head =
      with_backups
        (codes "name"
          ∷ codes "max"
          ∷ codes "cur"
          ∷ codes "percent"
          ∷ codes "touch"
          ∷ codes "t+c"
          ∷ codes "t+c perc"
          ∷ [])
        (codes "bu" ∷ codes "bu perc" ∷ [])

  abbrev pub range_head : Row
  range_head =
      with_backups
        (codes "shared net name"
          ∷ codes "first ip"
          ∷ codes "last ip"
          ∷ codes "max"
          ∷ codes "cur"
          ∷ codes "percent"
          ∷ codes "touch"
          ∷ codes "t+c"
          ∷ codes "t+c perc"
          ∷ [])
        (codes "bu" ∷ codes "bu perc" ∷ [])

  abbrev pub net_cells : SharedNetwork → Row
  net_cells n =
      n.name
      ∷ pf.percent_g (d.of_ℤ n.available)
      ∷ number n.used
      ∷ percent (net_ratio d pf n.used n.available)
      ∷ number n.touched
      ∷ number (n.touched + n.used)
      ∷ percent (net_ratio d pf (n.touched + n.used) n.available)
      ∷ []

  abbrev pub net_backups : SharedNetwork → Row
  net_backups n = number n.backups ∷ percent (net_ratio d pf n.backups n.available) ∷ []

  abbrev pub location_cell : Option ℕ → Bytes
  location_cell none = codes "not_defined"
  location_cell (some k) = (s.shared_networks k).name

  abbrev pub range_cells : Range → Row
  range_cells r =
      let size = range_size d s.ip_version r in
      location_cell r.shared_net
      ∷ ntop_ipaddr ntop s.ip_version r.first_ip
      ∷ ntop_ipaddr ntop s.ip_version r.last_ip
      ∷ pf.percent_g size
      ∷ number r.count
      ∷ percent (ratio d pf r.count size)
      ∷ number r.touched
      ∷ number (r.touched + r.count)
      ∷ percent (ratio d pf (r.touched + r.count) size)
      ∷ []

  abbrev pub range_backups : Range → Row
  range_backups r =
      number r.backups ∷ percent (ratio d pf r.backups (range_size d s.ip_version r)) ∷ []

  abbrev pub net_rows : (shared_p num : ℕ) → List Row
  net_rows p zero = []
  net_rows p (suc num) =
      with_backups (net_cells (s.shared_networks (suc p))) (net_backups (s.shared_networks (suc p)))
      ∷ net_rows (suc p) num

  abbrev pub range_rows : List Range → List Row
  range_rows [] = []
  range_rows (r ∷ ranges) = with_backups (range_cells r) (range_backups r) ∷ range_rows ranges

  -- A table: its head and its body, as far as the limits select them.
  abbrev pub table : (with_head with_body : Bool) → Row → List Row → List Row
  table with_head with_body head body =
      (if with_head then head ∷ [] else []) ++ (if with_body then body else [])

  abbrev pub page_tables : List (List Row)
  page_tables =
      table (a_bit s.header_limit) (a_bit s.number_limit) net_head
        (with_backups (net_cells (s.shared_networks 0)) (net_backups (s.shared_networks 0)) ∷ [])
      ∷ table (s_bit s.header_limit) (s_bit s.number_limit) net_head
          (net_rows 0 s.num_shared_networks)
      ∷ table (r_bit s.header_limit) (r_bit s.number_limit) range_head (range_rows s.ranges)
      ∷ []
