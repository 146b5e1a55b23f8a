-- ===== src/Output/Csv/Columns.antt =====
-- The rows that the CSV text stands for, from the tables.
use dhcpd_pools.Base.{
  ℕ, zero, suc, ◌+◌, List, [], ◌∷◌, ◌++◌, Option, none, some, if◌then◌else◌, map,
}
use dhcpd_pools.Base.Text.{codes}
use dhcpd_pools.Base.Int.{pos}
use dhcpd_pools.Double.{Doubles}
use dhcpd_pools.Data.{Bytes, SharedNetwork, Range}
use dhcpd_pools.Sort.{range_size}
use dhcpd_pools.Alarm.{r_bit, s_bit, a_bit}
use dhcpd_pools.Output.{Printf, Ntop, Sheet, ntop_ipaddr, ratio, net_ratio}
use dhcpd_pools.Output.Csv.Reader.{Row, when_rows}

module _ {d : Doubles} (pf : Printf d) (ntop : Ntop) (s : Sheet) where
  -- The columns that a table has more if backup leases were found.
  abbrev pub with_backups : Row → Row
  with_backups columns = if s.backups_found then columns else []

  abbrev pub g_of : ℕ → Bytes
  g_of n = pf.percent_g (d.of_ℤ (pos n))

  -- The name in the first column of a range.
  abbrev pub location : Option ℕ → Bytes
  location none = codes "not_defined"
  location (some k) = (s.shared_networks k).name

  abbrev pub range_columns : Range → Row
  range_columns r =
      let size = range_size d s.ip_version r in
      location r.shared_net
      ∷ ntop_ipaddr ntop s.ip_version r.first_ip
      ∷ ntop_ipaddr ntop s.ip_version r.last_ip
      ∷ pf.percent_g size
      ∷ g_of r.count
      ∷ pf.percent_f3 (ratio d pf r.count size)
      ∷ g_of r.touched
      ∷ g_of (r.touched + r.count)
      ∷ pf.percent_f3 (ratio d pf (r.touched + r.count) size)
      ∷ with_backups (g_of r.backups ∷ pf.percent_f3 (ratio d pf r.backups size) ∷ [])

  abbrev pub net_columns : SharedNetwork → Row
  net_columns n =
      n.name
      ∷ pf.percent_g (d.of_ℤ n.available)
      ∷ g_of n.used
      ∷ pf.percent_f3 (net_ratio d pf n.used n.available)
      ∷ g_of n.touched
      ∷ g_of (n.touched + n.used)
      ∷ pf.percent_f3 (net_ratio d pf (n.touched + n.used) n.available)
      ∷ []

  abbrev pub net_backups : SharedNetwork → Row
  net_backups n =
      with_backups (g_of n.backups ∷ pf.percent_f3 (net_ratio d pf n.backups n.available) ∷ [])

  abbrev pub network_rows : (shared_p num : ℕ) → List Row
  network_rows p zero = []
  network_rows p (suc num) =
      let n = s.shared_networks (suc p) in
      (net_columns n ++ net_backups n) ∷ network_rows (suc p) num

  abbrev pub net_header : Row
  net_header =
      codes "name"
      ∷ codes "max"
      ∷ codes "cur"
      ∷ codes "percent"
      ∷ codes "touch"
      ∷ codes "t+c"
      ∷ codes "t+c perc"
      ∷ with_backups (codes "bu" ∷ codes "bu perc" ∷ [])

  abbrev pub range_header : Row
  range_header =
      codes "shared net name"
      ∷ codes "first ip"
      ∷ codes "last ip"
      ∷ codes "max"
      ∷ codes "cur"
      ∷ codes "percent"
      ∷ codes "touch"
      ∷ codes "t+c"
      ∷ codes "t+c perc"
      ∷ with_backups (codes "bu" ∷ codes "bu perc" ∷ [])

  abbrev pub title : Bytes → Row
  title text = text ∷ []

  -- The rows before the sum.
  abbrev pub tables : List Row
  tables =
      (((when_rows (r_bit s.header_limit) (title (codes "Ranges:") ∷ range_header ∷ [])
            ++ when_rows (r_bit s.number_limit) (map (range_columns) s.ranges ++ [] ∷ []))
          ++ when_rows (s_bit s.header_limit) (title (codes "Shared networks:") ∷ net_header ∷ []))
        ++ when_rows (s_bit s.number_limit) (network_rows 0 s.num_shared_networks ++ [] ∷ []))
      ++ when_rows (a_bit s.header_limit) (title (codes "Sum of all ranges:") ∷ net_header ∷ [])

  -- The row of the sum, if it is printed.
  abbrev pub sum_row : List Row
  sum_row = when_rows (a_bit s.number_limit) (net_columns (s.shared_networks 0) ∷ [])
