-- ===== src/Tests/Output.antt =====
-- The formats, on a small sheet.
use mathlib.Core.Option
use dhcpd_pools.Base.{ℕ, ◌+◌, ◌%◌, ◌≡◌, refl, ◌++◌, true, false, [], ◌∷◌, some, none, arith}
use dhcpd_pools.Base.Text.{codes}
use dhcpd_pools.Base.Int.{pos}
use dhcpd_pools.Base.Machine.{is_word_byte}
use dhcpd_pools.Data.{ipv4, active, Range}
use dhcpd_pools.Counting.{Networks}
use dhcpd_pools.Alarm.{a_bit}
use dhcpd_pools.Output.{Printf, Ntop, Sheet, ntop_ipaddr, put_ethernet}
use dhcpd_pools.Output.Words.{IsPrintf, IsNtop}
use dhcpd_pools.Output.Csv.{output_csv}
use dhcpd_pools.Output.Csv.Reader.{read_csv}
use dhcpd_pools.Output.Csv.Columns.{tables, sum_row}
use dhcpd_pools.Output.Csv.Table.{output_csv-rows, output_csv-sum_backups}
use dhcpd_pools.Output.Json.{output_json}
use dhcpd_pools.Output.Json.Reader.{read_json, is_text_byte}
use dhcpd_pools.Output.Json.Tree.{report}
use dhcpd_pools.Output.Json.Text.{output_json-report}
use dhcpd_pools.Output.Xml.{output_xml}
use dhcpd_pools.Output.Xml.Reader.{read_xml, is_character}
use dhcpd_pools.Output.Xml.Tree.{status}
use dhcpd_pools.Output.Xml.Text.{output_xml-status}
use dhcpd_pools.Output.HtmlParts.{Page}
use dhcpd_pools.Output.Html.{output_html}
use dhcpd_pools.Output.Html.Reader.{read_html}
use dhcpd_pools.Output.Html.Tables.{page_tables}
use dhcpd_pools.Output.Html.Frame.{IsPage}
use dhcpd_pools.Output.Html.Text.{output_html-tables}
use dhcpd_pools.Output.Txt.{max_ipaddr_length, txt_range_heads, txt_range_columns}
use dhcpd_pools.Output.Txt.Columns.{
  cut, range_widths, range_pieces, range_heads, range_fields, FieldsFit, txt_range_columns-aligned,
}
use dhcpd_pools.Tests.Data.{
  nat_doubles, small_ranges, small_networks, small_leases, lease_at, range_of,
}

-- A number is written with its last digit.
abbrev pub digit_printf : Printf nat_doubles
digit_printf = record {
  percent_g = λ x. (b'0' + x % 10) ∷ [];
  percent_f3 = λ x. (b'0' + x % 10) ∷ codes ".000";
  nan = 0;
  percent_d = λ n. (b'0' + n % 10) ∷ [];
}

is_word_byte-digit : (x : ℕ) → is_word_byte (b'0' + x % 10) ≡ true
unfolding is_word_byte
is_word_byte-digit x = ground arith

pub digit_printf-IsPrintf : IsPrintf digit_printf
unfolding is_word_byte
digit_printf-IsPrintf = record {
  g_written = λ x. refl;
  g_word = λ x. (is_word_byte-digit x, tt);
  f3_word = λ x. (is_word_byte-digit x, (refl, (refl, (refl, (refl, tt)))));
}

abbrev pub digit_ntop : Ntop
digit_ntop = record {
  htonl = λ n. n;
  ntop_v4 = λ n. codes "10.0.0." ++ (b'0' + n % 10) ∷ [];
  ntop_v6 = λ b. codes "::";
}

pub digit_ntop-IsNtop : IsNtop digit_ntop
unfolding is_word_byte
digit_ntop-IsNtop = record {
  v4_word = λ n. (refl, (refl, (refl, (refl, (refl, (refl, (refl, (is_word_byte-digit n, tt))))))));
  v6_word = λ b. (refl, (refl, tt));
}

abbrev office_networks : Networks
office_networks k = record (small_networks k) { name = codes "net"; available = pos 9; used = 3 }

abbrev pub small_sheet : Sheet
small_sheet = record {
  ip_version = ipv4;
  header_limit = 7;
  number_limit = 7;
  backups_found = false;
  print_mac_addreses = true;
  leases = record (lease_at 9 active) { ethernet = some (codes "00:16") } ∷ small_leases;
  ranges = small_ranges;
  shared_networks = office_networks;
  num_shared_networks = 2;
}

abbrev backup_sheet : Sheet
backup_sheet = record small_sheet { backups_found = true }

output_csv-rows_example :
    read_csv (output_csv nat_doubles digit_printf digit_ntop small_sheet)
    ≡ some
        (tables digit_printf digit_ntop small_sheet ++ sum_row digit_printf digit_ntop small_sheet)
unfolding a_bit
output_csv-rows_example =
    output_csv-rows digit_printf digit_printf-IsPrintf digit_ntop digit_ntop-IsNtop small_sheet
      (λ k. (refl, (refl, (refl, tt)))) refl

output_csv-sum_backups_example :
    read_csv (output_csv nat_doubles digit_printf digit_ntop backup_sheet) ≡ none
unfolding a_bit
output_csv-sum_backups_example =
    output_csv-sum_backups digit_printf digit_printf-IsPrintf digit_ntop digit_ntop-IsNtop
      backup_sheet (λ k. (refl, (refl, (refl, tt)))) refl refl

output_json-report_example :
    read_json (output_json nat_doubles digit_printf digit_ntop small_sheet)
    ≡ some (report digit_printf digit_ntop small_sheet)
unfolding is_text_byte put_ethernet
output_json-report_example =
    output_json-report digit_printf digit_printf-IsPrintf digit_ntop digit_ntop-IsNtop small_sheet
      (λ k. (refl, (refl, (refl, tt))))
      ((refl, (refl, (refl, (refl, (refl, tt))))), (tt, (tt, (tt, (tt, tt)))))

output_xml-status_example :
    read_xml (output_xml nat_doubles digit_printf digit_ntop small_sheet)
    ≡ some (status digit_printf digit_ntop small_sheet)
unfolding is_character put_ethernet
output_xml-status_example =
    output_xml-status digit_printf digit_printf-IsPrintf digit_ntop digit_ntop-IsNtop small_sheet
      (λ k. (refl, (refl, (refl, tt))))
      ((refl, (refl, (refl, (refl, (refl, tt))))), (tt, (tt, (tt, (tt, tt)))))

abbrev small_page : Page
small_page = record {
  package_string = codes "pools";
  package_url = codes "http:";
  dhcpdlease_file = codes "file";
  modified = some (codes "now");
}

small_page-IsPage : IsPage small_page (codes "now")
unfolding is_character
small_page-IsPage = record {
  string_text = (refl, (refl, (refl, (refl, (refl, tt)))));
  url_text = (refl, (refl, (refl, (refl, (refl, tt)))));
  url_value = (refl, (refl, (refl, (refl, (refl, tt)))));
  file_text = (refl, (refl, (refl, (refl, tt))));
  time_text = (refl, (refl, (refl, tt)));
}

output_html-tables_example :
    Option.map read_html (output_html nat_doubles digit_printf digit_ntop small_sheet small_page)
    ≡ some (some (page_tables digit_printf digit_ntop small_sheet))
unfolding is_character
output_html-tables_example =
    output_html-tables digit_printf digit_printf-IsPrintf digit_ntop digit_ntop-IsNtop small_sheet
      (λ k. (refl, (refl, (refl, tt)))) small_page (codes "now") refl small_page-IsPage

abbrev small_range : Range
small_range = range_of 1 11 20

small_range-FieldsFit :
    FieldsFit
      (max_ipaddr_length ipv4)
      (range_fields digit_printf digit_ntop small_sheet small_range)
unfolding max_ipaddr_length ntop_ipaddr
small_range-FieldsFit = record {
  net_fits = omega arith;
  first_fits = omega arith;
  last_fits = omega arith;
  size_fits = omega arith;
  cur_fits = omega arith;
  perc_fits = omega arith;
  touch_fits = omega arith;
  tc_fits = omega arith;
  tcperc_fits = omega arith;
}

txt_range_columns-aligned_example :
    (cut
        (range_widths (max_ipaddr_length ipv4))
        (txt_range_heads nat_doubles digit_printf digit_ntop small_sheet)
      ≡ range_pieces (max_ipaddr_length ipv4) (codes "   ") range_heads ++ [] ∷ [])
    × (cut
          (range_widths (max_ipaddr_length ipv4))
          (txt_range_columns nat_doubles digit_printf digit_ntop small_sheet small_range)
        ≡ range_pieces
            (max_ipaddr_length ipv4)
            (codes " - ")
            (range_fields digit_printf digit_ntop small_sheet small_range)
          ++ [] ∷ [])
txt_range_columns-aligned_example =
    txt_range_columns-aligned digit_printf digit_ntop small_sheet small_range small_range-FieldsFit
