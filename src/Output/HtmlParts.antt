-- ===== src/Output/HtmlParts.antt =====
-- src/output.c: `html_header`, `html_footer` and the functions that write one tag or one line of HTML.
use dhcpd_pools.Base.{List, [], ◌∷◌, ◌++◌, Option}
use mathlib.Core.Option
use dhcpd_pools.Base.Text.{codes}
use dhcpd_pools.Double.{Doubles}
use dhcpd_pools.Data.{Bytes}
use dhcpd_pools.Output.{Printf, Arg, str, dbl, format, fprintf}

-- What the build and the system put into the page: PACKAGE_STRING and PACKAGE_URL, the name of the lease
-- file, and the time of its last modification as strftime writes it, if localtime_r and strftime succeed.
pub record Page : Type 0 where
  pub package_string : Bytes
  pub package_url : Bytes
  pub dhcpdlease_file : Bytes
  pub modified : Option Bytes

-- One call after the other.
abbrev pub lines : List Bytes → Bytes
lines [] = []
lines (line ∷ rest) = line ++ lines rest

module _ (d : Doubles) (pf : Printf d) where
  abbrev print : Bytes → List (Arg d) → Bytes
  print = fprintf d pf

  -- The lines of html_header before the last.
  unfoldable pub html_top : Bytes
  unfolding format
  html_top = lines (
      print (codes "<!DOCTYPE html>\n") []
      ∷ print (codes "<html>\n") []
      ∷ print (codes "<head>\n") []
      ∷ print (codes "<title>ISC dhcpd dhcpd-pools output</title>\n") []
      ∷ print (codes "<meta charset=\"utf-8\">\n") []
      ∷ print (codes "<meta http-equiv=\"X-UA-Compatible\" content=\"IE=edge\">\n") []
      ∷ print (codes "<meta name=\"viewport\" content=\"width=device-width, initial-scale=1\">\n")
          []
      ∷ print
          (codes
            "<link rel=\"stylesheet\" href=\"https://maxcdn.bootstrapcdn.com/bootstrap/3.3.4/css/bootstrap.min.css\" type=\"text/css\">\n")
          []
      ∷ print
          (codes
            "<link rel=\"stylesheet\" href=\"https://cdn.datatables.net/1.10.10/css/jquery.dataTables.min.css\" type=\"text/css\">")
          []
      ∷ print (codes "<style type=\"text/css\">\n") []
      ∷ print (codes "table.dhcpd-pools th { text-transform: capitalize }\n") []
      ∷ print (codes "</style>\n") []
      ∷ print (codes "</head>\n") []
      ∷ print (codes "<body>\n") []
      ∷ print (codes "<div class=\"container\">\n") []
      ∷ print (codes "<h2>ISC DHCPD status</h2>\n") []
      ∷ [])

  unfoldable pub html_header_text : (dhcpdlease_file outstr : Bytes) → Bytes
  unfolding format html_top
  html_header_text dhcpdlease_file outstr =
      html_top
      ++ print (codes "<small>File %s was last modified at %s</small><hr />\n")
          (str dhcpdlease_file ∷ str outstr ∷ [])

  -- `none` is the exit with a message.
  unfoldable pub html_header : (dhcpdlease_file : Bytes) → Option Bytes → Option Bytes
  unfolding html_header_text
  html_header dhcpdlease_file modified = Option.map (html_header_text dhcpdlease_file) modified

  -- The lines of html_footer from the fourth on.
  unfoldable pub html_scripts : Bytes
  unfolding format
  html_scripts = lines (
      print (codes "</small></div></div>\n") []
      ∷ print
          (codes
            "<script src=\"https://code.jquery.com/jquery-2.1.4.min.js\" type=\"text/javascript\"></script>\n")
          []
      ∷ print
          (codes
            "<script src=\"https://maxcdn.bootstrapcdn.com/bootstrap/3.3.4/js/bootstrap.min.js\" type=\"text/javascript\"></script>\n")
          []
      ∷ print
          (codes
            "<script src=\"https://cdn.datatables.net/1.10.10/js/jquery.dataTables.min.js\" type=\"text/javascript\"></script>\n")
          []
      ∷ print
          (codes
            "<script type=\"text/javascript\" class=\"init\">$(document).ready(function() { $('#s').DataTable(); } );</script>\n")
          []
      ∷ print
          (codes
            "<script type=\"text/javascript\" class=\"init\">$(document).ready(function() { $('#r').DataTable(); } );</script>\n")
          []
      ∷ print (codes "</body></html>\n") []
      ∷ [])

  unfoldable pub html_footer : (package_string package_url : Bytes) → Bytes
  unfolding format html_scripts
  html_footer package_string package_url =
      print (codes "<br /><div class=\"well well-lg\">\n") []
      ++ (print (codes "<small>Generated using %s<br />\n") (str package_string ∷ [])
          ++ (print (codes "More info at <a href=\"%s\">%s</a>\n")
                (str package_url ∷ str package_url ∷ [])
              ++ html_scripts))

  unfoldable pub start_tag : (tag : Bytes) → Bytes
  unfolding format
  start_tag tag = print (codes "<%s>\n") (str tag ∷ [])

  unfoldable pub end_tag : (tag : Bytes) → Bytes
  unfolding format
  end_tag tag = print (codes "</%s>\n") (str tag ∷ [])

  unfoldable pub output_line : (type text : Bytes) → Bytes
  unfolding format
  output_line type text = print (codes "<%s>%s</%s>\n") (str type ∷ str text ∷ str type ∷ [])

  unfoldable pub output_double : (type : Bytes) → d.Double → Bytes
  unfolding format
  output_double type x = print (codes "<%s>%g</%s>\n") (str type ∷ dbl x ∷ str type ∷ [])

  -- The value is a float.
  unfoldable pub output_float : (type : Bytes) → d.Double → Bytes
  unfolding format
  output_float type x =
      print (codes "<%s>%.3f</%s>\n") (str type ∷ dbl (d.to_float x) ∷ str type ∷ [])

  unfoldable pub table_start : (id summary : Bytes) → Bytes
  unfolding format
  table_start id summary =
      print
        (codes
          "<table id=\"%s\" class=\"dhcpd-pools order-column table table-striped table-hover\" summary=\"%s\">\n")
        (str id ∷ str summary ∷ [])

  unfoldable pub table_end : Bytes
  unfolding format
  table_end = print (codes "</table>\n") []

  unfoldable pub newsection : (title : Bytes) → Bytes
  unfolding output_line
  newsection title = output_line (codes "h3") title
