-- ===== src/Run/Usage.antt =====
-- src/other.c: `print_version`, `usage` and `clean_up`.
--
-- The package's names, which the build chooses, and the name of the program are parameters. A freed block is
-- named by the pointer that leads to it.
use dhcpd_pools.Base.{ℕ, ◌==◌, List, [], ◌∷◌, if◌then◌else◌}
use dhcpd_pools.Base.Text.{codes}
use dhcpd_pools.Double.{Doubles}
use dhcpd_pools.Data.{Bytes}
use dhcpd_pools.Output.{Printf, Arg, str, format, fprintf}
use dhcpd_pools.Output.HtmlParts.{lines}

-- The streams of a text that is not the report.
pub data Standard : Type 0 where
  out err : Standard

-- Where the program ends: the stream, what is written to it, and the exit status.
pub record Farewell : Type 0 where
  pub stream : Standard
  pub text : Bytes
  pub status : ℕ

module _ (d : Doubles) (pf : Printf d) where
  abbrev print : Bytes → List (Arg d) → Bytes
  print = fprintf d pf

  unfoldable pub print_version : (package_string : Bytes) → Farewell
  unfolding format
  print_version package_string = record {
    stream = out;
    text =
        print
          (codes
            "%s\nOriginal design by Sami Kerola.\nXML support by Dominic Germain, Sogetel inc.\nIPv6 support by Cheer Xiao.\n\nThe software has FreeBSD License.\n")
          (str package_string ∷ []);
    status = 0;
  }

  unfoldable pub usage_text : (program_name package_bugreport package_url : Bytes) → Bytes
  unfolding format
  usage_text program_name package_bugreport package_url = lines (
      print (codes "Usage: %s [OPTIONS]\n") (str program_name ∷ [])
      ∷ codes "\n"
      ∷ codes "This is ISC dhcpd pools usage analyzer.\n"
      ∷ codes "\n"
      ∷ codes "  -c, --config=FILE      path to the dhcpd.conf file\n"
      ∷ codes "  -l, --leases=FILE      path to the dhcpd.leases file\n"
      ∷ codes "  -f, --format=[thHcxXjJ] output format\n"
      ∷ codes "                           t for text\n"
      ∷ codes "                           H for full html page\n"
      ∷ codes "                           x for xml\n"
      ∷ codes "                           X for xml with active lease details\n"
      ∷ codes "                           j for json\n"
      ∷ codes "                           J for json with active lease details\n"
      ∷ codes "                           c for comma separated values\n"
      ∷ codes "  -s, --sort=[nimcptTe]  sort ranges by\n"
      ∷ codes "                           n name\n"
      ∷ codes "                           i IP\n"
      ∷ codes "                           m maximum\n"
      ∷ codes "                           c current\n"
      ∷ codes "                           p percent\n"
      ∷ codes "                           t touched\n"
      ∷ codes "                           T t+c\n"
      ∷ codes "                           e t+c perc\n"
      ∷ codes "  -r, --reverse          reverse order sort\n"
      ∷ codes "  -o, --output=FILE      output into a file\n"
      ∷ codes "  -L, --limit=NR         output limit mask 77 - 00\n"
      ∷ codes "      --warning=PERC     set warning alarming limit\n"
      ∷ codes "      --critical=PERC    set critical alarming limit\n"
      ∷ codes "      --warn-count=NR    a number of free leases before warning raised\n"
      ∷ codes "      --crit-count=NR    a number of free leases before critical raised\n"
      ∷ codes "      --minsize=size     disable alarms for small ranges and shared-nets\n"
      ∷ codes "      --snet-alarms      suppress range alarms that are part of a shared-net\n"
      ∷ codes "  -p, --perfdata         print additional perfdata in alarming mode\n"
      ∷ codes
          "  -A, --all-as-shared    treat single subnets as shared-network with CIDR as their name\n"
      ∷ codes "  -v, --version          output version information and exit\n"
      ∷ codes "  -h, --help             display this help and exit\n"
      ∷ codes "\n"
      ∷ print (codes "Report bugs to <%s>\n") (str package_bugreport ∷ [])
      ∷ print (codes "Homepage: %s\n") (str package_url ∷ [])
      ∷ [])

  unfoldable pub usage :
      (program_name package_bugreport package_url : Bytes) (status : ℕ) → Farewell
  unfolding usage_text
  usage program_name package_bugreport package_url status = record {
    stream = if status == 0 then out else err;
    text = usage_text program_name package_bugreport package_url;
    status = status;
  }
