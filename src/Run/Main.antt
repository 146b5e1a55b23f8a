-- ===== src/Run/Main.antt =====
-- src/dhcpd-pools.c: `main`, from the command line to the exit status.
use dhcpd_pools.Base.{
  ℕ, ◌+◌, ◌-◌, ◌%◌, ◌^◌, ◌&&◌, not, Bool, false, List, [], Option, none, some, if◌then◌else◌, take,
}
use dhcpd_pools.Base.Text.{char_at}
use dhcpd_pools.Base.Int.{pos}
use dhcpd_pools.Base.Result.{ok, err}
use dhcpd_pools.Double.{Doubles}
use dhcpd_pools.Data.{Bytes}
use dhcpd_pools.Output.{Sheet, Stream, deliver}
use dhcpd_pools.Output.HtmlParts.{Page}
use dhcpd_pools.Output.Txt
use dhcpd_pools.Output.Csv
use dhcpd_pools.Output.Json
use dhcpd_pools.Output.Xml
use dhcpd_pools.Output.Html
use dhcpd_pools.Output.Alarming.{alarm_output}
use dhcpd_pools.Run.{
  Argument, Settings, Stop, shows_version, shows_help, Output, output_txt, output_alarming,
  output_html, output_xml, output_json, output_csv, select_output, set_options, is_empty,
}
use dhcpd_pools.Run.Job.{Trouble, prepare_memory, job}
use dhcpd_pools.Run.Cleanup.{clean_up}
use dhcpd_pools.Run.Usage.{Farewell, print_version, usage}
use dhcpd_pools.Run.World.{Build, World}

-- How the program ends: `main` returns, an option or the choice of the output stops it, there is no table, or
-- the output stops: its file or stream fails, the time of the lease file cannot be written, a read is
-- out of bounds.
pub data End : Type 0 where
  returns : (ret_val : ℕ) (stream : Stream) (text : Bytes) → End
  stops : Stop → End
  troubled : Trouble → End
  not_written no_time bad_read not_flushed : End

-- The exit status, where there is one.
unfoldable pub status_of : End → Option ℕ
status_of (returns ret_val stream text) = some ret_val
status_of (stops shows_version) = some 0
status_of (stops shows_help) = some 0
status_of (stops reason) = some 1
status_of bad_read = none
status_of reason = some 1

-- What an output function prints and returns, once its file is open.
pub data Printed : Type 0 where
  printed : (ret_val : ℕ) (text : Bytes) → Printed
  time_fails reads_beyond : Printed

module _ (d : Doubles) (build : Build d) (w : World d) where
  -- `config` before the options; its member `minsize` is never set but by an option, and a global
  -- variable is zero at first. The limits are bit fields of three bits.
  unfoldable pub defaults : Settings d
  defaults = record {
    dhcpdconf_file = take 1023 build.dhcpdconf_file;
    dhcpdlease_file = take 1023 build.dhcpdlease_file;
    output_file = [];
    sorts = [];
    reverse_order = false;
    all_as_shared = false;
    limits = record {
      warning = build.alarm_warn;
      critical = build.alarm_crit;
      warn_count = d.of_ℤ (pos 4294967296);
      crit_count = d.of_ℤ (pos 4294967296);
      minsize = d.of_ℤ (pos 0);
      snet_alarms = false;
      perfdata = false;
      header_limit = (char_at build.output_limit 0 + 2 ^ 32 - b'0') % 8;
      number_limit = (char_at build.output_limit 1 + 2 ^ 32 - b'0') % 8;
    };
    format = build.output_format;
  }

  module _ (settings : Settings d) where
    abbrev pub page : Page
    page = record {
      package_string = build.package_string;
      package_url = build.package_url;
      dhcpdlease_file = settings.dhcpdlease_file;
      modified = w.modified settings.dhcpdlease_file;
    }

    -- The function that `output_analysis` points to.
    unfoldable pub output_analysis : Output → Sheet → Printed
    unfolding Txt.output_txt Csv.output_csv Json.output_json Xml.output_xml Html.output_html
        alarm_output
    output_analysis output_txt s = printed 0 (Txt.output_txt d w.printf w.ntop s)
    output_analysis output_csv s = printed 0 (Csv.output_csv d w.printf w.ntop s)
    output_analysis output_json s = printed 0 (Json.output_json d w.printf w.ntop s)
    output_analysis output_xml s = printed 0 (Xml.output_xml d w.printf w.ntop s)
    output_analysis output_html s = elim (Html.output_html d w.printf w.ntop s page) [
      | none ↦ time_fails
      | some text ↦ printed 0 text
    ]
    output_analysis output_alarming s =
        elim (alarm_output d w.printf w.ntop settings.limits w.program_name s) [
          | none ↦ reads_beyond
          | some (ret_val, text) ↦ printed ret_val text
        ]

    -- `clean_up(); return ret_val;`
    unfoldable pub leave : Sheet → ℕ → Option (Stream × Bytes) → End
    unfolding clean_up
    leave s ret_val none = not_written
    leave s ret_val (some (stream, text)) =
        elim (clean_up w.flushes s.leases s.num_shared_networks settings.sorts) [
          | none ↦ not_flushed
          | some blocks ↦ returns ret_val stream text
        ]

    -- What happens to the text.
    unfoldable pub written : Sheet → Printed → End
    unfolding leave deliver
    written s (printed ret_val text) =
        leave s ret_val (deliver w.opens w.closes settings.output_file text)
    written s time_fails = no_time
    written s reads_beyond = bad_read

    -- The output function, which opens its file before all else, and the end of `main`.
    unfoldable pub output_sheet : Output → Sheet → End
    unfolding output_analysis written
    output_sheet output s =
        if not (is_empty settings.output_file) && not (w.opens settings.output_file)
        then not_written
        else written s (output_analysis output s)

    unfoldable pub do_the_job : (fuel : ℕ) → Output × Bool → End
    unfolding job prepare_memory output_sheet
    do_the_job fuel (output, print_mac_addreses) =
        elim (job w.inet w.uthash w.qsort w.limit fuel w.files w.garbage d settings
          print_mac_addreses (prepare_memory w.networks w.ranges)) [
            | err reason ↦ troubled reason
            | ok sheet ↦ output_sheet output sheet
          ]

  -- What is printed for an option that asks for it.
  unfoldable pub farewell : Stop → Option Farewell
  unfolding print_version usage
  farewell shows_version = some (print_version d w.printf build.package_string)
  farewell shows_help =
      some (usage d w.printf w.program_name build.package_bugreport build.package_url 0)
  farewell reason = none

  -- `fuel` bounds the depth of the includes.
  unfoldable pub main : (fuel : ℕ) → List Argument → End
  unfolding defaults set_options select_output do_the_job
  main fuel argv = elim (set_options d w.strtod argv defaults) [
    | err stop ↦ stops stop
    | ok settings ↦ elim (select_output (char_at settings.format 0)) [
      | err stop ↦ stops stop
      | ok output ↦ do_the_job settings fuel output
    ]
  ]
