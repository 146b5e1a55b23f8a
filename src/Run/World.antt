-- ===== src/Run/World.antt =====
-- What src/dhcpd-pools.c takes from the build, from the libraries and from the system.
use dhcpd_pools.Base.{ℕ, Bool, Option}
use dhcpd_pools.Data.{Bytes, IpAddr, Range}
use dhcpd_pools.Double.{Doubles}
use dhcpd_pools.Address.{Inet}
use dhcpd_pools.Counting.{Networks}
use dhcpd_pools.Leases.{Uthash}
use dhcpd_pools.Output.{Printf, Ntop, Stream}
use dhcpd_pools.Run.{Strtod, Qsort}

-- The constants of the build; `warn` and `crit` are ALARM_WARN and ALARM_CRIT.
pub record Build (d : Doubles) : Type 0 where
  pub dhcpdconf_file : Bytes
  pub dhcpdlease_file : Bytes
  pub output_limit : Bytes
  pub output_format : Bytes
  pub alarm_warn : d.Double
  pub alarm_crit : d.Double
  pub package_string : Bytes
  pub package_url : Bytes
  pub package_bugreport : Bytes

-- The libraries and the system. `limit` is the number of ranges for which there is memory, `garbage`
-- what a variable for an address holds before it is written, `networks` and `ranges` what xmalloc
-- returns; `modified` is the time of a file as strftime writes it, `opens`, `closes` and `flushes` how
-- fopen, close_stream or fflush, and fflush(NULL) end.
pub record World (d : Doubles) : Type 0 where
  pub inet : Inet
  pub uthash : Uthash
  pub qsort : Qsort
  pub strtod : Strtod d
  pub printf : Printf d
  pub ntop : Ntop
  pub limit : ℕ
  pub files : Bytes → Option Bytes
  pub modified : Bytes → Option Bytes
  pub opens : Bytes → Bool
  pub closes : Stream → Bool
  pub flushes : Bool
  pub garbage : IpAddr
  pub networks : Networks
  pub ranges : ℕ → Range
  pub program_name : Bytes
