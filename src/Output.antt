-- ===== src/Output.antt =====
-- src/output.c: what the five formats have in common, and `ntop_ipaddr` of src/other.c.
--
-- What a function writes is the bytes of its calls of fprintf and fputs, one after the other; the format
-- strings are those of the source. printf's rendering of a double and inet_ntop are parameters. Each
-- function opens its stream first and closes it last: that is `deliver`, around the text.
pub mod Words
pub mod Csv
pub mod Json
pub mod Xml
pub mod HtmlParts
pub mod Html
pub mod Txt
pub mod Alarming
use dhcpd_pools.Base.{
  ℕ, zero, suc, ◌+◌, ◌-◌, ◌*◌, ◌==◌, Bool, true, false, ◌&&◌, List, [], ◌∷◌, ◌++◌, Option, none,
  some, if◌then◌else◌, leb, length,
}
use dhcpd_pools.Base.Text.{codes}
use dhcpd_pools.Base.Int.{ℤ, pos}
use dhcpd_pools.Double.{Doubles}
use dhcpd_pools.Data.{
  Bytes, DhcpVersion, ipv_unknown, ipv4, ipv6, IpAddr, as_v4, as_v6, SharedNetwork, Range,
  LeaseType, active, free, backup, Lease,
}
use dhcpd_pools.Counting.{Networks}
use dhcpd_pools.Alarm.{is_zero}

-- `%g` and `%.3f` of a double, NAN, and `%d` of an `int` that is not negative.
pub record Printf (d : Doubles) : Type 0 where
  pub percent_g : d.Double → Bytes
  pub percent_f3 : d.Double → Bytes
  pub nan : d.Double
  pub percent_d : ℕ → Bytes

-- The texts that inet_ntop gives for AF_INET and AF_INET6.
pub record Ntop : Type 0 where
  pub htonl : ℕ → ℕ
  pub ntop_v4 : ℕ → Bytes
  pub ntop_v6 : Bytes → Bytes

unfoldable pub ntop_ipaddr : Ntop → DhcpVersion → IpAddr → Bytes
unfolding as_v4 as_v6
ntop_ipaddr ntop ipv_unknown ip = []
ntop_ipaddr ntop ipv4 ip = ntop.ntop_v4 (ntop.htonl (as_v4 ip))
ntop_ipaddr ntop ipv6 ip = ntop.ntop_v6 (as_v6 ip)

-- What the formats read of the configuration and of the tables.
pub record Sheet : Type 0 where
  pub ip_version : DhcpVersion
  pub header_limit : ℕ
  pub number_limit : ℕ
  pub backups_found : Bool
  pub print_mac_addreses : Bool
  pub leases : List Lease
  pub ranges : List Range
  pub shared_networks : Networks
  pub num_shared_networks : ℕ

-- An argument of fprintf: a string, a double, an `int`, or the width for a `*`.
pub data Arg (d : Doubles) : Type 0 where
  str : Bytes → Arg d
  dbl : d.Double → Arg d
  int : ℕ → Arg d
  width : ℕ → Arg d

-- Where fprintf is in its format string: in plain text, or behind a `%`, with the flag `-`, the width
-- and whether a precision has begun.
pub data Mode : Type 0 where
  plain : Mode
  directive : (left : Bool) (width : ℕ) (precise : Bool) → Mode

abbrev pub spaces : ℕ → Bytes
spaces zero = []
spaces (suc n) = b' ' ∷ spaces n

unfoldable pub pad : (left : Bool) (width : ℕ) → Bytes → Bytes
pad left w s =
    if w == 0 then s else if left then s ++ spaces (w - length s) else spaces (w - length s) ++ s

module _ (d : Doubles) (pf : Printf d) where
  -- The conversions `s`, `d`, `g` and `f`; the one precision in the program is 3, for `f`.
  unfoldable pub convert : ℕ → Arg d → Bytes
  convert c (str s) = s
  convert c (dbl x) = if c == b'g' then pf.percent_g x else pf.percent_f3 x
  convert c (int n) = pf.percent_d n
  convert c (width n) = []

  unfoldable pub convert_next : Bool → ℕ → ℕ → List (Arg d) → Bytes × Mode × List (Arg d)
  unfolding convert pad
  convert_next left w c [] = ([], plain, [])
  convert_next left w c (a ∷ args) = (pad left w (convert c a), plain, args)

  unfoldable pub take_width : Bool → Bool → List (Arg d) → Bytes × Mode × List (Arg d)
  take_width left precise (width n ∷ args) = ([], directive left n precise, args)
  take_width left precise args = ([], directive left 0 precise, args)

  -- One byte of the format string: what it writes, and how fprintf goes on.
  unfoldable pub format_byte : Mode → ℕ → List (Arg d) → Bytes × Mode × List (Arg d)
  unfolding convert_next take_width
  format_byte plain c args =
      if c == b'%' then ([], directive false 0 false, args) else (c ∷ [], plain, args)
  format_byte (directive left w precise) c args =
      if c == b'-'
      then ([], directive true w precise, args)
      else if c == b'.'
      then ([], directive left w true, args)
      else if c == b'*'
      then take_width left precise args
      else if leb b'0' c && leb c b'9'
      then ([], directive left (if precise then w else w * 10 + (c - b'0')) precise, args)
      else convert_next left w c args

  unfoldable pub format : Mode → Bytes → List (Arg d) → Bytes
  unfolding format_byte
  format mode [] args = []
  format mode (c ∷ fmt) args =
      let (out, mode', args') = format_byte mode c args in out ++ format mode' fmt args'

  -- fprintf(outfile, fmt, ...)
  abbrev pub fprintf : Bytes → List (Arg d) → Bytes
  fprintf fmt args = format plain fmt args

  -- The counters are doubles in the source.
  abbrev pub count : ℕ → Arg d
  count n = dbl (d.of_ℤ (pos n))

  -- `(float)(100 * n) / size`
  unfoldable pub ratio : ℕ → d.Double → d.Double
  ratio n size = d.div (d.to_float (d.mul (d.of_ℤ (pos 100)) (d.of_ℤ (pos n)))) size

  -- `available == 0 ? NAN : (float)(100 * n) / available`
  unfoldable pub net_ratio : ℕ → ℤ → d.Double
  unfolding ratio is_zero
  net_ratio n available = if is_zero available then pf.nan else ratio n (d.of_ℤ available)

-- `for (i = 0; i < num_ranges; i++)`, with `range_p` on the range of the round.
unfoldable pub print_ranges : (Range → Bytes) → List Range → Bytes
print_ranges f [] = []
print_ranges f (r ∷ ranges) = f r ++ print_ranges f ranges

-- `for (i = 0; i < num_shared_networks; i++)`, where `shared_p` is moved on before it is used.
unfoldable pub print_networks : (SharedNetwork → Bytes) → Networks → (shared_p num : ℕ) → Bytes
print_networks f nets shared_p zero = []
print_networks f nets shared_p (suc num) =
    f (nets (suc shared_p)) ++ print_networks f nets (suc shared_p) num

-- A statement under a condition.
abbrev pub when : Bool → Bytes → Bytes
when true text = text
when false text = []

-- `l->type == ACTIVE`
unfoldable pub is_active : LeaseType → Bool
is_active active = true
is_active free = false
is_active backup = false

-- fputs(l->ethernet, outfile), if there is one
unfoldable pub put_ethernet : Option Bytes → Bytes
put_ethernet none = []
put_ethernet (some ethernet) = ethernet

-- Where the text goes, and how opening and closing end.
pub data Stream : Type 0 where
  stdout : Stream
  file : (name : Bytes) → Stream

-- `none` is the exit with a message: the file cannot be opened, or the stream cannot be flushed or
-- closed.
unfoldable pub deliver :
    (opens : Bytes → Bool) (closes : Stream → Bool) (output_file text : Bytes)
    → Option (Stream × Bytes)
deliver opens closes [] text = if closes stdout then some (stdout, text) else none
deliver opens closes (c ∷ name) text =
    if opens (c ∷ name)
    then (if closes (file (c ∷ name)) then some (file (c ∷ name), text) else none)
    else none
