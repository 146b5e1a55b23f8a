-- ===== src/Output/Txt/Columns.antt =====
-- The columns of the text format: where they begin, in the headers and in the lines below them.
use mathlib.Core.List.{append-nil}
use dhcpd_pools.Base.{
  ◌∙◌, ℕ, zero, suc, ◌+◌, ◌-◌, ◌≤◌, Bool, true, false, List, [], ◌∷◌, ◌++◌, Option, none, some, ◌≡◌,
  refl, sym, ap, arith, length, length-append, take, drop, map,
}
use dhcpd_pools.Base.Text.{codes}
use dhcpd_pools.Base.Int.{pos}
use dhcpd_pools.Double.{Doubles}
use dhcpd_pools.Data.{Bytes, DhcpVersion, ipv_unknown, ipv4, ipv6, Range}
use dhcpd_pools.Sort.{range_size}
use dhcpd_pools.Output.{Printf, Ntop, Sheet, format, ntop_ipaddr, pad, spaces, ratio}
use dhcpd_pools.Output.HtmlParts.{lines}
use dhcpd_pools.Output.Txt.{max_ipaddr_length, txt_range_heads, txt_location, txt_range_columns}

-- A line, cut into pieces of these widths.
unfoldable pub cut : List ℕ → Bytes → List Bytes
cut [] line = line ∷ []
cut (w ∷ widths) line = take w line ∷ cut widths (drop w line)

length-spaces : (n : ℕ) → length (spaces n) ≡ n
length-spaces zero = refl
length-spaces (suc n) = ap suc (length-spaces n)

length-pad : (left : Bool) (w : ℕ) (s : Bytes) → length s ≤ w → length (pad left w s) ≡ w
unfolding pad
length-pad left w s h = ground (
  arith,
  length-append s (spaces (w - length s)),
  length-append (spaces (w - length s)) s,
  length-spaces (w - length s),
)

take-exact : (x rest : Bytes) → take (length x) (x ++ rest) ≡ x
take-exact [] rest = refl
take-exact (c ∷ x) rest = ap (λ t. c ∷ t) (take-exact x rest)

drop-exact : (x rest : Bytes) → drop (length x) (x ++ rest) ≡ rest
drop-exact [] rest = refl
drop-exact (c ∷ x) rest = drop-exact x rest

-- Pieces are cut apart again where they are as long as the columns.
cut-lines : (pieces : List Bytes) → cut (map length pieces) (lines pieces) ≡ pieces ++ [] ∷ []
unfolding cut
cut-lines [] = refl
cut-lines (piece ∷ pieces) =
    rw (take-exact piece (lines pieces), drop-exact piece (lines pieces), cut-lines pieces) refl

-- The pieces of a line of the ranges: nine fields in their widths, and what stands between them.
pub record Fields : Type 0 where
  pub net : Bytes
  pub first : Bytes
  pub last : Bytes
  pub size : Bytes
  pub cur : Bytes
  pub perc : Bytes
  pub touch : Bytes
  pub tc : Bytes
  pub tcperc : Bytes

abbrev pub range_widths : ℕ → List ℕ
range_widths w = 20 ∷ w ∷ 3 ∷ w ∷ 1 ∷ 5 ∷ 1 ∷ 5 ∷ 1 ∷ 10 ∷ 2 ∷ 5 ∷ 1 ∷ 5 ∷ 1 ∷ 9 ∷ []

abbrev pub range_pieces : (w : ℕ) (dash : Bytes) → Fields → List Bytes
range_pieces w dash f =
    pad true 20 f.net
    ∷ pad true w f.first
    ∷ dash
    ∷ pad true w f.last
    ∷ codes " "
    ∷ pad false 5 f.size
    ∷ codes " "
    ∷ pad false 5 f.cur
    ∷ codes " "
    ∷ pad false 10 f.perc
    ∷ codes "  "
    ∷ pad false 5 f.touch
    ∷ codes " "
    ∷ pad false 5 f.tc
    ∷ codes " "
    ∷ pad false 9 f.tcperc
    ∷ []

-- Each field fits into its width.
pub record FieldsFit (w : ℕ) (fields : Fields) : Type 0 where
  pub net_fits : length fields.net ≤ 20
  pub first_fits : length fields.first ≤ w
  pub last_fits : length fields.last ≤ w
  pub size_fits : length fields.size ≤ 5
  pub cur_fits : length fields.cur ≤ 5
  pub perc_fits : length fields.perc ≤ 10
  pub touch_fits : length fields.touch ≤ 5
  pub tc_fits : length fields.tc ≤ 5
  pub tcperc_fits : length fields.tcperc ≤ 9

range_pieces-widths :
    (w : ℕ) (dash : Bytes) (f : Fields)
    → length dash ≡ 3
    → FieldsFit w f
    → map length (range_pieces w dash f) ≡ range_widths w
range_pieces-widths w dash f e h =
    rw
      (
        length-pad true 20 f.net h.net_fits,
        length-pad true w f.first h.first_fits,
        e,
        length-pad true w f.last h.last_fits,
        length-pad false 5 f.size h.size_fits,
        length-pad false 5 f.cur h.cur_fits,
        length-pad false 10 f.perc h.perc_fits,
        length-pad false 5 f.touch h.touch_fits,
        length-pad false 5 f.tc h.tc_fits,
        length-pad false 9 f.tcperc h.tcperc_fits,
      )
      refl

pieces-cut :
    (w : ℕ) (dash : Bytes) (f : Fields) (text : Bytes)
    → length dash ≡ 3
    → FieldsFit w f
    → text ≡ lines (range_pieces w dash f)
    → cut (range_widths w) text ≡ range_pieces w dash f ++ [] ∷ []
pieces-cut w dash f text e h l =
    ap (cut (range_widths w)) l
    ∙ ap (λ widths. cut widths (lines (range_pieces w dash f)))
        (sym (range_pieces-widths w dash f e h))
    ∙ cut-lines (range_pieces w dash f)

max_ipaddr_length-wide : (v : DhcpVersion) → 16 ≤ max_ipaddr_length v
unfolding max_ipaddr_length
max_ipaddr_length-wide ipv_unknown = omega arith
max_ipaddr_length-wide ipv4 = omega arith
max_ipaddr_length-wide ipv6 = omega arith

joined : (a a' b b' c : Bytes) → a ≡ a' → b ≡ b' → a ++ (b ++ c) ≡ a' ++ (b' ++ c)
joined a a' b b' c e h = rw (e, h) refl

abbrev pub range_heads : Fields
range_heads = record {
  net = codes "shared net name";
  first = codes "first ip";
  last = codes "last ip";
  size = codes "max";
  cur = codes "cur";
  perc = codes "percent";
  touch = codes "touch";
  tc = codes "t+c";
  tcperc = codes "t+c perc";
}

module _ {d : Doubles} (pf : Printf d) (ntop : Ntop) (s : Sheet) where
  abbrev pub net_of : Option ℕ → Bytes
  net_of none = codes "not_defined"
  net_of (some k) = (s.shared_networks k).name

  abbrev pub range_fields : Range → Fields
  range_fields r =
      let size = range_size d s.ip_version r in
      let number : ℕ → Bytes = λ n. pf.percent_g (d.of_ℤ (pos n)) in
      record {
        net = net_of r.shared_net;
        first = ntop_ipaddr ntop s.ip_version r.first_ip;
        last = ntop_ipaddr ntop s.ip_version r.last_ip;
        size = pf.percent_g size;
        cur = number r.count;
        perc = pf.percent_f3 (ratio d pf r.count size);
        touch = number r.touched;
        tc = number (r.touched + r.count);
        tcperc = pf.percent_f3 (ratio d pf (r.touched + r.count) size);
      }

  txt_location-pad : (o : Option ℕ) → txt_location d pf ntop s o ≡ pad true 20 (net_of o)
  unfolding txt_location format pad
  txt_location-pad none = refl
  txt_location-pad (some k) = append-nil _

  heads-lines :
      txt_range_heads d pf ntop s
      ≡ lines (range_pieces (max_ipaddr_length s.ip_version) (codes "   ") range_heads)
  unfolding txt_range_heads format
  heads-lines = refl

  row-lines :
      (r : Range)
      → txt_range_columns d pf ntop s r
        ≡ lines (range_pieces (max_ipaddr_length s.ip_version) (codes " - ") (range_fields r))
  unfolding txt_range_columns format
  row-lines r = joined _ _ _ _ _ (txt_location-pad r.shared_net) (
      append-nil
        (pad true (max_ipaddr_length s.ip_version) (ntop_ipaddr ntop s.ip_version r.first_ip)))

  heads-FieldsFit : FieldsFit (max_ipaddr_length s.ip_version) range_heads
  heads-FieldsFit =
      let wide = max_ipaddr_length-wide s.ip_version in
      record {
        net_fits = omega arith;
        first_fits = omega (arith, wide);
        last_fits = omega (arith, wide);
        size_fits = omega arith;
        cur_fits = omega arith;
        perc_fits = omega arith;
        touch_fits = omega arith;
        tc_fits = omega arith;
        tcperc_fits = omega arith;
      }

  -- In the header of the ranges and in each line below it the nine columns begin at the same bytes, whatever
  -- the version of the addresses, if the fields of the line fit into their widths.
  pub txt_range_columns-aligned :
      (r : Range)
      → let w = max_ipaddr_length s.ip_version in
        FieldsFit w (range_fields r)
        → (cut (range_widths w) (txt_range_heads d pf ntop s)
            ≡ range_pieces w (codes "   ") range_heads ++ [] ∷ [])
          × (cut (range_widths w) (txt_range_columns d pf ntop s r)
              ≡ range_pieces w (codes " - ") (range_fields r) ++ [] ∷ [])
  txt_range_columns-aligned r h =
      let w = max_ipaddr_length s.ip_version in
      (
        pieces-cut w (codes "   ") range_heads _ refl heads-FieldsFit heads-lines,
        pieces-cut w (codes " - ") (range_fields r) _ refl h (row-lines r),
      )
