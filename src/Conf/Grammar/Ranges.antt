-- ===== src/Conf/Grammar/Ranges.antt =====
-- The parser at the clauses with a range.
use dhcpd_pools.Base.{
  ◌∙◌, ◌≡◌, ◌⊎◌, refl, ap, ℕ, ◌+◌, ◌*◌, ◌<◌, ◌≤◌, ◌%◌, ◌^◌, true, false, [], some, arith, ltb,
  Bool-cases, inl, inr, if◌then◌else◌,
}
use dhcpd_pools.Base.Int.{ℤ}
use dhcpd_pools.Base.Text.{c_string}
use dhcpd_pools.Base.Result.{Result, ok}
use dhcpd_pools.Data.{Bytes, DhcpVersion, ipv4, ipv_unknown, v4, Range, IpAddr}
use dhcpd_pools.Address.{Inet}
use dhcpd_pools.Conf.State.{
  nothing_interesting, range_first_ip, range_second_ip, Failure, Globals, Parser, write_range,
  RangePointer, at_entry,
}
use dhcpd_pools.Conf.{first_ip, second_ip, store_last, newrange, parse_word}
use dhcpd_pools.Conf.Grammar.Table.{
  write_range_twice, write_range_here, entry-range_between, set_last, finish, write_both_finished,
}
use dhcpd_pools.Conf.Grammar.{range_between, address_of, add_range}

-- The variables that a clause leaves with a value of no account.
pub record Scratch : Type 0 where
  pub addr : IpAddr
  pub range_p : RangePointer

-- The parser between two clauses.
abbrev pub ready : Globals → (k : ℕ) → (braces braces_shared : ℤ) → Scratch → Parser
ready g k braces braces_shared s = record {
  globals = g;
  newclause = true;
  comment = false;
  one_ip_range = false;
  quote = 0;
  braces = braces;
  argument = nothing_interesting;
  word = [];
  braces_shared = braces_shared;
  addr = s.addr;
  range_p = s.range_p;
  shared_p = k;
}

-- A version with which a parser can take an IPv4 address.
abbrev pub TakesV4 : DhcpVersion → Type 0
TakesV4 v = (v ≡ ipv4) ⊎ (v ≡ ipv_unknown)

module _ (inet : Inet) (limit : ℕ) where
  -- The parser behind the word `range`, and behind the first address.
  abbrev pub behind_range :
      Globals → (k : ℕ) → (braces braces_shared : ℤ) → Scratch → Bytes → Parser
  behind_range g k braces braces_shared s word = record (ready g k braces braces_shared s) {
    newclause = false;
    argument = range_first_ip;
    one_ip_range = true;
    word = word;
  }

  -- The new entry is zeroed, and the table has room for the next one.
  newrange_extends :
      (k : ℕ) (p : Parser)
      → 2 * (p.globals.num_ranges + 2) ≤ limit
      → limit < 2 ^ 32
      → (range_p : RangePointer) × (newrange limit k p
          ≡ ok (record p {
            globals = record (p.globals) {
              ranges = write_range p.globals.ranges k (record (p.globals.ranges k) {
                count = 0;
                touched = 0;
                backups = 0;
                shared_net = some p.shared_p;
              });
              num_ranges = p.globals.num_ranges + 1;
              ranges_size =
                  if ltb p.globals.ranges_size (p.globals.num_ranges + 2)
                  then p.globals.ranges_size * 2
                  else p.globals.ranges_size;
            };
            range_p = range_p;
            newclause = true;
          }))
  unfolding newrange
  newrange_extends k p room small =
      let n = p.globals.num_ranges in
      let raised : (n + 1) % 2 ^ 32 ≡ n + 1 = omega arith in
      let behind : (n + 1 + 1) % 2 ^ 32 ≡ n + 2 = omega arith in
      elim (Bool-cases (ltb p.globals.ranges_size (n + 2))) [
        | inl e ↦
            let doubled : (p.globals.ranges_size * 2) % 2 ^ 32 ≡ p.globals.ranges_size * 2 =
              ground arith in
            let enough : ltb limit (p.globals.ranges_size * 2) ≡ false = ground arith in
            (at_entry (n + 1), rw (newrange, raised, behind, e, doubled, enough) refl)
        | inr e ↦ (at_entry k, rw (newrange, raised, behind, e) refl)
      ]

  abbrev with_first : Bytes → Globals → Globals
  with_first first g =
      let n = g.num_ranges in
      record g {
        ip_version = ipv4;
        ranges =
            write_range g.ranges n (record (g.ranges n) { first_ip = v4 (address_of inet first) });
      }

  abbrev pub behind_first :
      Globals → (k : ℕ) → (braces braces_shared : ℤ) → (first word : Bytes) → Parser
  behind_first g k braces braces_shared first word =
      record (ready (with_first first g) k braces braces_shared
        (record { addr = v4 (address_of inet first); range_p = at_entry g.num_ranges })) {
          newclause = false;
          argument = range_second_ip;
          word = word;
        }

  pub first_ip_takes :
      (g : Globals) (k : ℕ) (braces braces_shared : ℤ) (s : Scratch) (first : Bytes)
      → TakesV4 g.ip_version
      → (inet.inet_aton (c_string first)).0 ≡ true
      → first_ip inet limit first (behind_range g k braces braces_shared s [])
        ≡ behind_first g k braces braces_shared first []
  unfolding first_ip parse_word
  first_ip_takes g k braces braces_shared s first (inl v) valid =
      rw (first_ip, parse_word, v, valid) refl
  first_ip_takes g k braces braces_shared s first (inr v) valid =
      rw (first_ip, parse_word, v, valid) refl

  module _ (g : Globals) (k : ℕ) (braces braces_shared : ℤ) (room : 2 * (g.num_ranges + 2) ≤ limit)
      (small : limit < 2 ^ 32) where
    abbrev Adds : Range → Parser → Bytes → Type 0
    Adds r p last =
        (s : Scratch) × (second_ip inet limit last p
          ≡ ok (ready (add_range r g) k braces braces_shared s))

    abbrev with_ranges : (ℕ → Range) → Scratch → Result Failure Parser
    with_ranges ranges s = ok (
        ready
          (record g {
            ip_version = ipv4;
            ranges = ranges;
            num_ranges = g.num_ranges + 1;
            ranges_size =
                if ltb g.ranges_size (g.num_ranges + 2) then g.ranges_size * 2 else g.ranges_size;
          })
          k braces braces_shared s)

    pub second_ip_extends :
        (first last : Bytes)
        → Adds
            (range_between inet k first last)
            (behind_first g k braces braces_shared first [])
            last
    unfolding second_ip store_last parse_word add_range
    second_ip_extends first last =
        let stored = store_last inet limit last (behind_first g k braces braces_shared first []) in
        let (range_p, e) = newrange_extends g.num_ranges stored room small in
        let s : Scratch = record { addr = stored.addr; range_p = range_p } in
        (
          s,
          e
              ∙ ap (λ ranges. with_ranges ranges s)
                  (write_both_finished inet g.ranges g.num_ranges k first last _ refl),
        )

    -- The parser behind the only address of a range.
    abbrev pub behind_only : Scratch → (word : Bytes) → Parser
    behind_only s word = record (ready g k braces braces_shared s) {
      newclause = false;
      argument = range_second_ip;
      one_ip_range = true;
      word = word;
    }

    abbrev stored_only : Scratch → Bytes → Parser
    stored_only s only =
        let n = g.num_ranges in
        let first : Range = record (g.ranges n) { first_ip = v4 (address_of inet only) } in
        record (ready
          (record g {
            ip_version = ipv4;
            ranges = write_range g.ranges n (set_last inet only first);
          })
          k braces braces_shared
          (record { addr = v4 (address_of inet only); range_p = at_entry n })) { newclause = false }

    store_last_only :
        (s : Scratch) (only : Bytes)
        → TakesV4 g.ip_version
        → (inet.inet_aton (c_string only)).0 ≡ true
        → store_last inet limit only (behind_only s []) ≡ stored_only s only
    unfolding store_last parse_word
    store_last_only s only (inl v) valid = rw (store_last, parse_word, v) refl
    store_last_only s only (inr v) valid = rw (store_last, parse_word, v, valid) refl

    pub second_ip_only :
        (s : Scratch) (only : Bytes)
        → TakesV4 g.ip_version
        → (inet.inet_aton (c_string only)).0 ≡ true
        → Adds (range_between inet k only only) (behind_only s []) only
    unfolding second_ip add_range
    second_ip_only s only v valid =
        let n = g.num_ranges in
        let stored = stored_only s only in
        let (range_p, e) = newrange_extends n stored room small in
        let s' : Scratch = record { addr = stored.addr; range_p = range_p } in
        (
          s',
          ap (newrange limit n) (store_last_only s only v valid)
              ∙ e
              ∙ ap (λ ranges. with_ranges ranges s')
                  (ap (λ r. write_range stored.globals.ranges n (finish inet k r))
                      (write_range_here g.ranges n _)
                    ∙ write_range_twice g.ranges n _ _
                    ∙ ap (write_range g.ranges n)
                        (entry-range_between inet g.ranges n k only only)),
        )
