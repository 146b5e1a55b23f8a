-- ===== src/Conf/Clauses.antt =====
-- What a clause with a range makes of the table of ranges.
use mathlib.Core.List.{append_assoc, append-nil}
use dhcpd_pools.Base.{
  lesser, greater, ◌∙◌, ◌≡◌, refl, sym, ap, ℕ, ◌+◌, ◌<◌, ◌%◌, ◌^◌, ◌==◌, Bool, true, false, not,
  ◌&&◌, ◌||◌, [], ◌∷◌, ◌++◌, some, arith, length, length-append, ltb,
}
use dhcpd_pools.Base.Text.{c_string}
use dhcpd_pools.Base.Result.{Result, ok, err, ◌>>=◌}
use dhcpd_pools.Data.{Bytes, ipv4, v4, Range}
use dhcpd_pools.Address.{Inet}
use dhcpd_pools.Conf.State.{
  nothing_interesting, range_first_ip, range_second_ip, Failure, Globals, Parser, isspace,
  reorder_last_first-v4, write_range, at_entry,
}
use dhcpd_pools.Conf.{
  same_clause, magical, semicolon, take_char, store_char, argument_word, after_magic, step, steps,
  first_ip, second_ip, store_last, newrange, parse_word,
}

-- A byte that neither ends a word nor has a meaning of its own.
unfoldable pub is_plain : ℕ → Bool
unfolding isspace
is_plain c =
    not (isspace c)
    && not (c == b'#')
    && not (c == b'"')
    && not (c == b';')
    && not (c == b'{')
    && not (c == b'}')

abbrev pub AllPlain : Bytes → Type 0
AllPlain [] = Unit {0}
AllPlain (c ∷ cs) = (is_plain c ≡ true) × AllPlain cs

bind_assoc :
    (r : Result Failure Parser) (f g h : Parser → Result Failure Parser)
    → ((q : Parser) → h q ≡ (f q >>= g))
    → (r >>= h) ≡ (r >>= f >>= g)
bind_assoc (ok q) f g h e = e q
bind_assoc (err x) f g h e = refl

module _ (inet : Inet) (limit : ℕ) (all : Bool)
    (inc : Bytes → ℕ → Globals → Result Failure Globals) where
  pub step-plain :
      (c : ℕ) (p : Parser)
      → is_plain c ≡ true
      → p.comment ≡ false
      → (p.newclause || not (same_clause p.argument nothing_interesting)) ≡ true
      → length p.word + 1 < 1024
      → step inet limit all inc c p ≡ ok (record p { word = p.word ++ c ∷ [] })
  unfolding step magical after_magic take_char store_char is_plain
  step-plain c p plain off active short = ground (arith, length-append p.word (c ∷ []))

  -- A word is collected.
  pub steps-word :
      (cs : Bytes) (p : Parser)
      → AllPlain cs
      → p.comment ≡ false
      → (p.newclause || not (same_clause p.argument nothing_interesting)) ≡ true
      → length p.word + length cs < 1024
      → steps inet limit all inc cs p ≡ ok (record p { word = p.word ++ cs })
  unfolding steps
  steps-word [] p plain off active short =
      ap (λ (w : Bytes). ok (record p { word = w })) (sym (append-nil p.word))
  steps-word (c ∷ cs) p plain off active short =
      rw (step-plain c p plain.0 off active (omega arith)) (
        steps-word cs (record p { word = p.word ++ c ∷ [] }) plain.1 off active
          (omega (arith, length-append p.word (c ∷ [])))
        ∙ ap (λ (w : Bytes). ok (record p { word = w })) (append_assoc p.word (c ∷ []) cs))

  pub steps-append :
      (cs ds : Bytes) (p : Parser)
      → steps inet limit all inc (cs ++ ds) p
        ≡ (steps inet limit all inc cs p >>= steps inet limit all inc ds)
  unfolding steps
  steps-append [] ds p = refl
  steps-append (c ∷ cs) ds p =
      bind_assoc (step inet limit all inc c p) (steps inet limit all inc cs)
        (steps inet limit all inc ds) (steps inet limit all inc (cs ++ ds)) (steps-append cs ds)

  -- The parser behind the word `range`, for IPv4; and behind the first address.
  abbrev pub behind_range : Parser → Parser
  behind_range p =
      let g = p.globals in
      record p {
        globals = record g { ip_version = ipv4 };
        newclause = false;
        comment = false;
        quote = 0;
        argument = range_first_ip;
        word = [];
        one_ip_range = true;
      }

  abbrev pub address : Bytes → ℕ
  address a = inet.ntohl (inet.inet_aton (c_string a)).1

  abbrev behind_first : Bytes → Parser → Parser
  behind_first a p =
      let g = p.globals in
      let n = g.num_ranges in
      record p {
        globals = record g {
          ip_version = ipv4;
          ranges = write_range g.ranges n (record (g.ranges n) { first_ip = v4 (address a) });
        };
        newclause = false;
        comment = false;
        quote = 0;
        argument = range_second_ip;
        word = [];
        one_ip_range = false;
        addr = v4 (address a);
        range_p = at_entry n;
      }

  first_ip-behind :
      (a : Bytes) (p : Parser)
      → (inet.inet_aton (c_string a)).0 ≡ true
      → first_ip inet limit a (behind_range p) ≡ behind_first a p
  unfolding first_ip parse_word
  first_ip-behind a p valid = rw (first_ip, parse_word, valid) refl

  step-space :
      (x : ℕ) (xs : Bytes) (p : Parser)
      → step inet limit all inc b' ' (record (behind_range p) { word = x ∷ xs })
        ≡ ok (first_ip inet limit (x ∷ xs) (behind_range p))
  unfolding step magical after_magic take_char argument_word isspace
  step-space x xs p = refl

  step-semicolon :
      (x : ℕ) (xs : Bytes) (a : Bytes) (p : Parser)
      → step inet limit all inc b';' (record (behind_first a p) { word = x ∷ xs })
        ≡ second_ip inet limit (x ∷ xs) (behind_first a p)
  unfolding step magical semicolon after_magic take_char argument_word isspace
  step-semicolon x xs a p = refl

  -- The new entry of the table.
  abbrev pub new_range : Bytes → Bytes → Parser → Range
  new_range a b p = record {
    shared_net = some p.shared_p;
    first_ip = v4 (lesser (address a) (address b));
    last_ip = v4 (greater (address a) (address b));
    count = 0;
    touched = 0;
    backups = 0;
  }

  second_ip-entry :
      (a b : Bytes) (p : Parser)
      → p.globals.num_ranges + 2 < p.globals.ranges_size
      → p.globals.ranges_size < 2 ^ 32
      → (q : Parser) × (second_ip inet limit b (behind_first a p) ≡ ok q)
        × (q.globals.num_ranges ≡ p.globals.num_ranges + 1)
        × (q.globals.ranges p.globals.num_ranges ≡ new_range a b p)
        × (q.argument ≡ nothing_interesting)
  unfolding second_ip store_last newrange parse_word write_range
  second_ip-entry a b p room small =
      let fits : ltb p.globals.ranges_size (((p.globals.num_ranges + 1) % 2 ^ 32 + 1) % 2 ^ 32)
          ≡ false =
        ground arith in
      let here : (p.globals.num_ranges == p.globals.num_ranges) ≡ true = ground arith in
      rw (second_ip, newrange, store_last, parse_word, fits)
        (
          _,
          refl,
          omega arith,
          rw here (
              ap
                (λ (r : Range). record r {
                  shared_net = some p.shared_p;
                  count = 0;
                  touched = 0;
                  backups = 0;
                })
                (reorder_last_first-v4 (p.globals.ranges p.globals.num_ranges) (address a)
                  (address b))),
          refl,
        )

  steps-first :
      (x : ℕ) (xs : Bytes) (p : Parser) (rest : Bytes)
      → AllPlain (x ∷ xs)
      → length (x ∷ xs) < 1024
      → (inet.inet_aton (c_string (x ∷ xs))).0 ≡ true
      → steps inet limit all inc ((x ∷ xs) ++ b' ' ∷ rest) (behind_range p)
        ≡ steps inet limit all inc rest (behind_first (x ∷ xs) p)
  unfolding steps
  steps-first x xs p rest plain short valid =
      steps-append (x ∷ xs) (b' ' ∷ rest) (behind_range p)
      ∙ ap (λ r. r >>= steps inet limit all inc (b' ' ∷ rest))
          (steps-word (x ∷ xs) (behind_range p) plain refl refl (omega arith))
      ∙ ap (λ r. r >>= steps inet limit all inc rest) (step-space x xs p)
      ∙ ap (steps inet limit all inc rest) (first_ip-behind (x ∷ xs) p valid)

  steps-second :
      (a : Bytes) (y : ℕ) (ys : Bytes) (p : Parser)
      → AllPlain (y ∷ ys)
      → length (y ∷ ys) < 1024
      → steps inet limit all inc ((y ∷ ys) ++ b';' ∷ []) (behind_first a p)
        ≡ (second_ip inet limit (y ∷ ys) (behind_first a p) >>= steps inet limit all inc [])
  unfolding steps
  steps-second a y ys p plain short =
      steps-append (y ∷ ys) (b';' ∷ []) (behind_first a p)
      ∙ ap (λ r. r >>= steps inet limit all inc (b';' ∷ []))
          (steps-word (y ∷ ys) (behind_first a p) plain refl refl (omega arith))
      ∙ ap (λ r. r >>= steps inet limit all inc []) (step-semicolon y ys a p)

  -- The clause `range A B;` of an IPv4 configuration, from behind its first word: if both words are
  -- of plain bytes, shorter than the buffer and not empty, inet_aton takes the first one for an
  -- address, and the table of ranges need not grow, then the parser goes on with one range more.
  -- Its ends are what inet_aton makes of the two words, the smaller one first; it belongs to the
  -- current network, and its counters are zero.
  pub steps-range :
      (x : ℕ) (xs : Bytes) (y : ℕ) (ys : Bytes) (p : Parser)
      → AllPlain (x ∷ xs)
      → AllPlain (y ∷ ys)
      → length (x ∷ xs) < 1024
      → length (y ∷ ys) < 1024
      → (inet.inet_aton (c_string (x ∷ xs))).0 ≡ true
      → p.globals.num_ranges + 2 < p.globals.ranges_size
      → p.globals.ranges_size < 2 ^ 32
      → (q : Parser) × (steps inet limit all inc
            ((x ∷ xs) ++ b' ' ∷ ((y ∷ ys) ++ b';' ∷ []))
            (behind_range p)
          ≡ ok q)
        × (q.globals.num_ranges ≡ p.globals.num_ranges + 1)
        × (q.globals.ranges p.globals.num_ranges ≡ new_range (x ∷ xs) (y ∷ ys) p)
        × (q.argument ≡ nothing_interesting)
  unfolding steps
  steps-range x xs y ys p plain_a plain_b short_a short_b valid room small =
      let a : Bytes = x ∷ xs in
      let b : Bytes = y ∷ ys in
      let (q, e, n, r, idle) = second_ip-entry a b p room small in
      let runs =
        steps-first x xs p (b ++ b';' ∷ []) plain_a short_a valid
        ∙ steps-second a y ys p plain_b short_b
        ∙ ap (λ r. r >>= steps inet limit all inc []) e in
      (q, runs, n, r, idle)
