-- ===== src/Conf/Safety/Writes.antt =====
-- Where the parser writes: behind the ends of the two tables nothing changes.
use dhcpd_pools.Base.{
  ◌∙◌, ◌≡◌, refl, ℕ, ◌+◌, ◌*◌, ◌%◌, ◌^◌, ◌≤◌, ◌<◌, ◌==◌, ◌&&◌, not, Bool, false, [], ◌∷◌, some,
  arith, inl, inr, Bool-cases, Option-cases, ltb,
}
use dhcpd_pools.Base.Result.{Result, ok, err}
use dhcpd_pools.Data.{Bytes, as_v4, SharedNetwork, Range}
use dhcpd_pools.Address.{Inet}
use dhcpd_pools.Counting.{Networks, update}
use dhcpd_pools.Conf.State.{
  Failure, RangePointer, unset, dangling, at_entry, Globals, Parser, write_range, mask_loop,
}
use dhcpd_pools.Conf.{
  Next, continues, goes_on, new_range, fails, semicolon, open_brace, close_brace, magical, newrange,
  parse_word, store_last, second_ip, first_ip, network_name, netmask_word, clause_word, store_char,
  is_zero,
}
use dhcpd_pools.Conf.Safety.Pieces.{IsRoomy, IsSafe, IsEntry, store_last-Safe}

-- Two tables that differ from the ones of `g` only inside of the arrays: below `size`, which is at
-- least what it was, and below SHARED_NETWORKS.
pub record IsInside (g : Globals) (size : ℕ) (ranges : ℕ → Range) (nets : Networks) : Type 0 where
  pub larger : g.ranges_size ≤ size
  pub same_ranges : (j : ℕ) → size ≤ j → ranges j ≡ g.ranges j
  pub same_networks : (j : ℕ) → 8192 ≤ j → nets j ≡ g.shared_networks j

abbrev pub WritesInside : Globals → Globals → Type 0
WritesInside g h = IsInside g h.ranges_size h.ranges h.shared_networks

abbrev pub InsideNext : Globals → Next → Type 0
InsideNext g (continues p) = WritesInside g p.globals
InsideNext g (goes_on c p) = WritesInside g p.globals
InsideNext g (new_range k p) = WritesInside g p.globals
InsideNext g (fails f) = Unit {0}

abbrev pub InsideResult : Globals → Result Failure Parser → Type 0
InsideResult g (ok p) = WritesInside g p.globals
InsideResult g (err f) = Unit {0}

pub inside_refl : (g : Globals) → WritesInside g g
inside_refl g = record {
  larger = omega arith;
  same_ranges = λ j h. refl;
  same_networks = λ j h. refl;
}

pub inside_trans : (g h i : Globals) → WritesInside g h → WritesInside h i → WritesInside g i
inside_trans g h i a b = record {
  larger = omega (arith, a.larger, b.larger);
  same_ranges = λ j le. b.same_ranges j le ∙ a.same_ranges j (omega (arith, b.larger));
  same_networks = λ j le. b.same_networks j le ∙ a.same_networks j le;
}

module _ (g : Globals) {size : ℕ} {ranges : ℕ → Range} {nets : Networks} where
  write_range-IsInside :
      (k : ℕ) (r : Range)
      → IsInside g size ranges nets
      → k < size
      → IsInside g size (write_range ranges k r) nets
  unfolding write_range
  write_range-IsInside k r s below = record {
    larger = s.larger;
    same_ranges = λ j le.
        let other : (j == k) ≡ false = ground (arith, below, le) in rw other (s.same_ranges j le);
    same_networks = s.same_networks;
  }

  pub update-IsInside :
      (k : ℕ) (n : SharedNetwork)
      → IsInside g size ranges nets
      → k < 8192
      → IsInside g size ranges (update nets k n)
  unfolding update
  update-IsInside k n s below = record {
    larger = s.larger;
    same_ranges = s.same_ranges;
    same_networks = λ j le.
        let other : (j == k) ≡ false = ground (arith, below, le) in rw other (s.same_networks j le);
  }

  grown-IsInside :
      (more : ℕ) → IsInside g size ranges nets → size ≤ more → IsInside g more ranges nets
  grown-IsInside more s le = record {
    larger = omega (arith, s.larger);
    same_ranges = λ j h. s.same_ranges j (omega arith);
    same_networks = s.same_networks;
  }

module _ (limit m n : ℕ) (small : limit < 2 ^ 31) (g : Globals) where
  entry_below :
      (k : ℕ) (p : Parser)
      → IsRoomy limit p.globals
      → k ≤ p.globals.num_ranges
      → k < p.globals.ranges_size
  entry_below k p roomy h = omega (arith, roomy.ranges)

  pub newrange-inside :
      (k : ℕ) (p : Parser)
      → IsSafe limit m n p
      → k ≤ p.globals.num_ranges
      → WritesInside g p.globals
      → InsideResult g (newrange limit k p)
  unfolding newrange
  newrange-inside k p s h w =
      let r : Range = record (p.globals.ranges k) {
        count = 0;
        touched = 0;
        backups = 0;
        shared_net = some p.shared_p;
      } in
      let written = write_range-IsInside g k r w (entry_below k p s.roomy h) in
      let grown =
        grown-IsInside g ((p.globals.ranges_size * 2) % 2 ^ 32) written
          (omega (arith, small, s.roomy.memory)) in
      elim (Bool-cases
        (ltb p.globals.ranges_size (((p.globals.num_ranges + 1) % 2 ^ 32 + 1) % 2 ^ 32))) [
          | inr e ↦ rw e written
          | inl e ↦ elim (Bool-cases (ltb limit ((p.globals.ranges_size * 2) % 2 ^ 32))) [
            | inl f ↦ rw (e, f) tt
            | inr f ↦ rw (e, f) grown
          ]
        ]

  semicolon-inside :
      (p : Parser) → IsSafe limit m n p → WritesInside g p.globals → InsideNext g (semicolon p)
  unfolding semicolon
  semicolon-inside p s w = at_semicolon p.range_p s.range_p
    where
      at_semicolon :
          (o : RangePointer)
          → IsEntry p.globals.num_ranges o
          → InsideNext g (semicolon (record p { range_p = o }))
      at_semicolon unset e = ground (arith, w)
      at_semicolon dangling e = ground (arith, w)
      at_semicolon (at_entry k) e =
          let r : Range = record (p.globals.ranges k) { last_ip = (p.globals.ranges k).first_ip } in
          ground (arith, w, write_range-IsInside g k r w (entry_below k p s.roomy e))

  open_brace-inside : (p : Parser) → WritesInside g p.globals → InsideNext g (open_brace p)
  unfolding open_brace
  open_brace-inside p w = ground arith

  close_brace-inside : (p : Parser) → WritesInside g p.globals → InsideNext g (close_brace p)
  unfolding close_brace
  close_brace-inside p w = ground arith

  pub magical-inside :
      (c : ℕ) (p : Parser)
      → IsSafe limit m n p
      → WritesInside g p.globals
      → InsideNext g (magical c p)
  unfolding magical
  magical-inside c p s w =
      ground (arith, semicolon-inside p s w, open_brace-inside p w, close_brace-inside p w)

  module _ (inet : Inet) where
    store_last-inside :
        (word : Bytes) (p : Parser)
        → IsSafe limit m n p
        → WritesInside g p.globals
        → WritesInside g (store_last inet limit word p).globals
    unfolding store_last parse_word
    store_last-inside word p s w =
        write_range-IsInside g p.globals.num_ranges _ w
          (entry_below p.globals.num_ranges p s.roomy (omega arith))

    pub second_ip-inside :
        (word : Bytes) (p : Parser)
        → IsSafe limit m n p
        → WritesInside g p.globals
        → InsideResult g (second_ip inet limit word p)
    unfolding second_ip
    second_ip-inside word p s w =
        let (stored, same) = store_last-Safe limit m n small inet word p s in
        newrange-inside p.globals.num_ranges (store_last inet limit word p) stored
          (omega (arith, same)) (store_last-inside word p s w)

    pub first_ip-inside :
        (word : Bytes) (p : Parser)
        → IsSafe limit m n p
        → WritesInside g p.globals
        → WritesInside g (first_ip inet limit word p).globals
    unfolding first_ip parse_word
    first_ip-inside word p s w =
        let k = p.globals.num_ranges in
        let written =
          λ (r : Range). write_range-IsInside g k r w (entry_below k p s.roomy (omega arith)) in
        elim (Bool-cases (parse_word inet limit word (record p { range_p = at_entry k })).0) [
          | inl e ↦ rw e (written _)
          | inr e ↦ rw e w
        ]

    pub network_name-inside :
        (is_subnet : Bool) (word : Bytes) (p : Parser)
        → IsSafe limit m n p
        → WritesInside g p.globals
        → InsideResult g (network_name inet limit is_subnet word p)
    unfolding network_name
    network_name-inside is_subnet word p s w =
        let k = (p.globals.num_shared_networks + 1) % 2 ^ 32 in
        let room : k < 8192 = omega (arith, s.roomy.networks) in
        elim (Bool-cases (is_subnet && not (p.shared_p == 0))) [
          | inl e ↦ rw e w
          | inr e ↦ elim (Bool-cases (ltb 8192 ((k + 2) % 2 ^ 32))) [
            | inl f ↦ rw (e, f) tt
            | inr f ↦ rw (e, f) (update-IsInside g k _ w room)
          ]
        ]

    pub netmask_word-inside :
        (word : Bytes) (p : Parser)
        → IsSafe limit m n p
        → WritesInside g p.globals
        → InsideResult g (netmask_word inet limit word p)
    unfolding netmask_word parse_word
    netmask_word-inside word p s w =
        let room : p.shared_p < 8192 = omega (arith, s.shared_p, s.roomy.networks) in
        let parsed = parse_word inet limit word p in
        elim (Bool-cases (is_zero inet limit (p.globals.shared_networks p.shared_p).netmask)) [
          | inl e ↦ rw e w
          | inr e ↦ elim (Bool-cases parsed.0) [
            | inr f ↦ rw (e, f) w
            | inl f ↦ elim (Option-cases (mask_loop 32 (as_v4 parsed.1.addr) 32)) [
              | inl h ↦ rw (e, f, h) tt
              | inr ((shifted, bits), h) ↦ rw (e, f, h) (update-IsInside g p.shared_p _ w room)
            ]
          ]
        ]

    pub clause_word-inside :
        (all : Bool) (inc : Bytes → ℕ → Globals → Result Failure Globals) (word : Bytes)
        (p : Parser)
        → WritesInside g p.globals
        → InsideResult g (clause_word inet limit all inc word p)
    unfolding clause_word
    clause_word-inside all inc [] p w = tt
    clause_word-inside all inc (c ∷ word) p w = w

    pub store_char-inside :
        (all : Bool) (inc : Bytes → ℕ → Globals → Result Failure Globals) (c : ℕ) (p : Parser)
        → WritesInside g p.globals
        → WritesInside g (store_char inet limit all inc c p).globals
    unfolding store_char
    store_char-inside all inc c p w = ground arith
