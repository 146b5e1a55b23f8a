-- ===== src/Conf/Grammar/Listed.antt =====
-- The ranges of a tree, one after the other, and the table that has them.
use dhcpd_pools.Base.{
  ◌∙◌, ◌≡◌, refl, sym, ap, ap₂, ℕ, zero, suc, ◌+◌, ◌<◌, ◌==◌, Bool, true, false, List, [], ◌∷◌,
  ◌++◌, arith,
}
use dhcpd_pools.Data.{Range}
use dhcpd_pools.Address.{Inet}
use dhcpd_pools.Conf.State.{Globals, write_range}
use dhcpd_pools.Conf.Grammar.{
  Config, done, range, address, statement, block, network, remark, meaning, add_range, add_network,
  range_between,
}
use dhcpd_pools.Conf.Grammar.Counts.{ranges_in, networks_in, ranges_in-meaning, networks_in-meaning}
use dhcpd_pools.Run.Job.{entries}

-- In the network with the index `k`, with `m` networks before.
unfoldable pub listed : (inet : Inet) → {inside : Bool} → Config inside → (k m : ℕ) → List Range
unfolding networks_in
listed inet done k m = []
listed inet (range first last clauses) k m =
    range_between inet k first last ∷ listed inet clauses k m
listed inet (address only clauses) k m = range_between inet k only only ∷ listed inet clauses k m
listed inet (statement word rest clauses) k m = listed inet clauses k m
listed inet (block word rest inner clauses) k m =
    listed inet inner k m ++ listed inet clauses k (m + networks_in inner)
listed inet (network name inner clauses) k m =
    listed inet inner (m + 1) (m + 1) ++ listed inet clauses 0 (m + 1 + networks_in inner)
listed inet (remark rest clauses) k m = listed inet clauses k m

entries-append :
    (t : ℕ → Range) (start a b : ℕ)
    → entries t start (a + b) ≡ entries t start a ++ entries t (start + a) b
unfolding entries
entries-append t start zero b = ap₂ (λ s n. entries t s n) (omega arith) (omega arith)
entries-append t start (suc a) b =
    let more : suc a + b ≡ suc (a + b) = omega arith in
    let behind : suc start + a ≡ start + suc a = omega arith in
    ap (entries t start) more
    ∙ ap (λ l. t start ∷ l)
        (entries-append t (suc start) a b
          ∙ ap (λ s. entries t (suc start) a ++ entries t s b) behind)

entries_same :
    (t u : ℕ → Range) (start n : ℕ)
    → ((j : ℕ) → j < start + n → t j ≡ u j)
    → entries t start n ≡ entries u start n
unfolding entries
entries_same t u start zero h = refl
entries_same t u start (suc n) h =
    ap₂ (λ (r : Range) l. r ∷ l) (h start (omega arith))
      (entries_same t u (suc start) n (λ j less. h j (omega arith)))

add_range_below :
    (r : Range) (g : Globals) (j : ℕ) → j < g.num_ranges → (add_range r g).ranges j ≡ g.ranges j
unfolding add_range write_range
add_range_below r g j less = let e : (j == g.num_ranges) ≡ false = ground arith in rw e refl

add_range_at : (r : Range) (g : Globals) → (add_range r g).ranges g.num_ranges ≡ r
unfolding add_range write_range
add_range_at r g = let e : (g.num_ranges == g.num_ranges) ≡ true = ground arith in rw e refl

add_range_num : (r : Range) (g : Globals) → (add_range r g).num_ranges ≡ g.num_ranges + 1
unfolding add_range
add_range_num r g = refl

module _ (inet : Inet) where
  -- The entries that are there stay as they are.
  meaning_below :
      {inside : Bool} (c : Config inside) (k : ℕ) (g : Globals) (j : ℕ)
      → j < g.num_ranges
      → (meaning inet c k g).ranges j ≡ g.ranges j
  unfolding meaning add_network
  meaning_below done k g j less = refl
  meaning_below (range first last c) k g j less =
      meaning_below c k _ j (omega (arith, add_range_num (range_between inet k first last) g))
      ∙ add_range_below _ g j less
  meaning_below (address only c) k g j less =
      meaning_below c k _ j (omega (arith, add_range_num (range_between inet k only only) g))
      ∙ add_range_below _ g j less
  meaning_below (statement w rest c) k g j less = meaning_below c k g j less
  meaning_below (block w rest i c) k g j less =
      meaning_below c k (meaning inet i k g) j (omega (arith, ranges_in-meaning inet i k g))
      ∙ meaning_below i k g j less
  meaning_below (network name i c) k g j less =
      let g1 = add_network name g in
      let m = g.num_shared_networks + 1 in
      meaning_below c 0 (meaning inet i m g1) j (omega (arith, ranges_in-meaning inet i m g1))
      ∙ meaning_below i m g1 j less
  meaning_below (remark rest c) k g j less = meaning_below c k g j less

  -- Two groups of clauses, one behind the other.
  entries_both :
      {inside outside : Bool} (i : Config inside) (c : Config outside) (k l : ℕ) (g : Globals)
      → entries
          (meaning inet c l (meaning inet i k g)).ranges
          g.num_ranges
          (ranges_in i + ranges_in c)
        ≡ entries (meaning inet i k g).ranges g.num_ranges (ranges_in i)
          ++ entries
              (meaning inet c l (meaning inet i k g)).ranges
              (meaning inet i k g).num_ranges
              (ranges_in c)
  entries_both i c k l g =
      let t = (meaning inet c l (meaning inet i k g)).ranges in
      entries-append t g.num_ranges (ranges_in i) (ranges_in c)
      ∙ ap₂ (λ (a b : List Range). a ++ b)
          (entries_same t (meaning inet i k g).ranges g.num_ranges (ranges_in i) (λ j less.
            meaning_below c l (meaning inet i k g) j (omega (arith, ranges_in-meaning inet i k g))))
          (ap (λ start. entries t start (ranges_in c)) (sym (ranges_in-meaning inet i k g)))

  -- One range more in front.
  entries-add_range :
      {inside : Bool} (c : Config inside) (k : ℕ) (r : Range) (g : Globals)
      → entries (meaning inet c k (add_range r g)).ranges g.num_ranges (1 + ranges_in c)
        ≡ r
          ∷ entries
              (meaning inet c k (add_range r g)).ranges
              (add_range r g).num_ranges
              (ranges_in c)
  unfolding entries
  entries-add_range c k r g =
      let t = (meaning inet c k (add_range r g)).ranges in
      entries-append t g.num_ranges 1 (ranges_in c)
      ∙ ap₂ (λ (x : Range) start. x ∷ entries t start (ranges_in c))
          (meaning_below c k (add_range r g) g.num_ranges (omega (arith, add_range_num r g))
            ∙ add_range_at r g)
          (sym (add_range_num r g))

  pub entries-meaning :
      {inside : Bool} (c : Config inside) (k : ℕ) (g : Globals)
      → entries (meaning inet c k g).ranges g.num_ranges (ranges_in c)
        ≡ listed inet c k g.num_shared_networks
  unfolding meaning ranges_in listed add_network add_range entries
  entries-meaning done k g = refl
  entries-meaning (range first last c) k g =
      let r = range_between inet k first last in
      entries-add_range c k r g ∙ ap (λ l. r ∷ l) (entries-meaning c k (add_range r g))
  entries-meaning (address only c) k g =
      let r = range_between inet k only only in
      entries-add_range c k r g ∙ ap (λ l. r ∷ l) (entries-meaning c k (add_range r g))
  entries-meaning (statement w rest c) k g = entries-meaning c k g
  entries-meaning (block w rest i c) k g =
      entries_both i c k k g
      ∙ ap₂ (λ (a b : List Range). a ++ b) (entries-meaning i k g)
          (entries-meaning c k (meaning inet i k g)
            ∙ ap (listed inet c k) (networks_in-meaning inet i k g))
  entries-meaning (network name i c) k g =
      let m = g.num_shared_networks + 1 in
      let g1 = add_network name g in
      entries_both i c m 0 g1
      ∙ ap₂ (λ (a b : List Range). a ++ b) (entries-meaning i m g1)
          (entries-meaning c 0 (meaning inet i m g1)
            ∙ ap (listed inet c 0) (networks_in-meaning inet i m g1))
  entries-meaning (remark rest c) k g = entries-meaning c k g
