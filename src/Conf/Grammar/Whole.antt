-- ===== src/Conf/Grammar/Whole.antt =====
-- The parser at whole configurations.
use dhcpd_pools.Base.{
  ◌∙◌, ◌≡◌, refl, sym, ap₂, ℕ, ◌+◌, ◌*◌, ◌<◌, ◌≤◌, ◌^◌, Bool, true, false, ◌∷◌, arith, inl,
}
use Prim.Native.Nat.{max}
use dhcpd_pools.Base.Int.{ℤ, pos}
use dhcpd_pools.Base.Result.{Result}
use dhcpd_pools.Data.{Bytes, Range}
use dhcpd_pools.Address.{Inet}
use dhcpd_pools.Conf.State.{Failure, Globals, Parser}
use dhcpd_pools.Conf.{equal_ℤ}
use dhcpd_pools.Conf.Grammar.{
  Config, done, range, address, statement, block, network, remark, text, meaning, add_range,
  add_network, range_between,
}
use dhcpd_pools.Conf.Grammar.Counts.{
  ranges_in, networks_in, depth, IsGood, ranges_in-meaning, networks_in-meaning, meaning-TakesV4,
}
use dhcpd_pools.Conf.Grammar.Ranges.{Scratch, ready, TakesV4}
use dhcpd_pools.Conf.Grammar.Steps.{run, range-run, address-run}
use dhcpd_pools.Conf.Grammar.Blocks.{
  statement-run, block_opens, block_closes, network_opens, network_closes, remark-run,
}

-- Where the clauses stand, under `n` braces: inside a shared network, whose own brace is below them, or not,
-- where the value 1000 stands for no network.
abbrev pub Stands : (inside : Bool) → (k n : ℕ) → (braces_shared : ℤ) → (nested : ℕ) → Type 0
Stands true k n z nested = (m : ℕ) × (z ≡ pos m) × (m < n)
Stands false k n z nested = (k ≡ 0) × (z ≡ pos 1000) × (n + nested ≤ 1000)

Stands-other :
    (inside : Bool) (k n : ℕ) (z : ℤ) (a b : ℕ)
    → Stands inside k n z (max (1 + a) b)
    → equal_ℤ z (pos n) ≡ false
Stands-other true k n z a b (m, e, less) = rw e (ground arith)
Stands-other false k n z a b (top, e, bound) = rw e (ground arith)

Stands-inner :
    (inside : Bool) (k n : ℕ) (z : ℤ) (a b : ℕ)
    → Stands inside k n z (max (1 + a) b)
    → Stands inside k (n + 1) z a
Stands-inner true k n z a b (m, e, less) = (m, e, omega arith)
Stands-inner false k n z a b (top, e, bound) = (top, e, omega arith)

Stands-rest :
    (inside : Bool) (k n : ℕ) (z : ℤ) (a b : ℕ)
    → Stands inside k n z (max (1 + a) b)
    → Stands inside k n z b
Stands-rest true k n z a b (m, e, less) = (m, e, less)
Stands-rest false k n z a b (top, e, bound) = (top, e, omega arith)

-- There is room for what the clauses add to the tables.
pub record Fits (limit : ℕ) {inside : Bool} (c : Config inside) (g : Globals) : Type 0 where
  pub ranges : 2 * (g.num_ranges + ranges_in c + 1) ≤ limit
  pub networks : g.num_shared_networks + networks_in c + 2 ≤ 8192
  pub version : TakesV4 g.ip_version

Fits-add_range :
    (limit : ℕ) {inside : Bool} (c : Config inside) (r : Range) (g : Globals)
    → 2 * (g.num_ranges + (1 + ranges_in c) + 1) ≤ limit
    → g.num_shared_networks + networks_in c + 2 ≤ 8192
    → Fits limit c (add_range r g)
unfolding add_range
Fits-add_range limit c r g room more = record {
  ranges = omega arith;
  networks = more;
  version = inl refl;
}

Fits-meaning :
    (inet : Inet) (limit : ℕ) {inside outside : Bool} (i : Config inside) (c : Config outside)
    (k : ℕ) (g : Globals)
    → 2 * (g.num_ranges + (ranges_in i + ranges_in c) + 1) ≤ limit
    → g.num_shared_networks + (networks_in i + networks_in c) + 2 ≤ 8192
    → TakesV4 g.ip_version
    → Fits limit i g × Fits limit c (meaning inet i k g)
Fits-meaning inet limit i c k g room more v = (
  record { ranges = omega arith; networks = omega arith; version = v },
  record {
    ranges = omega (arith, ranges_in-meaning inet i k g);
    networks = omega (arith, networks_in-meaning inet i k g);
    version = meaning-TakesV4 inet i k g v;
  },
)

module _ (inet : Inet) (limit : ℕ) (all : Bool) (inc : Bytes → ℕ → Globals → Result Failure Globals)
    (small : limit < 2 ^ 32) where
  abbrev go : Bytes → Parser → Result Failure Parser
  go = run inet limit all inc

  -- The parser goes over the text of the clauses and has their meaning in its tables.
  pub text-run :
      {inside : Bool} (c : Config inside) (k n : ℕ) (z : ℤ) (g : Globals) (s : Scratch)
      (more : Bytes)
      → IsGood inet all c
      → Stands inside k n z (depth c)
      → Fits limit c g
      → (s' : Scratch) × (go (text c more) (ready g k (pos n) z s)
          ≡ go more (ready (meaning inet c k g) k (pos n) z s'))
  unfolding text meaning ranges_in networks_in depth add_network
  text-run done k n z g s more good place fits = (s, refl)
  text-run (range first last c) k n z g s more good place fits =
      let g' = add_range (range_between inet k first last) g in
      let (s1, e1) =
        range-run inet limit all inc g k (pos n) z (omega (arith, fits.ranges)) small s first last
          (text c more) good.0.0 good.1 fits.version good.0.1 in
      let (s2, e2) =
        text-run c k n z g' s1 more good.2 place
          (Fits-add_range limit c _ g fits.ranges fits.networks) in
      (s2, e1 ∙ e2)
  text-run (address only c) k n z g s more good place fits =
      let g' = add_range (range_between inet k only only) g in
      let (s1, e1) =
        address-run inet limit all inc g k (pos n) z (omega (arith, fits.ranges)) small s only
          (text c more) good.0.0 fits.version good.0.1 in
      let (s2, e2) =
        text-run c k n z g' s1 more good.1 place
          (Fits-add_range limit c _ g fits.ranges fits.networks) in
      (s2, e1 ∙ e2)
  text-run (statement w rest c) k n z g s more good place fits =
      let (s1, e1) =
        text-run c k n z g s more good.1 place
          (record { ranges = fits.ranges; networks = fits.networks; version = fits.version }) in
      (
        s1,
        statement-run inet limit all inc g k z s (pos n) w rest (text c more) good.0.0 good.0.1
              good.0.2
            ∙ e1,
      )
  text-run (block w rest i c) k n z g s more good place fits =
      let (fits_i, fits_c) =
        Fits-meaning inet limit i c k g fits.ranges fits.networks fits.version in
      let behind = b'}' ∷ b'\n' ∷ text c more in
      let (s1, e1) =
        text-run i k (n + 1) z g s behind good.1 (Stands-inner _ k n z (depth i) (depth c) place)
          fits_i in
      let (s2, e2) =
        text-run c k n z (meaning inet i k g) s1 more good.2
          (Stands-rest _ k n z (depth i) (depth c) place) fits_c in
      (
        s2,
        block_opens inet limit all inc g k z s n w rest (text i behind) good.0.0 good.0.1 good.0.2
            ∙ e1
            ∙ block_closes inet limit all inc (meaning inet i k g) k z s1 n (text c more)
                (Stands-other _ k n z (depth i) (depth c) place)
            ∙ e2,
      )
  text-run (network name i c) k n z g s more good (top, none, bound) fits =
      let m = g.num_shared_networks + 1 in
      let g1 = add_network name g in
      let g2 = meaning inet i m g1 in
      let (fits_i, fits_c) =
        Fits-meaning inet limit i c m g1 fits.ranges (omega (arith, fits.networks)) fits.version in
      let behind = b'}' ∷ b'\n' ∷ text c more in
      let (s1, e1) =
        text-run i m (n + 1) (pos n) g1 s behind good.1 (n, refl, omega arith) fits_i in
      let (s2, e2) = text-run c 0 n (pos 1000) g2 s1 more good.2 (refl, refl, omega arith) fits_c in
      (
        s2,
        network_opens inet limit all inc g k z s n name (text i behind) good.0
              (omega (arith, fits.networks))
            ∙ e1
            ∙ network_closes inet limit all inc g2 m (pos n) s1 n (text c more) (ground arith)
            ∙ e2
            ∙ ap₂ (λ (k' : ℕ) (z' : ℤ). go more (ready (meaning inet c 0 g2) k' (pos n) z' s2))
                (sym top) (sym none),
      )
  text-run (remark rest c) k n z g s more good place fits =
      let (s1, e1) =
        text-run c k n z g s more good.1 place
          (record { ranges = fits.ranges; networks = fits.networks; version = fits.version }) in
      (s1, remark-run inet limit all inc g k z s (pos n) rest (text c more) good.0 ∙ e1)
