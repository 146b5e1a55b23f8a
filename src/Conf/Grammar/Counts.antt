-- ===== src/Conf/Grammar/Counts.antt =====
-- What a tree holds, and when the parser can read it.
use dhcpd_pools.Base.{◌≡◌, refl, ℕ, ◌+◌, ◌==◌, Bool, true, not, arith, inl}
use Prim.Native.Nat.{max}
use dhcpd_pools.Base.Machine.{AllBytes}
use dhcpd_pools.Base.Text.{c_string}
use dhcpd_pools.Data.{Bytes}
use dhcpd_pools.Address.{Inet}
use dhcpd_pools.Conf.State.{Globals, nothing_interesting, is_interesting_config_clause}
use dhcpd_pools.Conf.Grammar.{
  Config, done, range, address, statement, block, network, remark, meaning, add_range, add_network,
}
use dhcpd_pools.Conf.Grammar.Ranges.{TakesV4}
use dhcpd_pools.Conf.Grammar.Steps.{IsWord, is_calm}

unfoldable pub ranges_in : {inside : Bool} → Config inside → ℕ
ranges_in done = 0
ranges_in (range first last clauses) = 1 + ranges_in clauses
ranges_in (address only clauses) = 1 + ranges_in clauses
ranges_in (statement word rest clauses) = ranges_in clauses
ranges_in (block word rest inner clauses) = ranges_in inner + ranges_in clauses
ranges_in (network name inner clauses) = ranges_in inner + ranges_in clauses
ranges_in (remark rest clauses) = ranges_in clauses

unfoldable pub networks_in : {inside : Bool} → Config inside → ℕ
networks_in done = 0
networks_in (range first last clauses) = networks_in clauses
networks_in (address only clauses) = networks_in clauses
networks_in (statement word rest clauses) = networks_in clauses
networks_in (block word rest inner clauses) = networks_in inner + networks_in clauses
networks_in (network name inner clauses) = 1 + (networks_in inner + networks_in clauses)
networks_in (remark rest clauses) = networks_in clauses

-- How deep the blocks are nested.
unfoldable pub depth : {inside : Bool} → Config inside → ℕ
depth done = 0
depth (range first last clauses) = depth clauses
depth (address only clauses) = depth clauses
depth (statement word rest clauses) = depth clauses
depth (block word rest inner clauses) = max (1 + depth inner) (depth clauses)
depth (network name inner clauses) = max (1 + depth inner) (depth clauses)
depth (remark rest clauses) = depth clauses

module _ (inet : Inet) (all : Bool) where
  abbrev IsAddress : Bytes → Type 0
  IsAddress w = IsWord w × ((inet.inet_aton (c_string w)).0 ≡ true)

  abbrev IsPassed : (word rest : Bytes) → Type 0
  IsPassed word rest =
      IsWord word
      × (is_interesting_config_clause all (c_string word) ≡ nothing_interesting)
      × AllBytes is_calm rest

  -- The addresses are addresses, the names are words, what is passed over begins with no word that
  -- the program looks for, and no text holds a byte that ends it.
  abbrev pub IsGood : {inside : Bool} → Config inside → Type 0
  IsGood done = Unit {0}
  IsGood (range first last clauses) = IsAddress first × IsWord last × IsGood clauses
  IsGood (address only clauses) = IsAddress only × IsGood clauses
  IsGood (statement word rest clauses) = IsPassed word rest × IsGood clauses
  IsGood (block word rest inner clauses) = IsPassed word rest × IsGood inner × IsGood clauses
  IsGood (network name inner clauses) = IsWord name × IsGood inner × IsGood clauses
  IsGood (remark rest clauses) = AllBytes (λ c. not (c == b'\n')) rest × IsGood clauses

module _ (inet : Inet) where
  pub ranges_in-meaning :
      {inside : Bool} (c : Config inside) (k : ℕ) (g : Globals)
      → (meaning inet c k g).num_ranges ≡ g.num_ranges + ranges_in c
  unfolding meaning ranges_in add_range add_network
  ranges_in-meaning done k g = omega arith
  ranges_in-meaning (range first last c) k g = omega (arith, ranges_in-meaning c k _)
  ranges_in-meaning (address only c) k g = omega (arith, ranges_in-meaning c k _)
  ranges_in-meaning (statement w rest c) k g = ranges_in-meaning c k g
  ranges_in-meaning (block w rest i c) k g =
      omega (arith, ranges_in-meaning i k g, ranges_in-meaning c k (meaning inet i k g))
  ranges_in-meaning (network name i c) k g = omega (
    arith,
    ranges_in-meaning i (g.num_shared_networks + 1) (add_network name g),
    ranges_in-meaning c 0 (meaning inet i (g.num_shared_networks + 1) (add_network name g)),
  )
  ranges_in-meaning (remark rest c) k g = ranges_in-meaning c k g

  pub networks_in-meaning :
      {inside : Bool} (c : Config inside) (k : ℕ) (g : Globals)
      → (meaning inet c k g).num_shared_networks ≡ g.num_shared_networks + networks_in c
  unfolding meaning networks_in add_range add_network
  networks_in-meaning done k g = omega arith
  networks_in-meaning (range first last c) k g = networks_in-meaning c k _
  networks_in-meaning (address only c) k g = networks_in-meaning c k _
  networks_in-meaning (statement w rest c) k g = networks_in-meaning c k g
  networks_in-meaning (block w rest i c) k g =
      omega (arith, networks_in-meaning i k g, networks_in-meaning c k (meaning inet i k g))
  networks_in-meaning (network name i c) k g = omega (
    arith,
    networks_in-meaning i (g.num_shared_networks + 1) (add_network name g),
    networks_in-meaning c 0 (meaning inet i (g.num_shared_networks + 1) (add_network name g)),
  )
  networks_in-meaning (remark rest c) k g = networks_in-meaning c k g

  pub meaning-TakesV4 :
      {inside : Bool} (c : Config inside) (k : ℕ) (g : Globals)
      → TakesV4 g.ip_version
      → TakesV4 (meaning inet c k g).ip_version
  unfolding meaning add_range add_network
  meaning-TakesV4 done k g v = v
  meaning-TakesV4 (range first last c) k g v = meaning-TakesV4 c k _ (inl refl)
  meaning-TakesV4 (address only c) k g v = meaning-TakesV4 c k _ (inl refl)
  meaning-TakesV4 (statement w rest c) k g v = meaning-TakesV4 c k g v
  meaning-TakesV4 (block w rest i c) k g v =
      meaning-TakesV4 c k (meaning inet i k g) (meaning-TakesV4 i k g v)
  meaning-TakesV4 (network name i c) k g v =
      meaning-TakesV4 c 0 _ (meaning-TakesV4 i _ (add_network name g) v)
  meaning-TakesV4 (remark rest c) k g v = meaning-TakesV4 c k g v
