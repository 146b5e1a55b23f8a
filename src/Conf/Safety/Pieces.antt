-- ===== src/Conf/Safety/Pieces.antt =====
-- What it is for the parser to be safe, and the parts of one step that keep it so.
use dhcpd_pools.Base.{◌≡◌, refl, ℕ, ◌+◌, ◌^◌, ◌≤◌, ◌<◌, Bool, [], ◌∷◌, arith, length, length-append}
use dhcpd_pools.Base.Result.{Result, ok, err}
use dhcpd_pools.Data.{Bytes}
use dhcpd_pools.Address.{Inet}
use dhcpd_pools.Conf.State.{Failure, RangePointer, unset, dangling, at_entry, Globals, Parser}
use dhcpd_pools.Conf.{
  Next, continues, goes_on, new_range, fails, semicolon, open_brace, close_brace, magical, newrange,
  parse_word, store_last, second_ip, first_ip, network_name, netmask_word, clause_word, store_char,
}

-- The next free entry of `ranges` exists, and `shared_networks` has room for one network more.
pub record IsRoomy (limit : ℕ) (g : Globals) : Type 0 where
  pub ranges : g.num_ranges < g.ranges_size
  pub memory : g.ranges_size ≤ limit
  pub networks : g.num_shared_networks + 2 ≤ 8192

abbrev pub IsEntry : ℕ → RangePointer → Type 0
IsEntry n unset = Unit {0}
IsEntry n dangling = Unit {0}
IsEntry n (at_entry k) = k ≤ n

-- The next byte fits into `word`, with a zero byte in its place or behind it; `range_p` points to
-- an entry of `ranges` up to the next free one, or to none or a block that is free, and `shared_p` to a network that is there. Neither
-- table has become shorter than it was.
pub record IsSafe (limit low_ranges low_networks : ℕ) (p : Parser) : Type 0 where
  pub roomy : IsRoomy limit p.globals
  pub word : length p.word < 1024
  pub range_p : IsEntry p.globals.num_ranges p.range_p
  pub shared_p : p.shared_p ≤ p.globals.num_shared_networks
  pub more_ranges : low_ranges ≤ p.globals.num_ranges
  pub more_networks : low_networks ≤ p.globals.num_shared_networks

abbrev pub SafeNext : ℕ → ℕ → ℕ → Next → Type 0
SafeNext limit m n (continues p) = IsSafe limit m n p
SafeNext limit m n (goes_on c p) = IsSafe limit m n p
SafeNext limit m n (new_range k p) = IsSafe limit m n p × (k ≤ p.globals.num_ranges)
SafeNext limit m n (fails f) = Unit {0}

abbrev pub SafeResult : ℕ → ℕ → ℕ → Result Failure Parser → Type 0
SafeResult limit m n (ok p) = IsSafe limit m n p
SafeResult limit m n (err f) = Unit {0}

module _ (limit m n : ℕ) (small : limit < 2 ^ 31) where
  semicolon-Safe : (p : Parser) → IsSafe limit m n p → SafeNext limit m n (semicolon p)
  unfolding semicolon
  semicolon-Safe p s = ground arith

  open_brace-Safe : (p : Parser) → IsSafe limit m n p → SafeNext limit m n (open_brace p)
  unfolding open_brace
  open_brace-Safe p s = ground arith

  close_brace-Safe : (p : Parser) → IsSafe limit m n p → SafeNext limit m n (close_brace p)
  unfolding close_brace
  close_brace-Safe p s = ground arith

  pub newrange-Safe :
      (k : ℕ) (p : Parser)
      → IsSafe limit m n p
      → k ≤ p.globals.num_ranges
      → SafeResult limit m n (newrange limit k p)
  unfolding newrange
  newrange-Safe k p s h = ground arith

  pub magical-Safe : (c : ℕ) (p : Parser) → IsSafe limit m n p → SafeNext limit m n (magical c p)
  unfolding magical
  magical-Safe c p s = ground (arith, semicolon-Safe p s, open_brace-Safe p s, close_brace-Safe p s)

  module _ (inet : Inet) where
    parse_word-Safe :
        (w : Bytes) (p : Parser)
        → IsSafe limit m n p
        → IsSafe limit m n (parse_word inet limit w p).1
    unfolding parse_word
    parse_word-Safe w p s = ground arith

    parse_word-same :
        (w : Bytes) (p : Parser)
        → ((parse_word inet limit w p).1.range_p ≡ p.range_p)
          × ((parse_word inet limit w p).1.globals.num_ranges ≡ p.globals.num_ranges)
          × ((parse_word inet limit w p).1.globals.num_shared_networks
              ≡ p.globals.num_shared_networks)
          × ((parse_word inet limit w p).1.shared_p ≡ p.shared_p)
    unfolding parse_word
    parse_word-same w p = (refl, refl, refl, refl)

    pub store_last-Safe :
        (w : Bytes) (p : Parser)
        → IsSafe limit m n p
        → IsSafe limit m n (store_last inet limit w p)
          × ((store_last inet limit w p).globals.num_ranges ≡ p.globals.num_ranges)
    unfolding store_last
    store_last-Safe w p s = (ground arith, refl)

    pub second_ip-Safe :
        (w : Bytes) (p : Parser)
        → IsSafe limit m n p
        → SafeResult limit m n (second_ip inet limit w p)
    unfolding second_ip
    second_ip-Safe w p s =
        let (stored, same) = store_last-Safe w p s in
        newrange-Safe p.globals.num_ranges (store_last inet limit w p) stored (omega arith)

    pub first_ip-Safe :
        (w : Bytes) (p : Parser) → IsSafe limit m n p → IsSafe limit m n (first_ip inet limit w p)
    unfolding first_ip
    first_ip-Safe w p s = ground arith

    pub network_name-Safe :
        (is_subnet : Bool) (w : Bytes) (p : Parser)
        → IsSafe limit m n p
        → SafeResult limit m n (network_name inet limit is_subnet w p)
    unfolding network_name
    network_name-Safe is_subnet w p s = ground arith

    pub netmask_word-Safe :
        (w : Bytes) (p : Parser)
        → IsSafe limit m n p
        → SafeResult limit m n (netmask_word inet limit w p)
    unfolding netmask_word
    netmask_word-Safe w p s = ground arith

    pub clause_word-Safe :
        (all : Bool) (inc : Bytes → ℕ → Globals → Result Failure Globals) (w : Bytes) (p : Parser)
        → IsSafe limit m n p
        → SafeResult limit m n (clause_word inet limit all inc w p)
    unfolding clause_word
    clause_word-Safe all inc [] p s = tt
    clause_word-Safe all inc (c ∷ w) p s = ground arith

    pub store_char-Safe :
        (all : Bool) (inc : Bytes → ℕ → Globals → Result Failure Globals) (c : ℕ) (p : Parser)
        → IsSafe limit m n p
        → IsSafe limit m n (store_char inet limit all inc c p)
    unfolding store_char
    store_char-Safe all inc c p s = ground (arith, length-append p.word (c ∷ []))
