-- ===== src/Conf/Names.antt =====
-- The names of networks, which the parser takes from `word`: what the quotes leave out of them.
pub mod Steps
use dhcpd_pools.Base.{
  ◌≡◌, refl, ℕ, zero, suc, ◌+◌, ◌==◌, Bool, true, false, not, ◌&&◌, ◌%◌, ◌^◌, [], ◌∷◌, ◌++◌, Option,
  none, some, arith, inl, inr, Option-cases, Bool-cases, take, ltb,
}
use dhcpd_pools.Base.Text.{c_string}
use dhcpd_pools.Base.Machine.{AllBytes, unquoted}
use dhcpd_pools.Base.Result.{Result, ok, err, ◌>>=◌, >>=-eq-ok}
use dhcpd_pools.Data.{Bytes, IpAddr, as_v4, SharedNetwork}
use dhcpd_pools.Address.{Inet}
use dhcpd_pools.Counting.{Networks, update}
use dhcpd_pools.Output.Words.{AllNames}
use dhcpd_pools.Conf.State.{
  Clause, nothing_interesting, range_first_ip, range_second_ip, sharednet, an_include, subnet,
  netmask, Failure, Globals, Parser, two_digits, cidr_name, mask_loop, max_shared_networks,
}
use dhcpd_pools.Conf.{
  Next, continues, goes_on, new_range, fails, semicolon, open_brace, close_brace, magical, newrange,
  parse_word, store_last, second_ip, first_ip, network_name, netmask_word, argument_word,
  clause_word, store_char, take_char, is_zero, after_magic, step, steps, start_of, parse_config,
}

abbrev pub Unquoted : Bytes → Type 0
Unquoted w = AllBytes unquoted w

append-Unquoted : (a b : Bytes) → Unquoted a → Unquoted b → Unquoted (a ++ b)
append-Unquoted [] b h k = k
append-Unquoted (c ∷ a) b h k = (h.0, append-Unquoted a b h.1 k)

take-Unquoted : (n : ℕ) (w : Bytes) → Unquoted w → Unquoted (take n w)
take-Unquoted zero w h = tt
take-Unquoted (suc n) [] h = tt
take-Unquoted (suc n) (c ∷ w) h = (h.0, take-Unquoted n w h.1)

c_string-Unquoted : (w : Bytes) → Unquoted w → Unquoted (c_string w)
unfolding c_string
c_string-Unquoted [] h = tt
c_string-Unquoted (c ∷ w) h = ground (arith, h.0, c_string-Unquoted w h.1)

digit-unquoted : (n : ℕ) → unquoted (b'0' + n) ≡ true
digit-unquoted n = ground arith

two_digits-Unquoted : (n : ℕ) → Unquoted (two_digits n)
unfolding two_digits
two_digits-Unquoted n = elim (Bool-cases (ltb n 10)) [
  | inl h ↦ rw h (digit-unquoted n, tt)
  | inr h ↦ rw h (digit-unquoted _, (digit-unquoted _, tt))
]

cidr_name-Unquoted : (name : Bytes) (bits : ℕ) → Unquoted name → Unquoted (cidr_name name bits)
unfolding cidr_name
cidr_name-Unquoted name bits h =
    take-Unquoted 1022 _ (append-Unquoted name _ h (refl, two_digits-Unquoted bits))

pub update-AllNames :
    (nets : Networks) (k : ℕ) (n : SharedNetwork)
    → AllNames unquoted nets
    → Unquoted n.name
    → AllNames unquoted (update nets k n)
unfolding update
update-AllNames nets k n h u j = elim (Bool-cases (j == k)) [ inl e ↦ rw e u | inr e ↦ rw e (h j) ]

-- No quote is in `word`, and none in the name of a network.
pub record IsUnquoted (p : Parser) : Type 0 where
  pub word : Unquoted p.word
  pub names : AllNames unquoted p.globals.shared_networks

abbrev pub UnquotedNext : Next → Type 0
UnquotedNext (continues p) = IsUnquoted p
UnquotedNext (goes_on c p) = IsUnquoted p × (unquoted c ≡ true)
UnquotedNext (new_range k p) = IsUnquoted p
UnquotedNext (fails f) = Unit {0}

abbrev pub UnquotedResult : Result Failure Parser → Type 0
UnquotedResult (ok p) = IsUnquoted p
UnquotedResult (err f) = Unit {0}

semicolon-Unquoted : (p : Parser) → IsUnquoted p → UnquotedNext (semicolon p)
unfolding semicolon
semicolon-Unquoted p s = ground (arith, s)

open_brace-Unquoted : (p : Parser) → IsUnquoted p → UnquotedNext (open_brace p)
unfolding open_brace
open_brace-Unquoted p s = ground (arith, s)

close_brace-Unquoted : (p : Parser) → IsUnquoted p → UnquotedNext (close_brace p)
unfolding close_brace
close_brace-Unquoted p s = ground (arith, s)

pub magical-Unquoted : (c : ℕ) (p : Parser) → IsUnquoted p → UnquotedNext (magical c p)
unfolding magical
magical-Unquoted c p s =
    ground (arith, semicolon-Unquoted p s, open_brace-Unquoted p s, close_brace-Unquoted p s)

pub newrange-Unquoted :
    (limit k : ℕ) (p : Parser) → IsUnquoted p → UnquotedResult (newrange limit k p)
unfolding newrange
newrange-Unquoted limit k p s = ground (arith, s)

module _ (inet : Inet) (limit : ℕ) where
  parse_word-Unquoted :
      (w : Bytes) (p : Parser) → IsUnquoted p → IsUnquoted (parse_word inet limit w p).1
  unfolding parse_word
  parse_word-Unquoted w p s = record { word = s.word; names = s.names }

  pub second_ip-Unquoted :
      (w : Bytes) (p : Parser) → IsUnquoted p → UnquotedResult (second_ip inet limit w p)
  unfolding second_ip store_last
  second_ip-Unquoted w p s =
      newrange-Unquoted limit p.globals.num_ranges (store_last inet limit w p)
        (record { word = s.word; names = s.names })

  pub first_ip-Unquoted :
      (w : Bytes) (p : Parser) → IsUnquoted p → IsUnquoted (first_ip inet limit w p)
  unfolding first_ip parse_word
  first_ip-Unquoted w p s = ground (arith, s)

  pub network_name-Unquoted :
      (is_subnet : Bool) (w : Bytes) (p : Parser)
      → Unquoted w
      → IsUnquoted p
      → UnquotedResult (network_name inet limit is_subnet w p)
  unfolding network_name
  network_name-Unquoted is_subnet w p u s = elim (Bool-cases (is_subnet && not (p.shared_p == 0))) [
    | inl e ↦ rw e (record { word = s.word; names = s.names })
    | inr e ↦
        elim (Bool-cases
          (ltb max_shared_networks (((p.globals.num_shared_networks + 1) % 2 ^ 32 + 2) % 2 ^ 32))) [
            | inl f ↦ rw (e, f) tt
            | inr f ↦
                rw (e, f)
                  (record {
                    word = s.word;
                    names =
                        update-AllNames p.globals.shared_networks _ _ s.names
                          (c_string-Unquoted w u);
                  })
          ]
  ]

  pub netmask_word-Unquoted :
      (w : Bytes) (p : Parser) → IsUnquoted p → UnquotedResult (netmask_word inet limit w p)
  unfolding netmask_word parse_word
  netmask_word-Unquoted w p s =
      let (success, q) = parse_word inet limit w p in
      elim (Bool-cases (is_zero inet limit (p.globals.shared_networks p.shared_p).netmask)) [
        | inl e ↦ rw e (record { word = s.word; names = s.names })
        | inr e ↦ elim (Bool-cases success) [
          | inl f ↦ elim (Option-cases (mask_loop 32 (as_v4 q.addr) 32)) [
            | inl g ↦ rw (e, f, g) tt
            | inr ((shifted, bits), g) ↦
                rw (e, f, g)
                  (record {
                    word = s.word;
                    names =
                        update-AllNames p.globals.shared_networks p.shared_p _ s.names
                          (cidr_name-Unquoted _ bits (s.names p.shared_p));
                  })
          ]
          | inr f ↦ rw (e, f) (record { word = s.word; names = s.names })
        ]
      ]

  pub clause_word-Unquoted :
      (all : Bool) (inc : Bytes → ℕ → Globals → Result Failure Globals) (w : Bytes) (p : Parser)
      → IsUnquoted p
      → UnquotedResult (clause_word inet limit all inc w p)
  unfolding clause_word
  clause_word-Unquoted all inc [] p s = tt
  clause_word-Unquoted all inc (c ∷ w) p s = record { word = tt; names = s.names }

  pub store_char-Unquoted :
      (all : Bool) (inc : Bytes → ℕ → Globals → Result Failure Globals) (c : ℕ) (p : Parser)
      → IsUnquoted p
      → unquoted c ≡ true
      → IsUnquoted (store_char inet limit all inc c p)
  unfolding store_char
  store_char-Unquoted all inc c p s u =
      ground (arith, s, append-Unquoted p.word (c ∷ []) s.word (u, tt))
