-- ===== src/Conf.antt =====
-- src/getdata.c: the parser of dhcpd.conf, one byte at a time.
--
-- The file system is a parameter that gives the bytes of a file, if it can be opened. The loop tests
-- `feof` before it reads, so after the last byte it takes the value EOF, the byte 255, for one more
-- character. Includes recur; their depth is bounded by fuel.
pub mod State
pub mod Safety
pub mod Netmask
pub mod Clauses
pub mod Names
pub mod Grammar
use dhcpd_pools.Base.{
  ℕ, zero, suc, ◌+◌, ◌-◌, ◌*◌, ◌%◌, ◌^◌, ◌==◌, Bool, true, false, not, ◌&&◌, ◌||◌, List, [], ◌∷◌,
  ◌++◌, Option, none, some, if◌then◌else◌, ltb, length,
}
use dhcpd_pools.Base.Int.{ℤ, pos, negsuc, ◌+ℤ◌, ◌-ℤ◌}
use dhcpd_pools.Base.Text.{c_string}
use dhcpd_pools.Base.Result.{Result, ok, err, ◌>>=◌}
use dhcpd_pools.Data.{Bytes, DhcpVersion, IpAddr, v4, as_v4, SharedNetwork, Range}
use dhcpd_pools.Address.{Inet, Parsed, parse_ipaddr, copy_ipaddr}
use dhcpd_pools.Counting.{Networks, update}
use dhcpd_pools.Conf.State.{
  Clause, nothing_interesting, range_first_ip, range_second_ip, sharednet, an_include, subnet,
  netmask, Failure, cannot_open, parsing_failed, too_many_networks, endless_netmask,
  includes_too_deep, out_of_memory, dangling_range, reads_before_word, RangePointer, unset,
  dangling, at_entry, Globals, Parser, maxlen, max_shared_networks, isspace,
  is_interesting_config_clause, reorder_last_first, write_range, mask_loop, cidr_name,
}

abbrev pub same_clause : Clause → Clause → Bool
same_clause nothing_interesting nothing_interesting = true
same_clause range_first_ip range_first_ip = true
same_clause range_second_ip range_second_ip = true
same_clause sharednet sharednet = true
same_clause an_include an_include = true
same_clause subnet subnet = true
same_clause netmask netmask = true
same_clause _ _ = false

abbrev pub is_empty : Bytes → Bool
is_empty [] = true
is_empty (c ∷ s) = false

abbrev pub equal_ℤ : ℤ → ℤ → Bool
equal_ℤ (pos a) (pos b) = a == b
equal_ℤ (negsuc a) (negsuc b) = a == b
equal_ℤ _ _ = false

-- Where the `switch` on the character leads: `continue`, the code behind it, or `newrange`.
pub data Next : Type 0 where
  continues : Parser → Next
  goes_on : (c : ℕ) → Parser → Next
  new_range : (k : ℕ) → Parser → Next
  fails : Failure → Next

-- The array with one entry changed.
abbrev pub on_range : ℕ → (Range → Range) → Parser → Parser
on_range k f p =
    let g = p.globals in
    record p { globals = record g { ranges = write_range g.ranges k (f (g.ranges k)) } }

abbrev pub on_shared : ℕ → (SharedNetwork → SharedNetwork) → Parser → Parser
on_shared k f p =
    let g = p.globals in
    record p {
      globals = record g { shared_networks = update g.shared_networks k (f (g.shared_networks k)) };
    }

-- `case ';'` outside of quotes
unfoldable pub semicolon : Parser → Next
unfolding write_range
semicolon p =
    if not p.comment
      && not (same_clause p.argument range_first_ip)
      && not (same_clause p.argument range_second_ip)
      && not (same_clause p.argument an_include)
    then continues (record p { newclause = true; word = [] })
    else if same_clause p.argument range_first_ip && p.one_ip_range
    then continues (record p { argument = range_second_ip })
    else if same_clause p.argument range_second_ip && not (is_empty p.word)
    then goes_on b' ' p
    else if same_clause p.argument range_second_ip && is_empty p.word
    then elim p.range_p [
      | unset ↦ fails parsing_failed
      | dangling ↦ fails dangling_range
      | at_entry k ↦ new_range k (on_range k (λ r. record r { last_ip = r.first_ip }) p)
    ]
    else continues p

-- `case '{'` outside of quotes
unfoldable pub open_brace : Parser → Next
open_brace p =
    let q = if p.comment then p else record p { braces = p.braces +ℤ pos 1 } in
    if is_empty p.word then continues (record q { newclause = true }) else goes_on b'{' q

-- `case '}'` outside of quotes
unfoldable pub close_brace : Parser → Next
close_brace p =
    let down = p.braces -ℤ pos 1 in
    let q = record p { braces = down; newclause = true } in
    if p.comment
    then continues p
    else if equal_ℤ p.braces_shared down
    then continues (record q { braces_shared = pos 1000; shared_p = 0 })
    else continues q

unfoldable pub magical : ℕ → Parser → Next
unfolding semicolon open_brace close_brace
magical c p =
    if c == b'#'
    then continues (if p.quote == 0 then record p { comment = true } else p)
    else if c == b'"'
    then continues (if p.comment then p else record p { quote = (p.quote + 1) % 2 })
    else if c == b'\n'
    then goes_on c (if p.quote == 0 then record p { comment = false } else p)
    else if c == b';'
    then (if ltb 0 p.quote then goes_on c p else semicolon p)
    else if c == b'{'
    then (if ltb 0 p.quote then goes_on c p else open_brace p)
    else if c == b'}'
    then (if ltb 0 p.quote then goes_on c p else close_brace p)
    else goes_on c p

-- `range_p` behind an include: if the table of ranges has grown, its old block is free.
unfoldable pub behind_include : (old_size new_size : ℕ) → RangePointer → RangePointer
behind_include old_size new_size unset = unset
behind_include old_size new_size dangling = dangling
behind_include old_size new_size (at_entry k) =
    if old_size == new_size then at_entry k else dangling

-- The label `newrange`, with `range_p` at the entry `k`. `limit` is the number of ranges for which
-- there is memory: xrealloc ends the program where it gets none.
unfoldable pub newrange : (limit k : ℕ) → Parser → Result Failure Parser
unfolding write_range
newrange limit k p =
    let q =
      on_range k
        (λ r. record r { count = 0; touched = 0; backups = 0; shared_net = some p.shared_p }) p in
    let n = (p.globals.num_ranges + 1) % 2 ^ 32 in
    let g = record (q.globals) { num_ranges = n } in
    let larger = (g.ranges_size * 2) % 2 ^ 32 in
    if not (ltb g.ranges_size ((n + 1) % 2 ^ 32))
    then ok (record q { globals = g; range_p = at_entry k; newclause = true })
    else if ltb limit larger
    then err out_of_memory
    else ok (record q {
      globals = record g { ranges_size = larger };
      range_p = at_entry n;
      newclause = true;
    })

module _ (inet : Inet) (limit : ℕ) where
  abbrev pub to_globals : DhcpVersion → Parser → Parser
  to_globals v p = let g = p.globals in record p { globals = record g { ip_version = v } }

  -- parse_ipaddr(word, &addr), on the word without what follows its first zero byte
  unfoldable pub parse_word : Bytes → Parser → Bool × Parser
  unfolding parse_ipaddr c_string
  parse_word word p =
      let parsed = parse_ipaddr inet p.globals.ip_version (c_string word) p.addr in
      (parsed.success, record (to_globals parsed.ip_version p) { addr = parsed.dst })

  -- case ITS_A_RANGE_SECOND_IP, up to the label: the last address, and for a range of one address
  -- the first address too.
  unfoldable pub store_last : Bytes → Parser → Parser
  unfolding parse_word copy_ipaddr reorder_last_first write_range
  store_last word p =
      let k = p.globals.num_ranges in
      let q =
        (parse_word word (record p { range_p = at_entry k; argument = nothing_interesting })).1 in
      let v = q.globals.ip_version in
      let first = λ (r : Range).
        if q.one_ip_range then record r { first_ip = copy_ipaddr v r.first_ip q.addr } else r in
      let last = λ (r : Range). record r { last_ip = copy_ipaddr v r.last_ip q.addr } in
      on_range k (λ r. reorder_last_first v (last (first r))) (record q { one_ip_range = false })

  -- case ITS_A_RANGE_SECOND_IP
  unfoldable pub second_ip : Bytes → Parser → Result Failure Parser
  unfolding store_last newrange
  second_ip word p = newrange limit p.globals.num_ranges (store_last word p)

  -- case ITS_A_RANGE_FIRST_IP
  unfoldable pub first_ip : Bytes → Parser → Parser
  unfolding parse_word copy_ipaddr write_range
  first_ip word p =
      let k = p.globals.num_ranges in
      let (success, q) = parse_word word (record p { range_p = at_entry k }) in
      let set =
        λ (r : Range). record r { first_ip = copy_ipaddr q.globals.ip_version r.first_ip q.addr } in
      if success
      then record (on_range k set q) { one_ip_range = false; argument = range_second_ip }
      else q

  -- case ITS_A_SHAREDNET and case ITS_A_SUBNET
  unfoldable pub network_name : Bool → Bytes → Parser → Result Failure Parser
  unfolding c_string
  network_name is_subnet word p =
      let g = p.globals in
      let n = (g.num_shared_networks + 1) % 2 ^ 32 in
      let entry : SharedNetwork = record {
        name = c_string word;
        available = pos 0;
        used = 0;
        touched = 0;
        backups = 0;
        netmask = if is_subnet then negsuc 0 else pos 0;
      } in
      let q =
        on_shared n (λ _. entry)
          (record p { globals = record g { num_shared_networks = n }; shared_p = n }) in
      if is_subnet && not (p.shared_p == 0)
      then ok (record p { argument = nothing_interesting })
      else if ltb max_shared_networks ((n + 2) % 2 ^ 32)
      then err too_many_networks
      else ok (record q {
        newclause = if is_subnet then true else p.newclause;
        argument = nothing_interesting;
        braces_shared = p.braces;
      })

  abbrev pub is_zero : ℤ → Bool
  is_zero (pos n) = n == 0
  is_zero (negsuc n) = false

  -- case ITS_A_NETMASK; 32 rounds are enough for any mask but 0.0.0.0, for which C does not end.
  unfoldable pub netmask_word : Bytes → Parser → Result Failure Parser
  unfolding parse_word cidr_name as_v4
  netmask_word word p =
      let done =
        λ (q : Parser). record q { argument = nothing_interesting; braces_shared = q.braces } in
      let (success, q) = parse_word word p in
      let rename = λ (bits : ℕ) (n : SharedNetwork). record n {
        name = cidr_name n.name bits;
        netmask = pos bits;
      } in
      if is_zero (p.globals.shared_networks p.shared_p).netmask
      then ok (done p)
      else if not success
      then ok q
      else elim (mask_loop 32 (as_v4 q.addr) 32) [
        | none ↦ err endless_netmask
        | some (shifted, bits) ↦
            ok (done (on_shared p.shared_p (rename bits) (record q { addr = v4 shifted })))
      ]

  module _ (all_as_shared : Bool) (include : Bytes → ℕ → Globals → Result Failure Globals) where
    -- The `switch (argument)`: a word after `range`, `shared-network`, `include`, ... is complete.
    unfoldable pub argument_word : Clause → Bytes → Parser → Result Failure Parser
    unfolding second_ip first_ip network_name netmask_word behind_include c_string
    argument_word range_second_ip word p = second_ip word p
    argument_word range_first_ip word p = ok (first_ip word p)
    argument_word sharednet word p = network_name false word p
    argument_word subnet word p = network_name true word p
    argument_word netmask word p = netmask_word word p
    argument_word an_include word p = include (c_string word) p.shared_p p.globals >>= λ g.
        ok (record p {
          globals = g;
          argument = nothing_interesting;
          newclause = true;
          range_p = behind_include p.globals.ranges_size g.ranges_size p.range_p;
        })
    argument_word nothing_interesting word p = ok (record p { argument = nothing_interesting })

    -- `word[i - 1]` is a brace.
    abbrev pub ends_in_brace : Bytes → Bool
    ends_in_brace [] = false
    ends_in_brace (c ∷ []) = c == b'{'
    ends_in_brace (c ∷ d ∷ s) = ends_in_brace (d ∷ s)

    -- A word that may begin a clause. With no byte in `word`, `word[i - 1]` is outside of the buffer.
    unfoldable pub clause_word : Bytes → Parser → Result Failure Parser
    unfolding is_interesting_config_clause c_string
    clause_word [] p = err reads_before_word
    clause_word (c ∷ rest) p =
        let word : Bytes = c ∷ rest in
        let clause = is_interesting_config_clause all_as_shared (c_string word) in
        ok (record p {
          newclause = if ends_in_brace word then p.newclause else false;
          word = [];
          argument = clause;
          one_ip_range = if same_clause clause range_first_ip then true else p.one_ip_range;
        })

    unfoldable pub store_char : ℕ → Parser → Parser
    store_char c p =
        let word = p.word ++ c ∷ [] in
        if length word == maxlen
        then record p { word = []; newclause = false }
        else record p { word = word }

    -- The code behind the `switch` on the character.
    unfoldable pub take_char : ℕ → Parser → Result Failure Parser
    unfolding argument_word store_char isspace
    take_char c p =
        let idle = same_clause p.argument nothing_interesting in
        if p.comment || (not p.newclause && idle)
        then ok p
        else if (p.newclause || not idle) && isspace c && is_empty p.word && not p.one_ip_range
        then ok p
        else if (p.newclause || not idle) && (not (isspace c) || ltb 0 p.quote)
        then ok (store_char c p)
        else if p.newclause
        then clause_word p.word p
        else if not idle
        then argument_word p.argument p.word (record p { word = []; newclause = false })
        else ok p

    unfoldable pub after_magic : Next → Result Failure Parser
    unfolding take_char newrange
    after_magic (continues p) = ok p
    after_magic (goes_on c p) = take_char c p
    after_magic (new_range k p) = newrange limit k p
    after_magic (fails f) = err f

    -- One round of the loop.
    unfoldable pub step : ℕ → Parser → Result Failure Parser
    unfolding magical after_magic
    step c p = after_magic (magical c p)

    unfoldable pub steps : Bytes → Parser → Result Failure Parser
    steps [] p = ok p
    steps (c ∷ cs) p = step c p >>= steps cs

  abbrev pub initial : IpAddr → ℕ → Globals → Parser
  initial addr shared_p g = record {
    globals = g;
    newclause = true;
    comment = false;
    one_ip_range = false;
    quote = 0;
    braces = pos 0;
    argument = nothing_interesting;
    word = [];
    braces_shared = pos 1000;
    addr = addr;
    range_p = unset;
    shared_p = shared_p;
  }

  -- With the name of the entry for all networks, for the file that the program starts with.
  abbrev pub start_of : Bool → IpAddr → ℕ → Globals → Parser
  start_of is_include addr shared_p g =
      let named = λ (n : SharedNetwork). record n { name = (g.shared_networks 0).name } in
      if is_include
      then on_shared shared_p named (initial addr shared_p g)
      else initial addr shared_p g

  -- `files` is the file system, `garbage` what the variable `addr` holds before it is written.
  module _ (files : Bytes → Option Bytes) (all_as_shared : Bool) (garbage : IpAddr) where
    unfoldable pub parse_config :
        (fuel : ℕ) (is_include : Bool) (config_file : Bytes) (shared_p : ℕ)
        → Globals
        → Result Failure Globals
    unfolding steps clause_word mask_loop
    parse_config zero is_include config_file shared_p g = err includes_too_deep
    parse_config (suc fuel) is_include config_file shared_p g = elim (files config_file) [
      | none ↦ err cannot_open
      | some content ↦
          steps all_as_shared (λ file net h. parse_config fuel false file net h)
            (content ++ 255 ∷ []) (start_of is_include garbage shared_p g)
          >>= λ q. ok q.globals
    ]
