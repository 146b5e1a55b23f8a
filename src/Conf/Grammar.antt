-- ===== src/Conf/Grammar.antt =====
-- Configurations as trees: what they look like as a file, and what they say.
--
-- A tree has the clauses that the program reads, and those that it passes over: other statements,
-- blocks such as `subnet ... { }` or `pool { }`, and comments. Each clause ends in a new line.
pub mod Table
pub mod Ranges
pub mod Steps
pub mod Blocks
pub mod Counts
pub mod Listed
pub mod Whole
pub mod File
use dhcpd_pools.Base.{
  lesser, greater, ℕ, zero, suc, ◌+◌, ◌*◌, ◌<◌, ◌==◌, ltb, Bool, true, false, not, ◌&&◌, [], ◌∷◌,
  ◌++◌, some, if◌then◌else◌, length, ◌≡◌,
}
use dhcpd_pools.Base.Int.{pos}
use dhcpd_pools.Base.Text.{codes, c_string}
use dhcpd_pools.Data.{Bytes, ipv4, v4, Range, SharedNetwork}
use dhcpd_pools.Address.{Inet}
use dhcpd_pools.Counting.{update}
use dhcpd_pools.Conf.State.{
  Globals, nothing_interesting, is_interesting_config_clause, reorder_last_first, write_range,
}
use dhcpd_pools.Conf.Clauses.{AllPlain}

-- The clauses of a block or a file; `inside` a shared network there is no other.
pub data Config : (inside : Bool) → Type 0 where
  done : {inside : Bool} → Config inside
  range : {inside : Bool} → (first last : Bytes) → Config inside → Config inside
  address : {inside : Bool} → (only : Bytes) → Config inside → Config inside
  statement : {inside : Bool} → (word rest : Bytes) → Config inside → Config inside
  block : {inside : Bool} → (word rest : Bytes) → (inner clauses : Config inside) → Config inside
  network : (name : Bytes) → Config true → Config false → Config false
  remark : {inside : Bool} → (rest : Bytes) → Config inside → Config inside

-- What the clauses look like, in front of what follows them.
unfoldable pub text : {inside : Bool} → Config inside → (more : Bytes) → Bytes
text done more = more
text (range first last clauses) more =
    codes "range " ++ (first ++ b' ' ∷ (last ++ b';' ∷ b'\n' ∷ text clauses more))
text (address only clauses) more = codes "range " ++ (only ++ b';' ∷ b'\n' ∷ text clauses more)
text (statement word rest clauses) more = word ++ b' ' ∷ (rest ++ b';' ∷ b'\n' ∷ text clauses more)
text (block word rest inner clauses) more =
    word ++ b' ' ∷ (rest ++ b'{' ∷ b'\n' ∷ text inner (b'}' ∷ b'\n' ∷ text clauses more))
text (network name inner clauses) more =
    codes "shared-network "
    ++ (name ++ b' ' ∷ b'{' ∷ b'\n' ∷ text inner (b'}' ∷ b'\n' ∷ text clauses more))
text (remark rest clauses) more = b'#' ∷ (rest ++ b'\n' ∷ text clauses more)

module _ (inet : Inet) where
  abbrev pub address_of : Bytes → ℕ
  address_of word = inet.ntohl (inet.inet_aton (c_string word)).1

  -- A range of the network with the index `k`, its smaller end first.
  abbrev pub range_between : (k : ℕ) (first last : Bytes) → Range
  range_between k first last = record {
    shared_net = some k;
    first_ip = v4 (lesser (address_of first) (address_of last));
    last_ip = v4 (greater (address_of first) (address_of last));
    count = 0;
    touched = 0;
    backups = 0;
  }

-- One range more; the table is doubled when it has no entry for the next one.
unfoldable pub add_range : Range → Globals → Globals
unfolding write_range
add_range r g =
    let n = g.num_ranges in
    record g {
      ip_version = ipv4;
      ranges = write_range g.ranges n r;
      num_ranges = n + 1;
      ranges_size = if ltb g.ranges_size (n + 2) then g.ranges_size * 2 else g.ranges_size;
    }

unfoldable pub add_network : (name : Bytes) → Globals → Globals
unfolding update c_string
add_network name g =
    let n = g.num_shared_networks + 1 in
    let entry : SharedNetwork = record {
      name = c_string name;
      available = pos 0;
      used = 0;
      touched = 0;
      backups = 0;
      netmask = pos 0;
    } in
    record g { num_shared_networks = n; shared_networks = update g.shared_networks n entry }

module _ (inet : Inet) where
  -- What the clauses say of the two tables, in the network with the index `k`.
  unfoldable pub meaning : {inside : Bool} → Config inside → (k : ℕ) → Globals → Globals
  unfolding add_range add_network
  meaning done k g = g
  meaning (range first last clauses) k g =
      meaning clauses k (add_range (range_between inet k first last) g)
  meaning (address only clauses) k g =
      meaning clauses k (add_range (range_between inet k only only) g)
  meaning (statement word rest clauses) k g = meaning clauses k g
  meaning (block word rest inner clauses) k g = meaning clauses k (meaning inner k g)
  meaning (network name inner clauses) k g =
      meaning clauses 0 (meaning inner (g.num_shared_networks + 1) (add_network name g))
  meaning (remark rest clauses) k g = meaning clauses k g
