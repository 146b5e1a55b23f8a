-- ===== src/Tests/Grammar.antt =====
-- A configuration with a network, a block, a comment and a statement.
use dhcpd_pools.Base.{◌≡◌, refl, ℕ, true, false, [], ◌∷◌, Option, some, arith, inr}
use dhcpd_pools.Base.Text.{codes, c_string, contains}
use dhcpd_pools.Base.Result.{ok}
use dhcpd_pools.Data.{Bytes, v4}
use dhcpd_pools.Conf.State.{is_interesting_config_clause}
use dhcpd_pools.Conf.{parse_config}
use dhcpd_pools.Conf.Clauses.{is_plain}
use dhcpd_pools.Conf.Grammar.{
  Config, done, range, address, statement, block, network, remark, text, meaning,
}
use dhcpd_pools.Conf.Grammar.Counts.{ranges_in, networks_in, depth, IsGood}
use dhcpd_pools.Conf.Grammar.Listed.{listed}
use dhcpd_pools.Run.Job.{entries}
use dhcpd_pools.Conf.Grammar.Steps.{IsWord, is_calm}
use dhcpd_pools.Conf.Grammar.Whole.{Fits}
use dhcpd_pools.Conf.Grammar.File.{parse_config-meaning}
use dhcpd_pools.Tests.Data.{digit_inet}
use dhcpd_pools.Tests.Parsing.{start_globals}

abbrev pool : Config true
pool = range (codes "5") (codes "3") done

abbrev office : Config true
office = block (codes "pool") [] pool (address (codes "7") done)

abbrev outside : Config false
outside = network (codes "den") office (range (codes "1") (codes "2") done)

abbrev small_tree : Config false
small_tree = remark (codes " 5 {") (statement (codes "log") (codes "a 7") outside)

abbrev tree_file : Bytes → Option Bytes
tree_file name = some (text small_tree [])

digit-IsWord : (c : ℕ) → is_plain c ≡ true → IsWord (c ∷ [])
digit-IsWord c plain = record { written = omega arith; plain = (plain, tt); short = omega arith }

small_tree-IsGood : IsGood digit_inet false small_tree
unfolding is_plain is_calm is_interesting_config_clause contains c_string
small_tree-IsGood = (
  (refl, (refl, (refl, (refl, tt)))),
  (
    (
      record { written = omega arith; plain = (refl, (refl, (refl, tt))); short = omega arith },
      refl,
      (refl, (refl, (refl, tt))),
    ),
    (
      record { written = omega arith; plain = (refl, (refl, (refl, tt))); short = omega arith },
      (
        (
          record {
            written = omega arith;
            plain = (refl, (refl, (refl, (refl, tt))));
            short = omega arith;
          },
          refl,
          tt,
        ),
        ((digit-IsWord b'5' refl, refl), digit-IsWord b'3' refl, tt),
        ((digit-IsWord b'7' refl, refl), tt),
      ),
      ((digit-IsWord b'1' refl, refl), digit-IsWord b'2' refl, tt),
    ),
  ),
)

small_tree-Fits : Fits 4096 small_tree start_globals
unfolding ranges_in networks_in
small_tree-Fits = record { ranges = omega arith; networks = omega arith; version = inr refl }

parse_config-meaning_example :
    (parse_config digit_inet 4096 tree_file false (v4 0) 1 true (codes "dhcpd.conf") 0 start_globals
      ≡ ok (meaning digit_inet small_tree 0 start_globals))
    × (entries (meaning digit_inet small_tree 0 start_globals).ranges 0 (ranges_in small_tree)
        ≡ listed digit_inet small_tree 0 0)
unfolding depth
parse_config-meaning_example =
    parse_config-meaning digit_inet 4096 (omega arith) tree_file false (v4 0) 0 (codes "dhcpd.conf")
      small_tree start_globals refl small_tree-IsGood (omega arith) small_tree-Fits
