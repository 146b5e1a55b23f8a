-- ===== src/Sort/Ranges.antt =====
-- The sort of the table of ranges: rearrangement, order, and what becomes of ties.
use mathlib.Core.List.{Perm}
use dhcpd_pools.Base.{
  ◌≡◌, refl, List, [], ◌∷◌, Option, none, some, Ordering, is_negative, IsPreorder, arith, reverse,
  fun_ext,
}
use dhcpd_pools.Base.Int.{pos}
use dhcpd_pools.Base.Comparing.{bytes_compare-IsPreorder}
use dhcpd_pools.Double.{Doubles, IsOrdered, comp_double-IsPreorder}
use dhcpd_pools.Data.{DhcpVersion, Range}
use dhcpd_pools.Address.{get_range_size}
use dhcpd_pools.Address.Order.{ipcomp-IsPreorder}
use dhcpd_pools.Counting.{Networks}
use dhcpd_pools.Sort.{
  Comparer, comp_ip, comp_max, comp_cur, comp_percent, comp_touched, comp_tc, comp_tcperc, call,
  net_name, compare_by, merge, mergesort_ranges, ret_tc,
}
use dhcpd_pools.Sort.Engine.Steps.{mergesort-perm}
use dhcpd_pools.Sort.Engine.Order.{IsSorted, ties, less, mergesort-IsSorted}
use dhcpd_pools.Sort.Engine.Ties.{mergesort-ties}

module _ (d : Doubles) (v : DhcpVersion) (nets : Networks) where
  -- The order that `config.sorts` asks for: the first key decides, the others break its ties.
  unfoldable pub lexicographic : List (Option Comparer) → Range → Range → Ordering
  lexicographic [] a b = Ordering.eq
  lexicographic (p ∷ sorts) a b = elim (compare_by d v nets p a b) [
    | Ordering.lt ↦ Ordering.lt
    | Ordering.eq ↦ lexicographic sorts a b
    | Ordering.gt ↦ Ordering.gt
  ]

  -- `merge` answers whether the left range is less in that order.
  pub merge-lexicographic :
      (sorts : List (Option Comparer)) (a b : Range)
      → merge d v nets sorts a b ≡ is_negative (lexicographic sorts a b)
  unfolding merge lexicographic
  merge-lexicographic [] a b = refl
  merge-lexicographic (p ∷ sorts) a b = ground (arith, merge-lexicographic sorts a b)

  merge-less : (sorts : List (Option Comparer)) → merge d v nets sorts ≡ less (lexicographic sorts)
  merge-less sorts = fun_ext λ a. fun_ext λ b. merge-lexicographic sorts a b

  -- The sort loses no range and makes up none, whatever the sort keys are.
  pub mergesort_ranges-perm :
      (sorts : List (Option Comparer)) (orig : List Range)
      → Perm (mergesort_ranges d v nets sorts orig) orig
  unfolding mergesort_ranges
  mergesort_ranges-perm sorts orig = mergesort-perm (merge d v nets sorts) orig

  -- A key that is no quotient.
  abbrev pub IsPlain : Option Comparer → Type 0
  IsPlain (some comp_percent) = ⊥
  IsPlain (some comp_tcperc) = ⊥
  IsPlain _ = Unit {0}

  abbrev pub AllPlain : List (Option Comparer) → Type 0
  AllPlain [] = Unit {0}
  AllPlain (p ∷ sorts) = IsPlain p × AllPlain sorts

  module _ (o : IsOrdered d) where
    compare_by-IsPreorder : (p : Option Comparer) → IsPlain p → IsPreorder (compare_by d v nets p)
    unfolding compare_by call ret_tc
    compare_by-IsPreorder none h = record {
      flip = λ a b.
          bytes_compare-IsPreorder.flip (net_name nets a.shared_net) (net_name nets b.shared_net);
      trans = λ a b c.
          bytes_compare-IsPreorder.trans (net_name nets a.shared_net) (net_name nets b.shared_net)
            (net_name nets c.shared_net);
    }
    compare_by-IsPreorder (some comp_ip) h = record {
      flip = λ a b. (ipcomp-IsPreorder v).flip a.first_ip b.first_ip;
      trans = λ a b c. (ipcomp-IsPreorder v).trans a.first_ip b.first_ip c.first_ip;
    }
    compare_by-IsPreorder (some comp_max) h =
        comp_double-IsPreorder d o (λ r. d.of_ℤ (get_range_size v r))
          (λ r. o.of_ℤ-number (get_range_size v r))
    compare_by-IsPreorder (some comp_cur) h =
        comp_double-IsPreorder d o (λ r. d.of_ℤ (pos r.count)) (λ r. o.of_ℤ-number (pos r.count))
    compare_by-IsPreorder (some comp_percent) h = absurd h
    compare_by-IsPreorder (some comp_touched) h =
        comp_double-IsPreorder d o (λ r. d.of_ℤ (pos r.touched))
          (λ r. o.of_ℤ-number (pos r.touched))
    compare_by-IsPreorder (some comp_tc) h =
        comp_double-IsPreorder d o (ret_tc d v) (λ r. o.of_ℤ-number _)
    compare_by-IsPreorder (some comp_tcperc) h = absurd h

    lexicographic-IsPreorder :
        (sorts : List (Option Comparer)) → AllPlain sorts → IsPreorder (lexicographic sorts)
    unfolding lexicographic
    lexicographic-IsPreorder [] h = record { flip = λ a b. refl; trans = λ a b c p q. refl }
    lexicographic-IsPreorder (p ∷ sorts) h =
        let first = compare_by-IsPreorder p h.0 in
        let rest = lexicographic-IsPreorder sorts h.1 in
        record {
          flip = λ a b. ground (arith, first.flip a b, rest.flip a b);
          trans = λ a b c p q. ground (
            arith,
            first.trans a b c,
            first.trans c a b,
            first.trans b c a,
            first.flip a b,
            first.flip b c,
            first.flip a c,
            rest.trans a b c,
          );
        }

    -- Sorting by keys that are no quotients puts no range before one that is less by these keys.
    -- Of the machine's `<` on doubles this uses that it orders what is no NaN.
    pub mergesort_ranges-IsSorted :
        (sorts : List (Option Comparer)) (orig : List Range)
        → AllPlain sorts
        → IsSorted (lexicographic sorts) (mergesort_ranges d v nets sorts orig)
    unfolding mergesort_ranges
    mergesort_ranges-IsSorted sorts orig h =
        rw (merge-less sorts)
          (mergesort-IsSorted (lexicographic sorts) (lexicographic-IsPreorder sorts h) orig)

    -- Ranges that tie by all keys come out in the opposite of the order in which they were: the
    -- sort is not stable. It is for keys that are no quotients, as above.
    pub mergesort_ranges-ties :
        (sorts : List (Option Comparer)) (orig : List Range) (r : Range)
        → AllPlain sorts
        → ties (lexicographic sorts) r (mergesort_ranges d v nets sorts orig)
          ≡ reverse (ties (lexicographic sorts) r orig)
    unfolding mergesort_ranges
    mergesort_ranges-ties sorts orig r h =
        rw (merge-less sorts)
          (mergesort-ties (lexicographic sorts) (lexicographic-IsPreorder sorts h) r orig)
