-- ===== src/Counting/Totals/Result.antt =====
-- The counters at the end of `do_counting`.
use dhcpd_pools.Base.{
  ◌∙◌, ℕ, ◌+◌, ◌^◌, ◌<◌, ◌==◌, false, List, [], ◌∷◌, ◌≡◌, ◌≢◌, refl, sym, ap, ap₂, map, arith, inl,
  inr, Bool-cases, if◌then◌else◌,
}
use native.Mathlib.Nat.{zero-add}
use dhcpd_pools.Base.Int.{ℤ, pos, pos_part, neg_part, ◌+ℤ◌, int_laws}
use dhcpd_pools.Base.Rounding.{round}
use dhcpd_pools.Counting.Totals.Sizes.{
  sum_in, sum_all, size_of, AllSized, grown, added, added-exact, summed, summed-exact,
}
use dhcpd_pools.Data.{DhcpVersion, SharedNetwork, Range, LeaseType, active, free, backup, Lease}
use dhcpd_pools.Address.{get_range_size}
use dhcpd_pools.Counting.{
  Networks, update, add_available, to_ulong, sum_ranges, add_range, reset_all, do_counting,
}
use dhcpd_pools.Counting.Matching.{matching, count_leases, count_leases-SameRange}
use dhcpd_pools.Counting.Rewind.{IsAscending}
use dhcpd_pools.Counting.Scan.{count_range}
use dhcpd_pools.Counting.Reference.{count_ranges, reference, do_counting-reference}
use dhcpd_pools.Counting.Totals.{
  tally, counted, is_in, count_leases-range, count_leases-network, on_network-at,
}

zero_sum : (n : ℕ) → pos 0 +ℤ pos n ≡ pos n
zero_sum n = omega int_laws

-- The sizes of two ranges with the same bounds.
get_range_size-SameRange :
    (v : DhcpVersion) (r : Range) (ls : List Lease)
    → get_range_size v (counted v ls r) ≡ get_range_size v r
unfolding get_range_size
get_range_size-SameRange DhcpVersion.ipv_unknown r ls = refl
get_range_size-SameRange DhcpVersion.ipv4 r ls = refl
get_range_size-SameRange DhcpVersion.ipv6 r ls = refl

module _ (overflow : ℤ → ℕ) (v : DhcpVersion) (leases : List Lease) where
  count_range-range :
      (r : Range) (nets : Networks) → (count_range overflow v leases r nets).0 ≡ counted v leases r
  unfolding count_range
  count_range-range r nets = count_leases-range (matching v r leases) r nets

  count_ranges-map :
      (ranges : List Range) (nets : Networks)
      → (count_ranges overflow v leases ranges nets).0 ≡ map (counted v leases) ranges
  unfolding count_ranges
  count_ranges-map [] nets = refl
  count_ranges-map (r ∷ ranges) nets =
      ap₂ (λ (x : Range) (xs : List Range). x ∷ xs) (count_range-range r nets)
        (count_ranges-map ranges (count_range overflow v leases r nets).1)

  -- Every range ends up with exactly the leases whose addresses lie in it: `count` grows by the
  -- active ones, `touched` by the free ones and `backups` by the backup ones, and nothing else of
  -- the range changes. The leases have to be in ascending order, with no address twice.
  pub do_counting-counted :
      (ranges : List Range) (nets : Networks)
      → IsAscending v leases
      → (do_counting overflow v leases ranges nets).0 ≡ map (counted v leases) ranges
  unfolding reference
  do_counting-counted ranges nets asc =
      ap (λ (x : List Range × Networks). x.0)
        (do_counting-reference overflow v leases ranges nets asc)
      ∙ count_ranges-map ranges nets

  abbrev pub found : LeaseType → Range → ℕ
  found t r = tally t (matching v r leases)

  -- The network, after the leases in its ranges and the sizes of its ranges have been added.
  abbrev pub network_counted : ℕ → List Range → SharedNetwork → SharedNetwork
  network_counted k ranges n = record n {
    available = n.available +ℤ pos (sum_in k (size_of v) ranges);
    used = n.used + sum_in k (found active) ranges;
    touched = n.touched + sum_in k (found free) ranges;
    backups = n.backups + sum_in k (found backup) ranges;
  }

  abbrev network_more : SharedNetwork → ℤ → (a f b : ℕ) → SharedNetwork
  network_more n s a f b = record n {
    available = s;
    used = n.used + a;
    touched = n.touched + f;
    backups = n.backups + b;
  }

  network_more-zero : (n : SharedNetwork) → network_more n n.available 0 0 0 ≡ n
  network_more-zero n = λ i. record n { used = used i; touched = touched i; backups = backups i }
    where
      used : n.used + 0 ≡ n.used
      used = omega arith

      touched : n.touched + 0 ≡ n.touched
      touched = omega arith

      backups : n.backups + 0 ≡ n.backups
      backups = omega arith

  network_more-add :
      (n : SharedNetwork) (s : ℤ) (a f b : ℕ) (s' : ℤ) (a' f' b' : ℕ)
      → network_more (network_more n s a f b) s' a' f' b'
        ≡ network_more n s' (a + a') (f + f') (b + b')
  network_more-add n s a f b s' a' f' b' =
      λ i. record n { available = s'; used = used i; touched = touched i; backups = backups i }
    where
      used : n.used + a + a' ≡ n.used + (a + a')
      used = omega arith

      touched : n.touched + f + f' ≡ n.touched + (f + f')
      touched = omega arith

      backups : n.backups + b + b' ≡ n.backups + (b + b')
      backups = omega arith

  count_range-network :
      (k : ℕ) (r : Range) (nets : Networks)
      → (count_range overflow v leases r nets).1 k ≡ (
          if is_in k r.shared_net
          then network_more
              (nets k)
              (grown overflow v r (nets k).available)
              (found active r)
              (found free r)
              (found backup r)
          else nets k)
  unfolding count_range add_available
  count_range-network k r nets =
      let ls = matching v r leases in
      let s = count_leases ls (r, nets) in
      on_network-at (add_available (to_ulong overflow (get_range_size v s.0))) s.0.shared_net s.1 k
      ∙ rw ((count_leases-SameRange ls (r, nets)).shared_net, count_leases-network ls r nets k)
          (elim (Bool-cases (is_in k r.shared_net)) [
            | inl e ↦
                rw e (
                  rw (count_leases-range ls r nets) (rw (get_range_size-SameRange v r leases) refl))
            | inr e ↦ rw e refl
          ])

  count_ranges-network :
      (k : ℕ) (ranges : List Range) (nets : Networks)
      → (count_ranges overflow v leases ranges nets).1 k
        ≡ network_more
            (nets k)
            (added overflow v k ranges (nets k).available)
            (sum_in k (found active) ranges)
            (sum_in k (found free) ranges)
            (sum_in k (found backup) ranges)
  unfolding count_ranges sum_in added
  count_ranges-network k [] nets = sym (network_more-zero (nets k))
  count_ranges-network k (r ∷ ranges) nets =
      count_ranges-network k ranges (count_range overflow v leases r nets).1
      ∙ rw (count_range-network k r nets) (elim (Bool-cases (is_in k r.shared_net)) [
        | inl e ↦ rw e (
            network_more-add (nets k) (grown overflow v r (nets k).available) (found active r)
              (found free r) (found backup r) _ _ _ _)
        | inr e ↦ rw e (simp zero-add)
      ])

  -- Every shared network but the entry for all networks ends up with what its own ranges hold:
  -- `used`, `touched` and `backups` grow by the active, free and backup leases found in them, and
  -- `available` by their sizes. The leases have to be in ascending order, with no address twice; no
  -- range has a negative size, and `available` is not negative before and below 2 ^ 53 at the end, so
  -- that the sums of doubles are exact.
  pub do_counting-network :
      (k : ℕ) (ranges : List Range) (nets : Networks)
      → IsAscending v leases
      → k ≢ 0
      → AllSized v ranges
      → neg_part (nets k).available ≡ 0
      → pos_part (nets k).available + sum_in k (size_of v) ranges < 2 ^ 53
      → (do_counting overflow v leases ranges nets).1 k ≡ network_counted k ranges (nets k)
  unfolding reference update
  do_counting-network k ranges nets asc ne sized none_below small =
      ap (λ (x : List Range × Networks). x.1 k)
        (do_counting-reference overflow v leases ranges nets asc)
      ∙ rw not_zero (count_ranges-network k ranges nets)
      ∙ ap
          (λ (z : ℤ).
            network_more (nets k) z (sum_in k (found active) ranges) (sum_in k (found free) ranges)
              (sum_in k (found backup) ranges))
          (added-exact overflow v k ranges (nets k).available sized none_below small)
    where
      not_zero : (k == 0) ≡ false
      not_zero = ground (arith, ne)

  sum_ranges-counted :
      (ranges : List Range) (n : SharedNetwork)
      → sum_ranges v (map (counted v leases) ranges) n ≡ record n {
        available = summed v ranges n.available;
        used = n.used + sum_all (λ r. (counted v leases r).count) ranges;
        touched = n.touched + sum_all (λ r. (counted v leases r).touched) ranges;
        backups = n.backups + sum_all (λ r. (counted v leases r).backups) ranges;
      }
  unfolding sum_ranges add_range summed sum_all
  sum_ranges-counted [] n = sym (network_more-zero n)
  sum_ranges-counted (r ∷ ranges) n =
      sum_ranges-counted ranges (add_range v (counted v leases r) n)
      ∙ rw (get_range_size-SameRange v r leases) (λ i. record n {
        available = summed v ranges (round (n.available +ℤ get_range_size v r));
        used = used i;
        touched = touched i;
        backups = backups i;
      })
    where
      rest : (Range → ℕ) → ℕ
      rest f = sum_all f ranges

      used :
          n.used + (counted v leases r).count + rest (λ x. (counted v leases x).count)
          ≡ n.used + ((counted v leases r).count + rest (λ x. (counted v leases x).count))
      used = omega arith

      touched :
          n.touched + (counted v leases r).touched + rest (λ x. (counted v leases x).touched)
          ≡ n.touched + ((counted v leases r).touched + rest (λ x. (counted v leases x).touched))
      touched = omega arith

      backups :
          n.backups + (counted v leases r).backups + rest (λ x. (counted v leases x).backups)
          ≡ n.backups + ((counted v leases r).backups + rest (λ x. (counted v leases x).backups))
      backups = omega arith

  -- The entry for all networks ends up with the sums over all ranges of their sizes and of their
  -- counters, except `backups`: that one is not reset, so it keeps its old value and what the
  -- ranges outside of any shared network have already added to it, and counts those leases twice.
  -- The leases have to be in ascending order, with no address twice; no range has a negative size, and
  -- the sizes add up to less than 2 ^ 53, so that the sums of doubles are exact.
  pub do_counting-all :
      (ranges : List Range) (nets : Networks)
      → IsAscending v leases
      → AllSized v ranges
      → sum_all (size_of v) ranges < 2 ^ 53
      → (do_counting overflow v leases ranges nets).1 0 ≡ record (nets 0) {
        available = pos (sum_all (size_of v) ranges);
        used = sum_all (λ r. (counted v leases r).count) ranges;
        touched = sum_all (λ r. (counted v leases r).touched) ranges;
        backups =
            (nets 0).backups
            + sum_in 0 (found backup) ranges
            + sum_all (λ r. (counted v leases r).backups) ranges;
      }
  unfolding reference update reset_all
  do_counting-all ranges nets asc sized small =
      ap (λ (x : List Range × Networks). x.1 0)
        (do_counting-reference overflow v leases ranges nets asc)
      ∙ rw (count_ranges-map ranges nets, count_ranges-network 0 ranges nets)
          (sum_ranges-counted ranges _ ∙ λ i. record (nets 0) {
            available = available i;
            used = used i;
            touched = touched i;
            backups =
                (nets 0).backups
                + sum_in 0 (found backup) ranges
                + sum_all (λ r. (counted v leases r).backups) ranges;
          })
    where
      available : summed v ranges (pos 0) ≡ pos (sum_all (size_of v) ranges)
      available =
          summed-exact v ranges (pos 0) sized refl (omega arith)
          ∙ zero_sum (sum_all (size_of v) ranges)

      used :
          0 + sum_all (λ r. (counted v leases r).count) ranges
          ≡ sum_all (λ r. (counted v leases r).count) ranges
      used = omega arith

      touched :
          0 + sum_all (λ r. (counted v leases r).touched) ranges
          ≡ sum_all (λ r. (counted v leases r).touched) ranges
      touched = omega arith
