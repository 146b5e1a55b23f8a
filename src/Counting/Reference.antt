-- ===== src/Counting/Reference.antt =====
-- `do_counting` against the counting that holds every range against every lease.
use dhcpd_pools.Base.{ℕ, List, [], ◌∷◌, ◌≡◌, refl}
use dhcpd_pools.Base.Int.{ℤ}
use dhcpd_pools.Data.{DhcpVersion, Range, Lease}
use dhcpd_pools.Counting.{
  Networks, Place, head_of, walk_ranges, do_counting, update, sum_ranges, reset_all, do_range,
}
use dhcpd_pools.Counting.Rewind.{IsAscending, BelongsTo}
use dhcpd_pools.Counting.Scan.{count_range, do_range-count}

unfoldable pub count_ranges :
    (overflow : ℤ → ℕ) → DhcpVersion → List Lease → List Range → Networks → List Range × Networks
count_ranges overflow v leases [] nets = ([], nets)
count_ranges overflow v leases (r ∷ ranges) nets =
    let (r', nets') = count_range overflow v leases r nets in
    let (done, nets'') = count_ranges overflow v leases ranges nets' in (r' ∷ done, nets'')

-- With nothing carried over from one range to the next.
unfoldable pub reference :
    (overflow : ℤ → ℕ) → DhcpVersion → List Lease → List Range → Networks → List Range × Networks
unfolding count_ranges count_range reset_all sum_ranges update
reference overflow v leases ranges nets =
    let (ranges', nets') = count_ranges overflow v leases ranges nets in
    (ranges', update nets' 0 (sum_ranges v ranges' (reset_all (nets' 0))))

walk_ranges-count :
    (overflow : ℤ → ℕ) (v : DhcpVersion) (leases : List Lease) (ranges : List Range)
    (nets : Networks) (p : Place)
    → IsAscending v leases
    → BelongsTo leases p
    → walk_ranges overflow v leases ranges nets p ≡ count_ranges overflow v leases ranges nets
unfolding walk_ranges count_ranges
walk_ranges-count overflow v leases [] nets p asc b = refl
walk_ranges-count overflow v leases (r ∷ ranges) nets p asc b =
    let round = do_range-count overflow v leases r nets p asc b in
    let nets' = (count_range overflow v leases r nets).1 in
    rw round.0 (
      rw (
        walk_ranges-count overflow v leases ranges nets' (do_range overflow v leases r nets p).1 asc
          round.1))

head_of-BelongsTo : (leases : List Lease) → BelongsTo leases (head_of leases)
unfolding head_of
head_of-BelongsTo [] = tt
head_of-BelongsTo (l ∷ ls) = refl

-- If the leases are in ascending order and no address occurs twice, the walk that only moves back
-- and forth in the list of leases gives the same ranges and the same shared networks as holding
-- every range against every lease. The ranges may overlap and come in any order.
pub do_counting-reference :
    (overflow : ℤ → ℕ) (v : DhcpVersion) (leases : List Lease) (ranges : List Range)
    (nets : Networks)
    → IsAscending v leases
    → do_counting overflow v leases ranges nets ≡ reference overflow v leases ranges nets
unfolding do_counting reference
do_counting-reference overflow v leases ranges nets asc = rw (
    walk_ranges-count overflow v leases ranges nets (head_of leases) asc (head_of-BelongsTo leases))
