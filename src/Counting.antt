-- ===== src/Counting.antt =====
-- src/analyze.c: `prepare_data` and `do_counting`, which joins the sorted leases with the ranges.
--
-- The list of leases is doubly linked; `l` is a place in it: `null`, or a lease with those before
-- it, nearest first, and those after it. The array `ranges` is the list of its `num_ranges`
-- entries, and `shared_networks` a function from indices.
pub mod Matching
pub mod Rewind
pub mod Scan
pub mod Reference
pub mod Totals
pub mod Names
use dhcpd_pools.Base.{
  ℕ, ◌+◌, ◌-◌, ◌%◌, ◌^◌, ◌==◌, List, [], ◌∷◌, Option, none, some, if◌then◌else◌, is_negative,
  is_positive, ltb,
}
use dhcpd_pools.Base.Int.{ℤ, pos, negsuc, ◌+ℤ◌}
use dhcpd_pools.Base.Rounding.{round}
use dhcpd_pools.Data.{
  DhcpVersion, IpAddr, SharedNetwork, Range, LeaseType, active, free, backup, Lease,
}
use dhcpd_pools.Address.{ipcomp, get_range_size}

abbrev pub Networks : Type 0
Networks = ℕ → SharedNetwork

unfoldable pub update : Networks → ℕ → SharedNetwork → Networks
update nets k n j = if j == k then n else nets j

-- `switch (l->type)` for the range, and for its shared network.
unfoldable pub bump_range : LeaseType → Range → Range
bump_range free r = record r { touched = r.touched + 1 }
bump_range active r = record r { count = r.count + 1 }
bump_range backup r = record r { backups = r.backups + 1 }

unfoldable pub bump_network : LeaseType → SharedNetwork → SharedNetwork
bump_network free n = record n { touched = n.touched + 1 }
bump_network active n = record n { used = n.used + 1 }
bump_network backup n = record n { backups = n.backups + 1 }

-- What a statement on `range_p->shared_net` does to the networks, if it is not NULL.
unfoldable pub on_network : (SharedNetwork → SharedNetwork) → Option ℕ → Networks → Networks
unfolding update
on_network f none nets = nets
on_network f (some k) nets = update nets k (f (nets k))

-- An address in the range: both switches.
unfoldable pub count_lease : Lease → Range × Networks → Range × Networks
unfolding bump_range bump_network on_network
count_lease l (r, nets) = (bump_range l.type r, on_network (bump_network l.type) r.shared_net nets)

pub data Place : Type 0 where
  null : Place
  at : (before : List Lease) (l : Lease) (after : List Lease) → Place

-- `while (l != NULL && ipcomp(&range_p->first_ip, &l->ip) < 0) l = l->hh.prev;`
unfoldable pub rewind_from :
    DhcpVersion → IpAddr → (before : List Lease) (l : Lease) (after : List Lease) → Place
rewind_from v first [] l after = if is_negative (ipcomp v first l.ip) then null else at [] l after
rewind_from v first (b ∷ before) l after =
    if is_negative (ipcomp v first l.ip)
    then rewind_from v first before b (l ∷ after)
    else at (b ∷ before) l after

unfoldable pub rewind : DhcpVersion → IpAddr → Place → Place
unfolding rewind_from
rewind v first null = null
rewind v first (at before l after) = rewind_from v first before l after

-- The head of the list of leases.
unfoldable pub head_of : List Lease → Place
head_of [] = null
head_of (l ∷ ls) = at [] l ls

-- `if (l == NULL) l = leases;`
unfoldable pub restart : List Lease → Place → Place
unfolding head_of
restart leases null = head_of leases
restart leases (at before l after) = at before l after

-- The `for` over the leases up to the end of the range.
unfoldable pub scan_from :
    DhcpVersion → Range × Networks → (before rest : List Lease) → (Range × Networks) × Place
unfolding count_lease
scan_from v s before [] = (s, null)
scan_from v s before (l ∷ after) =
    let s' = if is_negative (ipcomp v l.ip s.0.first_ip) then s else count_lease l s in
    let rest = scan_from v s' (l ∷ before) after in
    if is_positive (ipcomp v l.ip s.0.last_ip) then (s, at before l after) else rest

unfoldable pub scan : DhcpVersion → Range × Networks → Place → (Range × Networks) × Place
unfolding scan_from
scan v s null = (s, null)
scan v s (at before l after) = scan_from v s before (l ∷ after)

-- The conversion of a size to `unsigned long`. C leaves that of a number below 0, or of 2 ^ 64 and above,
-- undefined: `overflow` is what the machine makes of these.
unfoldable pub to_ulong : (overflow : ℤ → ℕ) → ℤ → ℕ
to_ulong overflow (pos n) = if ltb n (2 ^ 64) then n else overflow (pos n)
to_ulong overflow (negsuc n) = overflow (negsuc n)

-- `range_p->shared_net->available += block_size`: the number becomes a double, and so does the sum.
unfoldable pub add_available : ℕ → SharedNetwork → SharedNetwork
add_available block_size n = record n { available = round (n.available +ℤ round (pos block_size)) }

-- One round of the first loop, for one range.
unfoldable pub do_range :
    (overflow : ℤ → ℕ)
    → DhcpVersion
    → List Lease
    → Range
    → Networks
    → Place
    → (Range × Networks) × Place
unfolding rewind restart scan to_ulong add_available on_network
do_range overflow v leases r nets l =
    let ((r', nets'), l') = scan v (r, nets) (restart leases (rewind v r.first_ip l)) in
    let block_size = to_ulong overflow (get_range_size v r') in
    ((r', on_network (add_available block_size) r'.shared_net nets'), l')

unfoldable pub walk_ranges :
    (overflow : ℤ → ℕ)
    → DhcpVersion
    → List Lease
    → List Range
    → Networks
    → Place
    → List Range × Networks
walk_ranges overflow v leases [] nets l = ([], nets)
walk_ranges overflow v leases (r ∷ ranges) nets l =
    let ((r', nets'), l') = do_range overflow v leases r nets l in
    let (done, nets'') = walk_ranges overflow v leases ranges nets' l' in (r' ∷ done, nets'')

-- `shared_networks->... = 0`: the backups are not reset.
unfoldable pub reset_all : SharedNetwork → SharedNetwork
reset_all n = record n { available = pos 0; used = 0; touched = 0 }

unfoldable pub add_range : DhcpVersion → Range → SharedNetwork → SharedNetwork
add_range v r n = record n {
  available = round (n.available +ℤ get_range_size v r);
  used = n.used + r.count;
  touched = n.touched + r.touched;
  backups = n.backups + r.backups;
}

-- The second loop, on the entry for all networks.
unfoldable pub sum_ranges : DhcpVersion → List Range → SharedNetwork → SharedNetwork
unfolding add_range
sum_ranges v [] n = n
sum_ranges v (r ∷ ranges) n = sum_ranges v ranges (add_range v r n)

unfoldable pub do_counting :
    (overflow : ℤ → ℕ) → DhcpVersion → List Lease → List Range → Networks → List Range × Networks
unfolding walk_ranges do_range head_of reset_all sum_ranges update
do_counting overflow v leases ranges nets =
    let (ranges', nets') = walk_ranges overflow v leases ranges nets (head_of leases) in
    (ranges', update nets' 0 (sum_ranges v ranges' (reset_all (nets' 0))))
