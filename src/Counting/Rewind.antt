-- ===== src/Counting/Rewind.antt =====
-- Places in the sorted list of leases, and where rewinding leads.
use dhcpd_pools.Base.{
  true, ◌∙◌, false, List, [], ◌∷◌, ◌≡◌, refl, inl, inr, is_negative, is_positive, arith, Bool-cases,
}
use dhcpd_pools.Base.Comparing.{lt_of_lt_le}
use dhcpd_pools.Data.{DhcpVersion, IpAddr, Range, Lease}
use dhcpd_pools.Address.{ipcomp}
use dhcpd_pools.Address.Order.{ipcomp-IsPreorder}
use dhcpd_pools.Counting.{Place, null, at, rewind_from, rewind, head_of, restart}
use dhcpd_pools.Counting.Matching.{in_range, matching}

abbrev pub Precedes : DhcpVersion → IpAddr → IpAddr → Type 0
Precedes v a b = is_negative (ipcomp v a b) ≡ true

-- Every lease of the list comes before the address; comes after it.
abbrev pub AllBefore : DhcpVersion → IpAddr → List Lease → Type 0
AllBefore v a [] = Unit {0}
AllBefore v a (l ∷ ls) = Precedes v l.ip a × AllBefore v a ls

abbrev pub AllAfter : DhcpVersion → IpAddr → List Lease → Type 0
AllAfter v a [] = Unit {0}
AllAfter v a (l ∷ ls) = Precedes v a l.ip × AllAfter v a ls

-- The leases are in ascending order of their addresses, and no address occurs twice.
abbrev pub IsAscending : DhcpVersion → List Lease → Type 0
IsAscending v [] = Unit {0}
IsAscending v (l ∷ ls) = AllAfter v l.ip ls × IsAscending v ls

-- The whole list around a place: `before` lies nearest first.
abbrev pub unwind : (before rest : List Lease) → List Lease
unwind [] rest = rest
unwind (b ∷ before) rest = unwind before (b ∷ rest)

pub IsAscending-rest :
    (v : DhcpVersion) (before rest : List Lease)
    → IsAscending v (unwind before rest)
    → IsAscending v rest
IsAscending-rest v [] rest h = h
IsAscending-rest v (b ∷ before) rest h = (IsAscending-rest v before (b ∷ rest) h).1

AllBefore-le :
    (v : DhcpVersion) (a b : IpAddr) (ls : List Lease)
    → is_positive (ipcomp v a b) ≡ false
    → AllBefore v a ls
    → AllBefore v b ls
AllBefore-le v a b [] h all = tt
AllBefore-le v a b (l ∷ ls) h all =
    (lt_of_lt_le (ipcomp-IsPreorder v) l.ip a b all.0 h, AllBefore-le v a b ls h all.1)

pub AllBefore-before :
    (v : DhcpVersion) (before : List Lease) (l : Lease) (rest : List Lease)
    → IsAscending v (unwind before (l ∷ rest))
    → AllBefore v l.ip before
AllBefore-before v [] l rest h = tt
AllBefore-before v (b ∷ before) l rest h =
    let step = (IsAscending-rest v before (b ∷ l ∷ rest) h).0.0 in
    (
      step,
      AllBefore-le v b.ip l.ip before (ground arith) (AllBefore-before v before b (l ∷ rest) h),
    )

-- What may be skipped before a range: the place belongs to the list, and all leases before it lie
-- before the first address of the range.
abbrev pub IsStart : DhcpVersion → IpAddr → List Lease → Place → Type 0
IsStart v first leases null = Unit {0}
IsStart v first leases (at before l after) =
    (unwind before (l ∷ after) ≡ leases) × AllBefore v first before

abbrev pub BelongsTo : List Lease → Place → Type 0
BelongsTo leases null = Unit {0}
BelongsTo leases (at before l after) = unwind before (l ∷ after) ≡ leases

rewind_from-IsStart :
    (v : DhcpVersion) (first : IpAddr) (leases before : List Lease) (l : Lease) (after : List Lease)
    → IsAscending v (unwind before (l ∷ after))
    → unwind before (l ∷ after) ≡ leases
    → IsStart v first leases (rewind_from v first before l after)
unfolding rewind_from
rewind_from-IsStart v first leases [] l after asc e =
    elim (Bool-cases (is_negative (ipcomp v first l.ip))) [ inl t ↦ rw t tt | inr t ↦ rw t (e, tt) ]
rewind_from-IsStart v first leases (b ∷ before) l after asc e =
    elim (Bool-cases (is_negative (ipcomp v first l.ip))) [
      | inl t ↦ rw t (rewind_from-IsStart v first leases before b (l ∷ after) asc e)
      | inr t ↦ rw t (
        e,
        AllBefore-le v l.ip first (b ∷ before)
            (ground (arith, (ipcomp-IsPreorder v).flip l.ip first))
            (AllBefore-before v (b ∷ before) l after asc),
      )
    ]

-- After rewinding, and after starting over at the head where that has led off the list, no
-- lease before the place can lie in the range.
pub restart-rewind :
    (v : DhcpVersion) (first : IpAddr) (leases : List Lease) (p : Place)
    → IsAscending v leases
    → BelongsTo leases p
    → IsStart v first leases (restart leases (rewind v first p))
unfolding restart rewind head_of
restart-rewind v first [] null asc b = tt
restart-rewind v first (l ∷ ls) null asc b = (refl, tt)
restart-rewind v first leases (at before l after) asc b =
    restarted (rewind_from v first before l after)
      (rewind_from-IsStart v first leases before l after (rw b asc) b)
  where
    headed : (ls : List Lease) → IsStart v first ls (head_of ls)
    headed [] = tt
    headed (x ∷ xs) = (refl, tt)

    restarted : (q : Place) → IsStart v first leases q → IsStart v first leases (restart leases q)
    restarted null s = headed leases
    restarted (at bs x xs) s = s

-- A list of which all leases come before the range holds none of it.
pub matching_before :
    (v : DhcpVersion) (r : Range) (before rest : List Lease)
    → AllBefore v r.first_ip before
    → matching v r (unwind before rest) ≡ matching v r rest
unfolding matching in_range
matching_before v r [] rest h = refl
matching_before v r (b ∷ before) rest h = matching_before v r before (b ∷ rest) h.1 ∙ rw h.0
