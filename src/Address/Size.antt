-- ===== src/Address/Size.antt =====
-- Range sizes against the number of addresses from the first to the last.
use dhcpd_pools.Base.{
  ℕ, ◌+◌, ◌-◌, ◌*◌, ◌^◌, ◌≤◌, ◌<◌, ◌≡◌, [], ◌∷◌, arith, length, ◌==◌, if◌then◌else◌, Bool, ltb,
}
use dhcpd_pools.Base.Int.{ℤ, pos, pos_part, neg_part, ◌+ℤ◌, ◌-ℤ◌, scale, int_laws}
use dhcpd_pools.Base.Rounding.{round, round-exact}
use dhcpd_pools.Base.Machine.{AllBytes}
use dhcpd_pools.Data.{Bytes, Range, as_v4, as_v6}
use dhcpd_pools.Address.{get_range_size_v4, get_range_size_v6, size_loop}

-- The number that a block of bytes stands for, most significant first.
abbrev pub number : ℕ → Bytes → ℕ
number acc [] = acc
number acc (b ∷ bs) = number (256 * acc + b) bs

abbrev is_byte : ℕ → Bool
is_byte b = ltb b 256

-- What is far apart by its leading digits is at least as far apart as a whole.
number-gap :
    (last first : Bytes) (l f gap : ℕ)
    → length last ≡ length first
    → AllBytes is_byte first
    → number l last < number f first + gap
    → 1 ≤ gap
    → l < f + gap
number-gap [] [] l f gap h bytes near some_gap = near
number-gap [] (b ∷ first) l f gap h bytes near some_gap = absurd (omega arith)
number-gap (a ∷ last) [] l f gap h bytes near some_gap = absurd (omega arith)
number-gap (a ∷ last) (b ∷ first) l f gap h bytes near some_gap =
    let byte : b < 256 = ground (arith, bytes.0) in
    omega (
      arith,
      number-gap last first (256 * l + a) (256 * f + b) gap (omega arith) bytes.1 near some_gap,
    )

-- A small difference is a double.
round_small :
    (z : ℤ) (a b : ℕ)
    → z ≡ pos a -ℤ pos b
    → a < b + (2 ^ 53 - 1)
    → b < a + (2 ^ 53 - 1)
    → round z ≡ pos a -ℤ pos b
unfolding ◌-ℤ◌
round_small z a b e up down = rw e (round-exact (pos a -ℤ pos b) (ground arith) (ground arith))

size_loop-number :
    (last first : Bytes) (l f : ℕ) (size : ℤ)
    → length last ≡ length first
    → AllBytes is_byte last
    → AllBytes is_byte first
    → number l last < number f first + (2 ^ 53 - 1)
    → number f first < number l last + (2 ^ 53 - 1)
    → size ≡ pos l -ℤ pos f
    → size_loop size last first ≡ pos (number l last) -ℤ pos (number f first)
unfolding size_loop
size_loop-number [] [] l f size h bl bf near near' e = e
size_loop-number [] (b ∷ first) l f size h bl bf near near' e = absurd (omega arith)
size_loop-number (a ∷ last) [] l f size h bl bf near near' e = absurd (omega arith)
size_loop-number (a ∷ last) (b ∷ first) l f size h bl bf near near' e =
    size_loop-number last first (256 * l + a) (256 * f + b) _ (omega arith) bl.1 bf.1 near near'
      (round_small _ _ _ next up down)
  where
    next : scale 256 size +ℤ (pos a -ℤ pos b) ≡ pos (256 * l + a) -ℤ pos (256 * f + b)
    next = rw e (omega int_laws)

    up : 256 * l + a < 256 * f + b + (2 ^ 53 - 1)
    up = number-gap last first _ _ (2 ^ 53 - 1) (omega arith) bf.1 near (omega arith)

    down : 256 * f + b < 256 * l + a + (2 ^ 53 - 1)
    down = number-gap first last _ _ (2 ^ 53 - 1) (omega arith) bl.1 near' (omega arith)

above : (a b : ℕ) → a < b + (2 ^ 53 - 1) → pos_part (pos a +ℤ pos 1 -ℤ pos b) < 2 ^ 53
unfolding ◌-ℤ◌ ◌+ℤ◌
above a b h = ground arith

below : (a b : ℕ) → b < a + (2 ^ 53 - 1) → neg_part (pos a +ℤ pos 1 -ℤ pos b) < 2 ^ 53
unfolding ◌-ℤ◌ ◌+ℤ◌
below a b h = ground arith

-- The size of an IPv6 range is the difference of the two addresses, read as numbers, plus one, so
-- that both ends are counted. The addresses have the same number of bytes, and the numbers differ by
-- less than 2 ^ 53 - 1: the code computes in doubles, which round larger sizes.
pub get_range_size_v6-number :
    (r : Range)
    → length (as_v6 r.last_ip) ≡ length (as_v6 r.first_ip)
    → AllBytes is_byte (as_v6 r.last_ip)
    → AllBytes is_byte (as_v6 r.first_ip)
    → number 0 (as_v6 r.last_ip) < number 0 (as_v6 r.first_ip) + (2 ^ 53 - 1)
    → number 0 (as_v6 r.first_ip) < number 0 (as_v6 r.last_ip) + (2 ^ 53 - 1)
    → get_range_size_v6 r
      ≡ pos (number 0 (as_v6 r.last_ip)) +ℤ pos 1 -ℤ pos (number 0 (as_v6 r.first_ip))
unfolding get_range_size_v6
get_range_size_v6-number r h bl bf near near' =
    let last = number 0 (as_v6 r.last_ip) in
    let first = number 0 (as_v6 r.first_ip) in
    let size =
      size_loop-number (as_v6 r.last_ip) (as_v6 r.first_ip) 0 0 (pos 0) h bl bf near near'
        (omega int_laws) in
    let sum : pos last -ℤ pos first +ℤ pos 1 ≡ pos last +ℤ pos 1 -ℤ pos first = omega int_laws in
    rw (size, sum)
      (round-exact (pos last +ℤ pos 1 -ℤ pos first) (above last first near)
        (below last first near'))

-- The size of an IPv4 range that is in order is the number of its addresses, unless it is the range
-- of all the 2 ^ 32 addresses: that one has size 0.
pub get_range_size_v4_lem :
    (r : Range)
    → as_v4 r.first_ip ≤ as_v4 r.last_ip
    → as_v4 r.last_ip < 2 ^ 32
    → get_range_size_v4 r ≡ (
        if as_v4 r.last_ip - as_v4 r.first_ip == 2 ^ 32 - 1
        then 0
        else as_v4 r.last_ip - as_v4 r.first_ip + 1)
unfolding get_range_size_v4
get_range_size_v4_lem r h k = ground arith
