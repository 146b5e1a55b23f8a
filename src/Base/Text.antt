-- ===== src/Base/Text.antt =====
-- C strings as lists of bytes, without the zero byte at their end, and the string functions that the
-- code calls.
use Prim.Native.Char.{code}
use Prim.Native.String.{String}
use dhcpd_pools.Base.Tests.{◌==◌, if◌then◌else◌}
use dhcpd_pools.Base.Lists.{length, get_or}
use Prim.Native.Nat.{ℕ, zero, suc, ◌<◌, ◌≤◌}
use mathlib.Core.Path.{◌≡◌}
use mathlib.Core.Bool.{Bool, true, false, ◌&&◌, ◌||◌}
use mathlib.Core.List.{List, [], ◌∷◌}
use native.Mathlib.Omega.{arith}

-- The bytes of a literal.
abbrev pub codes : String → List ℕ
codes String.[] = []
codes (String.◌∷◌ c s) = code c ∷ codes s

-- What a buffer holds up to its first zero byte.
unfoldable pub c_string : List ℕ → List ℕ
c_string [] = []
c_string (c ∷ s) = if c == 0 then [] else c ∷ c_string s

-- `!memcmp(p, s, strlen(p))`
unfoldable pub has_prefix : List ℕ → List ℕ → Bool
has_prefix [] s = true
has_prefix (p ∷ ps) [] = false
has_prefix (p ∷ ps) (c ∷ s) = p == c && has_prefix ps s

-- `strstr(s, p) != NULL`
unfoldable pub contains : List ℕ → List ℕ → Bool
unfolding has_prefix
contains [] p = has_prefix p []
contains (c ∷ s) p = has_prefix p (c ∷ s) || contains s p

-- s[i], where the terminating zero byte and what lies behind it read as 0.
abbrev pub char_at : List ℕ → ℕ → ℕ
char_at s i = get_or s i 0

pub has_prefix-char_at :
    (p s : List ℕ) (i : ℕ) → has_prefix p s ≡ true → i < length p → char_at s i ≡ char_at p i
unfolding has_prefix
has_prefix-char_at [] s i h k = absurd (omega arith)
has_prefix-char_at (a ∷ p) [] i h k = cc
has_prefix-char_at (a ∷ p) (c ∷ s) zero h k = ground arith
has_prefix-char_at (a ∷ p) (c ∷ s) (suc i) h k = ground (arith, has_prefix-char_at p s i)

pub has_prefix-length : (p s : List ℕ) → has_prefix p s ≡ true → length p ≤ length s
unfolding has_prefix
has_prefix-length [] s h = omega arith
has_prefix-length (a ∷ p) [] h = cc
has_prefix-length (a ∷ p) (c ∷ s) h = ground (arith, has_prefix-length p s)
