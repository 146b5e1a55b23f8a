-- ===== src/Base/Machine.antt =====
-- A machine that reads a text byte by byte, and texts of which all bytes pass a test.
use Prim.Native.Nat.{ℕ}
use mathlib.Core.Path.{◌≡◌, refl, sym, ap, ◌∙◌}
use mathlib.Core.Bool.{Bool, true, false, not, ◌&&◌, ◌||◌}
use mathlib.Core.List.{List, [], ◌∷◌, ◌++◌, append-nil, append_assoc}
use dhcpd_pools.Base.Tests.{leb, ◌==◌}

module _ {ℓ} {S : Type ℓ} (step : S → ℕ → S) where
  abbrev pub run : S → List ℕ → S
  run s [] = s
  run s (c ∷ text) = run (step s c) text

  pub run-append : (s : S) (a b : List ℕ) → run s (a ++ b) ≡ run (run s a) b
  run-append s [] b = refl
  run-append s (c ∷ a) b = run-append (step s c) a b

-- The machine gets from one state to another over a text.
pub record Runs {ℓ} {S : Type ℓ} (step : S → ℕ → S) (start : S) (text : List ℕ) (end : S)
    : Type ℓ where
  pub reaches : run step start text ≡ end

-- The parts of a text, one after the other.
pub run_then {ℓ} :
    {S : Type ℓ} {step : S → ℕ → S} {start middle end : S} (a : List ℕ) {b : List ℕ}
    → Runs step start a middle
    → Runs step middle b end
    → Runs step start (a ++ b) end
run_then {step} {start} a {b} h k = record {
  reaches = run-append step start a b ∙ ap (λ s. run step s b) h.reaches ∙ k.reaches;
}

abbrev pub AllBytes : (ℕ → Bool) → List ℕ → Type 0
AllBytes p [] = Unit {0}
AllBytes p (c ∷ text) = (p c ≡ true) × AllBytes p text

-- A word of bytes that a machine collects, in a state that holds what it has collected.
pub run_word {ℓ} :
    {S : Type ℓ} (step : S → ℕ → S) (p : ℕ → Bool) (state : List ℕ → S)
    → ((c : ℕ) (buf : List ℕ) → p c ≡ true → step (state buf) c ≡ state (buf ++ c ∷ []))
    → (w rest buf : List ℕ) → AllBytes p w
    → run step (state buf) (w ++ rest) ≡ run step (state (buf ++ w)) rest
run_word step p state collects [] rest buf h =
    ap (λ b. run step (state b) rest) (sym (append-nil buf))
run_word step p state collects (c ∷ w) rest buf h =
    ap (λ s. run step s (w ++ rest)) (collects c buf h.0)
    ∙ run_word step p state collects w rest (buf ++ c ∷ []) h.1
    ∙ ap (λ b. run step (state b) rest) (append_assoc buf (c ∷ []) w)

abbrev pub unquoted : ℕ → Bool
unquoted c = not (c == b'"')

-- What numbers and addresses are written with: letters, digits, and `+ - . :`.
unfoldable pub is_word_byte : ℕ → Bool
is_word_byte c =
    (leb b'0' c && leb c b':') || (leb b'a' c && leb c b'z') || c == b'+' || c == b'-' || c == b'.'

-- A property of all words, from one of their bytes.
pub AllBytes-imp :
    (p q : ℕ → Bool)
    → ((c : ℕ) → p c ≡ true → q c ≡ true)
    → (text : List ℕ) → AllBytes p text
    → AllBytes q text
AllBytes-imp p q h [] all = all
AllBytes-imp p q h (c ∷ text) all = (h c all.0, AllBytes-imp p q h text all.1)

abbrev pub is_written : List ℕ → Bool
is_written [] = false
is_written (c ∷ text) = true
