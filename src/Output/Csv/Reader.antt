-- ===== src/Output/Csv/Reader.antt =====
-- A reader of CSV in which every field is quoted, and what it makes of fields and rows.
use mathlib.Core.List.{append_assoc, append-nil}
use dhcpd_pools.Base.{
  ◌∙◌, ℕ, zero, suc, ◌==◌, Bool, true, false, List, [], ◌∷◌, ◌++◌, Option, none, some, ◌≡◌, refl,
  sym, ap, arith, if◌then◌else◌,
}
pub use dhcpd_pools.Base.Machine.{unquoted}
use dhcpd_pools.Base.Machine.{is_word_byte, run, Runs, run_then, run_word, AllBytes}
use dhcpd_pools.Data.{Bytes}
use dhcpd_pools.Output.{when, spaces}

abbrev pub Row : Type 0
Row = List Bytes

-- A reader of CSV in which every field is quoted: between two rows, in front of a field, inside the
-- quotes, and behind them; with what it has read of the field, of the row, and of the text.
pub data Reader : Type 0 where
  between_rows : (rows : List Row) → Reader
  field_start : (row : Row) (rows : List Row) → Reader
  quoted : (field : Bytes) (row : Row) (rows : List Row) → Reader
  closed : (field : Bytes) (row : Row) (rows : List Row) → Reader
  failed : Reader

unfoldable pub read : Reader → ℕ → Reader
read (between_rows rows) c =
    if c == b'\n'
    then between_rows (rows ++ [] ∷ [])
    else if c == b'"'
    then quoted [] [] rows
    else failed
read (field_start row rows) c = if c == b'"' then quoted [] row rows else failed
read (quoted field row rows) c =
    if c == b'"' then closed field row rows else quoted (field ++ c ∷ []) row rows
read (closed field row rows) c =
    if c == b','
    then field_start (row ++ field ∷ []) rows
    else if c == b'\n'
    then between_rows (rows ++ (row ++ field ∷ []) ∷ [])
    else if c == b'"'
    then quoted (field ++ c ∷ []) row rows
    else failed
read failed c = failed

-- The rows of a text that ends with a row.
unfoldable pub rows_of : Reader → Option (List Row)
rows_of (between_rows rows) = some rows
rows_of _ = none

unfoldable pub read_csv : Bytes → Option (List Row)
unfolding rows_of read
read_csv text = rows_of (run read (between_rows []) text)

pub read-unquoted :
    (c : ℕ) (field : Bytes) (row : Row) (rows : List Row)
    → unquoted c ≡ true
    → read (quoted field row rows) c ≡ quoted (field ++ c ∷ []) row rows
unfolding read
read-unquoted c field row rows h = ground arith

pub read_word :
    (w rest : Bytes) (row : Row) (rows : List Row)
    → AllBytes unquoted w
    → run read (quoted [] row rows) (w ++ rest) ≡ run read (quoted w row rows) rest
read_word w rest row rows h =
    run_word read unquoted (λ f. quoted f row rows) (λ c f u. read-unquoted c f row rows u) w rest
      [] h

-- Further fields behind one, each with a comma and in quotes; and where the reader is behind them.
abbrev pub further : List Bytes → Bytes
further [] = []
further (f ∷ fs) = b',' ∷ b'"' ∷ (f ++ b'"' ∷ further fs)

abbrev pub behind : Row → Bytes → List Bytes → List Row → Reader
behind row f [] rows = closed f row rows
behind row f (g ∷ fs) rows = behind (row ++ f ∷ []) g fs rows

abbrev pub AllUnquoted : List Bytes → Type 0
AllUnquoted [] = Unit {0}
AllUnquoted (f ∷ fs) = AllBytes unquoted f × AllUnquoted fs

pub read_fields :
    (f : Bytes) (fs : List Bytes) (row : Row) (rows : List Row)
    → AllUnquoted (f ∷ fs)
    → run read (quoted [] row rows) (f ++ b'"' ∷ further fs) ≡ behind row f fs rows
unfolding read
read_fields f [] row rows h = read_word f (b'"' ∷ []) row rows h.0
read_fields f (g ∷ fs) row rows h =
    read_word f (b'"' ∷ further (g ∷ fs)) row rows h.0 ∙ read_fields g fs (row ++ f ∷ []) rows h.1

-- A text that adds rows, wherever it stands between two rows.
abbrev pub Adds : Bytes → List Row → Type 0
Adds text more =
    (rows : List Row) → Runs read (between_rows rows) text (between_rows (rows ++ more))

pub Adds-append :
    (a : Bytes) (b : Bytes) (x y : List Row) → Adds a x → Adds b y → Adds (a ++ b) (x ++ y)
Adds-append a b x y h k rows = rw (← append_assoc rows x y) (run_then a (h rows) (k (rows ++ x)))

abbrev pub when_rows : Bool → List Row → List Row
when_rows c more = if c then more else []

pub Adds-nil : Adds [] []
Adds-nil rows = record { reaches = ap between_rows (sym (append-nil rows)) }

pub Adds-when :
    (c : Bool) (a : Bytes) (x : List Row) → (c ≡ true → Adds a x) → Adds (when c a) (when_rows c x)
Adds-when true a x h = h refl
Adds-when false a x h = Adds-nil

failed-stays : (text : Bytes) → run read failed text ≡ failed
unfolding read
failed-stays [] = refl
failed-stays (c ∷ text) = failed-stays text

unexpected :
    (c : ℕ) (field : Bytes) (row : Row) (rows : List Row)
    → is_word_byte c ≡ true
    → read (closed field row rows) c ≡ failed
unfolding read is_word_byte
unexpected c field row rows h = ground arith

-- Behind the quotes that close a field, a padded number without quotes.
pub closed-fails :
    (n : ℕ) (w rest : Bytes) (field : Bytes) (row : Row) (rows : List Row)
    → AllBytes is_word_byte w
    → run read (closed field row rows) ((spaces n ++ w) ++ b' ' ∷ rest) ≡ failed
unfolding read
closed-fails (suc n) w rest field row rows h = failed-stays ((spaces n ++ w) ++ b' ' ∷ rest)
closed-fails zero [] rest field row rows h = failed-stays rest
closed-fails zero (c ∷ w) rest field row rows h =
    ap (λ state. run read state (w ++ b' ' ∷ rest)) (unexpected c field row rows h.0)
    ∙ failed-stays (w ++ b' ' ∷ rest)
