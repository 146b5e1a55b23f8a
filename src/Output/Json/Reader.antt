-- ===== src/Output/Json/Reader.antt =====
-- A reader of JSON that builds the value it reads.
use dhcpd_pools.Base.{
  ◌∙◌, ℕ, ◌==◌, Bool, true, false, not, ◌&&◌, ◌||◌, List, [], ◌∷◌, ◌++◌, Option, none, some, ◌≡◌,
  ap, arith, if◌then◌else◌, leb,
}
use dhcpd_pools.Base.Machine.{run, run_word, AllBytes, is_word_byte, is_written}
use dhcpd_pools.Data.{Bytes}

-- A value; `word` is what stands without quotes, byte for byte. Lists grow at their end.
mutual
  pub data Json : Type 0 where
    string : Bytes → Json
    word : Bytes → Json
    array : Values → Json
    object : Members → Json

  pub data Values : Type 0 where
    empty_list : Values
    and_value : Values → Json → Values

  pub data Members : Type 0 where
    empty_record : Members
    and_member : Members → Bytes → Json → Members

-- What is open around the value that is read.
pub data Frame : Type 0 where
  in_array : Values → Frame
  in_object : Members → (key : Bytes) → Frame

-- `first` says that nothing of the array or the object has been read.
pub data Reader : Type 0 where
  value_next : (first : Bool) (frames : List Frame) → Reader
  key_next : (first : Bool) (members : Members) (frames : List Frame) → Reader
  in_key : (key : Bytes) (members : Members) (frames : List Frame) → Reader
  colon_next : (key : Bytes) (members : Members) (frames : List Frame) → Reader
  in_string : (text : Bytes) (frames : List Frame) → Reader
  in_word : (text : Bytes) (frames : List Frame) → Reader
  value_done : (value : Json) (frames : List Frame) → Reader
  failed : Reader

unfoldable pub is_white : ℕ → Bool
is_white c = c == b' ' || c == b'\n'

-- A byte of a text in quotes; an escape is refused.
unfoldable pub is_text_byte : ℕ → Bool
is_text_byte c = not (c == b'"') && not (c == b'\\') && leb b' ' c

unfoldable pub close_array : List Frame → Reader
close_array (in_array values ∷ frames) = value_done (array values) frames
close_array frames = failed

unfoldable pub after_value : Json → List Frame → ℕ → Reader
unfolding is_white
after_value v [] c = if is_white c then value_done v [] else failed
after_value v (in_array values ∷ frames) c =
    if is_white c
    then value_done v (in_array values ∷ frames)
    else if c == b','
    then value_next false (in_array (and_value values v) ∷ frames)
    else if c == b']'
    then value_done (array (and_value values v)) frames
    else failed
after_value v (in_object members key ∷ frames) c =
    if is_white c
    then value_done v (in_object members key ∷ frames)
    else if c == b','
    then key_next false (and_member members key v) frames
    else if c == b'}'
    then value_done (object (and_member members key v)) frames
    else failed

unfoldable pub read : Reader → ℕ → Reader
unfolding is_white is_text_byte is_word_byte after_value close_array
read (value_next first frames) c =
    if is_white c
    then value_next first frames
    else if c == b'"'
    then in_string [] frames
    else if c == b'{'
    then key_next true empty_record frames
    else if c == b'['
    then value_next true (in_array empty_list ∷ frames)
    else if is_word_byte c
    then in_word (c ∷ []) frames
    else if c == b']' && first
    then close_array frames
    else failed
read (key_next first members frames) c =
    if is_white c
    then key_next first members frames
    else if c == b'"'
    then in_key [] members frames
    else if c == b'}' && first
    then value_done (object members) frames
    else failed
read (in_key key members frames) c =
    if c == b'"'
    then colon_next key members frames
    else if is_text_byte c
    then in_key (key ++ c ∷ []) members frames
    else failed
read (colon_next key members frames) c =
    if is_white c
    then colon_next key members frames
    else if c == b':'
    then value_next false (in_object members key ∷ frames)
    else failed
read (in_string text frames) c =
    if c == b'"'
    then value_done (string text) frames
    else if is_text_byte c
    then in_string (text ++ c ∷ []) frames
    else failed
read (in_word text frames) c =
    if is_word_byte c then in_word (text ++ c ∷ []) frames else after_value (word text) frames c
read (value_done v frames) c = after_value v frames c
read failed c = failed

unfoldable pub value_of : Reader → Option Json
value_of (value_done v []) = some v
value_of _ = none

unfoldable pub read_json : Bytes → Option Json
unfolding value_of read
read_json text = value_of (run read (value_next false []) text)

string_byte :
    (c : ℕ) (text : Bytes) (frames : List Frame)
    → is_text_byte c ≡ true
    → read (in_string text frames) c ≡ in_string (text ++ c ∷ []) frames
unfolding read is_text_byte
string_byte c text frames h = ground arith

-- The bytes of a string.
pub read_string :
    (w rest text : Bytes) (frames : List Frame)
    → AllBytes is_text_byte w
    → run read (in_string text frames) (w ++ rest) ≡ run read (in_string (text ++ w) frames) rest
read_string w rest text frames h =
    run_word read is_text_byte (λ t. in_string t frames) (λ c t u. string_byte c t frames u) w rest
      text h

word_byte :
    (c : ℕ) (text : Bytes) (frames : List Frame)
    → is_word_byte c ≡ true
    → read (in_word text frames) c ≡ in_word (text ++ c ∷ []) frames
unfolding read is_word_byte
word_byte c text frames h = ground arith

word_start :
    (c : ℕ) (first : Bool) (frames : List Frame)
    → is_word_byte c ≡ true
    → read (value_next first frames) c ≡ in_word (c ∷ []) frames
unfolding read is_word_byte
word_start c first frames h = ground arith

-- A word where a value is expected.
pub read_word :
    (w rest : Bytes) (first : Bool) (frames : List Frame)
    → is_written w ≡ true
    → AllBytes is_word_byte w
    → run read (value_next first frames) (w ++ rest) ≡ run read (in_word w frames) rest
read_word [] rest first frames e h = absurd (grind arith)
read_word (c ∷ w) rest first frames e h =
    ap (λ r. run read r (w ++ rest)) (word_start c first frames h.0)
    ∙ run_word read is_word_byte (λ t. in_word t frames) (λ x t u. word_byte x t frames u) w rest
        (c ∷ []) h.1
