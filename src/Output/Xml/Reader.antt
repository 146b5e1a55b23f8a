-- ===== src/Output/Xml/Reader.antt =====
-- A reader of XML without attributes and references.
use dhcpd_pools.Base.{
  ℕ, ◌==◌, Bool, true, false, not, ◌&&◌, ◌||◌, List, [], ◌∷◌, ◌++◌, Option, none, some, ◌≡◌, arith,
  if◌then◌else◌, leb,
}
use dhcpd_pools.Base.Machine.{run, run_word, AllBytes}
use dhcpd_pools.Data.{Bytes}

-- An element: its tag, the text in front of its first element, and its elements, which grow at the end.
mutual
  pub data Element : Type 0 where
    element : (tag text : Bytes) (inner : Elements) → Element

  pub data Elements : Type 0 where
    empty_content : Elements
    and_element : Elements → Element → Elements

-- An element that is open. The outermost stands for the document and has no tag.
pub data Frame : Type 0 where
  frame : (tag text : Bytes) (inner : Elements) → Frame

pub data Reader : Type 0 where
  content : (current : Frame) (outer : List Frame) → Reader
  tag_next : (current : Frame) (outer : List Frame) → Reader
  opening : (name : Bytes) (current : Frame) (outer : List Frame) → Reader
  closing : (name : Bytes) (current : Frame) (outer : List Frame) → Reader
  failed : Reader

unfoldable pub is_character : ℕ → Bool
is_character c = not (c == b'<') && not (c == b'&')

unfoldable pub is_space : ℕ → Bool
is_space c = c == b' ' || c == b'\n' || c == b'\t'

unfoldable pub is_name_byte : ℕ → Bool
is_name_byte c = (leb b'a' c && leb c b'z') || c == b'-' || c == b'_'

unfoldable pub same : Bytes → Bytes → Bool
same [] [] = true
same (a ∷ x) (b ∷ y) = a == b && same x y
same x y = false

-- Text behind an element is white.
unfoldable pub put_text : ℕ → Frame → List Frame → Reader
unfolding is_character is_space
put_text c (frame tag text empty_content) outer =
    if is_character c then content (frame tag (text ++ c ∷ []) empty_content) outer else failed
put_text c (frame tag text (and_element inner e)) outer =
    if is_space c then content (frame tag text (and_element inner e)) outer else failed

unfoldable pub close : Bytes → Frame → List Frame → Reader
unfolding same
close name (frame tag text inner) [] = failed
close name (frame tag text inner) (frame tag' text' inner' ∷ outer) =
    if same name tag
    then content (frame tag' text' (and_element inner' (element tag text inner))) outer
    else failed

unfoldable pub read : Reader → ℕ → Reader
unfolding is_name_byte put_text close
read (content current outer) c =
    if c == b'<' then tag_next current outer else put_text c current outer
read (tag_next current outer) c =
    if c == b'/'
    then closing [] current outer
    else if is_name_byte c
    then opening (c ∷ []) current outer
    else failed
read (opening name current outer) c =
    if c == b'>'
    then content (frame name [] empty_content) (current ∷ outer)
    else if is_name_byte c
    then opening (name ++ c ∷ []) current outer
    else failed
read (closing name current outer) c =
    if c == b'>'
    then close name current outer
    else if is_name_byte c
    then closing (name ++ c ∷ []) current outer
    else failed
read failed c = failed

-- The one element of a document.
unfoldable pub root_of : Reader → Option Element
root_of (content (frame tag text (and_element empty_content e)) []) = some e
root_of _ = none

unfoldable pub read_xml : Bytes → Option Element
unfolding root_of read
read_xml text = root_of (run read (content (frame [] [] empty_content) []) text)

character :
    (c : ℕ) (tag text : Bytes) (outer : List Frame)
    → is_character c ≡ true
    → read (content (frame tag text empty_content) outer) c
      ≡ content (frame tag (text ++ c ∷ []) empty_content) outer
unfolding read put_text is_character
character c tag text outer h = ground arith

pub read_text :
    (w rest tag text : Bytes) (outer : List Frame)
    → AllBytes is_character w
    → run read (content (frame tag text empty_content) outer) (w ++ rest)
      ≡ run read (content (frame tag (text ++ w) empty_content) outer) rest
read_text w rest tag text outer h =
    run_word read is_character (λ t. content (frame tag t empty_content) outer)
      (λ c t u. character c tag t outer u) w rest text h
