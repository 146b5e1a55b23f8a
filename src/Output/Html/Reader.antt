-- ===== src/Output/Html/Reader.antt =====
-- A reader of HTML that checks the nesting of the tags and keeps the texts of the cells of tables.
use dhcpd_pools.Base.{
  ℕ, ◌==◌, Bool, true, false, ◌&&◌, ◌||◌, List, [], ◌∷◌, ◌++◌, Option, none, some, ◌≡◌, arith,
  if◌then◌else◌, leb,
}
use dhcpd_pools.Base.Text.{codes}
pub use dhcpd_pools.Base.Machine.{unquoted}
use dhcpd_pools.Base.Machine.{run, run_word, AllBytes}
use dhcpd_pools.Data.{Bytes}
use dhcpd_pools.Output.Xml.Reader.{same, is_character}

abbrev pub Row : Type 0
Row = List Bytes

-- The open elements, and the cells, rows and tables that have been read.
pub data Tables : Type 0 where
  read_so_far :
      (opened : List Bytes) (row : Row) (rows : List Row) (tables : List (List Row)) → Tables

pub data Reader : Type 0 where
  in_text : (text : Bytes) (page : Tables) → Reader
  tag_next : (text : Bytes) (page : Tables) → Reader
  in_declaration : (page : Tables) → Reader
  in_name : (name : Bytes) (page : Tables) → Reader
  in_attributes : (name : Bytes) (slash : Bool) (page : Tables) → Reader
  in_value : (name : Bytes) (page : Tables) → Reader
  in_closing : (name text : Bytes) (page : Tables) → Reader
  failed : Reader

unfoldable pub is_tag_byte : ℕ → Bool
is_tag_byte c = (leb b'a' c && leb c b'z') || (leb b'0' c && leb c b'9')

-- Elements without content, which are not closed.
unfoldable pub is_void : Bytes → Bool
unfolding same
is_void name = same name (codes "meta") || same name (codes "link")

unfoldable pub open_tag : Bytes → Tables → Tables
unfolding is_void
open_tag name (read_so_far opened row rows tables) =
    if is_void name
    then read_so_far opened row rows tables
    else read_so_far (name ∷ opened) row rows tables

-- The end of a cell, of a row, of a table, and of any other element.
unfoldable pub end_element :
    (name text : Bytes) (opened : List Bytes) (row : Row) (rows : List Row)
    (tables : List (List Row))
    → Tables
unfolding same
end_element name text opened row rows tables =
    if same name (codes "td") || same name (codes "th")
    then read_so_far opened (row ++ text ∷ []) rows tables
    else if same name (codes "tr")
    then read_so_far opened [] (rows ++ row ∷ []) tables
    else if same name (codes "table")
    then read_so_far opened row [] (tables ++ rows ∷ [])
    else read_so_far opened row rows tables

unfoldable pub close_tag : (name text : Bytes) → Tables → Reader
unfolding end_element same
close_tag name text (read_so_far [] row rows tables) = failed
close_tag name text (read_so_far (innermost ∷ opened) row rows tables) =
    if same name innermost
    then in_text [] (end_element name text opened row rows tables)
    else failed

unfoldable pub read : Reader → ℕ → Reader
unfolding is_tag_byte open_tag close_tag is_character
read (in_text text page) c =
    if c == b'<'
    then tag_next text page
    else if is_character c
    then in_text (text ++ c ∷ []) page
    else failed
read (tag_next text page) c =
    if c == b'/'
    then in_closing [] text page
    else if c == b'!'
    then in_declaration page
    else if is_tag_byte c
    then in_name (c ∷ []) page
    else failed
read (in_declaration page) c = if c == b'>' then in_text [] page else in_declaration page
read (in_name name page) c =
    if c == b'>'
    then in_text [] (open_tag name page)
    else if c == b' '
    then in_attributes name false page
    else if is_tag_byte c
    then in_name (name ++ c ∷ []) page
    else failed
read (in_attributes name slash page) c =
    if c == b'>'
    then in_text [] (if slash then page else open_tag name page)
    else if c == b'"'
    then in_value name page
    else if c == b'<'
    then failed
    else in_attributes name (c == b'/') page
read (in_value name page) c =
    if c == b'"' then in_attributes name false page else in_value name page
read (in_closing name text page) c =
    if c == b'>'
    then close_tag name text page
    else if is_tag_byte c
    then in_closing (name ++ c ∷ []) text page
    else failed
read failed c = failed

-- The tables of a page in which every element is closed.
unfoldable pub tables_of : Reader → Option (List (List Row))
tables_of (in_text text (read_so_far [] row rows tables)) = some tables
tables_of _ = none

unfoldable pub read_html : Bytes → Option (List (List Row))
unfolding tables_of read
read_html text = tables_of (run read (in_text [] (read_so_far [] [] [] [])) text)

character :
    (c : ℕ) (text : Bytes) (page : Tables)
    → is_character c ≡ true
    → read (in_text text page) c ≡ in_text (text ++ c ∷ []) page
unfolding read is_character
character c text page h = ground arith

pub read_text :
    (w rest text : Bytes) (page : Tables)
    → AllBytes is_character w
    → run read (in_text text page) (w ++ rest) ≡ run read (in_text (text ++ w) page) rest
read_text w rest text page h =
    run_word read is_character (λ t. in_text t page) (λ c t u. character c t page u) w rest text h

value_byte :
    (c : ℕ) (name : Bytes) (page : Tables)
    → unquoted c ≡ true
    → read (in_value name page) c ≡ in_value name page
unfolding read
value_byte c name page h = ground arith

-- The bytes of an attribute.
pub read_value :
    (w rest name : Bytes) (page : Tables)
    → AllBytes unquoted w
    → run read (in_value name page) (w ++ rest) ≡ run read (in_value name page) rest
read_value w rest name page h =
    run_word read unquoted (λ t. in_value name page) (λ c t u. value_byte c name page u) w rest [] h
