-- ===== src/Words.antt =====
-- The texts of a query that the browser sends: `validateSessionID` and `buildFTSQuery` of
-- cli/web_index.go.
pub mod Reading
use http_capture.Prelude.{
  ℕ, Bool, true, false, not, ◌&&◌, ◌||◌, Bytes, codes, List, [], ◌∷◌, ◌++◌, map, reverse,
  if◌then◌else◌, leb, ltb, ◌==◌, length, str_eq, contains_byte, trim_space, join_with, space_ascii,
  space_two, space_three, prepend,
}

-- `unicode.IsControl` of a code point of the text: U+0000 to U+001F and U+007F to U+009F.
unfoldable pub has_control : Bytes → Bool
has_control [] = false
has_control (a ∷ []) = ltb a 32 || a == 127
has_control (a ∷ b ∷ s) =
    let rest = has_control (b ∷ s) in
    ltb a 32 || a == 127 || (a == 0xc2 && leb 0x80 b && leb b 0x9f) || rest

-- A text whose `filepath.Base` is another one holds a slash, or is empty.
unfoldable pub is_session_id : Bytes → Bool
unfolding has_control
is_session_id id = not (
    str_eq id []
    || ltb 200 (length id)
    || str_eq id (codes ".")
    || str_eq id (codes "..")
    || contains_byte b'/' id
    || contains_byte b'\\' id
    || has_control id)

-- `strings.Fields`, with an empty text for each white space beyond the first.
unfoldable pub pieces : Bytes → List Bytes
unfolding space_ascii space_two space_three prepend
pieces [] = [] ∷ []
pieces (a ∷ []) = if space_ascii a then [] ∷ [] ∷ [] else (a ∷ []) ∷ []
pieces (a ∷ b ∷ []) =
    let one = pieces (b ∷ []) in
    if space_ascii a then [] ∷ one else if space_two a b then [] ∷ [] ∷ [] else prepend a one
pieces (a ∷ b ∷ c ∷ s) =
    let one = pieces (b ∷ c ∷ s) in
    let two = pieces (c ∷ s) in
    let three = pieces s in
    if space_ascii a
    then [] ∷ one
    else if space_two a b
    then [] ∷ two
    else if space_three a b c
    then [] ∷ three
    else prepend a one

trim_quotes_left : Bytes → Bytes
trim_quotes_left [] = []
trim_quotes_left (c ∷ s) = let rest = trim_quotes_left s in if c == b'"' then rest else c ∷ s

-- `strings.Trim` of quotes.
unfoldable pub trim_quotes : Bytes → Bytes
unfolding trim_quotes_left
trim_quotes s = reverse (trim_quotes_left (reverse (trim_quotes_left s)))

-- The texts that are not empty.
unfoldable pub without_empty : List Bytes → List Bytes
without_empty [] = []
without_empty ([] ∷ rest) = without_empty rest
without_empty ((c ∷ s) ∷ rest) = (c ∷ s) ∷ without_empty rest

-- The words that are searched.
unfoldable pub words : Bytes → List Bytes
unfolding pieces trim_quotes without_empty
words value = without_empty (map trim_quotes (pieces (trim_space value)))

-- `strings.ReplaceAll` of a quote by two.
unfoldable pub double_quotes : Bytes → Bytes
double_quotes [] = []
double_quotes (c ∷ s) = if c == b'"' then c ∷ c ∷ double_quotes s else c ∷ double_quotes s

-- A prefix search for a word.
unfoldable pub quoted : Bytes → Bytes
unfolding double_quotes
quoted word = b'"' ∷ (double_quotes word ++ codes "\"*")

unfoldable pub build_fts_query : Bytes → Bytes
unfolding words quoted
build_fts_query value = join_with (codes " AND ") (map quoted (words value))
