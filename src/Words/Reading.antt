-- ===== src/Words/Reading.antt =====
-- How the full text search of SQLite reads what `buildFTSQuery` of cli/web_index.go makes: text in
-- quotes, in which two quotes stand for one, a star for a prefix, and AND between the terms.
use http_capture.Prelude.{
  ℕ, true, false, Bytes, codes, List, [], ◌∷◌, ◌++◌, map, Option, none, some, ◌≡◌, inl, inr, refl,
  ap, ◌∙◌, sym, subst, if◌then◌else◌, ◌==◌, join_with, append_assoc, append-nil, Bool-cases, ==_iff,
}
use http_capture.Words.{words, quoted, double_quotes, build_fts_query}

with_byte : ℕ → Option (Bytes × Bytes) → Option (Bytes × Bytes)
with_byte c none = none
with_byte c (some (text, rest)) = some (c ∷ text, rest)

-- The text in front of the closing quote, and what stands behind the quote.
unfoldable pub read_text : Bytes → Option (Bytes × Bytes)
unfolding with_byte
read_text [] = none
read_text (c ∷ []) = if c == b'"' then some ([], []) else none
read_text (c ∷ d ∷ s) =
    let one = read_text (d ∷ s) in
    let two = read_text s in
    if c == b'"'
    then (if d == b'"' then with_byte b'"' two else some ([], d ∷ s))
    else with_byte c one

unfoldable pub read_term : Bytes → Option (Bytes × Bytes)
unfolding read_text
read_term [] = none
read_term (c ∷ s) = if c == b'"' then read_text s else none

-- A query and the texts that its terms have.
pub data Reads : Bytes → List Bytes → Type 0 where
  last : (s text : Bytes) → read_term s ≡ some (text, codes "*") → Reads s (text ∷ [])
  more :
      (s text next : Bytes) (texts : List Bytes)
      → read_term s ≡ some (text, codes "* AND " ++ next)
      → Reads next texts
      → Reads s (text ∷ texts)

read_text-other :
    (c : ℕ) (s : Bytes) → (c == b'"') ≡ false → read_text (c ∷ s) ≡ with_byte c (read_text s)
unfolding read_text with_byte
read_text-other c [] e = simp e refl
read_text-other c (d ∷ s) e = simp e refl

read_text-double :
    (c : ℕ) (s : Bytes) → (c == b'"') ≡ true → read_text (c ∷ c ∷ s) ≡ with_byte b'"' (read_text s)
unfolding read_text
read_text-double c s e = simp e refl

is_quote : (c : ℕ) → (c == b'"') ≡ true → b'"' ≡ c
is_quote c e = sym ((==_iff c b'"').0 e)

double_quotes-quote :
    (c : ℕ) (s : Bytes) → (c == b'"') ≡ true → double_quotes (c ∷ s) ≡ c ∷ c ∷ double_quotes s
unfolding double_quotes
double_quotes-quote c s e = simp e refl

double_quotes-other :
    (c : ℕ) (s : Bytes) → (c == b'"') ≡ false → double_quotes (c ∷ s) ≡ c ∷ double_quotes s
unfolding double_quotes
double_quotes-other c s e = simp e refl

read_text-end :
    (rest : Bytes) → read_text (double_quotes [] ++ (b'"' ∷ b'*' ∷ rest)) ≡ some ([], b'*' ∷ rest)
unfolding read_text double_quotes
read_text-end rest = refl

-- A word in which quotes are doubled is read up to its closing quote.
read_text-quoted :
    (word rest : Bytes)
    → read_text (double_quotes word ++ (b'"' ∷ b'*' ∷ rest)) ≡ some (word, b'*' ∷ rest)
unfolding with_byte
read_text-quoted [] rest = read_text-end rest
read_text-quoted (c ∷ word) rest =
    let close : Bytes = b'"' ∷ b'*' ∷ rest in
    let after = double_quotes word ++ close in
    let read = read_text-quoted word rest in
    elim (Bool-cases (c == b'"')) [
      | inl quote ↦
          ap (λ s. read_text (s ++ close)) (double_quotes-quote c word quote)
          ∙ read_text-double c after quote
          ∙ ap (with_byte b'"') read
          ∙ ap (λ q. some (q ∷ word, b'*' ∷ rest)) (is_quote c quote)
      | inr other ↦
          ap (λ s. read_text (s ++ close)) (double_quotes-other c word other)
          ∙ read_text-other c after other
          ∙ ap (with_byte c) read
    ]

read_term-quoted : (word rest : Bytes) → read_term (quoted word ++ rest) ≡ some (word, b'*' ∷ rest)
unfolding read_term quoted
read_term-quoted word rest =
    ap read_text (append_assoc (double_quotes word) (codes "\"*") rest) ∙ read_text-quoted word rest

-- Any words that are quoted and joined are read again.
join-Reads :
    (word : Bytes) (rest : List Bytes)
    → Reads (join_with (codes " AND ") (map quoted (word ∷ rest))) (word ∷ rest)
unfolding join_with
join-Reads word [] = last (quoted word) word (
    subst (λ s. read_term s ≡ some (word, codes "*")) (append-nil (quoted word))
      (read_term-quoted word []))
join-Reads word (next ∷ rest) =
    more (quoted word ++ (codes " AND " ++ join_with (codes " AND ") (map quoted (next ∷ rest))))
      word (join_with (codes " AND ") (map quoted (next ∷ rest))) (next ∷ rest)
      (read_term-quoted word
        (codes " AND " ++ join_with (codes " AND ") (map quoted (next ∷ rest))))
      (join-Reads next rest)

-- Whatever is typed into the search field, if it has a word at all, the query that is made of it
-- reads as exactly the words that are searched, in their order: no quote in a word ends its term,
-- and nothing in a word is taken for an operator.
pub build_fts_query-Reads :
    (value word : Bytes) (rest : List Bytes)
    → words value ≡ word ∷ rest
    → Reads (build_fts_query value) (words value)
unfolding build_fts_query
build_fts_query-Reads value word rest e =
    subst (λ all. Reads (join_with (codes " AND ") (map quoted all)) all) (sym e)
      (join-Reads word rest)
