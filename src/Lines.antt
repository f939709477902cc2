-- ===== src/Lines.antt =====
-- `readJSONLine` of cli/web_index.go: one line of traffic, read through a buffer that may be
-- shorter than the line. `bufio.Reader.ReadSlice` gives the line in fragments: each one but the
-- last fills the buffer and comes with `bufio.ErrBufferFull`.
use http_capture.Prelude.{
  ℕ, ◌+◌, Bool, true, false, not, ◌&&◌, Bytes, List, [], ◌∷◌, ◌++◌, if◌then◌else◌, leb, ltb, length,
  length-append, ◌≡◌, ap, ◌∙◌, sym, arith, append_assoc, append-nil,
}

-- The variables of the loop.
pub record LineRead : Type 0 where
  pub result : Bytes
  pub consumed : ℕ
  pub oversized : Bool

unfoldable pub add_fragment : ℕ → LineRead → Bytes → LineRead
add_fragment maximum r fragment =
    let seen = record r { consumed = r.consumed + length fragment } in
    if not r.oversized && leb (length r.result + length fragment) maximum
    then record seen { result = r.result ++ fragment }
    else if ltb 0 (length fragment)
    then record seen { result = []; oversized = true }
    else seen

unfoldable pub read_fragments : ℕ → LineRead → List Bytes → LineRead
unfolding add_fragment
read_fragments maximum r [] = r
read_fragments maximum r (fragment ∷ fragments) =
    read_fragments maximum (add_fragment maximum r fragment) fragments

unfoldable pub read_json_line : ℕ → List Bytes → LineRead
unfolding read_fragments
read_json_line maximum fragments =
    read_fragments maximum (record { result = []; consumed = 0; oversized = false }) fragments

-- The fragments put together.
unfoldable pub line_of : List Bytes → Bytes
line_of [] = []
line_of (fragment ∷ fragments) = fragment ++ line_of fragments

-- What reading a line means: the line, or nothing of one that is too long.
unfoldable pub whole_line : ℕ → Bytes → LineRead
whole_line maximum line =
    if leb (length line) maximum
    then record { result = line; consumed = length line; oversized = false }
    else record { result = []; consumed = length line; oversized = true }

LineRead_ext :
    (r s : LineRead)
    → r.result ≡ s.result
    → r.consumed ≡ s.consumed
    → r.oversized ≡ s.oversized
    → r ≡ s
LineRead_ext r s p q o = λ i. record { result = p i; consumed = q i; oversized = o i }

add_fragment-whole_line :
    (maximum : ℕ) (line fragment : Bytes)
    → add_fragment maximum (whole_line maximum line) fragment
      ≡ whole_line maximum (line ++ fragment)
unfolding add_fragment whole_line
add_fragment-whole_line maximum line fragment = ground (arith, length-append line fragment)

read_fragments-whole_line :
    (maximum : ℕ) (line : Bytes) (fragments : List Bytes)
    → read_fragments maximum (whole_line maximum line) fragments
      ≡ whole_line maximum (line ++ line_of fragments)
unfolding read_fragments line_of
read_fragments-whole_line maximum line [] = ap (whole_line maximum) (sym (append-nil line))
read_fragments-whole_line maximum line (fragment ∷ fragments) =
    ap (λ r. read_fragments maximum r fragments) (add_fragment-whole_line maximum line fragment)
    ∙ read_fragments-whole_line maximum (line ++ fragment) fragments
    ∙ ap (whole_line maximum) (append_assoc line fragment (line_of fragments))

-- However the buffer cuts a line, reading it gives the whole line if it is at most as long as the
-- limit, and nothing but the mark of a line that is too long otherwise; its length is counted in
-- both cases.
pub read_json_line-whole_line :
    (maximum : ℕ) (fragments : List Bytes)
    → read_json_line maximum fragments ≡ whole_line maximum (line_of fragments)
unfolding read_json_line
read_json_line-whole_line maximum fragments =
    ap (λ r. read_fragments maximum r fragments) (empty_line maximum)
    ∙ read_fragments-whole_line maximum [] fragments
  where
    empty_line :
        (maximum : ℕ)
        → record { result = []; consumed = 0; oversized = false } ≡ whole_line maximum []
    empty_line maximum = unfold whole_line in ground arith
