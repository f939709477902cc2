-- ===== src/Index/Records.antt =====
-- Where the rows of the index point to: the bytes of a row are those of the record that it was made
-- of, as `insertIndexedRequest` of cli/web_index.go was given them.
use http_capture.Prelude.{
  ℕ, zero, suc, ◌≤◌, true, ◌==◌, Bytes, List, [], ◌∷◌, ◌++◌, Option, some, none, ◌≡◌, refl, ap, sym,
  ◌∙◌, subst, arith, All, All-append, length, drop, drop-drop, drop-append, append_assoc,
  Bool-cases, inl, inr,
}
use http_capture.Captured.{CapturedTransaction}
use http_capture.Lines.{read_json_line, whole_line, read_json_line-whole_line}
use http_capture.Index.{TrafficScanOptions, IndexedRow, Store, SessionIndex}
use http_capture.Index.Row.{indexed_row}
use http_capture.Index.Scan.{
  Progress, Note, passed, damaged, indexed, advance, note_line, note_record, is_indexable,
  take_line, ends_line,
}
use http_capture.Index.Split.{finished, unfinished, extend, keep, ends_line-finished}
use http_capture.Index.Growth.{CutsLines, read_lines, take_line-offset}
use http_capture.Index.Agreement.{Agrees, start, beginning}

-- `ReadAt` into a buffer of zeros, whose end may not be reached.
unfoldable pub read_at : ℕ → Bytes → Bytes
read_at zero s = []
read_at (suc n) [] = 0 ∷ read_at n []
read_at (suc n) (c ∷ s) = c ∷ read_at n s

read_at-append : (line rest : Bytes) → read_at (length line) (line ++ rest) ≡ line
unfolding read_at
read_at-append [] rest = refl
read_at-append (c ∷ line) rest = ap (λ s. c ∷ s) (read_at-append line rest)

drop-length : (s rest : Bytes) → drop (length s) (s ++ rest) ≡ rest
drop-length [] rest = refl
drop-length (c ∷ s) rest = drop-length s rest

all_lines : List Bytes → Bytes
all_lines [] = []
all_lines (line ∷ lines) = line ++ all_lines lines

put_left :
    (c : ℕ) (lines : List Bytes) (rest : Bytes)
    → all_lines (extend c lines) ++ keep c lines rest ≡ c ∷ (all_lines lines ++ rest)
unfolding all_lines extend keep
put_left c [] rest = refl
put_left c (line ∷ lines) rest = refl

all_lines-finished : (s : Bytes) → all_lines (finished s) ++ unfinished s ≡ s
unfolding all_lines finished unfinished
all_lines-finished [] = refl
all_lines-finished (c ∷ s) = elim (Bool-cases (c == b'\n')) [
  | inl end ↦ simp end (ap (λ t. c ∷ t) (all_lines-finished s))
  | inr inside ↦
      simp inside (put_left c (finished s) (unfinished s) ∙ ap (λ t. c ∷ t) (all_lines-finished s))
]

module _ (store : Store) (options : TrafficScanOptions) (content : Bytes) where
  -- The record that a row was made of stands where the row points to.
  pub record Backed (row : IndexedRow) : Type 0 where
    pub captured : CapturedTransaction
    pub recorded :
        store.decode (read_at row.byte_length (drop row.byte_offset content)) ≡ some captured
    pub of_record : row ≡ indexed_row store row.line_number row.byte_offset row.byte_length captured
    pub wanted : is_indexable store options captured ≡ true
    pub some_bytes : 1 ≤ row.byte_length
    pub bounded : row.byte_length ≤ store.maximum

  advance-Backed :
      (p : Progress) (size : ℕ) (note : Note)
      → All Backed p.rows
      → ((row : IndexedRow) → note ≡ indexed row → Backed row)
      → All Backed (advance p size note).rows
  unfolding advance
  advance-Backed p size passed h new = h
  advance-Backed p size damaged h new = h
  advance-Backed p size (indexed row) h new =
      All-append Backed p.rows (row ∷ []) h (new row refl, tt)

  note_record-indexed :
      (p : Progress) (size : ℕ) (found : Option CapturedTransaction) (row : IndexedRow)
      → note_record store options p size found ≡ indexed row
      → (c : CapturedTransaction) × (found ≡ some c)
        × (is_indexable store options c ≡ true)
        × (row ≡ indexed_row store (suc p.line_number) p.offset size c)
  unfolding note_record
  note_record-indexed p size none row h = cc h
  note_record-indexed p size (some c) row h = (c, refl, ground arith, ground arith)

  whole-record :
      (p : Progress) (line : Bytes) (row : IndexedRow)
      → note_line store options p (whole_line store.maximum line) ≡ indexed row
      → (length line ≤ store.maximum)
        × (note_record store options p (length line) (store.decode line) ≡ indexed row)
  unfolding note_line whole_line
  whole-record p line row h = (ground arith, ground arith)

  ends_line-length : (line : Bytes) → ends_line line ≡ true → 1 ≤ length line
  unfolding ends_line
  ends_line-length [] h = absurd (cc h)
  ends_line-length (c ∷ line) h = omega arith

  whole-Backed :
      (p : Progress) (line rest : Bytes) (row : IndexedRow)
      → ends_line line ≡ true
      → drop p.offset content ≡ line ++ rest
      → note_line store options p (whole_line store.maximum line) ≡ indexed row
      → Backed row
  unfolding indexed_row
  whole-Backed p line rest row ends here h =
      let (small, noted) = whole-record p line row h in
      let (c, found, fits, same) =
        note_record-indexed p (length line) (store.decode line) row noted in
      let size : row.byte_length ≡ length line = ap (λ r. r.byte_length) same in
      let place : row.byte_offset ≡ p.offset = ap (λ r. r.byte_offset) same in
      let number : row.line_number ≡ suc p.line_number = ap (λ r. r.line_number) same in
      let bytes : read_at row.byte_length (drop row.byte_offset content) ≡ line =
        simp (size, place, here) (read_at-append line rest) in
      record {
        captured = c;
        recorded = ap store.decode bytes ∙ found;
        of_record = simp (number, place, size) same;
        wanted = fits;
        some_bytes = omega (arith, size, ends_line-length line ends);
        bounded = omega (arith, size, small);
      }

  take_line-Backed :
      (p : Progress) (line rest : Bytes)
      → CutsLines store
      → ends_line line ≡ true
      → drop p.offset content ≡ line ++ rest
      → All Backed p.rows
      → All Backed (take_line store options p line).rows
  unfolding take_line
  take_line-Backed p line rest cuts ends here h =
      let read : read_json_line store.maximum (store.cut line) ≡ whole_line store.maximum line =
        read_json_line-whole_line store.maximum (store.cut line)
        ∙ ap (whole_line store.maximum) (cuts line) in
      rw read (
        advance-Backed p (whole_line store.maximum line).consumed _ h
          (λ row. whole-Backed p line rest row ends here))

  past_line :
      (p : Progress) (line rest : Bytes)
      → CutsLines store
      → drop p.offset content ≡ line ++ rest
      → drop (take_line store options p line).offset content ≡ rest
  past_line p line rest cuts here =
      ap (λ n. drop n content) (take_line-offset store options p line cuts)
      ∙ drop-drop p.offset (length line) content
      ∙ ap (drop (length line)) here
      ∙ drop-length line rest

  read_lines-Backed :
      (p : Progress) (lines : List Bytes) (rest : Bytes)
      → CutsLines store
      → All (λ line. ends_line line ≡ true) lines
      → drop p.offset content ≡ all_lines lines ++ rest
      → All Backed p.rows
      → All Backed (read_lines store options p lines).rows
  unfolding read_lines all_lines
  read_lines-Backed p [] rest cuts ends here h = h
  read_lines-Backed p (line ∷ lines) rest cuts (first, ends) here h =
      let here' = here ∙ append_assoc line (all_lines lines) rest in
      read_lines-Backed (take_line store options p line) lines rest cuts ends
        (past_line p line (all_lines lines ++ rest) cuts here')
        (take_line-Backed p line (all_lines lines ++ rest) cuts first here' h)

module _ (store : Store) (options : TrafficScanOptions) (content more : Bytes) where
  -- Each row of an index that agrees with a file points to its record, also once the file has grown.
  pub Agrees-Backed :
      (index : SessionIndex)
      → CutsLines store
      → Agrees store options content index
      → All (Backed store options (content ++ more)) index.rows
  Agrees-Backed index cuts agrees =
      let lines = finished (drop (start store options) content) in
      let here : drop (start store options) (content ++ more)
          ≡ all_lines lines ++ (unfinished (drop (start store options) content) ++ more) =
        drop-append (start store options) content more agrees.within
        ∙ ap (λ s. s ++ more) (sym (all_lines-finished (drop (start store options) content)))
        ∙ append_assoc (all_lines lines) _ more in
      subst (All (Backed store options (content ++ more))) (sym agrees.rows) (
        read_lines-Backed store options (content ++ more) (beginning store options) lines _ cuts
          (ends_line-finished (drop (start store options) content)) here tt)
