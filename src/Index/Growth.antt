-- ===== src/Index/Growth.antt =====
-- A file that grows: reading on from the cursor gives what reading all over again gives.
use http_capture.Prelude.{
  ℕ, ◌+◌, true, false, Bytes, List, [], ◌∷◌, ◌++◌, ◌≡◌, refl, ap, ◌∙◌, subst, arith, All, length,
  Bool-cases, inl, inr,
}
use http_capture.Effects.{ok}
use http_capture.Session.Extract.{lines_of}
use http_capture.Lines.{read_json_line, whole_line, line_of, read_json_line-whole_line}
use http_capture.Index.{TrafficScanOptions, Store}
use http_capture.Index.Scan.{
  Progress, Note, advance, note_line, take_line, insertion_fails, scan_lines, ends_line,
}
use http_capture.Index.Split.{
  finished, unfinished, as_lines, lines_length, lines_of-finished, ends_line-finished,
  ends_line-unfinished,
}

-- bufio gives the whole line, in pieces.
abbrev pub CutsLines : Store → Type 0
CutsLines store = (line : Bytes) → line_of (store.cut line) ≡ line

advance-offset :
    (p : Progress) (size : ℕ) (note : Note) → (advance p size note).offset ≡ p.offset + size
unfolding advance
advance-offset p size Note.passed = refl
advance-offset p size Note.damaged = refl
advance-offset p size (Note.indexed row) = refl

whole_line-consumed :
    (maximum : ℕ) (line : Bytes) → (whole_line maximum line).consumed ≡ length line
unfolding whole_line
whole_line-consumed maximum line = ground arith

module _ (store : Store) (options : TrafficScanOptions) where
  -- What the loop makes of finished lines.
  unfoldable pub read_lines : Progress → List Bytes → Progress
  read_lines p [] = p
  read_lines p (line ∷ lines) = read_lines (take_line store options p line) lines

  pub read_lines-append :
      (p : Progress) (lines more : List Bytes)
      → read_lines p (lines ++ more) ≡ read_lines (read_lines p lines) more
  unfolding read_lines
  read_lines-append p [] more = refl
  read_lines-append p (line ∷ lines) more =
      read_lines-append (take_line store options p line) lines more

  pub take_line-offset :
      (p : Progress) (line : Bytes)
      → CutsLines store
      → (take_line store options p line).offset ≡ p.offset + length line
  unfolding take_line
  take_line-offset p line cuts =
      let read = read_json_line-whole_line store.maximum (store.cut line) in
      let size =
        ap (λ r. r.consumed) read ∙ whole_line-consumed store.maximum (line_of (store.cut line)) in
      omega (
        arith,
        size,
        ap length (cuts line),
        advance-offset p (read_json_line store.maximum (store.cut line)).consumed
            (note_line store options p (read_json_line store.maximum (store.cut line))),
      )

  pub read_lines-offset :
      (p : Progress) (lines : List Bytes)
      → CutsLines store
      → (read_lines p lines).offset ≡ p.offset + lines_length lines
  unfolding read_lines lines_length
  read_lines-offset p [] cuts = omega arith
  read_lines-offset p (line ∷ lines) cuts = omega (
    arith,
    take_line-offset p line cuts,
    read_lines-offset (take_line store options p line) lines cuts,
  )

  -- A scan that ends reads the finished lines, and stops at the unfinished one.
  scan_lines-read_lines :
      (p q : Progress) (lines : List Bytes) (rest : Bytes)
      → All (λ line. ends_line line ≡ true) lines
      → ends_line rest ≡ false
      → scan_lines store options p (lines ++ as_lines rest) ≡ ok q
      → q ≡ read_lines p lines
  unfolding scan_lines read_lines as_lines
  scan_lines-read_lines p q [] [] all stops h = cc h
  scan_lines-read_lines p q [] (c ∷ rest) all stops h = cc (simp stops at h)
  scan_lines-read_lines p q (line ∷ lines) rest (ends, all) stops h =
      elim (Bool-cases (
        insertion_fails store
          (note_line store options p (read_json_line store.maximum (store.cut line))))) [
            | inl fails ↦ absurd (cc (simp (ends, fails) at h))
            | inr goes ↦
                scan_lines-read_lines (take_line store options p line) q lines rest all stops
                  (simp (ends, goes) at h)
          ]

  pub scan-read :
      (p q : Progress) (s : Bytes)
      → scan_lines store options p (lines_of s) ≡ ok q
      → q ≡ read_lines p (finished s)
  scan-read p q s h =
      scan_lines-read_lines p q (finished s) (unfinished s) (ends_line-finished s)
        (ends_line-unfinished s)
        (subst (λ l. scan_lines store options p l ≡ ok q) (lines_of-finished s) h)
