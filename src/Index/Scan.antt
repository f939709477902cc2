-- ===== src/Index/Scan.antt =====
-- The loop of `scanTraffic`, cli/web_incremental.go, over the lines of a file.
use http_capture.Prelude.{
  ℕ, suc, ◌+◌, Bool, false, not, ◌&&◌, ◌||◌, ◌==◌, pos, leb_int, eq_int, Bytes, List, [], ◌∷◌, ◌++◌,
  Option, none, some, if◌then◌else◌, str_eq, trim_space,
}
use http_capture.Errors.{sql_failed}
use http_capture.Effects.{Outcome, ok, err}
use http_capture.Captured.{CapturedTransaction, capture_schema_version, client_address_matches}
use http_capture.Lines.{LineRead, read_json_line}
use http_capture.Index.{TrafficScanOptions, IndexedRow, Store, insert_row}
use http_capture.Index.Row.{indexed_row}

-- The variables of the loop: of the cursor, and the rows inserted.
pub record Progress : Type 0 where
  pub offset : ℕ
  pub line_number : ℕ
  pub skipped : ℕ
  pub rows : List IndexedRow

-- What a line comes to.
pub data Note : Type 0 where
  passed damaged : Note
  indexed : IndexedRow → Note

-- `ReadSlice` found the newline: it stands at the end.
unfoldable pub ends_line : Bytes → Bool
ends_line [] = false
ends_line (c ∷ []) = c == b'\n'
ends_line (c ∷ d ∷ s) = ends_line (d ∷ s)

-- The cursor moves on past every finished line.
unfoldable pub advance : Progress → ℕ → Note → Progress
advance p size passed = record p { offset = p.offset + size; line_number = suc p.line_number }
advance p size damaged = record p {
  offset = p.offset + size;
  line_number = suc p.line_number;
  skipped = suc p.skipped;
}
advance p size (indexed row) = record p {
  offset = p.offset + size;
  line_number = suc p.line_number;
  rows = p.rows ++ (row ∷ []);
}

-- A row whose insertion the database refuses ends the scan.
unfoldable pub insertion_fails : Store → Note → Bool
insertion_fails store passed = false
insertion_fails store damaged = false
insertion_fails store (indexed row) = store.refuses (insert_row row.line_number)

module _ (store : Store) (options : TrafficScanOptions) where
  -- Whether a record belongs to the live part of a session; archived traffic has no limits.
  unfoldable pub is_indexable : CapturedTransaction → Bool
  is_indexable captured =
      (eq_int options.start_ms (pos 0) || leb_int options.start_ms captured.timestamp_millis)
      && (str_eq options.client_ip []
          || client_address_matches captured.client_address options.client_ip)

  unfoldable pub note_record : Progress → ℕ → Option CapturedTransaction → Note
  note_record p size none = damaged
  note_record p size (some captured) =
      if not (eq_int captured.schema_version (pos capture_schema_version))
      then damaged
      else if is_indexable captured
      then indexed (indexed_row store (suc p.line_number) p.offset size captured)
      else passed

  unfoldable pub note_line : Progress → LineRead → Note
  note_line p line =
      if line.oversized
      then damaged
      else if str_eq (trim_space line.result) []
      then passed
      else note_record p line.consumed (store.decode line.result)

  unfoldable pub take_line : Progress → Bytes → Progress
  take_line p line =
      let read = read_json_line store.maximum (store.cut line) in
      advance p read.consumed (note_line p read)

  -- A last line without its newline is left for the next scan.
  unfoldable pub scan_lines : Progress → List Bytes → Outcome Progress
  scan_lines p [] = ok p
  scan_lines p (line ∷ lines) =
      let rest = scan_lines (take_line p line) lines in
      if not (ends_line line)
      then ok p
      else if insertion_fails store (note_line p (read_json_line store.maximum (store.cut line)))
      then err sql_failed
      else rest
