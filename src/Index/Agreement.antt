-- ===== src/Index/Agreement.antt =====
-- The index agrees with a file: after `updateTraffic` or `rebuildTraffic` of
-- cli/web_incremental.go, whichever way it went, it holds the finished lines of the session's part.
use http_capture.Prelude.{
  ℕ, ◌≤◌, Bool, true, false, Bytes, List, [], some, ◌≡◌, ◌≢◌, ap, ◌∙◌, arith, if◌then◌else◌, length,
  drop, inl, inr,
}
use http_capture.Errors.{Error}
use http_capture.Effects.{ok, err, ◌>>=◌, Outcome-cases}
use http_capture.Session.Extract.{lines_of, offset_of}
use http_capture.Index.{
  TrafficScanOptions, TrafficCursor, IndexedRow, SessionIndex, Store, Opened, in_transaction,
  execute,
}
use http_capture.Index.Scan.{Progress, scan_lines}
use http_capture.Index.Split.{finished}
use http_capture.Index.Growth.{CutsLines, read_lines, read_lines-offset, scan-read}
use http_capture.Index.Traffic.{
  traffic_window_hashes, read_traffic, scan_file, scan_traffic, reset_rows, note_scan, cursor_of,
  error_of,
}

abbrev pub from : ℕ → ℕ → ℕ → List IndexedRow → Progress
from offset line_number skipped rows = record {
  offset = offset;
  line_number = line_number;
  skipped = skipped;
  rows = rows;
}

module _ (store : Store) (options : TrafficScanOptions) where
  abbrev pub start : ℕ
  start = offset_of options.start_offset

  -- Where a scan of the whole file begins, and where the scan of its finished lines ends.
  abbrev pub beginning : Progress
  beginning = record { offset = start; line_number = 0; skipped = 0; rows = [] }

  abbrev pub whole_scan : Bytes → Progress
  whole_scan content = read_lines store options beginning (finished (drop start content))

  pub record Agrees (content : Bytes) (index : SessionIndex) : Type 0 where
    pub cursor : TrafficCursor
    pub stored : index.cursor ≡ some cursor
    pub rows : index.rows ≡ (whole_scan content).rows
    pub offset : cursor.offset ≡ (whole_scan content).offset
    pub line_number : cursor.line_number ≡ (whole_scan content).line_number
    pub skipped : cursor.skipped ≡ (whole_scan content).skipped
    pub noted : index.index_error ≡ error_of (whole_scan content).skipped
    pub within : start ≤ length content

  module _ (file : Opened) where
    -- What a scan that succeeds leaves behind, by what it read.
    record Stored (done : Progress × (Bytes × Bytes)) (index : SessionIndex) : Type 0 where
      pub rows : index.rows ≡ done.0.rows
      pub cursor : index.cursor ≡ some (cursor_of file.file done.0 done.1)
      pub noted : index.index_error ≡ error_of done.0.skipped

    scan_traffic-Stored :
        (reset : Bool) (offset line_number skipped : ℕ) (index : SessionIndex)
        (done : Progress × (Bytes × Bytes))
        → read_traffic store options file
            (from offset line_number skipped (if reset then [] else index.rows))
          ≡ ok done
        → (scan_traffic store options reset file offset line_number skipped index).0 ≡ ok tt
        → Stored done (scan_traffic store options reset file offset line_number skipped index).1
    unfolding scan_traffic scan_file reset_rows note_scan in_transaction execute ◌>>=◌
    scan_traffic-Stored true offset line_number skipped index done e h = ground arith
    scan_traffic-Stored false offset line_number skipped index done e h = ground arith

    scan_traffic-fails :
        (reset : Bool) (offset line_number skipped : ℕ) (index : SessionIndex)
        → (e : Error)
        → read_traffic store options file
            (from offset line_number skipped (if reset then [] else index.rows))
          ≡ err e
        → (scan_traffic store options reset file offset line_number skipped index).0 ≢ ok tt
    unfolding scan_traffic scan_file reset_rows note_scan in_transaction execute ◌>>=◌
    scan_traffic-fails reset offset line_number skipped index x e h = ground arith

    read_traffic-ok :
        (p q : Progress) (hashes : Bytes × Bytes)
        → read_traffic store options file p ≡ ok (q, hashes)
        → (scan_lines store options p (lines_of (drop p.offset file.content)) ≡ ok q)
          × (q.offset ≤ length file.content)
    unfolding read_traffic traffic_window_hashes
    read_traffic-ok p q hashes h = ground arith

    Agrees-of_Stored :
        (q : Progress) (hashes : Bytes × Bytes) (index : SessionIndex)
        → Stored (q, hashes) index
        → q ≡ whole_scan file.content
        → start ≤ length file.content
        → Agrees file.content index
    Agrees-of_Stored q hashes index s same within = record {
      cursor = cursor_of file.file q hashes;
      stored = s.cursor;
      rows = s.rows ∙ ap (λ p. p.rows) same;
      offset = ap (λ p. p.offset) same;
      line_number = ap (λ p. p.line_number) same;
      skipped = ap (λ p. p.skipped) same;
      noted = s.noted ∙ ap (λ p. error_of p.skipped) same;
      within = within;
    }

    -- A scan from a place that the index has reached by itself.
    pub scan_traffic-Agrees :
        (reset : Bool) (offset line_number skipped : ℕ) (index : SessionIndex)
        → let p = from offset line_number skipped (if reset then [] else index.rows) in
          ((q : Progress)
            → scan_lines store options p (lines_of (drop offset file.content)) ≡ ok q
            → q.offset ≤ length file.content
            → (q ≡ whole_scan file.content) × (start ≤ length file.content))
          → (scan_traffic store options reset file offset line_number skipped index).0 ≡ ok tt
          → Agrees file.content
              (scan_traffic store options reset file offset line_number skipped index).1
    scan_traffic-Agrees reset offset line_number skipped index reaches h =
        let p = from offset line_number skipped (if reset then [] else index.rows) in
        elim (Outcome-cases (read_traffic store options file p)) [
          | inl ((q, hashes), read) ↦
              let (scanned, inside) = read_traffic-ok p q hashes read in
              let (same, within) = reaches q scanned inside in
              Agrees-of_Stored q hashes
                (scan_traffic store options reset file offset line_number skipped index).1
                (scan_traffic-Stored reset offset line_number skipped index (q, hashes) read h) same
                within
          | inr (e, read) ↦
              absurd (scan_traffic-fails reset offset line_number skipped index e read h)
        ]

    pub scan_again-Agrees :
        (index : SessionIndex)
        → CutsLines store
        → (scan_traffic store options true file start 0 0 index).0 ≡ ok tt
        → Agrees file.content (scan_traffic store options true file start 0 0 index).1
    scan_again-Agrees index cuts h = scan_traffic-Agrees true start 0 0 index reaches h
      where
        reaches :
            (q : Progress)
            → scan_lines store options (from start 0 0 []) (lines_of (drop start file.content))
              ≡ ok q
            → q.offset ≤ length file.content
            → (q ≡ whole_scan file.content) × (start ≤ length file.content)
        reaches q scanned inside =
            let same : q ≡ whole_scan file.content =
              scan-read store options beginning q (drop start file.content) scanned in
            let reached =
              read_lines-offset store options beginning (finished (drop start file.content)) cuts in
            (same, omega (arith, reached, ap (λ p. p.offset) same, inside))
