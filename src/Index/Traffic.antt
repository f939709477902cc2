-- ===== src/Index/Traffic.antt =====
-- The cursor on a session's traffic: `updateTraffic`, `rebuildTraffic`, `scanTraffic` and
-- `trafficWindowHashes` of cli/web_incremental.go.
use http_capture.Prelude.{
  ℕ, suc, ◌-◌, min, Bool, true, false, not, ◌&&◌, ◌||◌, ◌==◌, ltb, ℤ, pos, ltb_int, Bytes, List, [],
  Option, none, some, if◌then◌else◌, str_eq, length, take, drop,
}
use http_capture.Errors.{offset_beyond_file, file_replaced, file_unreadable}
use http_capture.Effects.{Outcome, ok, err, ◌>>=◌, ◌>>◌, return, lift, gets, modify, refuse_if}
use http_capture.Session.Extract.{lines_of, offset_of}
use http_capture.Index.{
  TrafficScanOptions, IndexedRow, FileId, TrafficCursor, IndexError, clear, skipped_lines,
  SessionIndex, begin, delete_text, delete_rows, count_reset, delete_cursor, note_session,
  save_cursor, commit, load_cursor, Opened, FileInfo, Store, Scanning, in_transaction, execute,
}
use http_capture.Index.Scan.{Progress, scan_lines}

unfoldable pub same_file : FileId → FileId → Bool
same_file a b = a.device == b.device && a.inode == b.inode

abbrev no_change : SessionIndex → SessionIndex
no_change index = index

-- The bytes at the start and at the end of what is behind the cursor, 4096 at most. Reading beyond
-- the end of the file is an error.
unfoldable pub traffic_window_hashes : Store → Bytes → ℕ → Outcome (Bytes × Bytes)
traffic_window_hashes store content offset =
    if offset == 0
    then ok ([], [])
    else if ltb (length content) offset
    then err file_unreadable
    else ok (
      store.sha256_hex (take (min offset 4096) content),
      store.sha256_hex (take (offset - (offset - 4096)) (drop (offset - 4096) content)),
    )

abbrev pub error_of : ℕ → IndexError
error_of skipped = if ltb 0 skipped then skipped_lines skipped else clear

abbrev with_rows : List IndexedRow → SessionIndex → SessionIndex
with_rows rows index = record index { rows = rows }

abbrev pub cursor_of : FileId → Progress → Bytes × Bytes → TrafficCursor
cursor_of file p hashes = record {
  file = file;
  offset = p.offset;
  line_number = p.line_number;
  skipped = p.skipped;
  head_hash = hashes.0;
  tail_hash = hashes.1;
}

module _ (store : Store) (options : TrafficScanOptions) where
  unfoldable pub reset_rows : Scanning (Unit {0})
  reset_rows = do
    execute store delete_text no_change
    execute store delete_rows (λ index. record index { rows = [] })
    execute store count_reset (λ index. record index { epoch = suc index.epoch })

  unfoldable pub note_scan : ℕ → Scanning (Unit {0})
  note_scan skipped =
      execute store note_session
        (λ index. record index { index_error = error_of skipped; indexed_at_ms = store.now })

  -- The loop on an open file, and the hashes of what it has read.
  unfoldable pub read_traffic : Opened → Progress → Outcome (Progress × (Bytes × Bytes))
  read_traffic file p = elim (scan_lines store options p (lines_of (drop p.offset file.content))) [
    | err e ↦ err e
    | ok q ↦
        if file.broken
        then err file_unreadable
        else elim (traffic_window_hashes store file.content q.offset) [
          | err e ↦ err e
          | ok hashes ↦ ok (q, hashes)
        ]
  ]

  unfoldable pub scan_file : Opened → ℕ → ℕ → ℕ → Scanning (Unit {0})
  scan_file file offset line_number skipped = do
    rows ← gets (λ index. index.rows)
    let from : Progress = record {
      offset = offset;
      line_number = line_number;
      skipped = skipped;
      rows = rows;
    }
    done ← lift (read_traffic file from)
    modify (with_rows done.0.rows)
    note_scan done.0.skipped
    execute store save_cursor
        (λ index. record index { cursor = some (cursor_of file.file done.0 done.1) })
    execute store commit no_change

  -- `scanTraffic` with a file: the rows of the session are deleted first if `reset` is set.
  unfoldable pub scan_traffic : Bool → Opened → ℕ → ℕ → ℕ → Scanning (Unit {0})
  scan_traffic reset file offset line_number skipped = in_transaction (do
    execute store begin no_change
    if reset then reset_rows else return tt
    scan_file file offset line_number skipped)

  -- `scanTraffic` with no file.
  unfoldable pub scan_nothing : Scanning (Unit {0})
  scan_nothing = in_transaction (do
    execute store begin no_change
    reset_rows
    execute store delete_cursor (λ index. record index { cursor = none })
    note_scan 0
    execute store commit no_change)

  unfoldable pub rebuild_traffic : Option FileInfo → Outcome Opened → Scanning (Unit {0})
  rebuild_traffic none opened = scan_nothing
  rebuild_traffic (some info) opened = do
    refuse_if (ltb_int options.start_offset (pos 0) || ltb_int info.size options.start_offset)
        offset_beyond_file
    file ← lift opened
    refuse_if (not (same_file info.file file.file)) file_replaced
    scan_traffic true file (offset_of options.start_offset) 0 0

  -- Whether the cursor is one on the start of this file.
  abbrev is_cursor_of : TrafficCursor → FileInfo → Opened → Bool
  is_cursor_of cursor info file =
      file.known
      && same_file info.file file.file
      && same_file cursor.file file.file
      && not (ltb (length file.content) cursor.offset)

  abbrev has_hashes : TrafficCursor → Bytes × Bytes → Bool
  has_hashes cursor hashes = str_eq hashes.0 cursor.head_hash && str_eq hashes.1 cursor.tail_hash

  -- From the cursor on, if what is behind it looks as it did; all over again otherwise.
  unfoldable pub continue_from :
      TrafficCursor → FileInfo → Outcome Opened → Opened → Scanning (Unit {0})
  continue_from cursor info opened file =
      if not (is_cursor_of cursor info file) then rebuild_traffic (some info) opened else do
        hashes ← lift (traffic_window_hashes store file.content cursor.offset)
        if has_hashes cursor hashes
            then scan_traffic false file cursor.offset cursor.line_number cursor.skipped
            else rebuild_traffic (some info) opened

  unfoldable pub with_cursor :
      FileInfo → Outcome Opened → Option TrafficCursor → Scanning (Unit {0})
  with_cursor info opened none = rebuild_traffic (some info) opened
  with_cursor info opened (some cursor) = do
    file ← lift opened
    continue_from cursor info opened file

  -- A file that has not grown since the size of before, if there is one, is read all over again.
  abbrev has_grown : Option ℤ → ℤ → Bool
  has_grown none size = false
  has_grown (some before) size = ltb_int before size

  unfoldable pub update_traffic : Option FileInfo → Option ℤ → Outcome Opened → Scanning (Unit {0})
  update_traffic none previous opened = rebuild_traffic none opened
  update_traffic (some info) previous opened =
      if not (has_grown previous info.size) then rebuild_traffic (some info) opened else do
        execute store load_cursor no_change
        cursor ← gets (λ index. index.cursor)
        with_cursor info opened cursor
