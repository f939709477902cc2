-- ===== src/Details.antt =====
-- One request of the index, read from the file that its row points into: `requestTransaction` and
-- `indexedTrafficPath` of cli/web_index.go.
pub mod Readback
pub mod Display
pub mod Page
use http_capture.Prelude.{
  ℕ, Bool, true, false, not, ◌&&◌, ◌||◌, ltb, ◌==◌, ℤ, Bytes, codes, List, [], ◌∷◌, Option, none,
  some, if◌then◌else◌, str_eq, trim_space, drop,
}
use http_capture.Errors.{
  Error, invalid_session_id, sql_failed, not_exist, record_too_large, record_changed,
}
use http_capture.Effects.{Outcome, ok, err}
use http_capture.Paths.{join}
use http_capture.Words.{is_session_id}
use http_capture.World.{SessionState}
use http_capture.Session.{engine_proxify}
use http_capture.Captured.{CapturedTransaction}
use http_capture.Index.{IndexedRow, FileId, TrafficCursor}
use http_capture.Index.Traffic.{same_file}
use http_capture.Index.Records.{read_at}
use http_capture.Catalogue.{Kept, Rows, Lstat, find_row}
use http_capture.Web.{Site, ensure_path_within}

-- The database and the files as one reply finds them.
pub record Archive : Type 0 where
  pub rows : Rows
  pub query_refused : Bool
  -- the row of `requests` that has this key
  pub row_with : ℤ → List IndexedRow → Option IndexedRow
  pub regular_file : Bytes → Option Lstat
  -- a file of metadata that can be read, is not too long and is JSON
  pub read_metadata : Bytes → Option SessionState
  pub is_absolute : Bytes → Bool
  -- the bytes of a file that can be opened and read
  pub open_file : Bytes → Outcome Bytes
  pub decode : Bytes → Option CapturedTransaction

pub record Located : Type 0 where
  pub directory : Bytes
  pub row : IndexedRow
  pub file : FileId

unfoldable pub located_in : Kept → Option IndexedRow → Option TrafficCursor → Option Located
located_in kept none cursor = none
located_in kept (some row) none = none
located_in kept (some row) (some cursor) =
    some (record { directory = kept.source.directory; row = row; file = cursor.file })

-- The largest line that is indexed.
abbrev pub maximum_line : ℕ
maximum_line = 33554432

module _ (site : Site) (archive : Archive) where
  located : ℤ → Option Kept → Option Located
  unfolding located_in
  located key none = none
  located key (some kept) =
      located_in kept (archive.row_with key kept.traffic.rows) kept.traffic.cursor

  unfoldable pub is_that_file : FileId → Option Lstat → Bool
  is_that_file file none = false
  is_that_file file (some info) = info.known && same_file info.file file

  -- The traffic that a session of Proxify was taken from.
  unfoldable pub live_source : Option SessionState → List Bytes
  live_source none = []
  live_source (some metadata) =
      if str_eq metadata.engine engine_proxify && archive.is_absolute metadata.traffic_source
      then metadata.traffic_source ∷ []
      else []

  unfoldable pub first_of_file : FileId → List Bytes → Outcome Bytes
  unfolding is_that_file
  first_of_file file [] = err record_changed
  first_of_file file (path ∷ paths) =
      let others = first_of_file file paths in
      if is_that_file file (archive.regular_file path) then ok path else others

  unfoldable pub path_from : FileId → List Bytes → Outcome (Unit {0}) → Outcome Bytes
  unfolding first_of_file
  path_from file paths (err e) = err e
  path_from file paths (ok u) = first_of_file file paths

  -- The archive, or the live file, if it is the file of the cursor.
  unfoldable pub indexed_traffic_path : Bytes → FileId → Outcome Bytes
  unfolding live_source path_from
  indexed_traffic_path directory file =
      let path = join directory (codes "traffic.jsonl") in
      path_from file
        (path ∷ live_source (archive.read_metadata (join directory (codes "meta.json"))))
        (ensure_path_within site site.root path)

  decoded : Option CapturedTransaction → Outcome CapturedTransaction
  decoded none = err record_changed
  decoded (some captured) = ok captured

  read_record : IndexedRow → Outcome Bytes → Outcome CapturedTransaction
  unfolding decoded
  read_record row (err e) = err e
  read_record row (ok content) =
      decoded (archive.decode (trim_space (read_at row.byte_length (drop row.byte_offset content))))

  open_record : IndexedRow → Outcome Bytes → Outcome CapturedTransaction
  unfolding read_record
  open_record row (err e) = err e
  open_record row (ok path) = read_record row (archive.open_file path)

  located_transaction : Bytes → Option Located → Outcome CapturedTransaction
  unfolding open_record
  located_transaction id none = err (not_exist id)
  located_transaction id (some found) =
      if found.row.byte_length == 0 || ltb maximum_line found.row.byte_length
      then err record_too_large
      else open_record found.row (indexed_traffic_path found.directory found.file)

  unfoldable pub request_transaction : Bytes → ℤ → Outcome CapturedTransaction
  unfolding located located_transaction
  request_transaction id key =
      if not (is_session_id id)
      then err invalid_session_id
      else if archive.query_refused
      then err sql_failed
      else located_transaction id (located key (find_row id archive.rows))
