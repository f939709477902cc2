-- ===== src/Catalogue/Rescan.antt =====
-- The turns of `rescan` in cli/web_index.go: `upsertSession`, `updateTraffic` with `setIndexError`,
-- and `removeMissingSessions`.
use http_capture.Prelude.{
  Bool, true, false, not, ◌||◌, ℤ, negsuc, eq_int, Bytes, List, [], ◌∷◌, Option, none, some,
  if◌then◌else◌, str_eq,
}
use http_capture.Errors.{Error, sql_failed}
use http_capture.Effects.{
  Outcome, ok, err, ◌>>=◌, ◌>>◌, return, lift, gets, modify, attempt, refuse_if,
}
use http_capture.Index.{SessionIndex, TrafficCursor, clear, scan_failed, FileInfo, Scanning}
use http_capture.Index.Traffic.{update_traffic, same_file}
use http_capture.Catalogue.{
  SourceFingerprint, Kept, Rows, Lstat, DirectoryEntry, LibraryStatement, load_fingerprint,
  load_cursor, upsert, mark, delete_session, list_ids, Disk, Scan, find_row, put_row, delete_row,
  Candidate, candidate,
}

-- The traffic was modified since the last scan, by its time and its size.
abbrev is_modified : Option Kept → SourceFingerprint → Bool
is_modified none now = true
is_modified (some kept) now =
    not (eq_int kept.fingerprint.traffic_mtime_ns now.traffic_mtime_ns)
    || not (eq_int kept.fingerprint.traffic_size now.traffic_size)

abbrev cursor_of_row : Option Kept → Option TrafficCursor
cursor_of_row none = none
cursor_of_row (some kept) = kept.traffic.cursor

abbrev is_other_file : Option TrafficCursor → Lstat → Bool
is_other_file none info = true
is_other_file (some cursor) info = not info.known || not (same_file cursor.file info.file)

unfoldable pub set_traffic :
    Bytes → Kept → Rows → Outcome (Unit {0}) × SessionIndex → Outcome (Unit {0}) × Rows
set_traffic id kept rows (r, traffic) = (r, put_row id (record kept { traffic = traffic }) rows)

unfoldable pub run_on : Bytes → Scanning (Unit {0}) → Rows → Option Kept → Outcome (Unit {0}) × Rows
unfolding set_traffic
run_on id run rows none = (ok tt, rows)
run_on id run rows (some kept) = set_traffic id kept rows (run kept.traffic)

-- A run on the traffic of one session.
unfoldable pub on_traffic : Bytes → Scanning (Unit {0}) → Scan (Unit {0})
unfolding run_on
on_traffic id run rows = run_on id run rows (find_row id rows)

abbrev file_info : Option Lstat → Option FileInfo
file_info none = none
file_info (some info) = some (record { file = info.file; size = info.size })

abbrev size_before : Option Kept → Option ℤ
size_before none = none
size_before (some kept) = some kept.fingerprint.traffic_size

module _ (disk : Disk) where
  abbrev sql : LibraryStatement → Scan (Unit {0})
  sql statement = refuse_if (disk.refuses statement) sql_failed

  -- Traffic that looks the same may still be another file than the one of the cursor.
  unfoldable pub is_changed : Bytes → Option Kept → SourceFingerprint → Option Lstat → Scan Bool
  is_changed id previous now none = return (is_modified previous now)
  is_changed id previous now (some info) =
      if is_modified previous now
      then return true
      else do sql (load_cursor id); return (is_other_file (cursor_of_row previous) info)

  abbrev empty_traffic : SessionIndex
  empty_traffic = record {
    rows = [];
    cursor = none;
    epoch = 0;
    index_error = clear;
    indexed_at_ms = disk.now;
  }

  unfoldable pub upserted : Candidate → Option Kept → Kept
  upserted c none = record {
    source = c.source;
    fingerprint = c.fingerprint;
    traffic = empty_traffic;
  }
  upserted c (some kept) = record {
    source = c.source;
    fingerprint = c.fingerprint;
    traffic = record kept.traffic { indexed_at_ms = disk.now };
  }

  unfoldable pub upsert_session : Candidate → Option Kept → Scan (Unit {0})
  unfolding upserted
  upsert_session c previous = do
    sql (upsert c.id)
    modify (λ rows. put_row c.id (upserted c previous) rows)

  unfoldable pub marked : Error → Kept → Kept
  marked e kept = record {
    source = kept.source;
    fingerprint = record kept.fingerprint { traffic_mtime_ns = negsuc 0; traffic_size = negsuc 0 };
    traffic = record kept.traffic { index_error = scan_failed e; indexed_at_ms = disk.now };
  }

  unfoldable pub mark_row : Bytes → Error → Rows → Option Kept → Rows
  unfolding marked
  mark_row id e rows none = rows
  mark_row id e rows (some kept) = put_row id (marked e kept) rows

  -- The error of an update stands in the row, which the next scan takes for modified.
  unfoldable pub set_index_error : Bytes → Outcome (Unit {0}) → Scan (Unit {0})
  unfolding mark_row
  set_index_error id (ok u) = return tt
  set_index_error id (err e) = do
    sql (mark id)
    modify (λ rows. mark_row id e rows (find_row id rows))

  unfoldable pub refresh_traffic : Candidate → Option Kept → Bool → Scan (Unit {0})
  refresh_traffic c previous changed = if not changed then return tt else do
    updated ← attempt (
        on_traffic c.id (
          update_traffic (disk.store c.id) c.options (file_info c.traffic) (size_before previous)
            (disk.open_traffic c.traffic_path)))
    set_index_error c.id updated

  -- One turn of the loop.
  unfoldable pub scan_entry : Option Candidate → Scan (Unit {0})
  scan_entry none = return tt
  scan_entry (some c) = do
    sql (load_fingerprint c.id)
    previous ← gets (find_row c.id)
    changed ← is_changed c.id previous c.fingerprint c.traffic
    upsert_session c previous
    refresh_traffic c previous changed

  unfoldable pub scan_entries : List DirectoryEntry → Scan (Unit {0})
  scan_entries [] = return tt
  scan_entries (entry ∷ entries) = scan_entry (candidate disk entry) >>= λ u. scan_entries entries

  -- Whether a session was seen.
  unfoldable pub is_seen : Bytes → List DirectoryEntry → Bool
  is_seen id [] = false
  is_seen id (entry ∷ entries) = elim (candidate disk entry) [
    | none ↦ is_seen id entries
    | some c ↦ str_eq c.id id || is_seen id entries
  ]

  unfoldable pub missing_ids : List DirectoryEntry → Rows → List Bytes
  missing_ids seen [] = []
  missing_ids seen ((id, kept) ∷ rows) =
      let others = missing_ids seen rows in if is_seen id seen then others else id ∷ others

  unfoldable pub delete_missing : List Bytes → Scan (Unit {0})
  delete_missing [] = return tt
  delete_missing (id ∷ ids) =
      (sql (delete_session id) >> modify (delete_row id)) >>= λ u. delete_missing ids

  unfoldable pub remove_missing_sessions : List DirectoryEntry → Scan (Unit {0})
  remove_missing_sessions seen = do
    sql list_ids
    missing ← gets (missing_ids seen)
    delete_missing missing

  unfoldable pub rescan_sessions : Scan (Unit {0})
  rescan_sessions = do
    entries ← lift disk.entries
    scan_entries entries
    remove_missing_sessions entries
