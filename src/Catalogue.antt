-- ===== src/Catalogue.antt =====
-- All sessions of the index, `rescan` of cli/web_index.go with `fingerprint`, `upsertSession`,
-- `sessionTrafficSource`, `setIndexError` and `removeMissingSessions`: what a scan of the session
-- directories makes of the database. The traffic of each session is one of Index.
pub mod Rescan
pub mod Lookup
pub mod Frames
pub mod Missing
pub mod Refinement
use http_capture.Prelude.{
  ℕ, Bool, true, false, not, ◌&&◌, ◌||◌, ◌==◌, ℤ, pos, negsuc, ltb_int, eq_int, Bytes, codes, List,
  [], ◌∷◌, Option, none, some, if◌then◌else◌, str_eq, has_prefix, trim_space,
}
use http_capture.Errors.{Error, not_exist, sql_failed}
use http_capture.Effects.{
  Outcome, ok, err, M, ◌>>=◌, ◌>>◌, return, fail, lift, gets, modify, attempt, refuse_if,
}
use http_capture.Paths.{join, clean}
use http_capture.Words.{is_session_id}
use http_capture.World.{SessionState}
use http_capture.Session.{engine_proxify}
use http_capture.Index.{
  TrafficScanOptions, SessionIndex, TrafficCursor, IndexError, clear, scan_failed, FileId, FileInfo,
  Opened, Store, Scanning,
}
use http_capture.Index.Traffic.{update_traffic, same_file}

-- The columns of a session that its directory tells.
pub record Source : Type 0 where
  pub directory : Bytes
  pub capture_id : Bytes
  pub metadata : SessionState
  pub has_har : Bool

pub record SourceFingerprint : Type 0 where
  pub meta_mtime_ns : ℤ
  pub meta_size : ℤ
  pub traffic_mtime_ns : ℤ
  pub traffic_size : ℤ

-- A row of `sessions` with what refers to it.
pub record Kept : Type 0 where
  pub source : Source
  pub fingerprint : SourceFingerprint
  pub traffic : SessionIndex

-- The rows by their ids.
abbrev pub Rows : Type 0
Rows = List (Bytes × Kept)

-- A regular file, as `os.Lstat` shows it.
pub record Lstat : Type 0 where
  pub mtime_ns : ℤ
  pub size : ℤ
  pub file : FileId
  pub known : Bool

pub record DirectoryEntry : Type 0 where
  pub name : Bytes
  -- a directory, and no symbolic link
  pub is_directory : Bool

pub data LibraryStatement : Type 0 where
  load_fingerprint load_cursor upsert mark delete_session : Bytes → LibraryStatement
  list_ids : LibraryStatement

-- What a scan finds: the files, and which statements the database refuses.
pub record Disk : Type 0 where
  pub root : Bytes
  pub now : ℤ
  pub entries : Outcome (List DirectoryEntry)
  pub regular_file : Bytes → Option Lstat
  -- a file of metadata that can be read, is not too long and is JSON
  pub read_metadata : Bytes → Option SessionState
  pub open_traffic : Bytes → Outcome Opened
  -- `readState`
  pub active : Outcome SessionState
  pub refuses : LibraryStatement → Bool
  pub store : Bytes → Store

abbrev pub Scan : Type 0 → Type 0
Scan A = M Rows A

unfoldable pub find_row : Bytes → Rows → Option Kept
find_row id [] = none
find_row id ((name, kept) ∷ rows) = if str_eq name id then some kept else find_row id rows

-- A row under its primary key.
unfoldable pub put_row : Bytes → Kept → Rows → Rows
put_row id new [] = (id, new) ∷ []
put_row id new ((name, kept) ∷ rows) =
    let others = put_row id new rows in
    if str_eq name id then (name, new) ∷ rows else (name, kept) ∷ others

unfoldable pub delete_row : Bytes → Rows → Rows
delete_row id [] = []
delete_row id ((name, kept) ∷ rows) =
    let others = delete_row id rows in if str_eq name id then others else (name, kept) ∷ others

-- `isCurrentActiveSession`.
unfoldable pub is_current_active_session : Outcome SessionState → SessionState → Bool
is_current_active_session (err e) metadata = false
is_current_active_session (ok active) metadata =
    str_eq active.status (codes "recording")
    && str_eq active.capture_id metadata.capture_id
    && str_eq (clean active.session_dir) (clean metadata.session_dir)
    && str_eq active.traffic_source metadata.traffic_source
    && eq_int active.start_offset metadata.start_offset
    && eq_int active.started_ms metadata.started_ms
    && str_eq active.client_ip metadata.client_ip

abbrev pub no_options : TrafficScanOptions
no_options = record { start_offset = pos 0; start_ms = pos 0; client_ip = [] }

unfoldable pub session_traffic_source :
    Outcome SessionState → Bytes → SessionState → Bytes × TrafficScanOptions
session_traffic_source active directory metadata =
    if str_eq metadata.engine engine_proxify
      && str_eq metadata.status (codes "recording")
      && not (str_eq metadata.traffic_source [])
      && is_current_active_session active metadata
    then (
      metadata.traffic_source,
      record {
        start_offset = metadata.start_offset;
        start_ms = metadata.started_ms;
        client_ip = metadata.client_ip;
      },
    )
    else (join directory (codes "traffic.jsonl"), no_options)

-- `valueOrDefault`.
abbrev value_or_default : Bytes → Bytes → Bytes
value_or_default value fallback = if str_eq (trim_space value) [] then fallback else value

abbrev has_content : Option Lstat → Bool
has_content none = false
has_content (some info) = ltb_int (pos 0) info.size

-- The times and sizes that tell whether something has changed.
abbrev fingerprint_of : Lstat → Option Lstat → SourceFingerprint
fingerprint_of meta none = record {
  meta_mtime_ns = meta.mtime_ns;
  meta_size = meta.size;
  traffic_mtime_ns = pos 0;
  traffic_size = pos 0;
}
fingerprint_of meta (some traffic) = record {
  meta_mtime_ns = meta.mtime_ns;
  meta_size = meta.size;
  traffic_mtime_ns = traffic.mtime_ns;
  traffic_size = traffic.size;
}

-- A directory that is a session: its files.
pub record Candidate : Type 0 where
  pub id : Bytes
  pub source : Source
  pub fingerprint : SourceFingerprint
  pub traffic_path : Bytes
  pub traffic : Option Lstat
  pub options : TrafficScanOptions

module _ (disk : Disk) where
  candidate_of : Bytes → Lstat → SessionState → Candidate
  candidate_of name meta metadata =
      let directory = join disk.root name in
      let (path, options) = session_traffic_source disk.active directory metadata in
      let traffic = disk.regular_file path in
      record {
        id = name;
        source = record {
          directory = directory;
          capture_id = value_or_default metadata.capture_id name;
          metadata = metadata;
          has_har = has_content (disk.regular_file (join directory (codes "session.har")));
        };
        fingerprint = fingerprint_of meta traffic;
        traffic_path = path;
        traffic = traffic;
        options = options;
      }

  with_metadata : Bytes → Option Lstat → Option SessionState → Option Candidate
  unfolding candidate_of
  with_metadata name none found = none
  with_metadata name (some meta) none = none
  with_metadata name (some meta) (some metadata) = some (candidate_of name meta metadata)

  -- What the loop passes over: files and links, hidden names, names that are no ids, and
  -- directories without metadata.
  unfoldable pub candidate : DirectoryEntry → Option Candidate
  unfolding with_metadata
  candidate entry =
      let path = join (join disk.root entry.name) (codes "meta.json") in
      if not entry.is_directory
        || has_prefix entry.name (codes ".")
        || not (is_session_id entry.name)
      then none
      else with_metadata entry.name (disk.regular_file path) (disk.read_metadata path)
