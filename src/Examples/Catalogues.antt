-- ===== src/Examples/Catalogues.antt =====
-- A scan of a directory with one session, over an index that lists another one.
use http_capture.Prelude.{
  pos, codes, List, [], ◌∷◌, none, some, false, true, ◌≡◌, refl, str_eq, if◌then◌else◌, trim_space,
  has_prefix, contains_byte,
}
use http_capture.Errors.{not_exist}
use http_capture.Effects.{ok, err, ◌>>=◌}
use http_capture.Paths.{join}
use http_capture.Words.{is_session_id}
use http_capture.Catalogue.{
  Rows, Lstat, DirectoryEntry, Disk, find_row, put_row, delete_row, candidate,
  session_traffic_source,
}
use http_capture.Index.{in_transaction, execute}
use http_capture.Index.Traffic.{
  update_traffic, rebuild_traffic, scan_nothing, scan_traffic, scan_file, reset_rows, note_scan,
}
use http_capture.Catalogue.Rescan.{
  mark_row, run_on, is_changed, on_traffic, upsert_session, set_index_error, refresh_traffic,
  scan_entry, scan_entries, is_seen, missing_ids, delete_missing, remove_missing_sessions,
  rescan_sessions,
}
use http_capture.Catalogue.Frames.{shown}
use http_capture.Catalogue.Refinement.{catalogue, rescan_sessions-catalogue}
use http_capture.Examples.Data.{session_one}
use http_capture.Examples.Indexes.{store, empty_index}

abbrev note : Lstat
note = record {
  mtime_ns = pos 3;
  size = pos 9;
  file = record { device = 1; inode = 4 };
  known = true;
}

abbrev entries : List DirectoryEntry
entries =
    record { name = codes "notes"; is_directory = false }
    ∷ record { name = codes "20260101-a"; is_directory = true }
    ∷ []

-- The traffic of the session cannot be opened.
abbrev disk : Disk
disk = record {
  root = codes "/s";
  now = pos 50;
  entries = ok entries;
  regular_file = λ path. if str_eq path (codes "/s/20260101-a/meta.json") then some note else none;
  read_metadata = λ path. some session_one;
  open_traffic = λ path. err (not_exist (codes "x"));
  active = err (not_exist (codes "x"));
  refuses = λ statement. false;
  store = λ id. store;
}

abbrev listed_before : Rows
listed_before =
    (
      codes "20250101-old",
      record {
        source = record {
          directory = codes "/s/20250101-old";
          capture_id = codes "20250101-old";
          metadata = session_one;
          has_har = false;
        };
        fingerprint = record {
          meta_mtime_ns = pos 1;
          meta_size = pos 1;
          traffic_mtime_ns = pos 1;
          traffic_size = pos 1;
        };
        traffic = empty_index;
      },
    )
    ∷ []

rescan_runs : (rescan_sessions disk listed_before).0 ≡ ok tt
unfolding rescan_sessions ◌>>=◌ scan_entries remove_missing_sessions scan_entry candidate has_prefix
    is_session_id str_eq join is_changed session_traffic_source upsert_session refresh_traffic
    find_row set_index_error on_traffic put_row update_traffic rebuild_traffic delete_missing
    is_seen mark_row missing_ids run_on delete_row trim_space scan_nothing scan_traffic scan_file
    in_transaction execute reset_rows note_scan contains_byte
rescan_runs = refl

rescan_sessions-catalogue_example :
    shown (codes "20250101-old") (rescan_sessions disk listed_before).1
    ≡ catalogue disk (codes "20250101-old") entries none
rescan_sessions-catalogue_example =
    rescan_sessions-catalogue disk listed_before entries refl rescan_runs (codes "20250101-old")
