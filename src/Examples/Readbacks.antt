-- ===== src/Examples/Readbacks.antt =====
-- A request is opened after the file of its session has grown.
use http_capture.Prelude.{
  pos, codes, List, [], ◌∷◌, ◌++◌, Option, none, some, ◌≡◌, refl, ap, subst, sym, true, false,
  str_eq, trim_space, arith, ◌&&◌, has_prefix, contains_byte, trim_prefix,
}
use mathlib.Core.List.{Memᴰ}
use mathlib.Core.List.Memᴰ.{head}
use http_capture.Effects.{ok, ◌>>=◌}
use http_capture.Paths.{join}
use http_capture.Words.{is_session_id}
use http_capture.Session.Extract.{lines_of}
use http_capture.Lines.{read_json_line, read_fragments, add_fragment}
use http_capture.Index.{IndexedRow, TrafficCursor, in_transaction, execute}
use http_capture.Index.Row.{indexed_row}
use http_capture.Index.Scan.{
  scan_lines, take_line, note_line, note_record, is_indexable, advance, insertion_fails, ends_line,
}
use http_capture.Index.Traffic.{
  same_file, traffic_window_hashes, read_traffic, scan_file, scan_traffic, reset_rows, note_scan,
}
use http_capture.Catalogue.{Kept, Lstat, find_row}
use http_capture.Web.{ensure_path_within}
use http_capture.Details.{Archive, request_transaction}
use http_capture.Details.Readback.{IsReadBack, request_transaction-IsReadBack}
use http_capture.Examples.Data.{session_one}
use http_capture.Examples.Rules.{exchange}
use http_capture.Examples.Indexes.{store, cuts, everything, one_line, first_scan, first_scan-Agrees}
use http_capture.Examples.Browsers.{local_site}

abbrev kept : Kept
kept = record {
  source = record {
    directory = codes "/s/a";
    capture_id = codes "a";
    metadata = session_one;
    has_har = false;
  };
  fingerprint = record {
    meta_mtime_ns = pos 1;
    meta_size = pos 1;
    traffic_mtime_ns = pos 1;
    traffic_size = pos 1;
  };
  traffic = first_scan.1;
}

abbrev first_row : List IndexedRow → Option IndexedRow
first_row [] = none
first_row (row ∷ rows) = some row

abbrev file_now : Lstat
file_now = record {
  mtime_ns = pos 9;
  size = pos 6;
  file = record { device = 1; inode = 2 };
  known = true;
}

abbrev archive : Archive
archive = record {
  rows = (codes "a", kept) ∷ [];
  query_refused = false;
  row_with = λ key rows. first_row rows;
  regular_file = λ path. some file_now;
  read_metadata = λ path. none;
  is_absolute = λ path. true;
  open_file = λ path. ok (one_line ++ codes "}\n");
  decode = λ line. some exchange;
}

abbrev indexed_first : IndexedRow
indexed_first = indexed_row store 1 0 3 exchange

only_row : first_scan.1.rows ≡ indexed_first ∷ []
unfolding first_scan scan_traffic scan_file reset_rows note_scan read_traffic scan_lines take_line
    note_line note_record is_indexable advance insertion_fails ends_line in_transaction execute
    read_json_line read_fragments add_fragment lines_of traffic_window_hashes str_eq trim_space
    ◌>>=◌
only_row = refl

abbrev cursor_now : TrafficCursor
cursor_now = record {
  file = record { device = 1; inode = 2 };
  offset = 3;
  line_number = 1;
  skipped = 0;
  head_hash = codes "{}\n";
  tail_hash = codes "{}\n";
}

only_cursor : first_scan.1.cursor ≡ some cursor_now
unfolding first_scan scan_traffic scan_file reset_rows note_scan read_traffic scan_lines take_line
    note_line note_record is_indexable advance insertion_fails ends_line in_transaction execute
    read_json_line read_fragments add_fragment lines_of traffic_window_hashes str_eq trim_space
    ◌>>=◌
only_cursor = refl

a_is_id : is_session_id (codes "a") ≡ true
unfolding is_session_id str_eq has_prefix contains_byte
a_is_id = refl

a_listed : find_row (codes "a") archive.rows ≡ some kept
unfolding find_row str_eq
a_listed = refl

a_inside :
    ensure_path_within local_site local_site.root (join (codes "/s/a") (codes "traffic.jsonl"))
    ≡ ok tt
unfolding ensure_path_within join str_eq has_prefix trim_prefix
a_inside = refl

same_still : (file_now.known && same_file file_now.file cursor_now.file) ≡ true
unfolding same_file
same_still = refl

request_transaction-IsReadBack_example :
    IsReadBack store everything indexed_first
      (request_transaction local_site archive (codes "a") (pos 1))
request_transaction-IsReadBack_example =
    request_transaction-IsReadBack local_site archive store everything (one_line ++ codes "}\n")
      (λ s captured e. e) (omega arith) one_line (codes "}\n") refl (codes "a") (pos 1) kept
      cursor_now indexed_first file_now cuts first_scan-Agrees a_is_id refl a_listed
      (ap first_row only_row) (subst (λ rows. Memᴰ indexed_first rows) (sym only_row) (head refl))
      only_cursor a_inside refl same_still refl
