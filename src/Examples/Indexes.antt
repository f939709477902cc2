-- ===== src/Examples/Indexes.antt =====
-- The theorems on the index of traffic, at a file of one record that grows by another.
use http_capture.Prelude.{
  pos, Bytes, codes, [], ◌∷◌, ◌++◌, none, some, ◌≡◌, refl, true, false, append-nil, str_eq,
  trim_space,
}
use http_capture.Errors.{sql_failed}
use http_capture.Effects.{Outcome, ok, err, ◌>>=◌}
use http_capture.Session.Extract.{lines_of}
use http_capture.Lines.{read_json_line, read_fragments, add_fragment, line_of}
use http_capture.Index.{
  TrafficScanOptions, SessionIndex, IndexError, Store, commit, Opened, FileInfo, in_transaction,
  execute,
}
use http_capture.Index.Row.{indexed_row}
use http_capture.Index.Scan.{
  scan_lines, take_line, note_line, note_record, is_indexable, advance, insertion_fails, ends_line,
}
use http_capture.Index.Traffic.{
  same_file, traffic_window_hashes, read_traffic, scan_file, scan_traffic, reset_rows, note_scan,
  rebuild_traffic, continue_from, with_cursor, update_traffic,
}
use http_capture.Index.Growth.{CutsLines}
use http_capture.Index.Agreement.{Agrees, scan_again-Agrees}
use http_capture.Index.Refresh.{update_traffic-Agrees}
use http_capture.Index.Unchanged.{update_traffic-unchanged}
use http_capture.Index.Rounds.{Round}
use http_capture.Examples.Rules.{exchange}

abbrev pub store : Store
store = record {
  now = pos 7;
  refuses = λ statement. false;
  decode = λ line. some exchange;
  parse_url = λ url. none;
  valid_utf8 = λ s. true;
  sha256_hex = λ s. s;
  cut = λ line. line ∷ [];
  maximum = 100;
}

pub cuts : CutsLines store
unfolding line_of
cuts line = append-nil line

abbrev pub everything : TrafficScanOptions
everything = record { start_offset = pos 0; start_ms = pos 0; client_ip = [] }

abbrev file_with : Bytes → Opened
file_with content = record {
  file = record { device = 1; inode = 2 };
  known = true;
  content = content;
  broken = false;
}

abbrev pub empty_index : SessionIndex
empty_index = record {
  rows = [];
  cursor = none;
  epoch = 0;
  index_error = IndexError.clear;
  indexed_at_ms = pos 0;
}

abbrev pub one_line : Bytes
one_line = codes "{}\n{"

unfoldable pub first_scan : Outcome (Unit {0}) × SessionIndex
first_scan = scan_traffic store everything true (file_with one_line) 0 0 0 empty_index

first_scan_runs : first_scan.0 ≡ ok tt
unfolding first_scan scan_traffic scan_file reset_rows note_scan read_traffic scan_lines take_line
    note_line note_record is_indexable advance insertion_fails ends_line indexed_row in_transaction
    execute read_json_line read_fragments add_fragment lines_of traffic_window_hashes str_eq
    trim_space ◌>>=◌
first_scan_runs = refl

pub first_scan-Agrees : Agrees store everything one_line first_scan.1
unfolding first_scan
first_scan-Agrees =
    scan_again-Agrees store everything (file_with one_line) empty_index cuts first_scan_runs

abbrev grown_info : FileInfo
grown_info = record { file = record { device = 1; inode = 2 }; size = pos 6 }

grown_runs :
    (update_traffic store everything
      (some grown_info)
      (some (pos 4))
      (ok (file_with (one_line ++ codes "}\n")))
      first_scan.1).0
    ≡ ok tt
unfolding first_scan update_traffic with_cursor continue_from same_file rebuild_traffic scan_traffic
    scan_file reset_rows note_scan read_traffic scan_lines take_line note_line note_record
    is_indexable advance insertion_fails ends_line indexed_row in_transaction execute read_json_line
    read_fragments add_fragment lines_of traffic_window_hashes str_eq trim_space ◌>>=◌
grown_runs = refl

update_traffic-Agrees_example :
    Agrees store everything
      (one_line ++ codes "}\n")
      (update_traffic store everything
        (some grown_info)
        (some (pos 4))
        (ok (file_with (one_line ++ codes "}\n")))
        first_scan.1).1
update_traffic-Agrees_example =
    update_traffic-Agrees store everything (file_with (one_line ++ codes "}\n")) one_line
      (codes "}\n") refl cuts grown_info (some (pos 4)) first_scan.1 first_scan-Agrees grown_runs

abbrev full_disk : Store
full_disk = record store { refuses = λ statement. elim statement [ commit ↦ true | _ ↦ false ] }

full_disk_fails :
    (update_traffic full_disk everything
      (some grown_info)
      none
      (ok (file_with one_line))
      empty_index).0
    ≡ err sql_failed
unfolding update_traffic same_file rebuild_traffic scan_traffic scan_file reset_rows note_scan
    read_traffic scan_lines take_line note_line note_record is_indexable advance insertion_fails
    ends_line indexed_row in_transaction execute read_json_line read_fragments add_fragment lines_of
    traffic_window_hashes str_eq trim_space ◌>>=◌
full_disk_fails = refl

update_traffic-unchanged_example :
    (update_traffic full_disk everything
      (some grown_info)
      none
      (ok (file_with one_line))
      empty_index).1
    ≡ empty_index
update_traffic-unchanged_example =
    update_traffic-unchanged full_disk everything (some grown_info) none (ok (file_with one_line))
      empty_index sql_failed full_disk_fails

abbrev round : Round
round = record {
  more = codes "}\n";
  refuses = λ statement. false;
  now = pos 8;
  info = grown_info;
  previous = some (pos 4);
  file = record { device = 1; inode = 2 };
  known = true;
  broken = false;
  unopened = none;
}
