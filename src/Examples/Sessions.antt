-- ===== src/Examples/Sessions.antt =====
-- The theorems on sessions and devices at one computer.
use http_capture.Prelude.{
  pos, codes, [], ◌∷◌, some, ◌≡◌, refl, str_eq, trim_space, has_infix, to_lower, split_on, to_upper,
}
use http_capture.Errors.{positional_arguments}
use http_capture.Effects.{ok, err, ◌>>=◌}
use http_capture.Paths.{clean, join}
use http_capture.Flags
use http_capture.World.{
  SessionState, holds, config_directory, system, secure_write, read_slot, find_file,
}
use http_capture.Session.{
  read_state, write_state, write_session_metadata, write_session_metadata_to, clear_state,
  session_directory, new_capture_id, normalize_packages,
}
use http_capture.Session.Charles.{parsed_address, new_charles_client, charles_get, with_scheme}
use http_capture.Session.Start.{
  record_start, start_engine, start_options, start_flags, proxify_record_start, file_size,
  no_active_yet, proxify_started,
}
use http_capture.Session.Stop.{
  record_stop, stop_engine, charles_record_stop, stop_flags, export_formats, charles_endpoint,
  endpoint_of, archive_session,
}
use http_capture.Session.Manager.{
  start, stop, abandon, abandon_session, abandon_found, stop_charles_of,
  with_session_operation_lock,
}
use http_capture.Processes.{managed_process_matches, read_proxify_state}
use http_capture.Session.Frames.Archived.{Archived, stop-archives}
use http_capture.Session.Frames.Started.{IsFresh, start-IsFresh}
use http_capture.Session.Frames.Ending.{stop_keeps_active}
use http_capture.Session.Frames.Guards.{Abandoned, abandon-inactive}
use http_capture.Examples.Data.{calm, session_one, idle, busy}

stop_runs : (stop calm [] busy).0 ≡ ok tt
unfolding stop record_stop stop_engine charles_record_stop stop_flags export_formats
    charles_endpoint endpoint_of archive_session with_session_operation_lock config_directory system
    secure_write read_slot read_state write_session_metadata write_session_metadata_to write_state
    clear_state new_charles_client parsed_address charles_get with_scheme has_infix to_lower
    split_on trim_space str_eq clean join ◌>>=◌ Flags.parse Flags.value_of
stop_runs = refl

stop-archives_example :
    (old : SessionState) × (busy.active ≡ some (holds old))
    × Archived calm.now old (stop calm [] busy).1
stop-archives_example = stop-archives calm [] busy stop_runs

-- A stop with an argument that is no flag.
stop_fails : (stop calm (codes "x" ∷ []) busy).0 ≡ err (positional_arguments)
unfolding stop record_stop stop_engine charles_record_stop stop_flags export_formats
    charles_endpoint endpoint_of archive_session with_session_operation_lock config_directory system
    secure_write read_slot read_state write_session_metadata write_session_metadata_to write_state
    clear_state new_charles_client parsed_address charles_get with_scheme has_infix to_lower
    split_on trim_space str_eq clean join ◌>>=◌ Flags.parse Flags.value_of
stop_fails = refl

stop_keeps_active_example : (stop calm (codes "x" ∷ []) busy).1.active ≡ some (holds session_one)
stop_keeps_active_example =
    stop_keeps_active calm (codes "x" ∷ []) busy positional_arguments stop_fails

abbrev abandoned_one : SessionState
abandoned_one = record session_one { status = codes "abandoned"; stopped_ms = pos 5000 }

abandon_runs : (abandon calm (codes "20260101-a") busy).0 ≡ ok abandoned_one
unfolding abandon abandon_session abandon_found stop_charles_of charles_endpoint
    with_session_operation_lock config_directory system secure_write read_slot read_state
    write_session_metadata write_session_metadata_to write_state clear_state new_charles_client
    parsed_address charles_get with_scheme has_infix to_lower split_on trim_space str_eq clean join
    ◌>>=◌ Flags.parse Flags.value_of
abandon_runs = refl

abandon-inactive_example :
    Abandoned
      (codes "20260101-a")
      (pos 5000)
      busy
      abandoned_one
      (abandon calm (codes "20260101-a") busy).1
abandon-inactive_example =
    abandon-inactive calm (codes "20260101-a") busy abandoned_one abandon_runs

abbrev fresh_one : SessionState
fresh_one = record session_one {
  capture_id = codes "20260101-000000-abcd";
  engine = codes "proxify";
  engine_version = codes "v";
  engine_revision = codes "r";
  packages = [];
  proxy_host = codes "0.0.0.0";
  proxy_port = pos 8899;
  started_ms = pos 5000;
  session_dir = codes "/w/httpcapture-sessions/20260101-000000-abcd";
  traffic_source = codes "/t";
  start_offset = pos 3;
}

start_runs : (start calm [] idle).0 ≡ ok fresh_one
unfolding start record_start start_engine start_options start_flags proxify_record_start file_size
    new_capture_id session_directory no_active_yet proxify_started normalize_packages
    managed_process_matches read_proxify_state Flags.values_of Flags.is_true to_upper
    with_session_operation_lock config_directory system secure_write read_slot read_state
    write_session_metadata write_session_metadata_to write_state find_file to_lower trim_space
    str_eq clean join ◌>>=◌ Flags.parse Flags.value_of
start_runs = refl

start-IsFresh_example : IsFresh fresh_one (start calm [] idle).1
start-IsFresh_example = start-IsFresh calm [] idle fresh_one start_runs
