-- ===== src/Session/Stop.antt =====
-- `recordStop` of cli/main.go and `proxifyRecordStop` of cli/record_proxify.go.
use http_capture.Prelude.{
  true, false, Bytes, codes, List, [], ◌∷◌, ◌++◌, Option, none, some, if◌then◌else◌, str_eq,
  trim_space, to_lower, split_on, ◌||◌,
}
use http_capture.Errors.{
  positional_arguments, unsupported_active_engine, unsupported_format, make_directory, change_mode,
}
use http_capture.Effects.{◌>>=◌, ◌>>◌, return, fail, refuse_if, lift}
use http_capture.Paths.{join, clean}
use http_capture.Flags
use http_capture.Flags.{Kind, Setting, text}
use http_capture.World.{SessionState, Env, Run, system, secure_write, put_file}
use http_capture.Session.{
  engine_proxify, engine_charles, write_session_metadata, write_session_metadata_to, read_state,
  clear_state,
}
use http_capture.Session.Charles.{new_charles_client, charles_get}
use http_capture.Session.Extract.{
  Window, extract_captured_transactions, export_capture_har, parse_proxify_formats,
}
use http_capture.Session.Start.{file_size, default_proxy, is_empty}

unfoldable pub stop_flags : Bytes → Option Kind
stop_flags name =
    if str_eq name (codes "proxy") || str_eq name (codes "out") || str_eq name (codes "formats")
    then some text
    else none

-- Where the pages of Charles that export the recording are.
unfoldable pub charles_endpoint : Bytes → Option Bytes
charles_endpoint format =
    if str_eq format (codes "chls")
    then some (codes "/session/download")
    else if str_eq format (codes "xml")
    then some (codes "/session/export-xml")
    else if str_eq format (codes "json")
    then some (codes "/session/export-json")
    else if str_eq format (codes "har")
    then some (codes "/session/export-har")
    else if str_eq format (codes "csv")
    then some (codes "/session/export-csv")
    else none

abbrev or_default : Bytes → Bytes → Bytes
or_default value fallback = if str_eq value [] then fallback else value

module _ (env : Env) where
  -- The end that both engines share: the metadata of a finished session, also in the directory
  -- where the session began, and then no active session.
  unfoldable pub archive_session : Bytes → SessionState → Run (Unit {0})
  archive_session original state = do
    write_session_metadata env state
    if str_eq (clean original) (clean state.session_dir)
        then return tt
        else write_session_metadata_to env original state
    clear_state env

  unfoldable pub proxify_record_stop : SessionState → Bytes → Bytes → Run (Unit {0})
  proxify_record_stop state out formats = do
    requested ← lift (parse_proxify_formats formats)
    let directory = or_default (trim_space out) state.session_dir
    system env (make_directory directory)
    system env (change_mode directory)
    size ← file_size env state.traffic_source
    let traffic = join directory (codes "traffic.jsonl")
    let window : Window = record {
      start_ms = state.started_ms;
      end_ms = env.now;
      client_ip = state.client_ip;
    }
    counts ←
        extract_captured_transactions env state.traffic_source traffic state.start_offset size
          window
    if requested.har
        then export_capture_har env traffic (join directory (codes "session.har"))
        else return tt
    archive_session state.session_dir (record state {
      stopped_ms = env.now;
      status = codes "completed";
      session_dir = directory;
      request_count = counts.0;
      skipped_count = counts.1;
    })

  unfoldable pub endpoint_of : Bytes → Option Bytes → Run Bytes
  endpoint_of format none = fail (unsupported_format format)
  endpoint_of format (some endpoint) = return endpoint

  unfoldable pub export_formats : Bytes → Bytes → List Bytes → Run (Unit {0})
  export_formats client directory [] = return tt
  export_formats client directory (part ∷ parts) = do
    let format = trim_space (to_lower part)
    endpoint ← endpoint_of format (charles_endpoint format)
    content ← charles_get env client endpoint
    secure_write env (join directory (codes "session." ++ format)) content
        (put_file (join directory (codes "session." ++ format)))
    export_formats client directory parts

  unfoldable pub charles_record_stop : SessionState → Bytes → Bytes → Bytes → Run (Unit {0})
  charles_record_stop state proxy out formats = do
    client ← new_charles_client env proxy
    stopped ← charles_get env client (codes "/recording/stop")
    if str_eq (trim_space out) [] then return tt else system env (make_directory (trim_space out))
    let directory = or_default (trim_space out) state.session_dir
    export_formats client directory (split_on b',' formats)
    archive_session state.session_dir
        (record state { stopped_ms = env.now; status = codes "completed"; session_dir = directory })

  -- The engine of the active session decides.
  unfoldable pub stop_engine : SessionState → Bytes → Bytes → Bytes → Run (Unit {0})
  stop_engine state proxy out formats =
      if str_eq state.engine engine_proxify
      then proxify_record_stop state out (or_default formats (codes "jsonl,har"))
      else if str_eq state.engine engine_charles
      then charles_record_stop state proxy out (or_default formats (codes "chls,xml,json,har"))
      else fail (unsupported_active_engine state.engine)

  unfoldable pub record_stop : List Bytes → Run (Unit {0})
  record_stop args = do
    parsed ← lift (Flags.parse stop_flags args)
    refuse_if (if is_empty parsed.1 then false else true) positional_arguments
    state ← read_state env
    stop_engine state (Flags.value_of (codes "proxy") default_proxy parsed.0)
        (Flags.value_of (codes "out") [] parsed.0) (Flags.value_of (codes "formats") [] parsed.0)
