-- ===== src/Session/Start.antt =====
-- `recordStart` of cli/main.go and `proxifyRecordStart` of cli/record_proxify.go.
use http_capture.Prelude.{
  Bool, true, false, ◌||◌, ℤ, pos, ltb_int, eq_int, Bytes, codes, List, [], ◌∷◌, ◌++◌, Option, none,
  some, if◌then◌else◌, str_eq, trim_space, to_lower, length,
}
use http_capture.Errors.{
  positional_arguments, active_session_exists, clear_only_for_charles, unsupported_engine,
  bad_proxy_url, bad_proxy_port, proxify_not_started, proxify_not_running, not_exist, stat_file,
}
use http_capture.Effects.{
  Outcome, ok, err, ◌>>=◌, ◌>>◌, return, fail, attempt, refuse_if, lift, gets,
}
use http_capture.Paths.{join}
use http_capture.Numbers.{atoi}
use http_capture.Processes.{managed_process_matches, read_proxify_state}
use http_capture.Flags
use http_capture.Flags.{Kind, Setting, text, switch}
use http_capture.World.{
  SessionState, ProxifyState, Env, Run, Url, system, find_file, secure_write, put_file,
}
use http_capture.Session.{
  engine_proxify, engine_charles, write_state, write_session_metadata, read_state,
  session_directory, new_capture_id, normalize_packages,
}
use http_capture.Session.Charles.{new_charles_client, charles_get, with_scheme}

abbrev pub default_proxy : Bytes
default_proxy = codes "127.0.0.1:8888"

unfoldable pub start_flags : Bytes → Option Kind
start_flags name =
    if str_eq name (codes "engine")
      || str_eq name (codes "proxy")
      || str_eq name (codes "client-ip")
      || str_eq name (codes "device")
      || str_eq name (codes "package")
    then some text
    else if str_eq name (codes "clear")
    then some switch
    else none

pub record StartOptions : Type 0 where
  pub engine : Bytes
  pub proxy : Bytes
  pub client_ip : Bytes
  pub device_name : Bytes
  pub clear : Bool
  pub packages : List Bytes

unfoldable pub start_options : List Setting → StartOptions
unfolding Flags.value_of Flags.values_of Flags.is_true
start_options settings = record {
  engine = Flags.value_of (codes "engine") engine_proxify settings;
  proxy = Flags.value_of (codes "proxy") default_proxy settings;
  client_ip = Flags.value_of (codes "client-ip") [] settings;
  device_name = Flags.value_of (codes "device") [] settings;
  clear = Flags.is_true (Flags.value_of (codes "clear") (codes "false") settings);
  packages = Flags.values_of (codes "package") settings;
}

abbrev pub is_empty : List Bytes → Bool
is_empty [] = true
is_empty (x ∷ xs) = false

-- A session that is written down and has no end yet.
unfoldable pub no_active_yet : Outcome SessionState → Run (Unit {0})
no_active_yet (ok active) =
    refuse_if (eq_int active.stopped_ms (pos 0)) (active_session_exists active.capture_id)
no_active_yet (err e) = return tt

unfoldable pub proxify_started : Outcome ProxifyState → Run ProxifyState
proxify_started (ok state) = return state
proxify_started (err (not_exist path)) = fail proxify_not_started
proxify_started (err e) = fail e

abbrev size_of : Bytes → Option Bytes → Outcome ℤ
size_of path none = err (not_exist path)
size_of path (some content) = ok (pos (length content))

module _ (env : Env) where
  -- `os.Stat` and `Size`.
  unfoldable pub file_size : Bytes → Run ℤ
  file_size path = do
    system env (stat_file path)
    content ← gets (λ w. find_file path w.files)
    lift (size_of path content)

  unfoldable pub proxify_record_start : List Bytes → Bytes → Bytes → Run SessionState
  proxify_record_start packages client_ip device_name = do
    found ← attempt (read_proxify_state env)
    proxy ← proxify_started found
    refuse_if (if managed_process_matches env proxy.pid proxy.start_token then false else true)
        proxify_not_running
    size ← file_size proxy.traffic_path
    capture_id ← new_capture_id env
    session_dir ← session_directory env capture_id
    let state : SessionState = record {
      capture_id = capture_id;
      engine = engine_proxify;
      engine_version = proxy.version;
      engine_revision = proxy.source_revision;
      packages = packages;
      device_name = device_name;
      client_ip = client_ip;
      proxy_host = proxy.host;
      proxy_port = proxy.port;
      started_ms = env.now;
      stopped_ms = pos 0;
      status = codes "recording";
      session_dir = session_dir;
      traffic_source = proxy.traffic_path;
      start_offset = size;
      request_count = 0;
      skipped_count = 0;
    }
    write_session_metadata env state
    write_state env state
    return state

  unfoldable pub url_of : Option Url → Run Url
  url_of none = fail bad_proxy_url
  url_of (some url) = return url

  unfoldable pub port_of : Option ℤ → Run ℤ
  port_of none = fail bad_proxy_port
  port_of (some port) =
      if ltb_int port (pos 1) || ltb_int (pos 65535) port then fail bad_proxy_port else return port

  -- The recording of Charles is backed up before it is cleared.
  unfoldable pub back_up_and_clear : Bytes → Bytes → Run (Unit {0})
  back_up_and_clear client capture_id = do
    backup ← session_directory env (capture_id ++ codes "-pre-clear")
    content ← charles_get env client (codes "/session/download")
    secure_write env (join backup (codes "backup.chls")) content
        (put_file (join backup (codes "backup.chls")))
    cleared ← charles_get env client (codes "/session/clear")
    return tt

  -- A file that cannot be written stops the recording that was just started.
  unfoldable pub or_stop_recording : Bytes → Outcome (Unit {0}) → Run (Unit {0})
  or_stop_recording client (ok u) = return tt
  or_stop_recording client (err e) = do
    ignored ← attempt (charles_get env client (codes "/recording/stop"))
    fail e

  unfoldable pub charles_record_start : StartOptions → List Bytes → Run SessionState
  charles_record_start options packages = do
    client ← new_charles_client env options.proxy
    url ← url_of (env.parse_url (with_scheme options.proxy))
    port ← port_of (atoi url.port)
    capture_id ← new_capture_id env
    session_dir ← session_directory env capture_id
    let state : SessionState = record {
      capture_id = capture_id;
      engine = engine_charles;
      engine_version = [];
      engine_revision = [];
      packages = packages;
      device_name = trim_space options.device_name;
      client_ip = trim_space options.client_ip;
      proxy_host = url.hostname;
      proxy_port = port;
      started_ms = env.now;
      stopped_ms = pos 0;
      status = codes "recording";
      session_dir = session_dir;
      traffic_source = [];
      start_offset = pos 0;
      request_count = 0;
      skipped_count = 0;
    }
    if options.clear then back_up_and_clear client capture_id else return tt
    started ← charles_get env client (codes "/recording/start")
    written ← attempt (write_state env state)
    or_stop_recording client written
    described ← attempt (write_session_metadata env state)
    or_stop_recording client described
    return state

  unfoldable pub start_engine : StartOptions → Run SessionState
  start_engine options =
      let engine = to_lower (trim_space options.engine) in
      let packages = normalize_packages options.packages in
      if str_eq engine engine_proxify
      then (if options.clear
          then fail clear_only_for_charles
          else proxify_record_start packages (trim_space options.client_ip)
              (trim_space options.device_name))
      else if str_eq engine engine_charles
      then charles_record_start options packages
      else fail unsupported_engine

  unfoldable pub record_start : List Bytes → Run SessionState
  record_start args = do
    parsed ← lift (Flags.parse start_flags args)
    refuse_if (if is_empty parsed.1 then false else true) positional_arguments
    active ← attempt (read_state env)
    no_active_yet active
    start_engine (start_options parsed.0)
