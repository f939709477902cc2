-- ===== src/Machine/Proxify.antt =====
-- The embedded proxy as a process: `proxifyStart`, `proxifyStop`, `proxifyStatus` and their helpers
-- in cli/proxy_proxify.go, and `validateListenAddress` of cli/proxy_mitm.go.
use http_capture.Prelude.{
  ℕ, zero, suc, ◌*◌, true, false, not, ◌&&◌, ◌||◌, ltb, ℤ, pos, ltb_int, eq_int, Bytes, codes, List,
  [], ◌++◌, Option, none, some, if◌then◌else◌, str_eq, has_infix, contains_byte, trim_space, length,
}
use http_capture.Errors.{
  Error, not_exist, active_session_exists, positional_arguments, no_managed_process,
  process_not_running, process_did_not_exit, process_running, process_exited, process_not_ready,
  port_unavailable, bad_listen_host, bad_listen_port, bad_body_limit, arguments_refused,
  program_missing, make_directory, change_mode, create_file, random_bytes, remove_file,
  bad_switch_value,
}
use http_capture.Effects.{
  Outcome, ok, err, ◌>>=◌, ◌>>◌, return, fail, lift, gets, modify, attempt, refuse_if,
}
use http_capture.Paths.{join}
use http_capture.Flags
use http_capture.Flags.{Kind, text, Setting}
use http_capture.World.{
  SessionState, ProxifyState, World, Env, Run, Slot, system, config_directory, secure_write,
}
use http_capture.Session.{engine_proxify, read_state}
use http_capture.Session.Start.{is_empty}
use http_capture.Processes.{read_proxify_state}
use http_capture.Machine.{
  HostRun, Machine, Spawned, on_files, matches, terminate_managed_process, sleep, wait_for_exit,
  start_process, look,
}

unfoldable pub validate_listen_address : Bytes → ℤ → Outcome (Unit {0})
validate_listen_address host port =
    if str_eq host []
      || ltb 253 (length host)
      || contains_byte b' ' host
      || contains_byte b'/' host
      || contains_byte b'?' host
      || contains_byte b'#' host
      || has_infix host (codes "://")
    then err bad_listen_host
    else if ltb_int port (pos 1) || ltb_int (pos 65535) port
    then err bad_listen_port
    else ok tt

unfoldable pub proxy_flags : Bytes → Option Kind
proxy_flags name =
    if str_eq name (codes "host")
      || str_eq name (codes "port")
      || str_eq name (codes "max-body-bytes")
    then some text
    else none

abbrev pub put_proxify : Slot ProxifyState → World → World
put_proxify s w = record w { proxify = some s }

abbrev state_file : Bytes → Bytes
state_file directory = join directory (codes "proxify.json")

-- `writeProxifyState`.
unfoldable pub write_proxify_state : ProxifyState → Env → Run (Unit {0})
write_proxify_state state env = do
  directory ← config_directory env
  secure_write env (state_file directory) state put_proxify

-- `os.Remove` of the state file; without a directory there is no file, and no error.
unfoldable pub remove_state_in : Env → Outcome Bytes → Option (Slot ProxifyState) → Run (Unit {0})
remove_state_in env (err e) found = return tt
remove_state_in env (ok directory) none = return tt
remove_state_in env (ok directory) (some s) = do
  system env (remove_file (state_file directory))
  modify (λ w. record w { proxify = none })

unfoldable pub remove_proxify_state : Env → Run (Unit {0})
remove_proxify_state env = do
  directory ← attempt (config_directory env)
  found ← gets (λ w. w.proxify)
  remove_state_in env directory found

abbrev runtime_of : Bytes → Bytes
runtime_of root = join root (codes "runtime")

unfoldable pub proxify_root_directory : Env → Run Bytes
proxify_root_directory env = do
  directory ← config_directory env
  system env (make_directory (join directory (codes "proxify")))
  system env (change_mode (join directory (codes "proxify")))
  return (join directory (codes "proxify"))

-- The names of the files of a run, without their extensions, and the directory of the proxy.
unfoldable pub runtime_files : Env → Run (Bytes × Bytes)
runtime_files env = do
  root ← proxify_root_directory env
  system env (make_directory (runtime_of root))
  system env random_bytes
  let base = join (runtime_of root) (env.timestamp ++ (codes "-" ++ env.random_suffix))
  system env (create_file (base ++ codes ".log"))
  return (root, base)

abbrev no_recording : Outcome SessionState → Outcome (Unit {0})
no_recording (err e) = ok tt
no_recording (ok s) =
    if str_eq s.engine engine_proxify && eq_int s.stopped_ms (pos 0)
    then err (active_session_exists s.capture_id)
    else ok tt

abbrev pub option_or : {A : Type 0} → Error → Option A → Outcome A
option_or e none = err e
option_or e (some a) = ok a

abbrev pub token_of : Option Bytes → Bytes
token_of none = []
token_of (some token) = token

-- What the flags of a start say.
pub record Listen : Type 0 where
  pub host : Bytes
  pub port : ℤ
  pub max_body_bytes : ℤ

module _ (m : Machine) where
  -- A number among the flags; package flag refuses any other text.
  abbrev pub int_flag : Bytes → Bytes → List Setting → Outcome ℤ
  int_flag name fallback settings =
      option_or (bad_switch_value name) (m.parse_int (Flags.value_of name fallback settings))

  unfoldable pub listen_options : List Bytes → HostRun Listen
  unfolding Flags.parse Flags.value_of proxy_flags
  listen_options args = do
    parsed ← lift (Flags.parse proxy_flags args)
    port ← lift (int_flag (codes "port") (codes "8899") parsed.0)
    limit ← lift (int_flag (codes "max-body-bytes") (codes "4194304") parsed.0)
    refuse_if (if is_empty parsed.1 then false else true) positional_arguments
    let host = trim_space (Flags.value_of (codes "host") (codes "0.0.0.0") parsed.0)
    lift (validate_listen_address host port)
    refuse_if (ltb_int limit (pos 0) || ltb_int (pos (64 * 1024 * 1024)) limit) bad_body_limit
    return (record { host = host; port = port; max_body_bytes = limit })

  -- No second process beside one that runs.
  unfoldable pub none_running : Outcome ProxifyState → HostRun (Unit {0})
  none_running (err e) = return tt
  none_running (ok previous) = do
    running ← matches m previous.pid previous.start_token
    refuse_if running process_running

  -- `waitForProxifyReady`: a look every so often until the time is over.
  unfoldable pub wait_for_proxify_ready : ℕ → ℕ → Spawned → Bytes → HostRun (Unit {0})
  wait_for_proxify_ready zero n s token = fail process_not_ready
  wait_for_proxify_ready (suc left) n s token =
      let rest = wait_for_proxify_ready left (suc n) s token in
      do
        look s n
        running ← matches m s.pid token
        refuse_if (not running) process_exited
        if s.ready n then return tt else (sleep >>= λ u. rest)

  -- A start that fails from here on tells the process to end; whether that succeeds is ignored.
  unfoldable pub or_terminate : {A : Type 0} → ℤ → Outcome A → HostRun A
  or_terminate pid (ok a) = return a
  or_terminate pid (err e) = do ignored ← attempt (terminate_managed_process m pid); fail e

  abbrev pub state_of : Spawned → Bytes → Listen → Bytes → Bytes → Bytes → ProxifyState
  state_of s token listen executable root base = record {
    pid = s.pid;
    start_token = token;
    executable = executable;
    host = listen.host;
    port = listen.port;
    started_ms = m.env.now;
    log_path = base ++ codes ".log";
    traffic_path = base ++ codes ".jsonl";
    config_dir = root;
    max_body_bytes = listen.max_body_bytes;
    version = m.version;
    source_revision = m.source_revision;
  }

  -- From the start of the process on.
  unfoldable pub launch : Spawned → Listen → Bytes → Bytes → Bytes → HostRun (Unit {0})
  launch s listen executable root base = do
    start_process s (token_of s.start_token)
    token ← or_terminate s.pid (option_or process_exited s.start_token)
    ready ← attempt (wait_for_proxify_ready 100 0 s token)
    or_terminate s.pid ready
    written ←
        attempt (on_files m (write_proxify_state (state_of s token listen executable root base)))
    or_terminate s.pid written

  unfoldable pub proxify_start : List Bytes → HostRun (Unit {0})
  proxify_start args = do
    listen ← listen_options args
    active ← attempt (on_files m read_state)
    lift (no_recording active)
    previous ← attempt (on_files m read_proxify_state)
    none_running previous
    refuse_if (not m.port_free) port_unavailable
    files ← on_files m runtime_files
    executable ← lift (option_or program_missing m.executable)
    spawned ← lift (option_or program_missing m.spawn)
    launch spawned listen executable files.0 files.1

  -- The process is told to end, and its state file is removed once it has.
  unfoldable pub end_recorded : ProxifyState → HostRun (Unit {0})
  end_recorded state = do
    terminate_managed_process m state.pid
    wait_for_exit m 50 state.pid state.start_token
    running ← matches m state.pid state.start_token
    refuse_if running process_did_not_exit
    on_files m remove_proxify_state

  unfoldable pub stop_recorded : Outcome ProxifyState → HostRun (Unit {0})
  stop_recorded (err (not_exist path)) = fail no_managed_process
  stop_recorded (err e) = fail e
  stop_recorded (ok state) = do
    running ← matches m state.pid state.start_token
    refuse_if (not running) process_not_running
    end_recorded state

  unfoldable pub proxify_stop : List Bytes → HostRun (Unit {0})
  proxify_stop args = do
    refuse_if (if is_empty args then false else true) arguments_refused
    found ← attempt (on_files m read_proxify_state)
    stop_recorded found

  -- A state file of a process that has gone is removed.
  unfoldable pub status_recorded : Outcome ProxifyState → HostRun (Unit {0})
  status_recorded (err (not_exist path)) = return tt
  status_recorded (err e) = fail e
  status_recorded (ok state) = do
    running ← matches m state.pid state.start_token
    if running then return tt else on_files m remove_proxify_state

  unfoldable pub proxify_status : List Bytes → HostRun (Unit {0})
  proxify_status args = do
    refuse_if (if is_empty args then false else true) arguments_refused
    found ← attempt (on_files m read_proxify_state)
    status_recorded found
