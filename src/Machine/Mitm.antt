-- ===== src/Machine/Mitm.antt =====
-- The external mitmdump as a process, cli/proxy_mitm.go. Its state file is mitmproxy.json.
use http_capture.Prelude.{
  true, false, not, ◌||◌, ℤ, pos, leb_int, Bytes, codes, List, [], Option, none, some,
  if◌then◌else◌, str_eq, trim_space,
}
use http_capture.Errors.{
  not_exist, positional_arguments, no_managed_process, process_not_running, process_did_not_exit,
  process_running, process_exited, arguments_refused, program_missing, invalid_process_state,
  open_file, change_mode, remove_file,
}
use http_capture.Effects.{
  Outcome, ok, err, ◌>>=◌, ◌>>◌, return, fail, lift, gets, modify, attempt, refuse_if,
}
use http_capture.Paths.{join}
use http_capture.Flags
use http_capture.Flags.{Kind, text}
use http_capture.World.{
  World, Env, Run, Slot, MitmState, read_slot, system, config_directory, secure_write,
}
use http_capture.Session.Start.{is_empty}
use http_capture.Machine.{
  HostRun, Machine, Spawned, on_files, matches, terminate_managed_process, sleep, wait_for_exit,
  start_process, look,
}
use http_capture.Machine.Proxify.{
  validate_listen_address, or_terminate, option_or, token_of, int_flag,
}

unfoldable pub mitm_flags : Bytes → Option Kind
mitm_flags name =
    if str_eq name (codes "host") || str_eq name (codes "port") || str_eq name (codes "bin")
    then some text
    else none

abbrev mitm_file : Bytes → Bytes
mitm_file directory = join directory (codes "mitmproxy.json")

abbrev pub put_mitm : Slot MitmState → World → World
put_mitm s w = record w { mitm = some s }

unfoldable pub write_mitm_state : MitmState → Env → Run (Unit {0})
write_mitm_state state env = do
  directory ← config_directory env
  secure_write env (mitm_file directory) state put_mitm

unfoldable pub read_mitm_state : Env → Run MitmState
read_mitm_state env = do
  directory ← config_directory env
  state ← read_slot env (mitm_file directory) (λ w. w.mitm)
  refuse_if (leb_int state.pid (pos 0) || str_eq state.start_token []) invalid_process_state
  return state

unfoldable pub remove_mitm_in : Env → Outcome Bytes → Option (Slot MitmState) → Run (Unit {0})
remove_mitm_in env (err e) found = return tt
remove_mitm_in env (ok directory) none = return tt
remove_mitm_in env (ok directory) (some s) = do
  system env (remove_file (mitm_file directory))
  modify (λ w. record w { mitm = none })

unfoldable pub remove_mitm_state : Env → Run (Unit {0})
remove_mitm_state env = do
  directory ← attempt (config_directory env)
  found ← gets (λ w. w.mitm)
  remove_mitm_in env directory found

-- The log file, in the directory of the settings.
unfoldable pub open_mitm_log : Env → Run Bytes
open_mitm_log env = do
  directory ← config_directory env
  system env (open_file (join directory (codes "mitmdump.log")))
  system env (change_mode (join directory (codes "mitmdump.log")))
  return (join directory (codes "mitmdump.log"))

-- The host and the port of a start.
abbrev pub Address : Type 0
Address = Bytes × ℤ

module _ (m : Machine) where
  unfoldable pub mitm_options : List Bytes → HostRun Address
  unfolding Flags.parse Flags.value_of mitm_flags
  mitm_options args = do
    parsed ← lift (Flags.parse mitm_flags args)
    port ← lift (int_flag m (codes "port") (codes "8080") parsed.0)
    refuse_if (if is_empty parsed.1 then false else true) positional_arguments
    let host = trim_space (Flags.value_of (codes "host") (codes "0.0.0.0") parsed.0)
    lift (validate_listen_address host port)
    return (host, port)

  unfoldable pub no_mitm_running : Outcome MitmState → HostRun (Unit {0})
  no_mitm_running (err e) = return tt
  no_mitm_running (ok previous) = do
    running ← matches m previous.pid previous.start_token
    refuse_if running process_running

  abbrev mitm_state_of : Spawned → Bytes → Address → Bytes → Bytes → MitmState
  mitm_state_of s token address executable log = record {
    pid = s.pid;
    start_token = token;
    executable = executable;
    host = address.0;
    port = address.1;
    started_ms = m.env.now;
    log_path = log;
  }

  -- One look after three tenths of a second; a process that has gone by then is not told to end.
  unfoldable pub launch_mitm : Spawned → Address → Bytes → Bytes → HostRun (Unit {0})
  launch_mitm s address executable log = do
    start_process s (token_of s.start_token)
    token ← or_terminate m s.pid (option_or process_exited s.start_token)
    sleep
    sleep
    sleep
    look s 0
    running ← matches m s.pid token
    refuse_if (not running) process_exited
    written ← attempt (on_files m (write_mitm_state (mitm_state_of s token address executable log)))
    or_terminate m s.pid written

  unfoldable pub mitm_start : List Bytes → HostRun (Unit {0})
  mitm_start args = do
    address ← mitm_options args
    previous ← attempt (on_files m read_mitm_state)
    no_mitm_running previous
    executable ← lift (option_or program_missing m.executable)
    log ← on_files m open_mitm_log
    spawned ← lift (option_or program_missing m.spawn)
    launch_mitm spawned address executable log

  unfoldable pub end_mitm : MitmState → HostRun (Unit {0})
  end_mitm state = do
    terminate_managed_process m state.pid
    wait_for_exit m 50 state.pid state.start_token
    running ← matches m state.pid state.start_token
    refuse_if running process_did_not_exit
    on_files m remove_mitm_state

  unfoldable pub stop_mitm_recorded : Outcome MitmState → HostRun (Unit {0})
  stop_mitm_recorded (err (not_exist path)) = fail no_managed_process
  stop_mitm_recorded (err e) = fail e
  stop_mitm_recorded (ok state) = do
    running ← matches m state.pid state.start_token
    refuse_if (not running) process_not_running
    end_mitm state

  unfoldable pub mitm_stop : List Bytes → HostRun (Unit {0})
  mitm_stop args = do
    refuse_if (if is_empty args then false else true) arguments_refused
    found ← attempt (on_files m read_mitm_state)
    stop_mitm_recorded found
