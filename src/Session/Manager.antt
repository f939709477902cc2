-- ===== src/Session/Manager.antt =====
-- cli/session_manager.go: the operations on a session behind the operation lock, the wait of a
-- session in the foreground, and the stop at the end of `serve`, cli/serve.go.
use http_capture.Prelude.{
  Bool, true, false, not, pos, leb_int, ltb_int, Bytes, codes, List, [], ◌∷◌, ◌++◌, if◌then◌else◌,
  str_eq, has_prefix, trim_prefix, contains_byte, ◌||◌, ◌&&◌,
}
use http_capture.Errors.{
  other_session, charles_address_missing, no_active_session, stop_failed, lock_file, open_file,
}
use http_capture.Effects.{
  Outcome, ok, err, ◌>>=◌, ◌>>◌, return, fail, attempt, refuse_if, lift, modify,
}
use http_capture.Numbers.{itoa}
use http_capture.Paths.{join, clean}
use http_capture.World.{
  SessionState, World, Env, Run, system, find_file, read_slot, config_directory,
}
use http_capture.Session.{
  engine_charles, write_state, write_session_metadata, clear_state, read_state, meta_file,
}
use http_capture.Session.Charles.{new_charles_client, charles_get}
use http_capture.Session.Start.{record_start}
use http_capture.Session.Stop.{record_stop}

-- `net.JoinHostPort`: an address with a colon gets brackets.
unfoldable pub join_host_port : Bytes → Bytes → Bytes
join_host_port host port =
    if contains_byte b':' host
    then codes "[" ++ (host ++ (codes "]:" ++ port))
    else host ++ (codes ":" ++ port)

module _ (env : Env) where
  abbrev lock_path : Bytes → Bytes
  lock_path directory = join directory (codes "session-operation.lock")

  -- The lock is held while the operation runs.
  unfoldable pub with_session_operation_lock : {A : Type 0} → Run A → Run A
  with_session_operation_lock operation = do
    directory ← config_directory env
    system env (open_file (lock_path directory))
    system env (lock_file (lock_path directory))
    operation

  unfoldable pub start : List Bytes → Run SessionState
  start args = with_session_operation_lock (do started ← record_start env args; read_state env)

  unfoldable pub stop : List Bytes → Run (Unit {0})
  stop args = with_session_operation_lock (record_stop env args)

  -- The session that a request names must be the active one.
  abbrev pub must_be : Bytes → SessionState → Run (Unit {0})
  must_be capture_id state =
      refuse_if (not (str_eq state.capture_id capture_id))
        (other_session state.capture_id capture_id)

  unfoldable pub stop_charles_of : SessionState → Run (Unit {0})
  stop_charles_of state = do
    refuse_if (str_eq state.proxy_host [] || leb_int state.proxy_port (pos 0))
        charles_address_missing
    client ← new_charles_client env (state.proxy_host ++ (codes ":" ++ itoa state.proxy_port))
    stopped ← charles_get env client (codes "/recording/stop")
    return tt

  -- The active session, when it is the one that was named.
  unfoldable pub abandon_found : SessionState → Run SessionState
  abandon_found state = do
    if str_eq state.engine engine_charles then stop_charles_of state else return tt
    let abandoned : SessionState = record state { status = codes "abandoned"; stopped_ms = env.now }
    write_session_metadata env abandoned
    clear_state env
    return abandoned

  unfoldable pub abandon_session : Bytes → Run SessionState
  abandon_session capture_id = do
    state ← read_state env
    must_be capture_id state
    abandon_found state

  unfoldable pub abandon : Bytes → Run SessionState
  abandon capture_id = with_session_operation_lock (abandon_session capture_id)

  unfoldable pub active : Run SessionState
  active = read_state env

  unfoldable pub mark_session : Bytes → Bytes → Run (Unit {0})
  mark_session capture_id status = do
    state ← read_state env
    must_be capture_id state
    let marked : SessionState = record state { status = status }
    write_state env marked
    write_session_metadata env marked

  unfoldable pub mark_active_session_status : Bytes → Bytes → Run (Unit {0})
  mark_active_session_status capture_id status =
      with_session_operation_lock (mark_session capture_id status)

  unfoldable pub read_session_metadata : Bytes → Run SessionState
  read_session_metadata directory =
      read_slot env (meta_file directory) (λ w. find_file (clean directory) w.metas)

  -- The address of Charles for a stop: of the session, if it has one.
  abbrev pub charles_stop_args : SessionState → List Bytes
  charles_stop_args state =
      if str_eq state.engine engine_charles
        && not (str_eq state.proxy_host [])
        && ltb_int (pos 0) state.proxy_port
      then codes "--proxy" ∷ join_host_port state.proxy_host (itoa state.proxy_port) ∷ []
      else []

  abbrev stop_reported : Outcome (Unit {0}) → Outcome (Unit {0})
  stop_reported (ok u) = ok tt
  stop_reported (err e) = err (stop_failed e)

  unfoldable pub stop_found : Outcome SessionState → Run (Unit {0})
  stop_found (ok state) = do
    stopped ← attempt (stop (charles_stop_args state))
    lift (stop_reported stopped)
  stop_found (err no_active_session) = return tt
  stop_found (err e) = fail e

  unfoldable pub stop_active_session_for_serve : Run (Unit {0})
  stop_active_session_for_serve = do found ← attempt active; stop_found found

-- `proxyFromRecordStartArgs`.
unfoldable pub proxy_from_record_start_args : List Bytes → Bytes
proxy_from_record_start_args [] = []
proxy_from_record_start_args (arg ∷ []) =
    if has_prefix arg (codes "--proxy=") then trim_prefix arg (codes "--proxy=") else []
proxy_from_record_start_args (arg ∷ next ∷ rest) =
    let more = proxy_from_record_start_args (next ∷ rest) in
    if str_eq arg (codes "--proxy")
    then next
    else if has_prefix arg (codes "--proxy=")
    then trim_prefix arg (codes "--proxy=")
    else more

-- What a session in the foreground waits for, with the surroundings that it then finds.
pub data Event : Type 0 where
  interrupt tick : Env → Event

-- How the wait goes on: it waits still, or it has ended.
pub data Wait : Type 0 where
  waiting finished : Wait

abbrev is_waiting : Wait → Bool
is_waiting waiting = true
is_waiting finished = false

abbrev stopped_here : Outcome (Unit {0}) → Outcome Wait
stopped_here (ok u) = ok finished
stopped_here (err e) = err (stop_failed e)

module _ (started : SessionState) (stop_args : List Bytes) where
  unfoldable pub on_interrupt : Env → Outcome SessionState → Run Wait
  on_interrupt env (err no_active_session) = return finished
  on_interrupt env (err e) = fail e
  on_interrupt env (ok active) = do
    refuse_if (not (str_eq active.capture_id started.capture_id))
        (other_session active.capture_id started.capture_id)
    stopped ← attempt (stop env stop_args)
    lift (stopped_here stopped)

  unfoldable pub on_tick : Outcome SessionState → Run Wait
  on_tick (err no_active_session) = return finished
  on_tick (err e) = fail e
  on_tick (ok active) = do
    refuse_if (not (str_eq active.capture_id started.capture_id))
        (other_session active.capture_id started.capture_id)
    return waiting

  -- One turn of the `select`.
  unfoldable pub wait_step : Event → Run Wait
  wait_step (interrupt env) = do found ← attempt (active env); on_interrupt env found
  wait_step (tick env) = do found ← attempt (active env); on_tick found

  -- Other processes may change the files between two turns: `others` is what they do before each.
  unfoldable pub wait_for_capture_session : List ((World → World) × Event) → Run Wait
  wait_for_capture_session [] = return waiting
  wait_for_capture_session ((others, event) ∷ events) =
      let later = wait_for_capture_session events in
      do modify others; now ← wait_step event; if is_waiting now then later else return finished

-- `recordStartForeground`: the arguments of the stop after an interrupt.
abbrev pub foreground_stop_args : SessionState → List Bytes → List Bytes
foreground_stop_args state args =
    if str_eq state.engine engine_charles && not (str_eq (proxy_from_record_start_args args) [])
    then codes "--proxy" ∷ proxy_from_record_start_args args ∷ []
    else []

unfoldable pub record_start_foreground :
    Env → List Bytes → List ((World → World) × Event) → Run Wait
record_start_foreground env args events = do
  state ← start env args
  wait_for_capture_session state (foreground_stop_args state args) events
