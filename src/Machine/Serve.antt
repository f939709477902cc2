-- ===== src/Machine/Serve.antt =====
-- The proxy of a server: `ensureManagedProxifyForServe`, `stopServeStartedProxify` and
-- `resolveServeControlHost` of cli/serve.go, and `ensureManagedProxify` and
-- `ensureControlProxyReady` of cli/control_server.go.
use http_capture.Prelude.{
  Bool, true, false, not, ◌||◌, ℤ, eq_int, Bytes, codes, List, [], ◌∷◌, Option, none, some,
  if◌then◌else◌, str_eq, trim_space,
}
use http_capture.Errors.{not_exist, proxify_on_other_port, engine_without_control, no_host_found}
use http_capture.Effects.{Outcome, ok, err, ◌>>=◌, ◌>>◌, return, fail, attempt, refuse_if}
use http_capture.Numbers.{itoa}
use http_capture.World.{ProxifyState, Device}
use http_capture.Session.{engine_proxify, engine_charles}
use http_capture.Session.Charles.{new_charles_client, charles_get}
use http_capture.Session.Manager.{join_host_port}
use http_capture.Processes.{read_proxify_state}
use http_capture.Control.{StartRequest}
use http_capture.Machine.{HostRun, Machine, on_files, matches}
use http_capture.Machine.Proxify.{proxify_start, remove_proxify_state, end_recorded}

-- The state file has another process than the one that was started.
abbrev pub is_other : ProxifyState → ProxifyState → Bool
is_other current started =
    not (eq_int current.pid started.pid) || not (str_eq current.start_token started.start_token)

module _ (m : Machine) where
  -- The proxy that is written down, if it runs.
  unfoldable pub running_proxify : Outcome ProxifyState → HostRun (Option ProxifyState)
  running_proxify (err e) = return none
  running_proxify (ok state) = do
    running ← matches m state.pid state.start_token
    return (if running then some state else none)

  abbrev start_args_for : ℤ → List Bytes
  start_args_for port = codes "--host" ∷ codes "0.0.0.0" ∷ codes "--port" ∷ itoa port ∷ []

  abbrev same_port : ProxifyState → ℤ → HostRun (Unit {0})
  same_port state port =
      refuse_if (not (eq_int state.port port)) (proxify_on_other_port state.port port)

  unfoldable pub or_start : ℤ → Option ProxifyState → HostRun (Unit {0})
  or_start port none = proxify_start m (start_args_for port)
  or_start port (some state) = same_port state port

  unfoldable pub ensure_managed_proxify : ℤ → HostRun (Unit {0})
  ensure_managed_proxify port = do
    found ← attempt (on_files m read_proxify_state)
    running ← running_proxify found
    or_start port running

  -- The state of the process, if it was started here.
  unfoldable pub or_start_for_serve : ℤ → Option ProxifyState → HostRun (Option ProxifyState)
  or_start_for_serve port none = do
    proxify_start m (start_args_for port)
    state ← on_files m read_proxify_state
    return (some state)
  or_start_for_serve port (some state) = do same_port state port; return none

  unfoldable pub ensure_managed_proxify_for_serve : ℤ → HostRun (Option ProxifyState)
  ensure_managed_proxify_for_serve port = do
    found ← attempt (on_files m read_proxify_state)
    running ← running_proxify found
    or_start_for_serve port running

  unfoldable pub stop_current : ProxifyState → Outcome ProxifyState → HostRun (Unit {0})
  stop_current started (err (not_exist path)) = return tt
  stop_current started (err e) = fail e
  stop_current started (ok current) = if is_other current started then return tt else do
    running ← matches m started.pid started.start_token
    if running then end_recorded m started else on_files m remove_proxify_state

  unfoldable pub stop_serve_started_proxify : Option ProxifyState → HostRun (Unit {0})
  stop_serve_started_proxify none = return tt
  stop_serve_started_proxify (some started) = do
    found ← attempt (on_files m read_proxify_state)
    stop_current started found

  -- A Charles that answers is ready.
  unfoldable pub ensure_control_proxy_ready : StartRequest → Device → HostRun (Unit {0})
  ensure_control_proxy_ready payload device =
      if str_eq device.engine engine_proxify
      then ensure_managed_proxify payload.proxy_port
      else if str_eq device.engine engine_charles
      then (do
        client ← on_files m (λ env.
            new_charles_client env (join_host_port payload.proxy_host (itoa payload.proxy_port)))
        reply ← on_files m (λ env. charles_get env client (codes "/"))
        return tt)
      else fail (engine_without_control device.engine)

-- The host of the control interface, and whether there is one.
unfoldable pub resolve_serve_control_host : Bytes → Bool → Bytes → Outcome (Bytes × Bool)
resolve_serve_control_host control_host pair discovered =
    if not (str_eq (trim_space control_host) [])
    then ok (trim_space control_host, true)
    else if not pair
    then ok ([], false)
    else if str_eq discovered []
    then err no_host_found
    else ok (discovered, true)
