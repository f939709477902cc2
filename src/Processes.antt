-- ===== src/Processes.antt =====
-- The proxy process that the CLI manages: its state file, cli/proxy_proxify.go, and the test that
-- the process written down still runs, cli/process_linux.go.
use http_capture.Prelude.{
  Bool, false, not, ◌&&◌, ◌||◌, ℤ, pos, leb_int, Bytes, codes, [], Option, none, some, str_eq,
}
use http_capture.Errors.{invalid_process_state}
use http_capture.Effects.{◌>>=◌, ◌>>◌, return, refuse_if}
use http_capture.Paths.{join}
use http_capture.World.{ProxifyState, Env, Run, read_slot, config_directory}

abbrev matches_token : Bytes → Option (Bytes × Bytes) → Bool
matches_token token none = false
matches_token token (some (actual, state)) =
    not (str_eq state (codes "Z")) && not (str_eq token []) && str_eq actual token

module _ (env : Env) where
  unfoldable pub managed_process_matches : ℤ → Bytes → Bool
  managed_process_matches pid token = matches_token token (env.process_identity pid)

  unfoldable pub read_proxify_state : Run ProxifyState
  read_proxify_state = do
    directory ← config_directory env
    state ← read_slot env (join directory (codes "proxify.json")) (λ w. w.proxify)
    refuse_if
        (leb_int state.pid (pos 0)
          || str_eq state.start_token []
          || str_eq state.traffic_path []
          || str_eq state.config_dir [])
        invalid_process_state
    return state
