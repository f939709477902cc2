-- ===== src/Machine/Launched.antt =====
-- A start that succeeds, `proxifyStart` of cli/proxy_proxify.go: the state file then describes a
-- process that runs.
use http_capture.Prelude.{true, ℤ, Bytes, some, ◌≡◌, arith}
use http_capture.Effects.{ok, ◌>>=◌, ◌>>◌}
use http_capture.Effects.Ensures.{Ensures}
use http_capture.World.{ProxifyState, World, Env, holds, secure_write, system, config_directory}
use http_capture.Machine.{Host, Machine, runs_as}
use http_capture.Machine.Proxify.{write_proxify_state}

module _ (m : Machine) where
  Runs : ℤ → Bytes → Host → Type 0
  Runs pid token h = runs_as m h pid token ≡ true

  written :
      (s : ProxifyState) (env : Env) (w : World) (u : Unit {0})
      → (write_proxify_state s env w).0 ≡ ok u
      → (write_proxify_state s env w).1.proxify ≡ some (holds s)
  unfolding write_proxify_state config_directory secure_write system ◌>>=◌
  written s env w u e = ground arith

  -- The state file describes a process that runs.
  pub Serving : Host → Type 0
  Serving h =
      (s : ProxifyState) × (h.world.proxify ≡ some (holds s))
      × (runs_as m h s.pid s.start_token ≡ true)
