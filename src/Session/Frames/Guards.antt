-- ===== src/Session/Frames/Guards.antt =====
-- The session that an operation may touch: a start leaves a running session alone, and the other
-- operations leave alone a session that has another id.
use http_capture.Prelude.{
  Bytes, codes, List, none, some, ◌≡◌, ◌≢◌, arith, ℤ, str_eq, str_eq_iff, str_eq_refl, ap, false,
}
use http_capture.Errors.{other_session}
use http_capture.Effects.{ok, err, ◌>>=◌, ◌>>◌, return}
use http_capture.Effects.Ensures.{
  Ensures, EnsuresFrom, EnsuresFrom-known, EnsuresFrom-refuse_if, Ensures-bind,
}
use http_capture.Paths.{clean}
use http_capture.World.{
  World, Env, Run, SessionState, holds, system, secure_write, find_file, config_directory,
}
use http_capture.Session.{
  read_state, clear_state, write_session_metadata, write_session_metadata_to, write_state,
}
use http_capture.Session.Manager.{
  must_be, abandon_found, abandon, abandon_session, mark_session, mark_active_session_status,
  active, interrupt, tick, wait_step, on_interrupt, on_tick,
}
use http_capture.Session.Frames.Archived.{read_state-ok, read_state-same, locked-from}
use http_capture.Session.Frames.Started.{IsActive}

abbrev pub Marked : Bytes → Bytes → World → Unit {0} → World → Type 0
Marked id status w u w' =
    (old : SessionState) × (w.active ≡ some (holds old))
    × (old.capture_id ≡ id)
    × IsActive (record old { status = status }) w'

abbrev pub Abandoned : Bytes → ℤ → World → SessionState → World → Type 0
Abandoned id now w s w' =
    (old : SessionState) × (w.active ≡ some (holds old))
    × (old.capture_id ≡ id)
    × (s ≡ record old { status = codes "abandoned"; stopped_ms = now })
    × (find_file (clean s.session_dir) w'.metas ≡ some (holds s))
    × (w'.active ≡ none)

module _ (env : Env) where
  written_twice :
      (s : SessionState)
      → Ensures (λ u w. IsActive s w) (do write_state env s; write_session_metadata env s)
  unfolding ◌>>=◌ write_session_metadata write_session_metadata_to write_state config_directory
      secure_write system find_file
  written_twice s = record { at = λ w u h. ground (arith, str_eq_refl (clean s.session_dir)) }

  written_and_cleared :
      (s : SessionState)
      → Ensures
          (λ t w.
            (t ≡ s)
            × (find_file (clean s.session_dir) w.metas ≡ some (holds s))
            × (w.active ≡ none))
          (do write_session_metadata env s; clear_state env; return s)
  unfolding ◌>>=◌ write_session_metadata write_session_metadata_to clear_state config_directory
      secure_write system find_file
  written_and_cleared s = record { at = λ w t h. ground (arith, str_eq_refl (clean s.session_dir)) }

  abandon_found-Ensures :
      (old : SessionState)
      → Ensures
          (λ t w.
            (t ≡ record old { status = codes "abandoned"; stopped_ms = env.now })
            × (find_file (clean old.session_dir) w.metas ≡ some (holds t))
            × (w.active ≡ none))
          (abandon_found env old)
  unfolding abandon_found
  abandon_found-Ensures old = Ensures-bind _ _ λ u. record {
    at = λ w t h.
        let (same, described, gone) = (written_and_cleared _).at w t h in
        (same, rw same described, gone);
  }

  -- The rest of an operation runs only for the session that was named.
  must_be-from :
      {B : Type 0} {Q : World → B → World → Type 0} (id : Bytes) (old : SessionState) (rest : Run B)
      → (old.capture_id ≡ id → EnsuresFrom Q rest)
      → EnsuresFrom Q (must_be env id old >>= λ _. rest)
  must_be-from id old rest h =
      EnsuresFrom-refuse_if _ _ rest λ e. h ((str_eq_iff _ _).0 (ground arith))

  mark_session-from :
      (id status : Bytes) → EnsuresFrom (Marked id status) (mark_session env id status)
  unfolding mark_session
  mark_session-from id status =
      EnsuresFrom-known (λ s w. w.active ≡ some (holds s)) _ _ (read_state-same env)
        (read_state-ok env)
        λ old.
          must_be-from id old _
            λ same. record { at = λ w u h e. (old, e, same, (written_twice _).at w u h) }

  abandon_session-from : (id : Bytes) → EnsuresFrom (Abandoned id env.now) (abandon_session env id)
  unfolding abandon_session
  abandon_session-from id =
      EnsuresFrom-known (λ s w. w.active ≡ some (holds s)) _ _ (read_state-same env)
        (read_state-ok env) λ old. must_be-from id old _ λ same. record { at = abandoned old same }
    where
      abandoned :
          (old : SessionState)
          → old.capture_id ≡ id
          → (w : World) (s : SessionState) → (abandon_found env old w).0 ≡ ok s
          → w.active ≡ some (holds old)
          → Abandoned id env.now w s (abandon_found env old w).1
      abandoned old same w s h e =
          let (t, described, gone) = (abandon_found-Ensures old).at w s h in
          let place : s.session_dir ≡ old.session_dir = ap (λ x. x.session_dir) t in
          (old, e, same, t, simp place described, gone)

  -- A change of status that succeeds is made to the active session with the given id, and to
  -- nothing but its status, in both of its files.
  mark-IsActive :
      (id status : Bytes) (w : World)
      → (mark_active_session_status env id status w).0 ≡ ok tt
      → Marked id status w tt (mark_active_session_status env id status w).1
  unfolding mark_active_session_status
  mark-IsActive id status w h = (locked-from env _ (mark_session-from id status)).at w tt h

  -- An abandonment that succeeds was of the active session, with the given id: it is described as
  -- abandoned at this time, and there is no active session afterwards.
  pub abandon-inactive :
      (id : Bytes) (w : World) (s : SessionState)
      → (abandon env id w).0 ≡ ok s
      → Abandoned id env.now w s (abandon env id w).1
  unfolding abandon
  abandon-inactive id w s h = (locked-from env _ (abandon_session-from id)).at w s h

  -- With another session active, an event of a waiting foreground command changes nothing and ends
  -- the wait with an error.
  wait_step-other :
      (started other : SessionState) (stop_args : List Bytes) (w : World)
      → (read_state env w).0 ≡ ok other
      → other.capture_id ≢ started.capture_id
      → (wait_step started stop_args (interrupt env) w
          ≡ (err (other_session other.capture_id started.capture_id), w))
        × (wait_step started stop_args (tick env) w
            ≡ (err (other_session other.capture_id started.capture_id), w))
  unfolding wait_step active on_interrupt on_tick ◌>>=◌
  wait_step-other started other stop_args w h differ =
      let found : read_state env w ≡ (ok other, w) = λ i. (h i, read_state-same env w i) in
      let test : str_eq other.capture_id started.capture_id ≡ false =
        ground (arith, str_eq_iff other.capture_id started.capture_id) in
      (rw (found, test), rw (found, test))
