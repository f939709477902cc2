-- ===== src/Session/Frames/Archived.antt =====
-- What a stop that succeeds leaves behind: no active session, and the metadata of the finished
-- session in its directory and in the directory where it began.
use http_capture.Prelude.{Bytes, codes, List, none, some, ◌≡◌, arith, ℤ, str_eq_iff, str_eq_refl}
use http_capture.Effects.{ok, ◌>>=◌}
use http_capture.Effects.Frames.{Frame-lift, Frame-if, Frame-fail, Frame-return}
use http_capture.Effects.Ensures.{
  Ensures, ensures_rules, EnsuresFrom, EnsuresFrom-reader, EnsuresFrom-known,
}
use http_capture.Paths.{clean}
use http_capture.World.{
  World, Env, Run, SessionState, holds, system, secure_write, read_slot, find_file,
  config_directory,
}
use http_capture.Session.{
  read_state, clear_state, write_session_metadata, write_session_metadata_to,
}
use http_capture.Session.Stop.{
  archive_session, proxify_record_stop, charles_record_stop, stop_engine, record_stop,
}
use http_capture.Session.Manager.{stop, with_session_operation_lock}
use http_capture.Session.Frames.{read_state-Frame, system-Frame, config_directory-Frame}

-- The session `old` is over: `s` is its metadata.
pub record Archived (now : ℤ) (old : SessionState) (w : World) : Type 0 where
  pub final : SessionState
  pub same_id : final.capture_id ≡ old.capture_id
  pub completed : final.status ≡ codes "completed"
  pub stopped_now : final.stopped_ms ≡ now
  pub described : find_file (clean final.session_dir) w.metas ≡ some (holds final)
  pub described_at_origin : find_file (clean old.session_dir) w.metas ≡ some (holds final)
  pub inactive : w.active ≡ none

module _ (env : Env) where
  archive_session-ok :
      (original : Bytes) (s : SessionState) (w : World) (u : Unit {0})
      → (archive_session env original s w).0 ≡ ok u
      → let w' = (archive_session env original s w).1 in
        (find_file (clean s.session_dir) w'.metas ≡ some (holds s))
        × (find_file (clean original) w'.metas ≡ some (holds s))
        × (w'.active ≡ none)
  unfolding archive_session write_session_metadata write_session_metadata_to clear_state
      config_directory secure_write system ◌>>=◌ find_file
  archive_session-ok original s w u h = ground (
    arith,
    str_eq_iff (clean original) (clean s.session_dir),
    str_eq_refl (clean original),
    str_eq_refl (clean s.session_dir),
  )

  archive_session-Ensures :
      (old s : SessionState)
      → s.capture_id ≡ old.capture_id
      → s.status ≡ codes "completed"
      → s.stopped_ms ≡ env.now
      → Ensures (λ u w. Archived env.now old w) (archive_session env old.session_dir s)
  archive_session-Ensures old s id status stopped = record {
    at = λ w u h.
        let (there, origin, gone) = archive_session-ok old.session_dir s w u h in
        record {
          final = s;
          same_id = id;
          completed = status;
          stopped_now = stopped;
          described = there;
          described_at_origin = origin;
          inactive = gone;
        };
  }

  stop_engine-Ensures :
      (old : SessionState) (proxy out formats : Bytes)
      → Ensures (λ u w. Archived env.now old w) (stop_engine env old proxy out formats)
  unfolding stop_engine proxify_record_stop charles_record_stop
  stop_engine-Ensures old proxy out formats =
      search (ensures_rules, archive_session-Ensures) depth 20

  pub read_state-ok :
      (w : World) (s : SessionState) → (read_state env w).0 ≡ ok s → w.active ≡ some (holds s)
  unfolding read_state read_slot config_directory system ◌>>=◌
  read_state-ok w s h = ground arith

  pub read_state-same : (w : World) → (read_state env w).1 ≡ w
  read_state-same = (read_state-Frame {view = λ w. w} env).at

  StoppedFrom : World → Unit {0} → World → Type 0
  StoppedFrom w u w' =
      (old : SessionState) × (w.active ≡ some (holds old)) × Archived env.now old w'

  stop_engine-from :
      (old : SessionState) (proxy out formats : Bytes)
      → EnsuresFrom
          (λ w u w'. w.active ≡ some (holds old) → StoppedFrom w u w')
          (stop_engine env old proxy out formats)
  unfolding StoppedFrom
  stop_engine-from old proxy out formats = record {
    at = λ w u h e. (old, e, (stop_engine-Ensures old proxy out formats).at w u h);
  }

  record_stop-from : (args : List Bytes) → EnsuresFrom StoppedFrom (record_stop env args)
  unfolding record_stop
  record_stop-from args = EnsuresFrom-reader _ _ ((Frame-lift {view = λ w. w} _).at) λ parsed.
      EnsuresFrom-reader _ _ ((Frame-if {view = λ w. w} _ _ _ (Frame-fail _) (Frame-return _)).at)
        λ u.
          EnsuresFrom-known (λ s w. w.active ≡ some (holds s)) _ _ read_state-same read_state-ok
            λ old. stop_engine-from old _ _ _

  pub locked-from :
      {A : Type 0} {Q : World → A → World → Type 0} (m : Run A)
      → EnsuresFrom Q m
      → EnsuresFrom Q (with_session_operation_lock env m)
  unfolding with_session_operation_lock
  locked-from m h =
      EnsuresFrom-reader _ _ ((config_directory-Frame {view = λ w. w} env).at) λ directory.
        EnsuresFrom-reader _ _ ((system-Frame {view = λ w. w} env _).at)
          λ u. EnsuresFrom-reader _ _ ((system-Frame {view = λ w. w} env _).at) λ v. h

  -- A stop that succeeds ends the active session: afterwards there is none, and the metadata in its
  -- directory and where it began hold the same id, the status completed and the time of the stop.
  pub stop-archives :
      (args : List Bytes) (w : World)
      → (stop env args w).0 ≡ ok tt
      → (old : SessionState) × (w.active ≡ some (holds old))
        × Archived env.now old (stop env args w).1
  unfolding stop StoppedFrom
  stop-archives args w h = (locked-from _ (record_stop-from args)).at w tt h
