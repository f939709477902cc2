-- ===== src/Session/Frames/Ending.antt =====
-- A stop or an abandonment that fails leaves the active session as it was: only the last call,
-- `clearState`, removes it.
use http_capture.Prelude.{Bytes, List, ◌≡◌}
use http_capture.Errors.{Error}
use http_capture.Effects.{err, modify}
use http_capture.Effects.Frames.{
  Frame, FrameOnError, FrameOnError-bind, FrameOnError-if, FrameOnError-fail, FrameOnError-return,
  FrameOnError-return_after,
}
use http_capture.World.{World, Env, Run, SessionState}
use http_capture.Session.{clear_state, removed}
use http_capture.Session.Stop.{
  archive_session, proxify_record_stop, charles_record_stop, stop_engine, record_stop,
}
use http_capture.Session.Manager.{
  stop_charles_of, abandon_found, abandon_session, abandon, with_session_operation_lock, stop,
}
use http_capture.Session.Frames.{active_of, system_rules}
use http_capture.Session.Frames.Active.{
  write_session_metadata_to-KeepsActive, write_session_metadata-KeepsActive,
  charles_get-KeepsActive, file_size-KeepsActive, extract-KeepsActive,
  export_capture_har-KeepsActive, export_formats-KeepsActive,
}

ruleset ending_rules = (
  system_rules, write_session_metadata_to-KeepsActive, write_session_metadata-KeepsActive,
  charles_get-KeepsActive, file_size-KeepsActive, extract-KeepsActive,
  export_capture_har-KeepsActive, export_formats-KeepsActive, FrameOnError-bind, FrameOnError-if,
  FrameOnError-fail, FrameOnError-return, FrameOnError-return_after,
)

module _ (env : Env) where
  removal : FrameOnError active_of (modify (λ w. removed w.active w))
  unfolding modify
  removal = record { at = λ w e h. cc }

  clear_state-FrameOnError : FrameOnError active_of (clear_state env)
  unfolding clear_state
  clear_state-FrameOnError = search (ending_rules, removal)

  archive_session-FrameOnError :
      (original : Bytes) (s : SessionState)
      → FrameOnError active_of (archive_session env original s)
  unfolding archive_session
  archive_session-FrameOnError original s = search (ending_rules, clear_state-FrameOnError)

  proxify_record_stop-FrameOnError :
      (s : SessionState) (out formats : Bytes)
      → FrameOnError active_of (proxify_record_stop env s out formats)
  unfolding proxify_record_stop
  proxify_record_stop-FrameOnError s out formats =
      search (ending_rules, archive_session-FrameOnError) depth 20

  charles_record_stop-FrameOnError :
      (s : SessionState) (proxy out formats : Bytes)
      → FrameOnError active_of (charles_record_stop env s proxy out formats)
  unfolding charles_record_stop
  charles_record_stop-FrameOnError s proxy out formats =
      search (ending_rules, archive_session-FrameOnError) depth 20

  stop_engine-FrameOnError :
      (s : SessionState) (proxy out formats : Bytes)
      → FrameOnError active_of (stop_engine env s proxy out formats)
  unfolding stop_engine
  stop_engine-FrameOnError s proxy out formats =
      search (ending_rules, proxify_record_stop-FrameOnError, charles_record_stop-FrameOnError)

  record_stop-FrameOnError : (args : List Bytes) → FrameOnError active_of (record_stop env args)
  unfolding record_stop
  record_stop-FrameOnError args = search (ending_rules, stop_engine-FrameOnError) depth 12

  with_lock-FrameOnError :
      {A : Type 0} (m : Run A)
      → FrameOnError active_of m
      → FrameOnError active_of (with_session_operation_lock env m)
  unfolding with_session_operation_lock
  with_lock-FrameOnError m h = search ending_rules depth 12

  pub stop-FrameOnError : (args : List Bytes) → FrameOnError active_of (stop env args)
  unfolding stop
  stop-FrameOnError args = with_lock-FrameOnError _ (record_stop-FrameOnError args)

  stop_charles_of-Frame : (s : SessionState) → Frame active_of (stop_charles_of env s)
  unfolding stop_charles_of
  stop_charles_of-Frame s = search ending_rules depth 12

  abandon_session-FrameOnError : (id : Bytes) → FrameOnError active_of (abandon_session env id)
  unfolding abandon_session abandon_found
  abandon_session-FrameOnError id =
      search (ending_rules, stop_charles_of-Frame, clear_state-FrameOnError) depth 14

  pub abandon-FrameOnError : (id : Bytes) → FrameOnError active_of (abandon env id)
  unfolding abandon
  abandon-FrameOnError id = with_lock-FrameOnError _ (abandon_session-FrameOnError id)

  -- A stop that fails leaves the active session as it was, whatever the failure.
  pub stop_keeps_active :
      (args : List Bytes) (w : World) (e : Error)
      → (stop env args w).0 ≡ err e
      → (stop env args w).1.active ≡ w.active
  stop_keeps_active args w e = (stop-FrameOnError args).at w e

  -- An abandonment that fails leaves the active session as it was.
  abandon_keeps_active :
      (id : Bytes) (w : World) (e : Error)
      → (abandon env id w).0 ≡ err e
      → (abandon env id w).1.active ≡ w.active
  abandon_keeps_active id w e = (abandon-FrameOnError id).at w e
