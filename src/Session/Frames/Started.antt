-- ===== src/Session/Frames/Started.antt =====
-- What a start, an abandonment and a change of status that succeed leave behind.
use http_capture.Prelude.{
  Bytes, codes, List, some, ◌≡◌, arith, pos, str_eq_refl, ap, subst, sym, ◌∙◌,
}
use http_capture.Effects.{ok, ◌>>=◌, ◌>>◌, return, attempt}
use http_capture.Effects.Ensures.{Ensures, ensures_rules, bind-ok}
use http_capture.Paths.{clean}
use http_capture.World.{
  World, Env, SessionState, holds, system, secure_write, find_file, config_directory,
}
use http_capture.Session.{
  read_state, write_session_metadata, write_session_metadata_to, write_state,
}
use http_capture.Session.Start.{
  proxify_record_start, charles_record_start, start_engine, record_start, StartOptions,
  or_stop_recording,
}
use http_capture.Session.Manager.{start, with_session_operation_lock}
use http_capture.Session.Frames.Archived.{read_state-ok, read_state-same}

-- The active session and its metadata are the state `s`.
pub record IsActive (s : SessionState) (w : World) : Type 0 where
  pub active : w.active ≡ some (holds s)
  pub described : find_file (clean s.session_dir) w.metas ≡ some (holds s)

-- `s` has begun and has no end.
pub record IsFresh (s : SessionState) (w : World) : Type 0 where
  pub shown : IsActive s w
  pub recording : s.status ≡ codes "recording"
  pub endless : s.stopped_ms ≡ pos 0

module _ (env : Env) where
  finish_start :
      (s : SessionState)
      → s.status ≡ codes "recording"
      → s.stopped_ms ≡ pos 0
      → Ensures IsFresh (do write_session_metadata env s; write_state env s; return s)
  unfolding ◌>>=◌ write_session_metadata write_session_metadata_to write_state config_directory
      secure_write system find_file
  finish_start s r z = record { at = λ w t h. ground (arith, str_eq_refl (clean s.session_dir)) }

  finish_charles_start :
      (client : Bytes) (s : SessionState)
      → s.status ≡ codes "recording"
      → s.stopped_ms ≡ pos 0
      → Ensures IsFresh (do
        written ← attempt (write_state env s)
        or_stop_recording env client written
        described ← attempt (write_session_metadata env s)
        or_stop_recording env client described
        return s)
  unfolding ◌>>=◌ write_session_metadata write_session_metadata_to write_state config_directory
      secure_write system find_file or_stop_recording
  finish_charles_start client s r z = record {
    at = λ w t h. ground (arith, str_eq_refl (clean s.session_dir));
  }

  start_engine-Ensures : (o : StartOptions) → Ensures IsFresh (start_engine env o)
  unfolding start_engine proxify_record_start charles_record_start
  start_engine-Ensures o = search (ensures_rules, finish_start, finish_charles_start) depth 20

  record_start-Ensures : (args : List Bytes) → Ensures IsFresh (record_start env args)
  unfolding record_start
  record_start-Ensures args = search (ensures_rules, start_engine-Ensures)

  same_active :
      (s t : SessionState) (w : World) → IsFresh s w → w.active ≡ some (holds t) → IsFresh t w
  same_active s t w f e =
      let same : s ≡ t = cc (f.shown.active, e) in subst (λ x. IsFresh x w) same f

  started_then_read :
      (args : List Bytes) → Ensures IsFresh (do started ← record_start env args; read_state env)
  started_then_read args = record {
    at = λ w s h.
        let (started, first, rest) = bind-ok (record_start env args) (λ x. read_state env) w s h in
        let w' = (record_start env args w).1 in
        let fresh = (record_start-Ensures args).at w started first in
        let read : (read_state env w').0 ≡ ok s = ap (λ p. p.0) (sym rest) ∙ h in
        subst (IsFresh s) (sym (ap (λ p. p.1) rest ∙ read_state-same env w'))
          (same_active started s w' fresh (read_state-ok env w' s read));
  }

  start-Ensures : (args : List Bytes) → Ensures IsFresh (start env args)
  unfolding start with_session_operation_lock
  start-Ensures args = search (ensures_rules, started_then_read)

  -- A start that succeeds returns the session that it has written down as the active one and in
  -- the metadata of its directory, with the status recording and no end.
  pub start-IsFresh :
      (args : List Bytes) (w : World) (s : SessionState)
      → (start env args w).0 ≡ ok s
      → IsFresh s (start env args w).1
  start-IsFresh args = (start-Ensures args).at
