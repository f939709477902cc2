-- ===== src/Session.antt =====
-- The files of a capture session, cli/main.go: the active session and the metadata in each session
-- directory, and the names of sessions.
pub mod Charles
pub mod Start
pub mod Extract
pub mod Stop
pub mod Manager
pub mod Frames
use http_capture.Prelude.{
  Bool, Bytes, codes, List, [], ◌∷◌, ◌++◌, Option, none, some, if◌then◌else◌, str_eq, trim_space,
}
use http_capture.Errors.{
  remove_file, make_directory, getwd, random_bytes, not_exist, no_active_session, refused_by_system,
  empty_session_directory, Error,
}
use http_capture.Effects.{Outcome, ok, err, ◌>>=◌, ◌>>◌, return, fail, attempt, gets, lift, modify}
use http_capture.Paths.{clean, join}
use http_capture.World.{
  SessionState, World, Env, Run, Slot, holds, corrupt, Fault, fine, is_fine, system, secure_write,
  read_slot, config_directory,
}

abbrev pub engine_proxify : Bytes
engine_proxify = codes "proxify"

abbrev pub engine_charles : Bytes
engine_charles = codes "charles"

abbrev pub put_active : Slot SessionState → World → World
put_active s w = record w { active = some s }

abbrev pub put_meta : Bytes → Slot SessionState → World → World
put_meta directory s w = record w { metas = (clean directory, s) ∷ w.metas }

abbrev active_file : Bytes → Bytes
active_file directory = join directory (codes "active-session.json")

abbrev pub meta_file : Bytes → Bytes
meta_file directory = join directory (codes "meta.json")

-- A missing file is reported in other words, and is still `os.ErrNotExist` to `errors.Is`.
abbrev no_session_yet : Outcome SessionState → Outcome SessionState
no_session_yet (ok s) = ok s
no_session_yet (err (not_exist path)) = err no_active_session
no_session_yet (err e) = err e

abbrev pub removed : Option (Slot SessionState) → World → World
removed none w = w
removed (some s) w = record w { active = none }

module _ (env : Env) where
  unfoldable pub write_state : SessionState → Run (Unit {0})
  write_state state = do
    directory ← config_directory env
    secure_write env (active_file directory) state put_active

  unfoldable pub write_session_metadata_to : Bytes → SessionState → Run (Unit {0})
  write_session_metadata_to directory state =
      if str_eq directory [] then fail empty_session_directory else do
        system env (make_directory directory)
        secure_write env (meta_file directory) state (put_meta directory)

  unfoldable pub write_session_metadata : SessionState → Run (Unit {0})
  write_session_metadata state = write_session_metadata_to state.session_dir state

  -- `os.Remove` of a missing file is no error.
  unfoldable pub clear_state : Run (Unit {0})
  clear_state = do
    directory ← config_directory env
    let path = active_file directory
    system env (remove_file path)
    modify (λ w. removed w.active w)

  unfoldable pub read_state : Run SessionState
  read_state = do
    directory ← config_directory env
    found ← attempt (read_slot env (active_file directory) (λ w. w.active))
    lift (no_session_yet found)

  unfoldable pub session_directory : Bytes → Run Bytes
  session_directory name = do
    system env getwd
    let path = join (join env.working_directory (codes "httpcapture-sessions")) name
    system env (make_directory path)
    return path

  unfoldable pub new_capture_id : Run Bytes
  new_capture_id = do
    system env random_bytes
    return (env.timestamp ++ (codes "-" ++ env.random_suffix))

-- `normalizePackages`: the packages seen so far, newest first, stand in `seen`.
seen_before : List Bytes → Bytes → Bool
seen_before [] value = Bool.false
seen_before (s ∷ seen) value = if str_eq s value then Bool.true else seen_before seen value

normalize : List Bytes → List Bytes → List Bytes
unfolding seen_before
normalize seen [] = []
normalize seen (value ∷ values) =
    let name = trim_space value in
    let skip = normalize seen values in
    let keep = name ∷ normalize (name ∷ seen) values in
    if str_eq name [] then skip else if seen_before seen name then skip else keep

unfoldable pub normalize_packages : List Bytes → List Bytes
unfolding normalize trim_space str_eq
normalize_packages values = normalize [] values
