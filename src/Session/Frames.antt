-- ===== src/Session/Frames.antt =====
-- Which files the session operations leave alone: all but `clearState` and `writeState` leave the
-- active session as it is. For cli/main.go and cli/record_proxify.go.
pub mod Active
pub mod Ending
pub mod Archived
pub mod Started
pub mod Guards
pub mod Running
use http_capture.Prelude.{
  Bytes, List, [], ◌∷◌, Option, none, some, ◌≡◌, refl, arith, if◌then◌else◌, ◌∙◌,
}
use http_capture.Errors.{Op, not_exist, change_mode, write_file}
use http_capture.Effects.{Outcome, ok, err, return, fail, lift, gets, modify, ◌>>=◌, attempt}
use http_capture.Effects.Frames.{
  Frame, FrameOnError, Frame-fail, Frame-return, Frame-bind, Frame-if, frame_rules,
  FrameOnError-bind, FrameOnError-if, FrameOnError-of_Frame, FrameOnError-fail,
}
use http_capture.World.{
  World, Env, Run, Slot, SessionState, Url, system, secure_write, read_slot, config_directory,
  put_file, Fault, fine, refused, torn, holds, corrupt,
}
use http_capture.Session.{
  write_session_metadata_to, write_session_metadata, read_state, clear_state, put_meta,
}
use http_capture.Session.Charles.{parsed_address, new_charles_client, charles_get}
use http_capture.Session.Start.{file_size}
use http_capture.Session.Extract.{
  content_or_missing, open_content, finish_file, extract_captured_transactions, export_capture_har,
}
use http_capture.Session.Stop.{
  archive_session, proxify_record_stop, endpoint_of, export_formats, charles_record_stop,
  stop_engine, record_stop,
}

parsed_address-Frame :
    {V : Type 0} {view : World → V} (address : Bytes) (u : Option Url)
    → Frame view (parsed_address address u)
unfolding parsed_address
parsed_address-Frame address none = Frame-fail _
parsed_address-Frame address (some url) = Frame-return _

module _ {V : Type 0} {view : World → V} (env : Env) where
  pub system-Frame : (op : Op) → Frame view (system env op)
  unfolding system
  system-Frame op = record { at = λ w. ground arith }

  pub config_directory-Frame : Frame view (config_directory env)
  unfolding config_directory
  config_directory-Frame = search (frame_rules, system-Frame)

  secure_write_cases :
      {A : Type 0} (path : Bytes) (a : A) (put : Slot A → World → World)
      → ((s : Slot A) (w : World) → view (put s w) ≡ view w)
      → (f : Fault) → env.fault (write_file path) ≡ f
      → (w : World) → view (secure_write env path a put w).1 ≡ view w
  unfolding secure_write
  secure_write_cases path a put h fine e w =
      rw (e, secure_write) ((system-Frame (change_mode path)).at (put (holds a) w) ∙ h (holds a) w)
  secure_write_cases path a put h refused e w = rw (e, secure_write)
  secure_write_cases path a put h torn e w = rw (e, secure_write) (h corrupt w)

  pub secure_write-Frame :
      {A : Type 0} (path : Bytes) (a : A) (put : Slot A → World → World)
      → ((s : Slot A) (w : World) → view (put s w) ≡ view w)
      → Frame view (secure_write env path a put)
  secure_write-Frame path a put h = record { at = secure_write_cases path a put h _ refl }

  pub read_slot-Frame :
      {A : Type 0} (path : Bytes) (slot : World → Option (Slot A))
      → Frame view (read_slot env path slot)
  unfolding read_slot
  read_slot-Frame path slot = search (frame_rules, system-Frame)

  pub read_state-Frame : Frame view (read_state env)
  unfolding read_state
  read_state-Frame = search (frame_rules, config_directory-Frame, read_slot-Frame)

  pub new_charles_client-Frame : (address : Bytes) → Frame view (new_charles_client env address)
  unfolding new_charles_client
  new_charles_client-Frame address = parsed_address-Frame _ _

abbrev pub active_of : World → Option (Slot SessionState)
active_of w = w.active

pub ruleset system_rules = (
  frame_rules, system-Frame, config_directory-Frame, secure_write-Frame, read_slot-Frame,
  read_state-Frame, new_charles_client-Frame,
)
