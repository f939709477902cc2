-- ===== src/Session/Frames/Active.antt =====
-- The operations that leave the active session alone, and those that leave it alone when they fail.
use http_capture.Prelude.{Bytes, List, [], ◌∷◌, Option, none, some, ◌≡◌, refl, ℤ}
use http_capture.Effects.{modify}
use http_capture.Effects.Frames.{Frame, Frame-fail, Frame-return, Frame-bind}
use http_capture.World.{World, Env, Run, Slot, SessionState, holds, corrupt, put_file}
use http_capture.Session.{write_session_metadata_to, write_session_metadata, put_meta}
use http_capture.Session.Charles.{charles_get}
use http_capture.Session.Start.{file_size}
use http_capture.Session.Extract.{
  content_or_missing, open_content, finish_file, extract_captured_transactions, export_capture_har,
  Window,
}
use http_capture.Session.Stop.{endpoint_of, export_formats}
use http_capture.Session.Frames.{active_of, system_rules, secure_write-Frame}

abbrev KeepsActive : {A : Type 0} → Run A → Type 0
KeepsActive m = Frame active_of m

put_meta-active :
    (d : Bytes) (s : Slot SessionState) (w : World) → active_of (put_meta d s w) ≡ active_of w
put_meta-active d s w = refl

put_file-active :
    (p : Bytes) (s : Slot Bytes) (w : World) → active_of (put_file p s w) ≡ active_of w
put_file-active p corrupt w = refl
put_file-active p (holds c) w = refl

put_file-KeepsActive : (p c : Bytes) → Frame active_of (modify (put_file p (holds c)))
unfolding modify
put_file-KeepsActive p c = record { at = λ w. refl }

content_or_missing-KeepsActive :
    (p : Bytes) (c : Option Bytes) → Frame active_of (content_or_missing p c)
unfolding content_or_missing
content_or_missing-KeepsActive p none = Frame-fail _
content_or_missing-KeepsActive p (some c) = Frame-return _

endpoint_of-KeepsActive :
    (env : Env) (f : Bytes) (e : Option Bytes) → Frame active_of (endpoint_of env f e)
unfolding endpoint_of
endpoint_of-KeepsActive env f none = Frame-fail _
endpoint_of-KeepsActive env f (some e) = Frame-return _

module _ (env : Env) where
  pub write_session_metadata_to-KeepsActive :
      (d : Bytes) (s : SessionState) → Frame active_of (write_session_metadata_to env d s)
  unfolding write_session_metadata_to
  write_session_metadata_to-KeepsActive d s = search (system_rules, put_meta-active)

  pub write_session_metadata-KeepsActive :
      (s : SessionState) → Frame active_of (write_session_metadata env s)
  unfolding write_session_metadata
  write_session_metadata-KeepsActive s = write_session_metadata_to-KeepsActive _ s

  pub charles_get-KeepsActive :
      (client path : Bytes) → Frame active_of (charles_get env client path)
  unfolding charles_get
  charles_get-KeepsActive client path = record { at = λ w. refl }

  pub file_size-KeepsActive : (p : Bytes) → Frame active_of (file_size env p)
  unfolding file_size
  file_size-KeepsActive p = search system_rules

  open_content-KeepsActive : (p : Bytes) → Frame active_of (open_content env p)
  unfolding open_content
  open_content-KeepsActive p = search (system_rules, content_or_missing-KeepsActive)

  finish_file-KeepsActive : (p c : Bytes) → Frame active_of (finish_file env p c)
  unfolding finish_file
  finish_file-KeepsActive p c = search (system_rules, put_file-KeepsActive) depth 12

  pub extract-KeepsActive :
      (source destination : Bytes) (start end : ℤ) (window : Window)
      → Frame active_of (extract_captured_transactions env source destination start end window)
  unfolding extract_captured_transactions
  extract-KeepsActive source destination start end window =
      search (system_rules, open_content-KeepsActive, finish_file-KeepsActive) depth 14

  pub export_capture_har-KeepsActive :
      (source destination : Bytes) → Frame active_of (export_capture_har env source destination)
  unfolding export_capture_har
  export_capture_har-KeepsActive source destination =
      search (system_rules, open_content-KeepsActive, finish_file-KeepsActive) depth 14

  pub export_formats-KeepsActive :
      (client directory : Bytes) (parts : List Bytes)
      → Frame active_of (export_formats env client directory parts)
  unfolding export_formats
  export_formats-KeepsActive client directory [] = Frame-return _
  export_formats-KeepsActive client directory (part ∷ parts) =
      Frame-bind _ _ (endpoint_of-KeepsActive env _ _) λ endpoint.
        Frame-bind _ _ (charles_get-KeepsActive client endpoint) λ content.
          Frame-bind _ _ (secure_write-Frame env _ content _ (put_file-active _))
            λ u. export_formats-KeepsActive client directory parts
