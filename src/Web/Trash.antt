-- ===== src/Web/Trash.antt =====
-- A session that the browser deletes, `moveSessionToTrash` of cli/web_index.go.
use http_capture.Prelude.{Bytes, List, [], ◌∷◌, none, some, ◌≡◌, refl, ap, ◌∙◌, sym, arith}
use http_capture.Errors.{Error}
use http_capture.Effects.{ok, err, ◌>>=◌, return, fail, lift, gets, modify}
use http_capture.Effects.Frames.{
  Frame, frame_rules, Frame-bind, FrameOnError, FrameOnError-bind, FrameOnError-return_after,
  Frame-lift, Frame-if, Frame-fail, Frame-return,
}
use http_capture.Effects.Ensures.{bind-ok}
use http_capture.Web.Calls.{call-Frame}
use http_capture.Web.{
  Desk, Local, Site, directory_of, without_session, indexed_directory, ensure_path_within, call,
  delete_indexed_session, trash_directory, move_session_to_trash, set_desk,
}

without-gone :
    (id : Bytes) (sessions : List (Bytes × Bytes))
    → directory_of id (without_session id sessions) ≡ none
unfolding directory_of without_session
without-gone id [] = refl
without-gone id ((name, directory) ∷ rest) = ground (arith, without-gone id rest)

abbrev sessions_of : Local → List (Bytes × Bytes)
sessions_of l = l.sessions

module _ (site : Site) (id : Bytes) where
  directory-Frame : Frame sessions_of (indexed_directory site id)
  unfolding indexed_directory
  directory-Frame = search frame_rules depth 14

  desk-Frame : (f : Desk → Desk) → Frame sessions_of (modify (set_desk f))
  unfolding modify
  desk-Frame f = record { at = λ l. refl }

  delete-FrameOnError : FrameOnError sessions_of (delete_indexed_session site id)
  unfolding delete_indexed_session modify
  delete-FrameOnError =
      FrameOnError-bind _ _ (Frame-if _ _ _ (Frame-fail _) (Frame-return _))
        λ u. record { at = λ l e h. cc }

  moving-FrameOnError :
      (directory : Bytes) → FrameOnError sessions_of (trash_directory site id directory)
  unfolding trash_directory
  moving-FrameOnError directory = FrameOnError-bind _ _ (Frame-lift _) λ plain.
      FrameOnError-bind _ _ (Frame-if _ _ _ (Frame-fail _) (Frame-return _)) λ u.
        FrameOnError-bind _ _ (call-Frame site _) λ v. FrameOnError-bind _ _ (Frame-lift _) λ w.
          FrameOnError-bind _ _ (call-Frame site _) λ x.
            FrameOnError-bind _ _ (desk-Frame _)
              λ y. FrameOnError-return_after _ _ delete-FrameOnError

  trash-FrameOnError : FrameOnError sessions_of (move_session_to_trash site id)
  unfolding move_session_to_trash
  trash-FrameOnError = FrameOnError-bind _ _ directory-Frame moving-FrameOnError

  -- A deletion that fails, at whichever step, leaves the index as it was: the session is still
  -- listed, also where its directory was moved already.
  pub move_session_to_trash-error :
      (l : Local) (e : Error)
      → (move_session_to_trash site id l).0 ≡ err e
      → (move_session_to_trash site id l).1.sessions ≡ l.sessions
  move_session_to_trash-error l e h = trash-FrameOnError.at l e h

  -- The directory that the index has for the session was moved, and the index forgot the session.
  pub Trashed : Bytes → Local → Local → Type 0
  Trashed place l l' =
      (directory : Bytes) × (directory_of id l.sessions ≡ some directory)
      × (ensure_path_within site site.root directory ≡ ok tt)
      × (l'.desk.moved ≡ (directory, place) ∷ l.desk.moved)
      × (directory_of id l'.sessions ≡ none)

  directory-same : (l : Local) → (indexed_directory site id l).1 ≡ l
  unfolding indexed_directory
  directory-same l =
      (Frame-bind {view = λ k. k} _ _ (Frame-if _ _ _ (Frame-fail _) (Frame-return _))
          λ u. search frame_rules depth 14).at
        l

  directory-found :
      (l : Local) (directory : Bytes)
      → (indexed_directory site id l).0 ≡ ok directory
      → (directory_of id l.sessions ≡ some directory)
        × (ensure_path_within site site.root directory ≡ ok tt)
  unfolding indexed_directory gets lift ensure_path_within return fail ◌>>=◌
  directory-found l directory e = ground arith

  moved-on :
      (l : Local) (directory place : Bytes)
      → (trash_directory site id directory l).0 ≡ ok place
      → ((trash_directory site id directory l).1.desk.moved ≡ (directory, place) ∷ l.desk.moved)
        × (directory_of id (trash_directory site id directory l).1.sessions ≡ none)
  unfolding trash_directory call delete_indexed_session modify lift ensure_path_within return fail
      ◌>>=◌
  moved-on l directory place e = ground (arith, without-gone id l.sessions)

  -- A deletion that succeeds has moved exactly the directory that the index had for the session,
  -- which is inside the directory of the sessions, to the place that it reports; and the index
  -- has no such session any more.
  pub move_session_to_trash-Trashed :
      (l : Local) (place : Bytes)
      → (move_session_to_trash site id l).0 ≡ ok place
      → Trashed place l (move_session_to_trash site id l).1
  unfolding Trashed move_session_to_trash
  move_session_to_trash-Trashed l place e =
      let (directory, first, rest) =
        bind-ok (indexed_directory site id) (trash_directory site id) l place e in
      let whole = rest ∙ ap (trash_directory site id directory) (directory-same l) in
      let (found, inside) = directory-found l directory first in
      let (moved, gone) = moved-on l directory place (sym (ap (λ p. p.0) whole) ∙ e) in
      (
        directory,
        found,
        inside,
        ap (λ p. p.1.desk.moved) whole ∙ moved,
        ap (λ p. directory_of id p.1.sessions) whole ∙ gone,
      )
