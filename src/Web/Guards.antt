-- ===== src/Web/Guards.antt =====
-- What a request without the token may not do, cli/web.go.
use http_capture.Prelude.{
  Bool, true, false, ◌&&◌, Bytes, List, [], ◌∷◌, Option, none, some, ◌≡◌, inl, inr, refl, arith,
  Bool-cases,
}
use http_capture.Effects.{modify}
use http_capture.Effects.Frames.{
  Frame, frame_rules, Frame-bind, Frame-if, Frame-return, Frame-attempt, Frame-gets, Frame-lift,
}
use http_capture.Focus.{FocusRule}
use http_capture.Web.Calls.{call-Frame}
use http_capture.Web.{
  Verb, get, head, post, put, delete, other, WebRequest, Reply, Desk, Local, Site, Web,
  is_loopback_request, is_authorized, with_token, rescan,
}
use http_capture.Web.Routes.{
  handle_focus_rules, get_rules, read_focus_rules, focus_rules_path, make_if, stored_rules,
  rescan_then, handle_batch_export, session_route, handle_parts, handle_session_route, serve_api,
  serve_browser,
}

abbrev desk_of : Local → Desk
desk_of l = l.desk

second_false : (a b : Bool) → (a && b) ≡ false → a ≡ true → b ≡ false
second_false a b e h = ground arith

module _ (site : Site) (r : WebRequest) where
  listed-Frame :
      (listed : List (Bytes × Bytes))
      → Frame desk_of (modify {W = Local} (λ l. record l { sessions = listed }))
  unfolding modify
  listed-Frame listed = record { at = λ l. refl }

  rescan-Frame : Frame desk_of (rescan site)
  unfolding rescan
  rescan-Frame =
      Frame-bind _ _ (Frame-gets _)
        λ found. Frame-bind _ _ (Frame-lift _) λ listed. listed-Frame listed

  rescan_then-Frame : (reply : Reply) → Frame desk_of (rescan_then site reply)
  unfolding rescan_then
  rescan_then-Frame reply = Frame-bind _ _ (Frame-attempt _ rescan-Frame) λ scanned. Frame-return _

  make_if-Frame : (create : Bool) → Frame desk_of (make_if site create)
  unfolding make_if
  make_if-Frame create = search (frame_rules, call-Frame) depth 12

  path-Frame : (create : Bool) → Frame desk_of (focus_rules_path site create)
  unfolding focus_rules_path
  path-Frame create =
      Frame-bind _ _ (Frame-lift _) λ u. Frame-bind _ _ (make_if-Frame create) λ v. Frame-lift _

  stored-Frame : (found : Option (List FocusRule)) → Frame desk_of (stored_rules site found)
  unfolding stored_rules
  stored-Frame none = Frame-return _
  stored-Frame (some rules) = Frame-bind _ _ (call-Frame site _) λ u. Frame-lift _

  get_rules-Frame : Frame desk_of (get_rules site)
  unfolding get_rules read_focus_rules
  get_rules-Frame =
      Frame-bind _ _
        (Frame-attempt _ (
          Frame-bind _ _ (path-Frame false)
            λ u. Frame-bind _ _ (Frame-gets _) λ found. stored-Frame found))
        λ found. Frame-return _

  export-Frame : Frame desk_of (handle_batch_export site r)
  unfolding handle_batch_export
  export-Frame = search (frame_rules, rescan_then-Frame)

  module _ (unauthorized : is_authorized site r ≡ false) where
    with_token-Frame : (handler : Web Reply) → Frame desk_of (with_token site r handler)
    unfolding with_token
    with_token-Frame handler = simp unauthorized (Frame-return _)

    focus-Frame : (v : Verb) → Frame desk_of (handle_focus_rules site r v)
    unfolding handle_focus_rules
    focus-Frame get = get_rules-Frame
    focus-Frame put = with_token-Frame _
    focus-Frame head = Frame-return _
    focus-Frame post = Frame-return _
    focus-Frame delete = Frame-return _
    focus-Frame other = Frame-return _

    route-Frame :
        (v : Verb) (id : Bytes) (parts : List Bytes)
        → Frame desk_of (session_route site r v id parts)
    unfolding session_route
    route-Frame delete id [] = with_token-Frame _
    route-Frame post id (a ∷ []) = Frame-if _ _ _ (with_token-Frame _) (Frame-return _)
    route-Frame get id (a ∷ []) = Frame-return _
    route-Frame get id (a ∷ n ∷ []) = Frame-return _
    route-Frame get id (a ∷ n ∷ b ∷ side ∷ []) = Frame-return _
    route-Frame v id parts = Frame-return _

    parts-Frame : (parts : Option (List Bytes)) → Frame desk_of (handle_parts site r parts)
    unfolding handle_parts
    parts-Frame none = Frame-return _
    parts-Frame (some []) = Frame-return _
    parts-Frame (some (id ∷ parts)) = Frame-if _ _ _ (route-Frame r.verb id parts) (Frame-return _)

    session-Frame : Frame desk_of (handle_session_route site r)
    unfolding handle_session_route
    session-Frame = parts-Frame _

    api-Frame : Frame desk_of (serve_api site r)
    unfolding serve_api
    api-Frame =
        search
          (
            frame_rules, with_token-Frame, focus-Frame, rescan_then-Frame, export-Frame,
            session-Frame,
          )
          depth 12

    http-Frame : Frame desk_of (serve_browser site r)
    unfolding serve_browser
    http-Frame = search (frame_rules, api-Frame)

  remote-Frame : is_loopback_request site r ≡ false → Frame desk_of (serve_browser site r)
  unfolding serve_browser
  remote-Frame remote = simp remote (Frame-return _)

-- A request that does not come from this machine, or that does not have the token of the page in
-- its header, leaves the focus rules and the directories of the sessions as they are, and opens
-- no program: whatever its method, its path and its body are.
pub serve_browser-unauthorized :
    (site : Site) (r : WebRequest) (l : Local)
    → (is_loopback_request site r && is_authorized site r) ≡ false
    → (serve_browser site r l).1.desk ≡ l.desk
serve_browser-unauthorized site r l e = elim (Bool-cases (is_loopback_request site r)) [
  | inl near ↦ (http-Frame site r (second_false _ _ e near)).at l
  | inr remote ↦ (remote-Frame site r remote).at l
]
