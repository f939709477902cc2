-- ===== src/Web/Routes.antt =====
-- Which handler answers a request: `ServeHTTP`, `serveUI`, `serveAPI` and `handleSessionRoute` of
-- cli/web.go, the focus rules of cli/web_focus.go, and the guards of `handleBatchExport`.
use http_capture.Prelude.{
  ℕ, Bool, true, false, not, ◌&&◌, ◌||◌, ℤ, pos, ltb_int, Bytes, codes, List, [], ◌∷◌, Option, none,
  some, if◌then◌else◌, str_eq, has_prefix, trim_prefix, split_on,
}
use http_capture.Errors.{make_directory, change_mode, read_file, write_file}
use http_capture.Effects.{Outcome, ok, err, ◌>>=◌, ◌>>◌, return, lift, gets, modify, attempt}
use http_capture.Numbers.{atoi}
use http_capture.Paths.{join}
use http_capture.Words.{is_session_id}
use http_capture.Focus.{FocusRule, normalize_focus_rules}
use http_capture.Web.{
  Verb, get, head, post, put, delete, other, WebRequest, health, sessions, events, export, asset,
  requests, detail, body, har, Reply, refused, done, rules_of, trashed_to, page_of_ui, view_of,
  Desk, Site, Web, set_desk, trim_bytes, is_slash, is_loopback_request, call, ensure_path_within,
  indexed_directory, move_session_to_trash, with_token, replied, rescan,
}

abbrev with_part : Option Bytes → Option (List Bytes) → Option (List Bytes)
with_part none rest = none
with_part (some text) none = none
with_part (some text) (some others) = some (text ∷ others)

-- The parts of a path, each of them unescaped.
unfoldable pub unescape_all : (Bytes → Option Bytes) → List Bytes → Option (List Bytes)
unescape_all unescape [] = some []
unescape_all unescape (part ∷ parts) =
    let rest = unescape_all unescape parts in with_part (unescape part) rest

abbrev is_request_id : Option ℤ → Bool
is_request_id none = false
is_request_id (some n) = ltb_int (pos 0) n

abbrev or_refused : ℕ → Bool → Reply → Reply
or_refused status good reply = if good then reply else refused status

-- The rules that were read, if they are valid.
abbrev replied_rules : ℕ → Outcome (List FocusRule) → Reply
replied_rules status (ok rules) = rules_of rules
replied_rules status (err e) = refused status

abbrev pub set_focus : List FocusRule → Desk → Desk
set_focus rules desk = record desk { focus = some rules }

unfoldable pub replied_scan : Reply → Outcome (Unit {0}) → Reply
replied_scan reply (ok u) = reply
replied_scan reply (err e) = refused 500

unfoldable pub is_verb : Verb → Verb → Bool
is_verb get get = true
is_verb post post = true
is_verb head head = true
is_verb v w = false

unfoldable pub written_reply : List FocusRule → Outcome (Unit {0}) → Reply
written_reply rules (ok u) = rules_of rules
written_reply rules (err e) = refused 500

module _ (site : Site) where
  abbrev focus_directory : Bytes
  focus_directory = join site.root (codes ".web")

  abbrev focus_file : Bytes
  focus_file = join focus_directory (codes "focus-rules.json")

  unfoldable pub make_if : Bool → Web (Unit {0})
  make_if create =
      if create
      then (call site (make_directory focus_directory) >> call site (change_mode focus_directory))
      else return tt

  unfoldable pub focus_rules_path : Bool → Web (Unit {0})
  focus_rules_path create = do
    lift (ensure_path_within site site.root focus_directory)
    make_if create
    lift (ensure_path_within site site.root focus_file)

  unfoldable pub stored_rules : Option (List FocusRule) → Web (List FocusRule)
  stored_rules none = return []
  stored_rules (some rules) = do
    call site (read_file focus_file)
    lift (normalize_focus_rules site.now site.fresh rules)

  unfoldable pub read_focus_rules : Web (List FocusRule)
  read_focus_rules = do focus_rules_path false; found ← gets (λ l. l.desk.focus); stored_rules found

  -- A write that fails leaves the file as it was.
  unfoldable pub write_focus_rules : List FocusRule → Web (Unit {0})
  write_focus_rules rules = do
    focus_rules_path true
    call site (write_file focus_file)
    modify (set_desk (set_focus rules))
    call site (change_mode focus_file)

  unfoldable pub put_normalized : Outcome (List FocusRule) → Web Reply
  put_normalized (err e) = return (refused 400)
  put_normalized (ok rules) = do
    written ← attempt (write_focus_rules rules)
    return (written_reply rules written)

  unfoldable pub put_rules : Option (List FocusRule) → Web Reply
  put_rules none = return (refused 400)
  put_rules (some rules) = put_normalized (normalize_focus_rules site.now site.fresh rules)

  unfoldable pub get_rules : Web Reply
  get_rules = do found ← attempt read_focus_rules; return (replied_rules 500 found)

  unfoldable pub handle_focus_rules : WebRequest → Verb → Web Reply
  handle_focus_rules r get = get_rules
  handle_focus_rules r put = with_token site r (put_rules r.rules)
  handle_focus_rules r head = return (refused 405)
  handle_focus_rules r post = return (refused 405)
  handle_focus_rules r delete = return (refused 405)
  handle_focus_rules r other = return (refused 405)

  -- A scan, and what is shown after it.
  unfoldable pub rescan_then : Reply → Web Reply
  rescan_then reply = do scanned ← attempt (rescan site); return (replied_scan reply scanned)

  -- `handleBatchExport`: the token may stand in the form too.
  unfoldable pub handle_batch_export : WebRequest → Web Reply
  handle_batch_export r =
      if not r.form_read
      then return (refused 400)
      else if not (str_eq r.token site.token) && not (str_eq r.form_token site.token)
      then return (refused 403)
      else if not r.spec_valid
      then return (refused 400)
      else rescan_then (view_of export)

  unfoldable pub open_found : Outcome Bytes → Web Reply
  open_found (err e) = return (replied (λ (u : Bytes). done) (err e))
  open_found (ok directory) = if site.open_fails directory then return (refused 500) else do
    modify (set_desk (λ desk. record desk { opened = directory ∷ desk.opened }))
    return done

  -- `openExternal` on the directory of a session.
  unfoldable pub open_session : Bytes → Web Reply
  open_session id = do found ← attempt (indexed_directory site id); open_found found

  unfoldable pub trash_session : Bytes → Web Reply
  trash_session id = do
    moved ← attempt (move_session_to_trash site id)
    return (replied trashed_to moved)

  -- The routes of a session, its id without the others.
  unfoldable pub session_route : WebRequest → Verb → Bytes → List Bytes → Web Reply
  session_route r delete id [] = with_token site r (trash_session id)
  session_route r get id (a ∷ []) = return (
      if str_eq a (codes "requests")
      then view_of (requests (id ∷ []))
      else if str_eq a (codes "har")
      then view_of (har (id ∷ []))
      else refused 404)
  session_route r get id (a ∷ n ∷ []) = return (
      if str_eq a (codes "requests")
      then or_refused 400 (is_request_id (atoi n)) (view_of (detail (id ∷ n ∷ [])))
      else refused 404)
  session_route r get id (a ∷ n ∷ b ∷ side ∷ []) = return (
      if str_eq a (codes "requests") && str_eq b (codes "body")
      then or_refused 400
          (is_request_id (atoi n)
            && (str_eq side (codes "request") || str_eq side (codes "response")))
          (view_of (body (id ∷ n ∷ side ∷ [])))
      else refused 404)
  session_route r post id (a ∷ []) =
      if str_eq a (codes "open") then with_token site r (open_session id) else return (refused 404)
  session_route r v id parts = return (refused 404)

  unfoldable pub handle_parts : WebRequest → Option (List Bytes) → Web Reply
  handle_parts r none = return (refused 400)
  handle_parts r (some []) = return (refused 400)
  handle_parts r (some (id ∷ parts)) =
      if is_session_id id then session_route r r.verb id parts else return (refused 400)

  unfoldable pub handle_session_route : WebRequest → Web Reply
  handle_session_route r = handle_parts r (
      unescape_all site.unescape
        (split_on b'/' (trim_bytes is_slash (trim_prefix r.path (codes "/api/sessions/")))))

  unfoldable pub serve_api : WebRequest → Web Reply
  serve_api r =
      if str_eq r.path (codes "/api/health") && is_verb r.verb get
      then return (view_of health)
      else if str_eq r.path (codes "/api/rescan") && is_verb r.verb post
      then with_token site r (rescan_then done)
      else if str_eq r.path (codes "/api/focus")
      then handle_focus_rules r r.verb
      else if str_eq r.path (codes "/api/sessions") && is_verb r.verb get
      then return (view_of sessions)
      else if str_eq r.path (codes "/api/events") && is_verb r.verb get
      then rescan_then (view_of events)
      else if str_eq r.path (codes "/api/export") && is_verb r.verb post
      then handle_batch_export r
      else if has_prefix r.path (codes "/api/sessions/")
      then handle_session_route r
      else return (refused 404)

  unfoldable pub serve_ui : WebRequest → Reply
  serve_ui r =
      let path = trim_prefix r.path (codes "/") in
      if not (is_verb r.verb get) && not (is_verb r.verb head)
      then refused 405
      else if str_eq path []
      then page_of_ui
      else if str_eq path (codes "app.css") || str_eq path (codes "app.js")
      then view_of asset
      else refused 404

  -- `ServeHTTP`.
  unfoldable pub serve_browser : WebRequest → Web Reply
  serve_browser r =
      if not (is_loopback_request site r)
      then return (refused 403)
      else if has_prefix r.path (codes "/api/")
      then serve_api r
      else return (serve_ui r)
