-- ===== src/Examples/Browsers.antt =====
-- A browser that deletes a session, with the token of its page and without it.
use http_capture.Prelude.{
  true, false, ◌&&◌, pos, codes, [], ◌∷◌, ◌++◌, none, some, ◌≡◌, refl, str_eq, trim_prefix,
  contains_byte, has_prefix,
}
use http_capture.Errors.{sql_failed}
use http_capture.Effects.{ok, err, ◌>>=◌, return}
use http_capture.Paths.{join}
use http_capture.Words.{is_session_id}
use http_capture.Web.{
  WebRequest, Verb, Local, Site, is_loopback_request, is_authorized, trim_bytes, indexed_directory,
  directory_of, call, call_result, ensure_path_within, delete_indexed_session, trash_directory,
  move_session_to_trash, trash_place,
}
use http_capture.Web.Routes.{serve_browser}
use http_capture.Web.Guards.{serve_browser-unauthorized}
use http_capture.Web.Trash.{Trashed, move_session_to_trash-Trashed, move_session_to_trash-error}

abbrev pub local_site : Site
local_site = record {
  token = codes "tok";
  root = codes "/s";
  now = pos 1;
  timestamp = codes "20260101-000000";
  fresh = λ n. codes "id";
  split_host = λ remote. some remote;
  is_loopback_ip = λ host. str_eq host (codes "127.0.0.1");
  unescape = λ part. some part;
  relative = λ root path. some (trim_prefix path (root ++ codes "/"));
  plain_directory = λ path. ok true;
  fails = λ op. none;
  query_fails = false;
  delete_fails = false;
  open_fails = λ path. false;
  scan = λ l. ok l.sessions;
}

abbrev locked_site : Site
locked_site = record local_site { delete_fails = true }

abbrev two_sessions : Local
two_sessions = record {
  sessions = (codes "a", codes "/s/a") ∷ (codes "b", codes "/s/b") ∷ [];
  desk = record { focus = none; moved = []; opened = [] };
}

abbrev forged : WebRequest
forged = record {
  remote = codes "127.0.0.1";
  verb = Verb.delete;
  path = codes "/api/sessions/a";
  token = codes "guess";
  form_token = [];
  form_read = true;
  spec_valid = true;
  rules = none;
}

forged_refused : (is_loopback_request local_site forged && is_authorized local_site forged) ≡ false
unfolding is_loopback_request trim_bytes str_eq
forged_refused = refl

trash_runs :
    (move_session_to_trash local_site (codes "a") two_sessions).0
    ≡ ok (trash_place local_site (codes "a"))
unfolding move_session_to_trash trash_directory indexed_directory directory_of ensure_path_within
    delete_indexed_session is_session_id str_eq contains_byte has_prefix trim_prefix join call
    call_result ◌>>=◌ return
trash_runs = refl

trash_fails : (move_session_to_trash locked_site (codes "a") two_sessions).0 ≡ err sql_failed
unfolding move_session_to_trash trash_directory indexed_directory directory_of ensure_path_within
    delete_indexed_session is_session_id str_eq contains_byte has_prefix trim_prefix join call
    call_result ◌>>=◌ return
trash_fails = refl

serve_browser-unauthorized_example :
    (serve_browser local_site forged two_sessions).1.desk ≡ two_sessions.desk
serve_browser-unauthorized_example =
    serve_browser-unauthorized local_site forged two_sessions forged_refused

move_session_to_trash-Trashed_example :
    Trashed local_site
      (codes "a")
      (trash_place local_site (codes "a"))
      two_sessions
      (move_session_to_trash local_site (codes "a") two_sessions).1
move_session_to_trash-Trashed_example =
    move_session_to_trash-Trashed local_site (codes "a") two_sessions
      (trash_place local_site (codes "a")) trash_runs

move_session_to_trash-error_example :
    (move_session_to_trash locked_site (codes "a") two_sessions).1.sessions ≡ two_sessions.sessions
move_session_to_trash-error_example =
    move_session_to_trash-error locked_site (codes "a") two_sessions sql_failed trash_fails
