-- ===== src/Web.antt =====
-- The server of the browser, cli/web.go: `ServeHTTP`, `serveAPI`, `handleSessionRoute` and
-- `authorizeMutation`, the handler of the focus rules in cli/web_focus.go, and `sessionDirectory`
-- and `moveSessionToTrash` of cli/web_index.go. The pages that a handler only reads are given.
pub mod Routes
pub mod Calls
pub mod Guards
pub mod Trash
use http_capture.Prelude.{
  ℕ, Bool, true, false, not, ◌&&◌, ◌||◌, ltb, ℤ, pos, ltb_int, Bytes, codes, List, [], ◌∷◌, ◌++◌,
  Option, none, some, if◌then◌else◌, str_eq, has_prefix, trim_prefix, split_on, reverse, ◌==◌,
}
use http_capture.Errors.{
  Op, make_directory, change_mode, read_file, write_file, rename_file, stat_file, Error,
  refused_by_system, not_exist, outside_sessions, no_plain_directory, invalid_session_id,
  sql_failed,
}
use http_capture.Effects.{
  Outcome, ok, err, M, ◌>>=◌, ◌>>◌, return, fail, lift, gets, modify, attempt, refuse_if,
}
use http_capture.Numbers.{atoi}
use http_capture.Paths.{join}
use http_capture.Words.{is_session_id}
use http_capture.Focus.{FocusRule, normalize_focus_rules}

pub data Verb : Type 0 where
  get head post put delete other : Verb

pub record WebRequest : Type 0 where
  pub remote : Bytes
  pub verb : Verb
  pub path : Bytes
  -- the header X-HttpCapture-Token, and the form value of an export
  pub token : Bytes
  pub form_token : Bytes
  -- whether the form of an export can be read, and whether its specification is valid
  pub form_read : Bool
  pub spec_valid : Bool
  -- the rules in the body, if it is JSON
  pub rules : Option (List FocusRule)

-- What the user has on disk and on the screen, as far as the server changes it.
pub record Desk : Type 0 where
  pub focus : Option (List FocusRule)
  -- directories that were moved, with their destinations, latest first
  pub moved : List (Bytes × Bytes)
  pub opened : List Bytes

pub record Local : Type 0 where
  -- the ids in the index, with their directories
  pub sessions : List (Bytes × Bytes)
  pub desk : Desk

-- The pages that are only read.
pub data View : Type 0 where
  health sessions events export asset : View
  requests detail body har : List Bytes → View

pub data Reply : Type 0 where
  refused : ℕ → Reply
  done : Reply
  rules_of : List FocusRule → Reply
  trashed_to : Bytes → Reply
  page_of_ui : Reply
  view_of : View → Reply

-- What the server does not decide: the libraries net, net/url and path/filepath, the clock, the
-- system calls, SQLite, and what a scan of the directories finds.
pub record Site : Type 0 where
  pub token : Bytes
  pub root : Bytes
  pub now : ℤ
  pub timestamp : Bytes
  pub fresh : ℕ → Bytes
  pub split_host : Bytes → Option Bytes
  pub is_loopback_ip : Bytes → Bool
  pub unescape : Bytes → Option Bytes
  -- `filepath.Rel` of the absolute paths
  pub relative : Bytes → Bytes → Option Bytes
  -- `os.Lstat`: whether the path is a directory and no symbolic link
  pub plain_directory : Bytes → Outcome Bool
  pub fails : Op → Option Error
  pub query_fails : Bool
  pub delete_fails : Bool
  -- `openExternal`
  pub open_fails : Bytes → Bool
  pub scan : Local → Outcome (List (Bytes × Bytes))

abbrev pub Web : Type 0 → Type 0
Web A = M Local A

unfoldable pub directory_of : Bytes → List (Bytes × Bytes) → Option Bytes
directory_of id [] = none
directory_of id ((name, directory) ∷ rest) =
    if str_eq name id then some directory else directory_of id rest

unfoldable pub without_session : Bytes → List (Bytes × Bytes) → List (Bytes × Bytes)
without_session id [] = []
without_session id ((name, directory) ∷ rest) =
    let others = without_session id rest in
    if str_eq name id then others else (name, directory) ∷ others

-- `strings.Trim` of bytes.
trim_left_bytes : (ℕ → Bool) → Bytes → Bytes
trim_left_bytes unwanted [] = []
trim_left_bytes unwanted (c ∷ s) =
    let rest = trim_left_bytes unwanted s in if unwanted c then rest else c ∷ s

unfoldable pub trim_bytes : (ℕ → Bool) → Bytes → Bytes
unfolding trim_left_bytes
trim_bytes unwanted s = reverse (trim_left_bytes unwanted (reverse (trim_left_bytes unwanted s)))

abbrev is_bracket : ℕ → Bool
is_bracket c = c == b'[' || c == b']'

abbrev pub is_slash : ℕ → Bool
is_slash c = c == b'/'

abbrev pub set_desk : (Desk → Desk) → Local → Local
set_desk f l = record l { desk = f l.desk }

unfoldable pub status_of_error : Error → ℕ
status_of_error (not_exist path) = 404
status_of_error e = 500

-- `writeIndexedError`, or the reply to a success.
unfoldable pub replied : {A : Type 0} → (A → Reply) → Outcome A → Reply
unfolding status_of_error
replied reply (ok a) = reply a
replied reply (err e) = refused (status_of_error e)

-- How a system call ends.
unfoldable pub call_result : Option Error → Web (Unit {0})
call_result none = return tt
call_result (some e) = fail e

module _ (site : Site) where
  abbrev host_of_remote : Bytes → Option Bytes → Bytes
  host_of_remote remote none = remote
  host_of_remote remote (some host) = host

  unfoldable pub is_loopback_request : WebRequest → Bool
  is_loopback_request r =
      site.is_loopback_ip
        (trim_bytes is_bracket (host_of_remote r.remote (site.split_host r.remote)))

  unfoldable pub call : Op → Web (Unit {0})
  unfolding call_result
  call op = call_result (site.fails op)

  -- A relative path that does not climb.
  abbrev is_inside : Option Bytes → Bool
  is_inside none = false
  is_inside (some path) =
      not (str_eq path (codes "..") || has_prefix path (codes "../") || has_prefix path (codes "/"))

  unfoldable pub ensure_path_within : Bytes → Bytes → Outcome (Unit {0})
  ensure_path_within root candidate =
      if is_inside (site.relative root candidate) then ok tt else err outside_sessions

  abbrev known_directory : Bytes → Option Bytes → Outcome Bytes
  known_directory id none = err (not_exist id)
  known_directory id (some directory) = ok directory

  unfoldable pub indexed_directory : Bytes → Web Bytes
  indexed_directory id = do
    refuse_if (not (is_session_id id)) invalid_session_id
    refuse_if site.query_fails sql_failed
    found ← gets (λ l. directory_of id l.sessions)
    directory ← lift (known_directory id found)
    lift (ensure_path_within site.root directory)
    return directory

  abbrev pub trash_root : Bytes
  trash_root = join site.root (codes ".trash")

  abbrev pub trash_place : Bytes → Bytes
  trash_place id = join trash_root (id ++ (codes "-" ++ site.timestamp))

  abbrev moved_to : Bytes → Bytes → Desk → Desk
  moved_to directory place desk = record desk { moved = (directory, place) ∷ desk.moved }

  -- `deleteIndexedSession`, one transaction.
  unfoldable pub delete_indexed_session : Bytes → Web (Unit {0})
  delete_indexed_session id = do
    refuse_if site.delete_fails sql_failed
    modify (λ l. record l { sessions = without_session id l.sessions })

  -- The directory that the index has goes to the trash.
  unfoldable pub trash_directory : Bytes → Bytes → Web Bytes
  trash_directory id directory = do
    plain ← lift (site.plain_directory directory)
    refuse_if (not plain) no_plain_directory
    call (make_directory trash_root)
    lift (ensure_path_within trash_root (trash_place id))
    call (rename_file directory)
    modify (set_desk (moved_to directory (trash_place id)))
    delete_indexed_session id
    return (trash_place id)

  unfoldable pub move_session_to_trash : Bytes → Web Bytes
  move_session_to_trash id = do directory ← indexed_directory id; trash_directory id directory

  -- `authorizeMutation`.
  abbrev pub is_authorized : WebRequest → Bool
  is_authorized r = str_eq r.token site.token

  unfoldable pub with_token : WebRequest → Web Reply → Web Reply
  with_token r handler = if is_authorized r then handler else return (refused 403)

  -- `rescan`: the index has what the scan found.
  unfoldable pub rescan : Web (Unit {0})
  rescan = do
    found ← gets site.scan
    listed ← lift found
    modify (λ l. record l { sessions = listed })
