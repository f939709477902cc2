-- ===== src/Export/Sessions.antt =====
-- Which sessions an export takes, `selectWebExportSessions` of cli/web_export.go. The sorted ids of
-- the selected requests, which that function returns beside the sessions, are left out.
use http_capture.Prelude.{
  Bool, true, false, not, ◌||◌, ◌&&◌, ℤ, Bytes, codes, List, [], ◌∷◌, if◌then◌else◌, str_eq, ◌≡◌,
  ◌≢◌, All,
}
use http_capture.Errors.{
  session_without_index, session_not_exportable, selected_not_exportable, nothing_to_export,
}
use http_capture.Effects.{Outcome, ok, err}
use http_capture.Session.{engine_proxify}

-- The fields of an indexed session that the selection reads.
pub record IndexedSession : Type 0 where
  pub id : Bytes
  pub engine : Bytes

pub record WebExportSelection : Type 0 where
  pub session_id : Bytes
  pub id : ℤ

pub record WebExportSpec : Type 0 where
  pub scope : Bytes
  pub session_id : Bytes
  pub session_ids : List Bytes
  pub request_ids : List WebExportSelection

unfoldable pub has_id : Bytes → List Bytes → Bool
has_id id [] = false
has_id id (s ∷ ids) = str_eq s id || has_id id ids

unfoldable pub has_request : Bytes → List WebExportSelection → Bool
has_request id [] = false
has_request id (s ∷ selections) = str_eq s.session_id id || has_request id selections

-- The session is named by the selection itself.
abbrev is_selected : WebExportSpec → Bytes → Bool
is_selected spec id = has_id id spec.session_ids || has_request id spec.request_ids

unfoldable pub is_included : WebExportSpec → IndexedSession → Bool
is_included spec session =
    if str_eq spec.scope (codes "all") || str_eq spec.scope (codes "filtered")
    then str_eq spec.session_id [] || str_eq session.id spec.session_id
    else if str_eq spec.scope (codes "selected")
    then is_selected spec session.id
    else false

abbrev behind : IndexedSession → Outcome (List IndexedSession) → Outcome (List IndexedSession)
behind session (ok sessions) = ok (session ∷ sessions)
behind session (err e) = err e

-- The loop over the sessions.
unfoldable pub take_sessions : WebExportSpec → List IndexedSession → Outcome (List IndexedSession)
take_sessions spec [] = ok []
take_sessions spec (session ∷ sessions) =
    let rest = take_sessions spec sessions in
    if not (is_included spec session)
    then rest
    else if not (str_eq session.engine engine_proxify)
    then (if str_eq spec.session_id session.id || is_selected spec session.id
        then err session_without_index
        else rest)
    else behind session rest

unfoldable pub is_found : List IndexedSession → Bytes → Bool
is_found [] id = false
is_found (session ∷ sessions) id = str_eq session.id id || is_found sessions id

unfoldable pub all_found : List IndexedSession → List Bytes → Bool
all_found found [] = true
all_found found (id ∷ ids) = is_found found id && all_found found ids

unfoldable pub requests_found : List IndexedSession → List WebExportSelection → Bool
requests_found found [] = true
requests_found found (s ∷ selections) =
    is_found found s.session_id && requests_found found selections

abbrev none_taken : List IndexedSession → Bool
none_taken [] = true
none_taken (s ∷ sessions) = false

-- The checks behind the loop.
unfoldable pub check_taken :
    WebExportSpec → Outcome (List IndexedSession) → Outcome (List IndexedSession)
check_taken spec (err e) = err e
check_taken spec (ok found) =
    if not (str_eq spec.session_id []) && not (is_found found spec.session_id)
    then err session_not_exportable
    else if not (all_found found spec.session_ids)
    then err selected_not_exportable
    else if not (requests_found found spec.request_ids)
    then err selected_not_exportable
    else if none_taken found
    then err nothing_to_export
    else ok found

unfoldable pub select_web_export_sessions :
    WebExportSpec → List IndexedSession → Outcome (List IndexedSession)
unfolding take_sessions check_taken
select_web_export_sessions spec sessions = check_taken spec (take_sessions spec sessions)

-- A session that can be exported and lies in the scope.
abbrev pub Exportable : WebExportSpec → IndexedSession → Type 0
Exportable spec s = (str_eq s.engine engine_proxify ≡ true) × (is_included spec s ≡ true)

-- The selection of a specification that was carried out as a whole.
pub record IsCarriedOut (spec : WebExportSpec) (found : List IndexedSession) : Type 0 where
  pub exportable : All (Exportable spec) found
  pub named : spec.session_id ≢ [] → is_found found spec.session_id ≡ true
  pub sessions : all_found found spec.session_ids ≡ true
  pub requests : requests_found found spec.request_ids ≡ true
  pub filled : found ≢ []
