-- ===== src/Conditions.antt =====
-- The conditions of a page of requests, `listRequests` of cli/web_index.go: what the browser asks
-- for, and one condition with its arguments for each of its fields.
pub mod Balance
use http_capture.Prelude.{
  ℕ, zero, suc, ◌+◌, ◌*◌, ◌-◌, ◌%◌, ◌^◌, Bool, true, false, not, ◌&&◌, ◌||◌, ltb, ◌==◌, ℤ, pos,
  negsuc, ltb_int, leb_int, Bytes, codes, List, [], ◌∷◌, ◌++◌, map, Option, none, some,
  if◌then◌else◌, str_eq, has_suffix, trim_space, to_lower, to_upper, join_with, length,
}
use http_capture.Errors.{Error, invalid_session_id, bad_focus_mode, bad_status_class, bad_status}
use http_capture.Effects.{Outcome, ok, err}
use http_capture.Numbers.{atoi}
use http_capture.Words.{is_session_id, build_fts_query}
use http_capture.Focus.{FocusRule, escape_like, focus_rules_sql}

pub record RequestQuery : Type 0 where
  pub session_id : Bytes
  pub search : Bytes
  pub method : Bytes
  pub status : Bytes
  pub content_type : Bytes
  pub focus_mode : Bytes
  pub focus_rules : List FocusRule
  pub from_ms : ℤ
  pub to_ms : ℤ
  pub min_duration_ms : ℤ
  pub max_duration_ms : ℤ
  pub min_size : ℤ
  pub max_size : ℤ
  pub sort_ascending : Bool
  -- an int, as `optionalInt` reads it
  pub page : ℤ
  pub page_size : ℤ

pub data Argument : Type 0 where
  text_of : Bytes → Argument
  number_of : ℤ → Argument

-- A condition and the arguments of its placeholders.
abbrev pub Clause : Type 0
Clause = Bytes × List Argument

unfoldable pub page_of : ℤ → ℕ
page_of (pos zero) = 1
page_of (pos (suc n)) = suc n
page_of (negsuc n) = 1

unfoldable pub page_size_of : ℤ → ℕ
page_size_of (pos zero) = 100
page_size_of (pos (suc n)) = if ltb 500 (suc n) then 500 else suc n
page_size_of (negsuc n) = 100

unfoldable pub focus_mode_of : Bytes → Bytes
focus_mode_of mode =
    let lower = to_lower (trim_space mode) in if str_eq lower [] then codes "all" else lower

abbrev pub is_focus_mode : Bytes → Bool
is_focus_mode mode =
    str_eq mode (codes "all") || str_eq mode (codes "only") || str_eq mode (codes "exclude")

-- The words of a search, or none.
unfoldable pub fts_query_of : Bytes → Bytes
fts_query_of search = if str_eq (trim_space search) [] then [] else build_fts_query search

unfoldable pub search_clauses : Bytes → List Clause
search_clauses fts =
    if str_eq fts [] then [] else (codes "f.content MATCH ?", text_of fts ∷ []) ∷ []

unfoldable pub join_of : Bytes → Bytes
join_of fts = if str_eq fts [] then [] else codes " JOIN request_fts f ON f.rowid = r.id"

unfoldable pub method_clauses : Bytes → List Clause
method_clauses method =
    if str_eq method [] then [] else (codes "r.method = ?", text_of (to_upper method) ∷ []) ∷ []

first_byte : Bytes → Bytes
first_byte [] = []
first_byte (c ∷ s) = c ∷ []

-- A class of status codes: 2xx.
unfoldable pub class_clauses : Option ℤ → Outcome (List Clause)
class_clauses none = err bad_status_class
class_clauses (some (negsuc n)) = err bad_status_class
class_clauses (some (pos n)) =
    if n == 0 || ltb 5 n
    then err bad_status_class
    else ok (
        (
          codes "r.status >= ? AND r.status < ?",
          number_of (pos (n * 100)) ∷ number_of (pos (suc n * 100)) ∷ [],
        )
        ∷ [])

unfoldable pub code_clauses : Option ℤ → Outcome (List Clause)
code_clauses none = err bad_status
code_clauses (some n) =
    if ltb_int n (pos 100) || ltb_int (pos 599) n
    then err bad_status
    else ok ((codes "r.status = ?", number_of n ∷ []) ∷ [])

unfoldable pub status_clauses : Bytes → Outcome (List Clause)
unfolding first_byte
status_clauses status =
    if str_eq status []
    then ok []
    else if has_suffix (to_lower status) (codes "xx") && length status == 3
    then class_clauses (atoi (first_byte status))
    else code_clauses (atoi status)

unfoldable pub content_type_clauses : Bytes → List Clause
content_type_clauses content_type =
    if str_eq content_type []
    then []
    else (
      codes "r.content_type LIKE ? ESCAPE '\\'",
      text_of (codes "%" ++ (escape_like content_type ++ codes "%")) ∷ [],
    )
      ∷ []

-- `addIntRange`.
unfoldable pub range_clauses : Bytes → ℤ → ℤ → List Clause
range_clauses column minimum maximum =
    let upper : List Clause =
      if ltb_int (pos 0) maximum
      then (column ++ codes " <= ?", number_of maximum ∷ []) ∷ []
      else [] in
    if ltb_int (pos 0) minimum
    then (column ++ codes " >= ?", number_of minimum ∷ []) ∷ upper
    else upper

-- The condition of the rules and its arguments, under the mode.
unfoldable pub focus_clauses : Bytes → Bytes → List Argument → List Clause
focus_clauses mode where_focus arguments =
    if str_eq mode (codes "only")
    then (if str_eq where_focus []
        then (codes "0", []) ∷ []
        else (codes "(" ++ (where_focus ++ codes ")"), arguments) ∷ [])
    else if str_eq mode (codes "exclude") && not (str_eq where_focus [])
    then (codes "NOT (" ++ (where_focus ++ codes ")"), arguments) ∷ []
    else []

unfoldable pub all_clauses : RequestQuery → List Clause → List Clause
all_clauses filter status =
    let (where_focus, arguments) = focus_rules_sql filter.focus_rules in
    (codes "r.session_id = ?", text_of filter.session_id ∷ [])
    ∷ (search_clauses (fts_query_of filter.search)
        ++ (method_clauses filter.method
            ++ (status
                ++ (content_type_clauses filter.content_type
                    ++ (range_clauses (codes "r.timestamp_ms") filter.from_ms filter.to_ms
                        ++ (range_clauses (codes "r.duration_ms") filter.min_duration_ms
                              filter.max_duration_ms
                            ++ (range_clauses (codes "(r.request_size + r.response_size)")
                                  filter.min_size filter.max_size
                                ++ focus_clauses (focus_mode_of filter.focus_mode) where_focus
                                    (map text_of arguments))))))))

unfoldable pub arguments_of : List Clause → List Argument
arguments_of [] = []
arguments_of (clause ∷ clauses) = clause.1 ++ arguments_of clauses

unfoldable pub texts_of : List Clause → List Bytes
texts_of [] = []
texts_of (clause ∷ clauses) = clause.0 ∷ texts_of clauses
