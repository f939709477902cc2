-- ===== src/Query.antt =====
-- `listRequests` of cli/web_index.go: the two statements of a page of requests, and what SQLite
-- gives for them.
pub mod Placeholders
pub mod Pages
use http_capture.Prelude.{
  ℕ, zero, suc, ◌+◌, ◌*◌, ◌-◌, ◌%◌, ◌^◌, Bool, true, false, not, ◌&&◌, ◌||◌, ltb, ◌==◌, ℤ, pos,
  negsuc, ltb_int, leb_int, Bytes, codes, List, [], ◌∷◌, ◌++◌, map, Option, none, some,
  if◌then◌else◌, str_eq, has_suffix, trim_space, to_lower, to_upper, join_with, length,
}
use http_capture.Errors.{Error, invalid_session_id, bad_focus_mode, bad_status_class, bad_status}
use http_capture.Effects.{Outcome, ok, err}
use http_capture.Numbers.{atoi}
use http_capture.Words.{is_session_id, build_fts_query}
use http_capture.Focus.{FocusRule, escape_like, focus_rules_sql}
use http_capture.Conditions.{
  arguments_of, texts_of, RequestQuery, Argument, Clause, page_of, page_size_of, focus_mode_of,
  is_focus_mode, fts_query_of, search_clauses, join_of, method_clauses, class_clauses, code_clauses,
  status_clauses, content_type_clauses, range_clauses, focus_clauses, all_clauses, text_of,
  number_of,
}

-- The two statements of a page.
pub record Plan : Type 0 where
  pub count_text : Bytes
  pub count_arguments : List Argument
  pub page_text : Bytes
  pub page_arguments : List Argument
  pub page : ℕ
  pub page_size : ℕ

unfoldable pub where_of : List Clause → Bytes
unfolding texts_of
where_of clauses = join_with (codes " AND ") (texts_of clauses)

-- The product of two ints, which wraps around.
unfoldable pub int_product : ℕ → ℕ → ℤ
int_product a b =
    let rest = (a * b) % 2 ^ 64 in
    if ltb rest (2 ^ 63) then pos rest else negsuc (2 ^ 64 - 1 - rest)

-- Whether a request is in focus, as a column.
unfoldable pub focus_column : Bytes → Bytes
focus_column where_focus =
    if str_eq where_focus []
    then codes "0"
    else codes "CASE WHEN " ++ (where_focus ++ codes " THEN 1 ELSE 0 END")

unfoldable pub focus_column_arguments : Bytes → List Argument → List Argument
focus_column_arguments where_focus arguments = if str_eq where_focus [] then [] else arguments

abbrev pub order_of : Bool → Bytes
order_of ascending = if ascending then codes "ASC" else codes "DESC"

abbrev page_columns : Bytes
page_columns =
    codes
      "SELECT r.id, r.timestamp_ms, r.method, r.url, r.host, r.path, r.status,\n\t\tr.content_type, r.duration_ms, r.request_size, r.response_size, "

unfoldable pub page_text_of : Bytes → Bytes → Bytes → Bool → Bytes
page_text_of where_focus joined where_all ascending =
    page_columns
    ++ (focus_column where_focus
        ++ (codes "\n\t\tFROM requests r"
            ++ (joined
                ++ (codes " WHERE "
                    ++ (where_all
                        ++ (codes " ORDER BY r.timestamp_ms "
                            ++ (order_of ascending
                                ++ (codes ", r.id "
                                    ++ (order_of ascending ++ codes " LIMIT ? OFFSET ?")))))))))

unfoldable pub plan_of : RequestQuery → List Clause → Plan
plan_of filter status =
    let clauses = all_clauses filter status in
    let joined = join_of (fts_query_of filter.search) in
    let (where_focus, focus_arguments) = focus_rules_sql filter.focus_rules in
    let page = page_of filter.page in
    let page_size = page_size_of filter.page_size in
    record {
      count_text =
          codes "SELECT COUNT(*) FROM requests r"
          ++ (joined ++ (codes " WHERE " ++ where_of clauses));
      count_arguments = arguments_of clauses;
      page_text = page_text_of where_focus joined (where_of clauses) filter.sort_ascending;
      page_arguments =
          focus_column_arguments where_focus (map text_of focus_arguments)
          ++ (arguments_of clauses
              ++ (number_of (pos page_size) ∷ number_of (int_product (page - 1) page_size) ∷ []));
      page = page;
      page_size = page_size;
    }

unfoldable pub with_status : RequestQuery → Outcome (List Clause) → Outcome Plan
with_status filter (err e) = err e
with_status filter (ok status) = ok (plan_of filter status)

unfoldable pub plan_requests : RequestQuery → Outcome Plan
unfolding with_status
plan_requests filter =
    if not (is_session_id filter.session_id)
    then err invalid_session_id
    else if not (is_focus_mode (focus_mode_of filter.focus_mode))
    then err bad_focus_mode
    else with_status filter (status_clauses filter.status)

-- What SQLite returns for a row; the last column says whether it is in focus.
pub record RequestRow : Type 0 where
  pub id : ℤ
  pub timestamp_ms : ℤ
  pub method : Bytes
  pub url : Bytes
  pub host : Bytes
  pub path : Bytes
  pub status : ℤ
  pub content_type : Bytes
  pub duration_ms : ℤ
  pub request_size : ℕ
  pub response_size : ℕ
  pub focused : ℤ

pub record RequestSummary : Type 0 where
  pub row : RequestRow
  pub total_size : ℕ
  pub focused : Bool

pub record RequestPage : Type 0 where
  pub items : List RequestSummary
  pub total : ℕ
  pub page : ℕ
  pub page_size : ℕ

-- SQLite: what a statement gives with its arguments.
pub record Database : Type 0 where
  pub count : Bytes → List Argument → Outcome ℕ
  pub select : Bytes → List Argument → Outcome (List RequestRow)

unfoldable pub summary_of : RequestRow → RequestSummary
summary_of row = record {
  row = row;
  total_size = row.request_size + row.response_size;
  focused = ltb_int row.focused (pos 0) || ltb_int (pos 0) row.focused;
}

page_from : Plan → ℕ → Outcome (List RequestRow) → Outcome RequestPage
page_from plan total (err e) = err e
page_from plan total (ok rows) = ok (record {
  items = map summary_of rows;
  total = total;
  page = plan.page;
  page_size = plan.page_size;
})

module _ (db : Database) where
  counted : Plan → Outcome ℕ → Outcome RequestPage
  unfolding page_from
  counted plan (err e) = err e
  counted plan (ok total) = page_from plan total (db.select plan.page_text plan.page_arguments)

  planned : Outcome Plan → Outcome RequestPage
  unfolding counted
  planned (err e) = err e
  planned (ok plan) = counted plan (db.count plan.count_text plan.count_arguments)

  unfoldable pub list_requests : RequestQuery → Outcome RequestPage
  unfolding planned
  list_requests filter = planned (plan_requests filter)
