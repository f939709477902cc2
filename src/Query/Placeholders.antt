-- ===== src/Query/Placeholders.antt =====
-- The statements of `listRequests` in cli/web_index.go and their arguments.
use http_capture.Prelude.{
  ◌+◌, ◌-◌, Bool, true, false, not, pos, Bytes, codes, List, [], ◌∷◌, ◌++◌, map, ◌≡◌, refl, ◌∙◌,
  sym, subst, arith, if◌then◌else◌, length, length-append,
}
use http_capture.Errors.{Error, invalid_session_id, bad_focus_mode}
use http_capture.Effects.{Outcome, ok, err}
use http_capture.Words.{is_session_id}
use http_capture.Focus.{focus_rules_sql}
use http_capture.Focus.Placeholders.{
  placeholders, placeholders-append, total, join_with-placeholders, focus_rules_sql-placeholders,
}
use http_capture.Conditions.{
  RequestQuery, Clause, Argument, text_of, number_of, fts_query_of, join_of, status_clauses,
  focus_mode_of, is_focus_mode, all_clauses, page_of, page_size_of, arguments_of, texts_of,
}
use http_capture.Conditions.Balance.{Even, status-EvenIn, all-Even, mapped}
use http_capture.Query.{
  where_of, focus_column, focus_column_arguments, page_text_of, order_of, int_product, plan_of,
  with_status, plan_requests, Plan,
}

and_mark : placeholders (codes " AND ") ≡ 0
unfolding placeholders
and_mark = refl

where-placeholders :
    (clauses : List Clause) → placeholders (where_of clauses) ≡ total (texts_of clauses)
unfolding where_of
where-placeholders clauses = join_with-placeholders (codes " AND ") (texts_of clauses) and_mark

-- The placeholders of both statements are as many as their arguments.
pub Complete : Plan → Type 0
Complete plan =
    (placeholders plan.count_text ≡ length plan.count_arguments)
    × (placeholders plan.page_text ≡ length plan.page_arguments)

join-placeholders : (fts : Bytes) → placeholders (join_of fts) ≡ 0
unfolding join_of placeholders
join-placeholders fts = ground arith

column-placeholders :
    (where_focus : Bytes) (arguments : List Argument)
    → placeholders where_focus ≡ length arguments
    → placeholders (focus_column where_focus)
      ≡ length (focus_column_arguments where_focus arguments)
unfolding focus_column focus_column_arguments placeholders
column-placeholders where_focus arguments e =
    ground (arith, placeholders-append where_focus (codes " THEN 1 ELSE 0 END"))

-- What stands behind the condition of a page.
abbrev tail_of : Bool → Bytes
tail_of ascending =
    codes " ORDER BY r.timestamp_ms "
    ++ (order_of ascending
        ++ (codes ", r.id " ++ (order_of ascending ++ codes " LIMIT ? OFFSET ?")))

tail-placeholders : (ascending : Bool) → placeholders (tail_of ascending) ≡ 2
unfolding placeholders
tail-placeholders true = refl
tail-placeholders false = refl

page-placeholders :
    (where_focus joined where_all : Bytes) (ascending : Bool)
    → placeholders (page_text_of where_focus joined where_all ascending)
      ≡ placeholders (focus_column where_focus)
        + (placeholders joined + (placeholders where_all + 2))
unfolding page_text_of placeholders
page-placeholders where_focus joined where_all ascending =
    let rest = tail_of ascending in
    let condition = codes " WHERE " ++ (where_all ++ rest) in
    let from = codes "\n\t\tFROM requests r" ++ (joined ++ condition) in
    omega (
      arith,
      placeholders-append (focus_column where_focus) from,
      placeholders-append joined condition,
      placeholders-append where_all rest,
      tail-placeholders ascending,
    )

count-placeholders :
    (joined where_all : Bytes)
    → placeholders
        (codes "SELECT COUNT(*) FROM requests r" ++ (joined ++ (codes " WHERE " ++ where_all)))
      ≡ placeholders joined + placeholders where_all
unfolding placeholders
count-placeholders joined where_all =
    omega (arith, placeholders-append joined (codes " WHERE " ++ where_all))

plan-Complete :
    (filter : RequestQuery) (status : List Clause) → Even status → Complete (plan_of filter status)
unfolding plan_of Complete Even
plan-Complete filter status h =
    let (where_focus, arguments) = focus_rules_sql filter.focus_rules in
    let clauses = all_clauses filter status in
    let joined = join_of (fts_query_of filter.search) in
    let even = all-Even filter status h in
    let focus = focus_rules_sql-placeholders filter.focus_rules ∙ sym (mapped arguments) in
    let texts = map text_of arguments in
    let last : List Argument =
      number_of (pos (page_size_of filter.page_size))
      ∷ number_of (int_product (page_of filter.page - 1) (page_size_of filter.page_size))
      ∷ [] in
    (
      omega (
        arith,
        count-placeholders joined (where_of clauses),
        join-placeholders (fts_query_of filter.search),
        where-placeholders clauses,
        even,
      ),
      omega (
        arith,
        page-placeholders where_focus joined (where_of clauses) filter.sort_ascending,
        column-placeholders where_focus texts focus,
        join-placeholders (fts_query_of filter.search),
        where-placeholders clauses,
        length-append (focus_column_arguments where_focus texts) (arguments_of clauses ++ last),
        length-append (arguments_of clauses) last,
        even,
      ),
    )

-- What follows a test that does not fail.
behind_test :
    {A : Type 0} (b : Bool) (e : Error) (r : Outcome A) (a : A)
    → (if b then err e else r) ≡ ok a
    → r ≡ ok a
behind_test true e r a h = cc
behind_test false e r a h = h

with_status-made :
    (filter : RequestQuery) (r : Outcome (List Clause)) (plan : Plan)
    → with_status filter r ≡ ok plan
    → (status : List Clause) × (r ≡ ok status) × (plan_of filter status ≡ plan)
unfolding with_status
with_status-made filter (err e) plan h = cc
with_status-made filter (ok status) plan h = (status, refl, cc (h))

-- A plan that was made, and the conditions of its status.
pub plan-made :
    (filter : RequestQuery) (plan : Plan)
    → plan_requests filter ≡ ok plan
    → (status : List Clause) × (status_clauses filter.status ≡ ok status)
      × (plan_of filter status ≡ plan)
unfolding plan_requests
plan-made filter plan e =
    let bad_mode = not (is_focus_mode (focus_mode_of filter.focus_mode)) in
    let made = with_status filter (status_clauses filter.status) in
    let valid =
      behind_test (not (is_session_id filter.session_id)) invalid_session_id
        (if bad_mode then err bad_focus_mode else made) plan e in
    with_status-made filter _ plan (behind_test bad_mode bad_focus_mode made plan valid)

-- Whatever the browser asks for: if `listRequests` builds statements at all, each of the two, the
-- count and the page, has exactly as many placeholders as it has arguments.
pub plan_requests-Complete :
    (filter : RequestQuery) (plan : Plan) → plan_requests filter ≡ ok plan → Complete plan
plan_requests-Complete filter plan e =
    let (status, found, same) = plan-made filter plan e in
    subst Complete same
      (plan-Complete filter status ((status-EvenIn filter.status).at status found))
