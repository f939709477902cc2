-- ===== src/Examples/Queries.antt =====
-- A search in one session, as an example of the queries of the browser.
use http_capture.Prelude.{
  true, pos, codes, Bytes, List, [], ◌∷◌, ◌≡◌, refl, ◌<◌, ◌*◌, ◌^◌, arith, str_eq, trim_space,
  contains_byte, to_lower, has_suffix,
}
use http_capture.Effects.{Outcome, ok, err}
use http_capture.Numbers.{atoi}
use http_capture.Words.{words, pieces, trim_quotes, without_empty, build_fts_query, is_session_id}
use http_capture.Words.Reading.{Reads, build_fts_query-Reads}
use http_capture.Conditions.{
  RequestQuery, Clause, page_of, status_clauses, focus_mode_of, class_clauses,
}
use http_capture.Query.{Plan, plan_requests, plan_of}
use http_capture.Query.Placeholders.{Complete, plan_requests-Complete}
use http_capture.Query.Pages.{Window, plan_requests-Window}
use http_capture.Examples.Rules.{two_rules}

abbrev typed : Bytes
typed = codes " say\"hi \"you\" "

typed-words : words typed ≡ codes "say\"hi" ∷ codes "you" ∷ []
unfolding words pieces trim_quotes without_empty trim_space
typed-words = refl

abbrev second_page : RequestQuery
second_page = record {
  session_id = codes "20260101-a";
  search = typed;
  method = codes "get";
  status = codes "2xx";
  content_type = codes "json";
  focus_mode = codes "only";
  focus_rules = two_rules;
  from_ms = pos 10;
  to_ms = pos 20;
  min_duration_ms = pos 0;
  max_duration_ms = pos 5;
  min_size = pos 1;
  max_size = pos 0;
  sort_ascending = true;
  page = pos 2;
  page_size = pos 0;
}

-- The conditions of a status that was accepted.
abbrev made : Outcome (List Clause) → List Clause
made (ok clauses) = clauses
made (err e) = []

abbrev second_plan : Plan
second_plan = plan_of second_page (made (status_clauses (codes "2xx")))

plan_runs : plan_requests second_page ≡ ok second_plan
unfolding plan_requests is_session_id focus_mode_of status_clauses class_clauses str_eq
    contains_byte to_lower trim_space has_suffix atoi
plan_runs = refl

second_small : second_plan.page * 500 < 2 ^ 63
unfolding plan_of page_of
second_small = omega arith

build_fts_query-Reads_example : Reads (build_fts_query typed) (words typed)
build_fts_query-Reads_example =
    build_fts_query-Reads typed (codes "say\"hi") (codes "you" ∷ []) typed-words

plan_requests-Complete_example : Complete second_plan
plan_requests-Complete_example = plan_requests-Complete second_page second_plan plan_runs

plan_requests-Window_example : Window second_plan
plan_requests-Window_example = plan_requests-Window second_page second_plan plan_runs second_small
