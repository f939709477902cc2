-- ===== src/Examples/Rules.antt =====
-- The theorems on focus rules, on the extraction of traffic and on the arguments of a start.
use http_capture.Prelude.{
  ◌≤◌, pos, codes, List, [], ◌∷◌, some, ◌≡◌, refl, true, false, All, length, map, str_eq,
  trim_space, trim_left, trim_right, to_upper, has_prefix,
}
use http_capture.Effects.{ok, ◌>>=◌}
use http_capture.Captured.{
  CapturedPayload, CapturedRequest, CapturedResponse, CapturedTransaction, client_address_matches,
}
use http_capture.World.{Env, system, find_file}
use http_capture.Session.Extract.{
  Window, extract_captured_transactions, open_content, content_or_missing, finish_file,
  extract_lines, lines_of, judge, judge_record, add_line,
}
use http_capture.Session.Extract.Selection.{Selected, extract-Selected}
use http_capture.Focus.{
  FocusRule, normalize_focus_rules, normalize_rules, trimmed_rule, refused_rule, contains_id,
  valid_focus_rule_type, valid_http_method, focus_rules_sql,
}
use http_capture.Focus.Normal.{IsUsable, DistinctIds, normalize_focus_rules-IsUsable}
use http_capture.Focus.Placeholders.{placeholders, focus_rules_sql-placeholders}
use http_capture.Control.{StartRequest}
use http_capture.Control.Arguments.{ParsesTo, requested, start_args-options}
use http_capture.Control.{start_args}
use http_capture.Export.Sessions.{IndexedSession, WebExportSpec}
use http_capture.Examples.Data.{calm, idle, phone}

abbrev plain_rule : FocusRule
plain_rule = record {
  id = codes "a";
  name = [];
  kind = codes "host_contains";
  method = [];
  pattern = codes "api?";
  enabled = true;
  created_ms = pos 1;
  updated_ms = pos 1;
}

abbrev pub two_rules : List FocusRule
two_rules =
    plain_rule
    ∷ record plain_rule { id = codes "b"; kind = codes "method_url_contains"; method = codes "GET" }
    ∷ []

normalize_runs : normalize_focus_rules (pos 9) (λ n. codes "id") two_rules ≡ ok two_rules
unfolding normalize_focus_rules normalize_rules trimmed_rule refused_rule contains_id
    valid_focus_rule_type valid_http_method str_eq trim_space trim_left trim_right to_upper
normalize_runs = refl

normalize_focus_rules-IsUsable_example :
    All IsUsable two_rules
    × DistinctIds two_rules
    × (length two_rules ≤ 100)
    × (map (λ r. r.pattern) two_rules ≡ map (λ r. trim_space r.pattern) two_rules)
normalize_focus_rules-IsUsable_example =
    normalize_focus_rules-IsUsable (pos 9) (λ n. codes "id") two_rules two_rules normalize_runs

focus_rules_sql-placeholders_example :
    placeholders (focus_rules_sql two_rules).0 ≡ length (focus_rules_sql two_rules).1
focus_rules_sql-placeholders_example = focus_rules_sql-placeholders two_rules

abbrev no_body : CapturedPayload
no_body = record {
  declared_size = pos 0;
  captured_size = 0;
  encoding = [];
  content = [];
  truncated = false;
  read_error = [];
}

abbrev get_request : CapturedRequest
get_request = record {
  method = codes "GET";
  url = codes "http://h/";
  http_version = codes "HTTP/1.1";
  headers = [];
  body = no_body;
}

abbrev empty_response : CapturedResponse
empty_response = record {
  status_code = pos 204;
  status = [];
  http_version = codes "HTTP/1.1";
  headers = [];
  body = no_body;
}

abbrev pub exchange : CapturedTransaction
exchange = record {
  schema_version = pos 1;
  timestamp = [];
  timestamp_millis = pos 50;
  duration_millis = pos 1;
  client_address = codes "c:1";
  request = get_request;
  response = empty_response;
}

-- Every line of traffic is this exchange.
abbrev reading : Env
reading = record calm { decode = λ line. some exchange }

abbrev window : Window
window = record { start_ms = pos 10; end_ms = pos 90; client_ip = codes "c" }

extract_runs :
    (extract_captured_transactions reading (codes "/t") (codes "/o") (pos 0) (pos 3) window idle).0
    ≡ ok (1, 0)
unfolding extract_captured_transactions open_content content_or_missing finish_file extract_lines
    lines_of judge judge_record add_line client_address_matches system find_file str_eq has_prefix
    trim_space trim_left trim_right ◌>>=◌
extract_runs = refl

extract-Selected_example :
    Selected reading
      (codes "/t")
      (codes "/o")
      (pos 0)
      (pos 3)
      window
      idle
      (1, 0)
      (extract_captured_transactions reading
        (codes "/t")
        (codes "/o")
        (pos 0)
        (pos 3)
        window
        idle).1
extract-Selected_example =
    extract-Selected reading (codes "/t") (codes "/o") (pos 0) (pos 3) window idle (1, 0)
      extract_runs

abbrev a_start : StartRequest
a_start = record {
  command_id = codes "k";
  profile_id = codes "P";
  device_id = codes "D";
  device_name = [];
  proxy_host = codes "h";
  proxy_port = pos 8888;
  packages = codes "--engine" ∷ codes "p" ∷ [];
}

start_args-options_example :
    ParsesTo
      (start_args a_start phone (some (codes "c")))
      (requested a_start phone (some (codes "c")))
start_args-options_example = start_args-options a_start phone (some (codes "c"))

abbrev charles_session : IndexedSession
charles_session = record { id = codes "c"; engine = codes "charles" }

abbrev proxify_session : IndexedSession
proxify_session = record { id = codes "p"; engine = codes "proxify" }

abbrev one_request : WebExportSpec
one_request = record {
  scope = codes "selected";
  session_id = [];
  session_ids = [];
  request_ids = record { session_id = codes "p"; id = pos 3 } ∷ [];
}
