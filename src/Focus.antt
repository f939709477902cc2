-- ===== src/Focus.antt =====
-- The focus rules of the web interface: `normalizeFocusRules` of cli/web_focus.go, and
-- `focusRulesSQL` and `escapeLike` of cli/web_index.go, which turn them into a condition.
pub mod Normal
pub mod Placeholders
use http_capture.Prelude.{
  ℕ, suc, Bool, true, false, not, ◌&&◌, ◌||◌, ◌==◌, ltb, ℤ, pos, leb_int, Bytes, codes, List, [],
  ◌∷◌, ◌++◌, Option, none, some, if◌then◌else◌, str_eq, trim_space, to_upper, join_with, length,
}
use http_capture.Errors.{
  Error, too_many_rules, duplicate_rule_id, bad_rule_type, bad_rule_method, empty_rule_pattern,
  long_rule_pattern, long_rule_name,
}
use http_capture.Effects.{Outcome, ok, err}

pub record FocusRule : Type 0 where
  pub id : Bytes
  pub name : Bytes
  pub kind : Bytes
  pub method : Bytes
  pub pattern : Bytes
  pub enabled : Bool
  pub created_ms : ℤ
  pub updated_ms : ℤ

unfoldable pub valid_focus_rule_type : Bytes → Bool
valid_focus_rule_type value =
    str_eq value (codes "url_contains")
    || str_eq value (codes "host_contains")
    || str_eq value (codes "path_contains")
    || str_eq value (codes "method_url_contains")

unfoldable pub valid_http_method : Bytes → Bool
valid_http_method value =
    str_eq value (codes "GET")
    || str_eq value (codes "POST")
    || str_eq value (codes "PUT")
    || str_eq value (codes "PATCH")
    || str_eq value (codes "DELETE")
    || str_eq value (codes "HEAD")
    || str_eq value (codes "OPTIONS")

unfoldable pub contains_id : Bytes → List Bytes → Bool
contains_id id [] = false
contains_id id (s ∷ seen) = str_eq s id || contains_id id seen

abbrev or_else : Bytes → Bytes → Bytes
or_else value fallback = if str_eq value [] then fallback else value

abbrev or_now : ℤ → ℤ → ℤ
or_now now ms = if leb_int ms (pos 0) then now else ms

-- The rule as the loop rewrites it; `fresh` is what `newFocusRuleID` gives.
unfoldable pub trimmed_rule : ℤ → Bytes → FocusRule → FocusRule
trimmed_rule now fresh rule = record {
  id = or_else (trim_space rule.id) fresh;
  name = trim_space rule.name;
  kind = or_else (trim_space rule.kind) (codes "url_contains");
  method = to_upper (trim_space rule.method);
  pattern = trim_space rule.pattern;
  enabled = rule.enabled;
  created_ms = or_now now rule.created_ms;
  updated_ms = or_now now rule.updated_ms;
}

-- The checks of the loop, in their order, on a rule that was rewritten.
unfoldable pub refused_rule : List Bytes → FocusRule → Option Error
refused_rule seen rule =
    if contains_id rule.id seen
    then some duplicate_rule_id
    else if not (valid_focus_rule_type rule.kind)
    then some bad_rule_type
    else if str_eq rule.kind (codes "method_url_contains")
        && not (str_eq rule.method [])
        && not (valid_http_method rule.method)
    then some bad_rule_method
    else if str_eq rule.pattern []
    then some empty_rule_pattern
    else if ltb 512 (length rule.pattern)
    then some long_rule_pattern
    else if ltb 100 (length rule.name)
    then some long_rule_name
    else none

abbrev with_rule : FocusRule → Option Error → Outcome (List FocusRule) → Outcome (List FocusRule)
with_rule rule (some e) rest = err e
with_rule rule none (err e) = err e
with_rule rule none (ok rules) = ok (rule ∷ rules)

-- The loop: `seen` holds the ids of the rules before, and `fresh n` is the n-th new id.
unfoldable pub normalize_rules :
    ℤ → (ℕ → Bytes) → ℕ → List Bytes → List FocusRule → Outcome (List FocusRule)
unfolding trimmed_rule refused_rule
normalize_rules now fresh n seen [] = ok []
normalize_rules now fresh n seen (rule ∷ rules) =
    let next = trimmed_rule now (fresh n) rule in
    with_rule next (refused_rule seen next)
      (normalize_rules now fresh (suc n) (next.id ∷ seen) rules)

unfoldable pub normalize_focus_rules : ℤ → (ℕ → Bytes) → List FocusRule → Outcome (List FocusRule)
unfolding normalize_rules
normalize_focus_rules now fresh rules =
    if ltb 100 (length rules) then err too_many_rules else normalize_rules now fresh 0 [] rules

-- `strings.ReplaceAll` of one byte by it behind a backslash.
escape_byte : ℕ → Bytes → Bytes
escape_byte b [] = []
escape_byte b (c ∷ s) = if c == b then b'\\' ∷ c ∷ escape_byte b s else c ∷ escape_byte b s

unfoldable pub escape_like : Bytes → Bytes
unfolding escape_byte
escape_like value = escape_byte b'_' (escape_byte b'%' (escape_byte b'\\' value))

abbrev like_of : Bytes → Bytes
like_of pattern = codes "%" ++ (escape_like pattern ++ codes "%")

-- One rule's condition and its arguments.
unfoldable pub rule_clause : FocusRule → Bytes × List Bytes
rule_clause rule =
    let like = like_of (trim_space rule.pattern) in
    let method = to_upper (trim_space rule.method) in
    if str_eq rule.kind (codes "host_contains")
    then (codes "r.host LIKE ? ESCAPE '\\'", like ∷ [])
    else if str_eq rule.kind (codes "path_contains")
    then (codes "r.path LIKE ? ESCAPE '\\'", like ∷ [])
    else if str_eq rule.kind (codes "method_url_contains") && not (str_eq method [])
    then (codes "(r.method = ? AND r.url LIKE ? ESCAPE '\\')", method ∷ like ∷ [])
    else (codes "r.url LIKE ? ESCAPE '\\'", like ∷ [])

abbrev pub is_used : FocusRule → Bool
is_used rule = rule.enabled && not (str_eq (trim_space rule.pattern) [])

unfoldable pub rule_clauses : List FocusRule → List Bytes × List Bytes
unfolding rule_clause
rule_clauses [] = ([], [])
rule_clauses (rule ∷ rules) =
    let (clauses, arguments) = rule_clauses rules in
    let (clause, own) = rule_clause rule in
    if is_used rule then (clause ∷ clauses, own ++ arguments) else (clauses, arguments)

unfoldable pub focus_rules_sql : List FocusRule → Bytes × List Bytes
unfolding rule_clauses join_with
focus_rules_sql rules =
    let (clauses, arguments) = rule_clauses rules in (join_with (codes " OR ") clauses, arguments)
