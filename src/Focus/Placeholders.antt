-- ===== src/Focus/Placeholders.antt =====
-- Each placeholder of the condition that `focusRulesSQL` of cli/web_index.go builds has its
-- argument, whatever the rules hold.
use http_capture.Prelude.{
  ℕ, suc, ◌+◌, Bytes, codes, List, [], ◌∷◌, ◌++◌, ◌≡◌, refl, ◌∙◌, arith, length, length-append,
  join_with, if◌then◌else◌, ◌==◌, Bool-cases, inl, inr,
}
use http_capture.Focus.{FocusRule, is_used, rule_clause, rule_clauses, focus_rules_sql}

-- The number of question marks.
unfoldable pub placeholders : Bytes → ℕ
placeholders [] = 0
placeholders (c ∷ s) = if c == b'?' then suc (placeholders s) else placeholders s

pub placeholders-append : (s t : Bytes) → placeholders (s ++ t) ≡ placeholders s + placeholders t
unfolding placeholders
placeholders-append [] t = omega arith
placeholders-append (c ∷ s) t = ground (arith, placeholders-append s t)

-- The question marks of several texts.
unfoldable pub total : List Bytes → ℕ
total [] = 0
total (clause ∷ clauses) = placeholders clause + total clauses

pub join_with-placeholders :
    (separator : Bytes) (clauses : List Bytes)
    → placeholders separator ≡ 0
    → placeholders (join_with separator clauses) ≡ total clauses
unfolding join_with total placeholders
join_with-placeholders separator [] e = refl
join_with-placeholders separator (s ∷ []) e = omega arith
join_with-placeholders separator (s ∷ t ∷ rest) e =
    let tail = join_with separator (t ∷ rest) in
    omega (
      arith,
      placeholders-append s (separator ++ tail),
      placeholders-append separator tail,
      join_with-placeholders separator (t ∷ rest) e,
      e,
    )

rule_clause-placeholders :
    (rule : FocusRule) → placeholders (rule_clause rule).0 ≡ length (rule_clause rule).1
unfolding rule_clause placeholders
rule_clause-placeholders rule = ground arith

rule_clauses-total :
    (rules : List FocusRule) → total (rule_clauses rules).0 ≡ length (rule_clauses rules).1
unfolding rule_clauses total
rule_clauses-total [] = refl
rule_clauses-total (rule ∷ rules) = elim (Bool-cases (is_used rule)) [
  | inl used ↦ simp used (
      omega (
        arith,
        rule_clause-placeholders rule,
        rule_clauses-total rules,
        length-append (rule_clause rule).1 (rule_clauses rules).1,
      ))
  | inr unused ↦ simp unused (rule_clauses-total rules)
]

no_mark : placeholders (codes " OR ") ≡ 0
unfolding placeholders
no_mark = refl

-- The condition has as many placeholders as there are arguments, whatever stands in the patterns
-- and the methods of the rules.
pub focus_rules_sql-placeholders :
    (rules : List FocusRule)
    → placeholders (focus_rules_sql rules).0 ≡ length (focus_rules_sql rules).1
unfolding focus_rules_sql
focus_rules_sql-placeholders rules =
    join_with-placeholders (codes " OR ") (rule_clauses rules).0 no_mark ∙ rule_clauses-total rules
