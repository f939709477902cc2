-- ===== src/Query/Pages.antt =====
-- The window of a page, `listRequests` of cli/web_index.go: its bounds in SQL, and what a page
-- reports.
use http_capture.Prelude.{
  ℕ, zero, suc, ◌*◌, ◌-◌, ◌%◌, ◌^◌, ◌≤◌, ◌<◌, true, ltb, ℤ, pos, negsuc, List, [], ◌∷◌, ◌++◌,
  append_assoc, map, ◌≡◌, refl, ap, ◌∙◌, sym, subst, arith, lt→ltb,
}
use native.Mathlib.Nat.{mul-le-mul_left}
use http_capture.Effects.{ok}
use http_capture.Focus.{focus_rules_sql}
use http_capture.Conditions.{
  RequestQuery, Clause, Argument, text_of, number_of, page_of, page_size_of, all_clauses,
  arguments_of,
}
use http_capture.Query.{Plan, int_product, plan_of, plan_requests, focus_column_arguments}
use http_capture.Query.Placeholders.{plan-made}

page_of-bound : (n : ℤ) → 1 ≤ page_of n
unfolding page_of
page_of-bound (pos zero) = omega arith
page_of-bound (pos (suc n)) = omega arith
page_of-bound (negsuc n) = omega arith

page_size_of-bound : (n : ℤ) → (1 ≤ page_size_of n) × (page_size_of n ≤ 500)
unfolding page_size_of
page_size_of-bound (pos zero) = (omega arith, omega arith)
page_size_of-bound (pos (suc n)) = ground arith
page_size_of-bound (negsuc n) = (omega arith, omega arith)

int_product-exact : (a b : ℕ) → a * b < 2 ^ 63 → int_product a b ≡ pos (a * b)
unfolding int_product
int_product-exact a b h =
    let small : a * b % 2 ^ 64 ≡ a * b = omega (arith, h) in
    let below : ltb (a * b) (2 ^ 63) ≡ true = lt→ltb (a * b) (2 ^ 63) h in simp (small, below) refl

product_bound : (p s : ℕ) → s ≤ 500 → (p - 1) * s ≤ p * 500
product_bound p s h = omega (arith, mul-le-mul_left (p - 1) h)

-- The page that the plan asks SQLite for: the window of its arguments.
pub Window : Plan → Type 0
Window plan =
    (1 ≤ plan.page)
    × (1 ≤ plan.page_size)
    × (plan.page_size ≤ 500)
    × (before : List Argument) × (plan.page_arguments
        ≡ before
          ++ (number_of (pos plan.page_size)
              ∷ number_of (pos ((plan.page - 1) * plan.page_size))
              ∷ []))

plan-Window :
    (filter : RequestQuery) (status : List Clause)
    → (plan_of filter status).page * 500 < 2 ^ 63
    → Window (plan_of filter status)
unfolding Window plan_of
plan-Window filter status small =
    let page = page_of filter.page in
    let page_size = page_size_of filter.page_size in
    let (least, most) = page_size_of-bound filter.page_size in
    let exact =
      int_product-exact (page - 1) page_size
        (omega (arith, product_bound page page_size most, small)) in
    let texts =
      focus_column_arguments (focus_rules_sql filter.focus_rules).0
        (map text_of (focus_rules_sql filter.focus_rules).1) in
    let own = arguments_of (all_clauses filter status) in
    let size = number_of (pos page_size) in
    (
      page_of-bound filter.page,
      least,
      most,
      texts ++ own,
      ap (λ offset. texts ++ (own ++ (size ∷ number_of offset ∷ []))) exact
          ∙ sym (append_assoc texts own (size ∷ number_of (pos ((page - 1) * page_size)) ∷ [])),
    )

-- Every page that is asked for has a size between 1 and 500, whatever sizes and numbers the
-- browser sends, if 500 times the number of the page is less than 2 to the 63: the last two
-- arguments of the statement, its limit and its offset, are then the size of a page and that size
-- for each of the pages before.
pub plan_requests-Window :
    (filter : RequestQuery) (plan : Plan)
    → plan_requests filter ≡ ok plan
    → plan.page * 500 < 2 ^ 63
    → Window plan
plan_requests-Window filter plan e small =
    let (status, found, same) = plan-made filter plan e in
    subst Window same
      (plan-Window filter status (subst (λ p. p.page * 500 < 2 ^ 63) (sym same) small))
