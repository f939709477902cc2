-- ===== src/Conditions/Balance.antt =====
-- The conditions of a query have as many placeholders as arguments, `listRequests` of
-- cli/web_index.go.
use http_capture.Prelude.{
  ◌+◌, Bool, true, false, ℤ, pos, negsuc, Bytes, codes, List, [], ◌∷◌, ◌++◌, map, Option, none,
  some, ◌≡◌, refl, ◌∙◌, sym, subst, arith, if◌then◌else◌, length, length-append,
}
use http_capture.Errors.{Error}
use http_capture.Effects.{Outcome, ok, err}
use http_capture.Focus.{focus_rules_sql}
use http_capture.Focus.Placeholders.{
  placeholders, placeholders-append, total, focus_rules_sql-placeholders,
}
use http_capture.Conditions.{
  RequestQuery, Clause, Argument, text_of, search_clauses, method_clauses, class_clauses,
  code_clauses, status_clauses, content_type_clauses, range_clauses, focus_clauses, all_clauses,
  arguments_of, texts_of,
}

-- Conditions with as many placeholders as arguments.
unfoldable pub Even : List Clause → Type 0
Even clauses = total (texts_of clauses) ≡ length (arguments_of clauses)

texts-append :
    (a b : List Clause) → total (texts_of (a ++ b)) ≡ total (texts_of a) + total (texts_of b)
unfolding texts_of total
texts-append [] b = omega arith
texts-append (clause ∷ a) b = omega (arith, texts-append a b)

arguments-append :
    (a b : List Clause)
    → length (arguments_of (a ++ b)) ≡ length (arguments_of a) + length (arguments_of b)
unfolding arguments_of
arguments-append [] b = omega arith
arguments-append (clause ∷ a) b = omega (
  arith,
  length-append clause.1 (arguments_of (a ++ b)),
  length-append clause.1 (arguments_of a),
  arguments-append a b,
)

Even-append : (a b : List Clause) → Even a → Even b → Even (a ++ b)
unfolding Even
Even-append a b ha hb = omega (arith, texts-append a b, arguments-append a b, ha, hb)

search-Even : (fts : Bytes) → Even (search_clauses fts)
unfolding Even search_clauses texts_of arguments_of total placeholders
search-Even fts = ground arith

method-Even : (method : Bytes) → Even (method_clauses method)
unfolding Even method_clauses texts_of arguments_of total placeholders
method-Even method = ground arith

content_type-Even : (content_type : Bytes) → Even (content_type_clauses content_type)
unfolding Even content_type_clauses texts_of arguments_of total placeholders
content_type-Even content_type = ground arith

none-Even : Even []
unfolding Even texts_of arguments_of total
none-Even = refl

-- The same of a result.
pub record EvenIn (r : Outcome (List Clause)) : Type 0 where
  pub at : (clauses : List Clause) → r ≡ ok clauses → Even clauses

EvenIn-err : (e : Error) → EvenIn (err e)
EvenIn-err e = record { at = λ clauses h. cc }

EvenIn-ok : (clauses : List Clause) → Even clauses → EvenIn (ok clauses)
EvenIn-ok clauses even = record {
  at = λ found h. let same : clauses ≡ found = cc (h) in subst Even same even;
}

EvenIn-if :
    (b : Bool) (r s : Outcome (List Clause)) → EvenIn r → EvenIn s → EvenIn (if b then r else s)
EvenIn-if true r s hr hs = hr
EvenIn-if false r s hr hs = hs

one_code-Even : (n : Argument) → Even ((codes "r.status = ?", n ∷ []) ∷ [])
unfolding Even texts_of arguments_of total placeholders
one_code-Even n = refl

one_class-Even : (n m : Argument) → Even ((codes "r.status >= ? AND r.status < ?", n ∷ m ∷ []) ∷ [])
unfolding Even texts_of arguments_of total placeholders
one_class-Even n m = refl

class-EvenIn : (n : Option ℤ) → EvenIn (class_clauses n)
unfolding class_clauses
class-EvenIn none = EvenIn-err _
class-EvenIn (some (negsuc n)) = EvenIn-err _
class-EvenIn (some (pos n)) = EvenIn-if _ _ _ (EvenIn-err _) (EvenIn-ok _ (one_class-Even _ _))

code-EvenIn : (n : Option ℤ) → EvenIn (code_clauses n)
unfolding code_clauses
code-EvenIn none = EvenIn-err _
code-EvenIn (some n) = EvenIn-if _ _ _ (EvenIn-err _) (EvenIn-ok _ (one_code-Even _))

pub status-EvenIn : (status : Bytes) → EvenIn (status_clauses status)
unfolding status_clauses
status-EvenIn status =
    EvenIn-if _ _ _ (EvenIn-ok _ none-Even) (EvenIn-if _ _ _ (class-EvenIn _) (code-EvenIn _))

range-Even :
    (column : Bytes) (minimum maximum : ℤ)
    → placeholders column ≡ 0
    → Even (range_clauses column minimum maximum)
unfolding Even range_clauses texts_of arguments_of total placeholders
range-Even column minimum maximum e =
    ground (
      arith,
      placeholders-append column (codes " <= ?"),
      placeholders-append column (codes " >= ?"),
    )

first-Even : (id : Bytes) → Even ((codes "r.session_id = ?", text_of id ∷ []) ∷ [])
unfolding Even texts_of arguments_of total placeholders
first-Even id = refl

timestamp_mark : placeholders (codes "r.timestamp_ms") ≡ 0
unfolding placeholders
timestamp_mark = refl

duration_mark : placeholders (codes "r.duration_ms") ≡ 0
unfolding placeholders
duration_mark = refl

size_mark : placeholders (codes "(r.request_size + r.response_size)") ≡ 0
unfolding placeholders
size_mark = refl

pub mapped : (arguments : List Bytes) → length (map text_of arguments) ≡ length arguments
mapped [] = refl
mapped (a ∷ arguments) = omega (arith, mapped arguments)

focus-Even :
    (mode where_focus : Bytes) (arguments : List Argument)
    → placeholders where_focus ≡ length arguments
    → Even (focus_clauses mode where_focus arguments)
unfolding Even focus_clauses texts_of arguments_of total placeholders
focus-Even mode where_focus arguments e =
    ground (arith, placeholders-append where_focus (codes ")"), length-append arguments [])

pub all-Even :
    (filter : RequestQuery) (status : List Clause) → Even status → Even (all_clauses filter status)
unfolding all_clauses
all-Even filter status h =
    let (where_focus, arguments) = focus_rules_sql filter.focus_rules in
    let first : List Clause = (codes "r.session_id = ?", text_of filter.session_id ∷ []) ∷ [] in
    Even-append first _ (first-Even filter.session_id) (
      Even-append _ _ (search-Even _) (
        Even-append _ _ (method-Even _) (
          Even-append _ _ h (
            Even-append _ _ (content_type-Even _) (
              Even-append _ _ (range-Even _ _ _ timestamp_mark) (
                Even-append _ _ (range-Even _ _ _ duration_mark) (
                  Even-append _ _ (range-Even _ _ _ size_mark) (
                    focus-Even _ _ _ (
                      focus_rules_sql-placeholders filter.focus_rules
                      ∙ sym (mapped arguments))))))))))
