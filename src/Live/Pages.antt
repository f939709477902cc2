-- ===== src/Live/Pages.antt =====
-- Pages of rows in the order of their key, as the queries of cli/web_live.go give them.
use http_capture.Prelude.{
  ℕ, zero, suc, ◌≤◌, ◌<◌, Bool, true, false, ltb, ltb→lt, List, [], ◌∷◌, ◌≡◌, refl, arith,
  if◌then◌else◌, take, drop, ◌∙◌,
}
use http_capture.Live.{LiveRequestSummary, last_id_of, later_than, newest}

-- The rows by their key, which is unique, all above a number.
abbrev pub Ascending : ℕ → List LiveRequestSummary → Type 0
Ascending above [] = Unit
Ascending above (item ∷ items) = (above < item.request_id) × Ascending item.request_id items

-- Nothing comes after the newest request.
pub later_than-newest :
    (items : List LiveRequestSummary) (after : ℕ)
    → newest items ≤ after
    → later_than after items ≡ []
unfolding later_than newest
later_than-newest [] after h = refl
later_than-newest (item ∷ items) after h =
    let rest = later_than-newest items after (omega (arith, h)) in
    let old : item.request_id ≤ after = omega (arith, h) in ground arith

later_than-all :
    (items : List LiveRequestSummary) (above after : ℕ)
    → Ascending above items
    → after ≤ above
    → later_than after items ≡ items
unfolding later_than
later_than-all [] above after h le = refl
later_than-all (item ∷ items) above after (first, h) le =
    let rest = later_than-all items item.request_id after h (omega (arith, first, le)) in
    let new : after < item.request_id = omega (arith, first, le) in ground arith

order_step :
    (item : LiveRequestSummary) (items : List LiveRequestSummary) (after : ℕ) (b : Bool)
    → ltb after item.request_id ≡ b
    → Ascending item.request_id items
    → (item.request_id ≤ after → Ascending after (later_than after items))
    → Ascending after (
        if ltb after item.request_id then item ∷ later_than after items else later_than after items)
order_step item items after true e h k =
    let new = ltb→lt after item.request_id e in
    simp (e, later_than-all items item.request_id after h (omega (arith, new))) (new, h)
order_step item items after false e h k = simp e (k (ground arith))

pub later_than-Ascending :
    (items : List LiveRequestSummary) (above after : ℕ)
    → Ascending above items
    → above ≤ after
    → Ascending after (later_than after items)
unfolding later_than
later_than-Ascending [] above after h le = tt
later_than-Ascending (item ∷ items) above after (first, h) le =
    order_step item items after _ refl h (later_than-Ascending items item.request_id after h)

pub last_id_of-le :
    (n : ℕ) (items : List LiveRequestSummary) (above : ℕ)
    → Ascending above items
    → above ≤ last_id_of above (take n items)
unfolding last_id_of
last_id_of-le zero items above h = omega arith
last_id_of-le (suc n) [] above h = omega arith
last_id_of-le (suc n) (item ∷ items) above (first, h) =
    omega (arith, last_id_of-le n items item.request_id h, first)

pub not_later :
    (item : LiveRequestSummary) (items : List LiveRequestSummary) (after : ℕ)
    → item.request_id ≤ after
    → later_than after (item ∷ items) ≡ later_than after items
unfolding later_than
not_later item items after h = ground arith

-- What comes after a page is what the page left.
pub after_page :
    (n : ℕ) (items : List LiveRequestSummary) (above : ℕ)
    → Ascending above items
    → later_than (last_id_of above (take n items)) items ≡ drop n items
unfolding last_id_of later_than
after_page zero items above h = later_than-all items above above h (omega arith)
after_page (suc n) [] above h = refl
after_page (suc n) (item ∷ items) above (first, h) =
    not_later item items _ (last_id_of-le n items item.request_id h)
    ∙ after_page n items item.request_id h

pub later_than-later_than :
    (items : List LiveRequestSummary) (a b : ℕ)
    → a ≤ b
    → later_than b (later_than a items) ≡ later_than b items
unfolding later_than
later_than-later_than [] a b le = refl
later_than-later_than (item ∷ items) a b le =
    let rest = later_than-later_than items a b le in ground arith
