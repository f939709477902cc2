-- ===== src/Catalogue/Lookup.antt =====
-- The rows of the index by their ids, as SQLite keeps them under a primary key: cli/web_index.go.
use http_capture.Prelude.{
  Bool, true, false, Bytes, [], ◌∷◌, none, some, ◌≡◌, refl, sym, ap, ◌∙◌, arith, if◌then◌else◌,
  str_eq, str_eq_iff, str_eq_refl,
}
use http_capture.Catalogue.{Kept, Rows, find_row, put_row, delete_row}

str_eq-≡ : (s t : Bytes) → str_eq s t ≡ true → s ≡ t
str_eq-≡ s t e = (str_eq_iff s t).0 e

-- Two names that are one text are looked up alike.
same_name : (n id i : Bytes) → str_eq n id ≡ true → str_eq n i ≡ str_eq id i
same_name n id i e = ap (λ s. str_eq s i) (str_eq-≡ n id e)

find-put_cons :
    (id n i : Bytes) (new k : Kept) (rows : Rows)
    → (find_row i (put_row id new rows) ≡ (if str_eq id i then some new else find_row i rows))
    → (a b c : Bool) → str_eq n id ≡ a
    → str_eq n i ≡ b
    → str_eq id i ≡ c
    → find_row i (put_row id new ((n, k) ∷ rows))
      ≡ (if str_eq id i then some new else find_row i ((n, k) ∷ rows))
unfolding find_row put_row
find-put_cons id n i new k rows ih true true true ea eb ec = simp (ea, eb, ec) refl
find-put_cons id n i new k rows ih true false false ea eb ec = simp (ea, eb, ec) refl
find-put_cons id n i new k rows ih true true false ea eb ec = let same = same_name n id i ea in cc
find-put_cons id n i new k rows ih true false true ea eb ec = let same = same_name n id i ea in cc
find-put_cons id n i new k rows ih false true true ea eb ec =
    let alike : str_eq n id ≡ true =
      ap (λ s. str_eq s id) (str_eq-≡ n i eb ∙ sym (str_eq-≡ id i ec)) ∙ str_eq_refl id in
    cc
find-put_cons id n i new k rows ih false true false ea eb ec = simp (ea, eb, ec) refl
find-put_cons id n i new k rows ih false false c ea eb ec = simp (ea, eb) ih

-- A row that is put under an id is found there, and nothing else changes.
pub find-put :
    (id i : Bytes) (new : Kept) (rows : Rows)
    → find_row i (put_row id new rows) ≡ (if str_eq id i then some new else find_row i rows)
unfolding find_row put_row
find-put id i new [] = refl
find-put id i new ((n, k) ∷ rows) =
    find-put_cons id n i new k rows (find-put id i new rows) _ _ _ refl refl refl

find-delete_cons :
    (id n i : Bytes) (k : Kept) (rows : Rows)
    → (find_row i (delete_row id rows) ≡ (if str_eq id i then none else find_row i rows))
    → (a b c : Bool) → str_eq n id ≡ a
    → str_eq n i ≡ b
    → str_eq id i ≡ c
    → find_row i (delete_row id ((n, k) ∷ rows))
      ≡ (if str_eq id i then none else find_row i ((n, k) ∷ rows))
unfolding find_row delete_row
find-delete_cons id n i k rows ih true true true ea eb ec = simp (ea, eb, ec) (simp ec at ih)
find-delete_cons id n i k rows ih true false false ea eb ec = simp (ea, eb, ec) (simp ec at ih)
find-delete_cons id n i k rows ih true true false ea eb ec = let same = same_name n id i ea in cc
find-delete_cons id n i k rows ih true false true ea eb ec = let same = same_name n id i ea in cc
find-delete_cons id n i k rows ih false true true ea eb ec =
    let alike : str_eq n id ≡ true =
      ap (λ s. str_eq s id) (str_eq-≡ n i eb ∙ sym (str_eq-≡ id i ec)) ∙ str_eq_refl id in
    cc
find-delete_cons id n i k rows ih false true false ea eb ec = simp (ea, eb, ec) refl
find-delete_cons id n i k rows ih false false c ea eb ec = simp (ea, eb) ih

-- A deleted row is not found, and nothing else changes.
pub find-delete :
    (id i : Bytes) (rows : Rows)
    → find_row i (delete_row id rows) ≡ (if str_eq id i then none else find_row i rows)
unfolding find_row delete_row
find-delete id i [] = ground arith
find-delete id i ((n, k) ∷ rows) =
    find-delete_cons id n i k rows (find-delete id i rows) _ _ _ refl refl refl
