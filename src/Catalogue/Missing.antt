-- ===== src/Catalogue/Missing.antt =====
-- The sessions that have no directory any more leave the index: `removeMissingSessions` of
-- cli/web_index.go.
use http_capture.Prelude.{
  Bool, true, false, ◌||◌, Bytes, List, [], ◌∷◌, Option, none, ◌≡◌, refl, sym, ap, ◌∙◌, arith,
  if◌then◌else◌, str_eq, str_eq_iff,
}
use http_capture.Errors.{sql_failed}
use http_capture.Effects.{ok, ◌>>=◌, ◌>>◌, gets, modify, refuse_if}
use http_capture.Effects.Ensures.{bind-ok, EnsuresFrom, EnsuresFrom-refuse_if, EnsuresFrom-return}
use http_capture.Catalogue.{
  Source, Kept, Rows, DirectoryEntry, Disk, find_row, delete_row, delete_session,
}
use http_capture.Catalogue.Rescan.{is_seen, missing_ids, delete_missing, remove_missing_sessions}
use http_capture.Catalogue.Lookup.{find-delete}
use http_capture.Catalogue.Frames.{source_of, shown}

among : Bytes → List Bytes → Bool
among id [] = false
among id (x ∷ xs) = str_eq x id || among id xs

module _ (disk : Disk) (id : Bytes) where
  delete-shown :
      (x : Bytes) (rows : Rows)
      → shown id (delete_row x rows) ≡ (if str_eq x id then none else shown id rows)
  unfolding shown source_of
  delete-shown x rows = ap source_of (find-delete x id rows) ∙ ground arith

  delete-ok :
      (x : Bytes) (rows : Rows) (u : Unit {0})
      → ((refuse_if (disk.refuses (delete_session x)) sql_failed >> modify (delete_row x)) rows).0
        ≡ ok u
      → ((refuse_if (disk.refuses (delete_session x)) sql_failed >> modify (delete_row x)) rows).1
        ≡ delete_row x rows
  unfolding ◌>>=◌
  delete-ok x rows u h = ground arith

  gone_twice :
      (x : Bytes) (ids : List Bytes) (s : Option Source)
      → (if among id ids then none else (if str_eq x id then none else s))
        ≡ (if str_eq x id || among id ids then none else s)
  gone_twice x ids s = ground arith

  delete_missing-shown :
      (ids : List Bytes)
      → EnsuresFrom
          (λ rows u rows'. shown id rows' ≡ (if among id ids then none else shown id rows))
          (delete_missing disk ids)
  unfolding delete_missing among
  delete_missing-shown [] = EnsuresFrom-return tt (λ rows. refl)
  delete_missing-shown (x ∷ ids) = record {
    at = λ rows a h.
        let (u, first, rest) = bind-ok _ _ rows a h in
        ap (λ p. shown id p.1) rest
        ∙ (delete_missing-shown ids).at _ a (sym (ap (λ p. p.0) rest) ∙ h)
        ∙ ap (λ s. if among id ids then none else s)
            (ap (shown id) (delete-ok x rows u first) ∙ delete-shown x rows)
        ∙ gone_twice x ids (shown id rows);
  }

  seen_kept_step :
      (name : Bytes) (seen : List DirectoryEntry) (ids : List Bytes) (b c : Bool)
      → str_eq name id ≡ b
      → is_seen disk name seen ≡ c
      → is_seen disk id seen ≡ true
      → among id ids ≡ false
      → among id (if is_seen disk name seen then ids else name ∷ ids) ≡ false
  unfolding among
  seen_kept_step name seen ids b true eb ec s h = simp ec h
  seen_kept_step name seen ids false false eb ec s h = simp (ec, eb) h
  seen_kept_step name seen ids true false eb ec s h =
      let same = ap (λ n. is_seen disk n seen) ((str_eq_iff name id).0 eb) in cc

  -- A session that was seen is not deleted,
  seen_kept :
      (seen : List DirectoryEntry) (rows : Rows)
      → is_seen disk id seen ≡ true
      → among id (missing_ids disk seen rows) ≡ false
  unfolding missing_ids among
  seen_kept seen [] s = refl
  seen_kept seen ((name, kept) ∷ rows) s =
      seen_kept_step name seen _ _ _ refl refl s (seen_kept seen rows s)

  unseen_gone_step :
      (name : Bytes) (kept : Kept) (seen : List DirectoryEntry) (ids : List Bytes) (rows : Rows)
      (b c : Bool)
      → str_eq name id ≡ b
      → is_seen disk name seen ≡ c
      → is_seen disk id seen ≡ false
      → (if among id ids then none else shown id rows) ≡ none
      → (if among id (if is_seen disk name seen then ids else name ∷ ids)
          then none
          else shown id ((name, kept) ∷ rows))
        ≡ none
  unfolding among shown find_row
  unseen_gone_step name kept seen ids rows false true eb ec s h = simp (ec, eb) h
  unseen_gone_step name kept seen ids rows false false eb ec s h = simp (ec, eb) h
  unseen_gone_step name kept seen ids rows true false eb ec s h = simp (ec, eb) refl
  unseen_gone_step name kept seen ids rows true true eb ec s h =
      let same = ap (λ n. is_seen disk n seen) ((str_eq_iff name id).0 eb) in cc

  -- and one that was not seen is not listed any more.
  unseen_gone :
      (seen : List DirectoryEntry) (rows : Rows)
      → is_seen disk id seen ≡ false
      → (if among id (missing_ids disk seen rows) then none else shown id rows) ≡ none
  unfolding missing_ids among shown find_row
  unseen_gone seen [] s = refl
  unseen_gone seen ((name, kept) ∷ rows) s =
      unseen_gone_step name kept seen _ rows _ _ refl refl s (unseen_gone seen rows s)

  missing_step :
      (seen : List DirectoryEntry) (rows : Rows) (b : Bool)
      → is_seen disk id seen ≡ b
      → (if among id (missing_ids disk seen rows) then none else shown id rows)
        ≡ (if is_seen disk id seen then shown id rows else none)
  missing_step seen rows true e = simp (e, seen_kept seen rows e) refl
  missing_step seen rows false e = unseen_gone seen rows e ∙ simp e refl

  swept :
      (seen : List DirectoryEntry)
      → EnsuresFrom
          (λ rows u rows'. shown id rows' ≡ (if is_seen disk id seen then shown id rows else none))
          (gets (missing_ids disk seen) >>= λ missing. delete_missing disk missing)
  unfolding gets ◌>>=◌
  swept seen = record {
    at = λ rows a x.
        (delete_missing-shown (missing_ids disk seen rows)).at rows a x
        ∙ missing_step seen rows _ refl;
  }

  pub remove_missing-Lists :
      (seen : List DirectoryEntry)
      → EnsuresFrom
          (λ rows u rows'. shown id rows' ≡ (if is_seen disk id seen then shown id rows else none))
          (remove_missing_sessions disk seen)
  unfolding remove_missing_sessions
  remove_missing-Lists seen = EnsuresFrom-refuse_if _ _ _ (λ h. swept seen)
