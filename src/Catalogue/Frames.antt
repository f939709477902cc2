-- ===== src/Catalogue/Frames.antt =====
-- What the index lists under an id, and the calls of `rescan` in cli/web_index.go that leave it alone:
-- those for the traffic and its errors.
use http_capture.Prelude.{
  Bool, true, false, Bytes, Option, none, some, ◌≡◌, refl, sym, ap, ◌∙◌, arith, str_eq, str_eq_iff,
}
use http_capture.Errors.{Error}
use http_capture.Effects.{Outcome, ok, err, ◌>>=◌, modify}
use http_capture.Effects.Frames.{Frame, frame_rules, Frame-bind}
use http_capture.Index.{Scanning}
use http_capture.Catalogue.{
  Source, Kept, Rows, Disk, Lstat, SourceFingerprint, Candidate, find_row, put_row,
}
use http_capture.Catalogue.Rescan.{
  is_changed, run_on, on_traffic, mark_row, set_index_error, refresh_traffic,
}
use http_capture.Catalogue.Lookup.{find-put}

unfoldable pub source_of : Option Kept → Option Source
source_of none = none
source_of (some kept) = some kept.source

-- What the index lists under an id.
unfoldable pub shown : Bytes → Rows → Option Source
unfolding source_of
shown id rows = source_of (find_row id rows)

-- A row that keeps its source is not seen to change.
put-shown :
    (id i : Bytes) (new kept : Kept) (rows : Rows)
    → find_row id rows ≡ some kept
    → new.source ≡ kept.source
    → (b : Bool) → str_eq id i ≡ b
    → shown i (put_row id new rows) ≡ shown i rows
unfolding shown
put-shown id i new kept rows found same true e =
    ap source_of (find-put id i new rows)
    ∙ simp e (
        ap some same
        ∙ sym (ap source_of found)
        ∙ ap (λ n. source_of (find_row n rows)) ((str_eq_iff id i).0 e))
put-shown id i new kept rows found same false e =
    ap source_of (find-put id i new rows) ∙ simp e refl

run_on-shown :
    (id i : Bytes) (run : Scanning (Unit {0})) (rows : Rows) (found : Option Kept)
    → find_row id rows ≡ found
    → shown i (run_on id run rows found).1 ≡ shown i rows
unfolding run_on
run_on-shown id i run rows none e = refl
run_on-shown id i run rows (some kept) e = put-shown id i _ kept rows e refl _ refl

on_traffic-Frame : (id i : Bytes) (run : Scanning (Unit {0})) → Frame (shown i) (on_traffic id run)
unfolding on_traffic
on_traffic-Frame id i run = record { at = λ rows. run_on-shown id i run rows _ refl }

module _ (disk : Disk) where
  mark_row-shown :
      (id i : Bytes) (e : Error) (rows : Rows) (found : Option Kept)
      → find_row id rows ≡ found
      → shown i (mark_row disk id e rows found) ≡ shown i rows
  unfolding mark_row
  mark_row-shown id i e rows none h = refl
  mark_row-shown id i e rows (some kept) h = put-shown id i _ kept rows h refl _ refl

  modify-Frame :
      (id i : Bytes) (e : Error)
      → Frame (shown i) (modify (λ rows. mark_row disk id e rows (find_row id rows)))
  unfolding modify
  modify-Frame id i e = record { at = λ rows. mark_row-shown id i e rows _ refl }

  set_index_error-Frame :
      (id i : Bytes) (r : Outcome (Unit {0})) → Frame (shown i) (set_index_error disk id r)
  unfolding set_index_error
  set_index_error-Frame id i (ok u) = search (frame_rules)
  set_index_error-Frame id i (err e) =
      Frame-bind _ _ (search (frame_rules)) (λ u. modify-Frame id i e)

  pub refresh_traffic-Frame :
      (c : Candidate) (previous : Option Kept) (changed : Bool) (i : Bytes)
      → Frame (shown i) (refresh_traffic disk c previous changed)
  unfolding refresh_traffic
  refresh_traffic-Frame c previous changed i =
      search (frame_rules, on_traffic-Frame, set_index_error-Frame)

  pub is_changed-same :
      (id : Bytes) (previous : Option Kept) (now : SourceFingerprint) (info : Option Lstat)
      (rows : Rows)
      → (is_changed disk id previous now info rows).1 ≡ rows
  unfolding is_changed ◌>>=◌
  is_changed-same id previous now info rows = ground arith
