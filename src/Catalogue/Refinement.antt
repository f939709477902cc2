-- ===== src/Catalogue/Refinement.antt =====
-- What the index lists after a scan of the session directories, `rescan` of cli/web_index.go, is what
-- the directories hold.
use http_capture.Prelude.{
  Bool, ◌||◌, Bytes, List, [], ◌∷◌, Option, none, some, ◌≡◌, refl, sym, ap, ◌∙◌, arith,
  if◌then◌else◌, str_eq,
}
use http_capture.Effects.{ok, ◌>>=◌, lift, gets, after}
use http_capture.Effects.Ensures.{
  bind-ok, EnsuresFrom, EnsuresFrom-reader, EnsuresFrom-refuse_if, EnsuresFrom-return,
}
use http_capture.Catalogue.{
  Source, Kept, Rows, DirectoryEntry, Disk, Candidate, find_row, put_row, candidate,
}
use http_capture.Catalogue.Rescan.{
  upserted, upsert_session, refresh_traffic, scan_entry, scan_entries, is_seen,
  remove_missing_sessions, rescan_sessions,
}
use http_capture.Catalogue.Lookup.{find-put}
use http_capture.Catalogue.Missing.{remove_missing-Lists}
use http_capture.Catalogue.Frames.{source_of, shown, refresh_traffic-Frame, is_changed-same}

-- The directory that comes last under an id counts, and before the others what was there.
unfoldable pub or_own : Bytes → Option Candidate → Option Source → Option Source
or_own id none before = before
or_own id (some c) before = if str_eq c.id id then some c.source else before

-- What a list of directories holds under an id.
unfoldable pub catalogue : Disk → Bytes → List DirectoryEntry → Option Source → Option Source
catalogue disk id [] before = before
catalogue disk id (entry ∷ entries) before =
    catalogue disk id entries (or_own id (candidate disk entry) before)

-- What is listed under an id once a call succeeds.
abbrev Lists : Bytes → (Option Source → Option Source) → Rows → Unit {0} → Rows → Type 0
Lists id f rows u rows' = shown id rows' ≡ f (shown id rows)

module _ (disk : Disk) (id : Bytes) where
  upsert-shown :
      (c : Candidate) (previous : Option Kept) (rows : Rows)
      → shown id (put_row c.id (upserted disk c previous) rows) ≡ or_own id (some c) (shown id rows)
  unfolding shown or_own upserted
  upsert-shown c none rows = ap source_of (find-put c.id id _ rows) ∙ ground arith
  upsert-shown c (some kept) rows = ap source_of (find-put c.id id _ rows) ∙ ground arith

  upsert-ok :
      (c : Candidate) (previous : Option Kept) (rows : Rows) (u : Unit {0})
      → (upsert_session disk c previous rows).0 ≡ ok u
      → (upsert_session disk c previous rows).1 ≡ put_row c.id (upserted disk c previous) rows
  unfolding upsert_session ◌>>=◌
  upsert-ok c previous rows u h = ground arith

  refreshed :
      (c : Candidate) (previous : Option Kept) (changed : Bool)
      → EnsuresFrom
          (Lists id (or_own id (some c)))
          (upsert_session disk c previous >>= λ u. refresh_traffic disk c previous changed)
  refreshed c previous changed = record {
    at = λ rows a h.
        let (u, first, rest) = bind-ok _ _ rows a h in
        ap (λ p. shown id p.1) rest
        ∙ (refresh_traffic-Frame disk c previous changed id).at
            (upsert_session disk c previous rows).1
        ∙ ap (shown id) (upsert-ok c previous rows u first)
        ∙ upsert-shown c previous rows;
  }

  gets-same : (name : Bytes) (rows : Rows) → (gets (find_row name) rows).1 ≡ rows
  unfolding gets
  gets-same name rows = refl

  scan_entry-Lists :
      (c : Option Candidate) → EnsuresFrom (Lists id (or_own id c)) (scan_entry disk c)
  unfolding scan_entry or_own
  scan_entry-Lists none = EnsuresFrom-return tt (λ rows. refl)
  scan_entry-Lists (some c) = EnsuresFrom-refuse_if _ _ _ (λ h.
      EnsuresFrom-reader _ _ (gets-same c.id) (λ previous.
        EnsuresFrom-reader _ _ (is_changed-same disk c.id previous c.fingerprint c.traffic)
          (refreshed c previous)))

  -- The loop leaves what the directories hold under an id, and before them what was there.
  scan_entries-Lists :
      (entries : List DirectoryEntry)
      → EnsuresFrom (Lists id (catalogue disk id entries)) (scan_entries disk entries)
  unfolding scan_entries catalogue
  scan_entries-Lists [] = EnsuresFrom-return tt (λ rows. refl)
  scan_entries-Lists (entry ∷ entries) = record {
    at = λ rows a h.
        let (u, first, rest) = bind-ok _ _ rows a h in
        ap (λ p. shown id p.1) rest
        ∙ (scan_entries-Lists entries).at _ a (sym (ap (λ p. p.0) rest) ∙ h)
        ∙ ap (catalogue disk id entries)
            ((scan_entry-Lists (candidate disk entry)).at rows u first);
  }

  catalogue-seen_step :
      (c : Option Candidate) (entries : List DirectoryEntry) (before : Option Source)
      → ((b : Option Source)
          → catalogue disk id entries b
            ≡ (if is_seen disk id entries then catalogue disk id entries none else b))
      → catalogue disk id entries (or_own id c before) ≡ (
          if elim c [
            | none ↦ is_seen disk id entries
            | some x ↦ str_eq x.id id || is_seen disk id entries
          ]
          then catalogue disk id entries (or_own id c none)
          else before)
  unfolding or_own
  catalogue-seen_step none entries before ih = ih before
  catalogue-seen_step (some c) entries before ih = let old = ih before in ground arith

  -- What the directories hold does not depend on what was there, if one has the id.
  catalogue-seen :
      (entries : List DirectoryEntry) (before : Option Source)
      → catalogue disk id entries before
        ≡ (if is_seen disk id entries then catalogue disk id entries none else before)
  unfolding catalogue is_seen
  catalogue-seen [] before = refl
  catalogue-seen (entry ∷ entries) before =
      catalogue-seen_step (candidate disk entry) entries before (catalogue-seen entries)

  listed_after :
      (entries : List DirectoryEntry) (before : Option Source)
      → (if is_seen disk id entries then catalogue disk id entries before else none)
        ≡ catalogue disk id entries none
  listed_after entries before =
      let old = catalogue-seen entries before in
      let new = catalogue-seen entries none in ground arith

  scanned :
      (entries : List DirectoryEntry)
      → EnsuresFrom
          (λ rows u rows'. shown id rows' ≡ catalogue disk id entries none)
          (scan_entries disk entries >>= λ u. remove_missing_sessions disk entries)
  scanned entries = record {
    at = λ rows a h.
        let (u, first, rest) = bind-ok _ _ rows a h in
        ap (λ p. shown id p.1) rest
        ∙ (remove_missing-Lists disk id entries).at _ a (sym (ap (λ p. p.0) rest) ∙ h)
        ∙ ap (λ s. if is_seen disk id entries then s else none)
            ((scan_entries-Lists entries).at rows u first)
        ∙ listed_after entries (shown id rows);
  }

with_entries :
    (disk : Disk) (rows : Rows) (entries : List DirectoryEntry)
    → disk.entries ≡ ok entries
    → rescan_sessions disk rows
      ≡ (scan_entries disk entries >>= λ u. remove_missing_sessions disk entries) rows
unfolding rescan_sessions lift ◌>>=◌
with_entries disk rows entries e =
    ap (λ r. after (r, rows) (λ es. scan_entries disk es >>= λ u. remove_missing_sessions disk es))
      e

-- A scan of the session directories that ends without an error, whatever the index listed before and
-- whatever errors the traffic of single sessions meets, lists under each id what the directory of
-- that id tells, and nothing under an id that no directory has.
pub rescan_sessions-catalogue :
    (disk : Disk) (rows : Rows) (entries : List DirectoryEntry)
    → disk.entries ≡ ok entries
    → (rescan_sessions disk rows).0 ≡ ok tt
    → (id : Bytes) → shown id (rescan_sessions disk rows).1 ≡ catalogue disk id entries none
rescan_sessions-catalogue disk rows entries e h id =
    let run = with_entries disk rows entries e in
    ap (λ p. shown id p.1) run ∙ (scanned disk id entries).at rows tt (sym (ap (λ p. p.0) run) ∙ h)
