-- ===== src/Details/Readback.antt =====
-- What cli/web_index.go reads back for a row of the index is the record that the row was made of.
use http_capture.Prelude.{
  true, false, ◌&&◌, ◌||◌, ltb, ◌==◌, ◌≤◌, ℤ, Bytes, codes, List, [], ◌∷◌, ◌++◌, some,
  if◌then◌else◌, trim_space, ◌≡◌, refl, ap, sym, ◌∙◌, subst, arith, All,
}
use http_capture.Effects.{Outcome, ok}
use http_capture.Paths.{join}
use http_capture.Words.{is_session_id}
use http_capture.Captured.{CapturedTransaction}
use mathlib.Core.List.{Memᴰ}
use mathlib.Core.List.Memᴰ.{head, tail}
use http_capture.Index.{FileId, TrafficCursor, TrafficScanOptions, IndexedRow, Store}
use http_capture.Index.Row.{indexed_row}
use http_capture.Index.Scan.{is_indexable}
use http_capture.Index.Traffic.{same_file}
use http_capture.Index.Growth.{CutsLines}
use http_capture.Index.Agreement.{Agrees}
use http_capture.Index.Records.{Backed, Agrees-Backed}
use http_capture.Catalogue.{Kept, Lstat, find_row}
use http_capture.Web.{Site, ensure_path_within}
use http_capture.Details.{
  Archive, maximum_line, indexed_traffic_path, path_from, live_source, first_of_file, is_that_file,
  request_transaction,
}

-- The reply for a row: the record that the row was made of when it was indexed.
pub record IsReadBack (store : Store) (options : TrafficScanOptions) (row : IndexedRow)
    (reply : Outcome CapturedTransaction) : Type 0 where
  pub captured : CapturedTransaction
  pub replied : reply ≡ ok captured
  pub of_record : row ≡ indexed_row store row.line_number row.byte_offset row.byte_length captured
  pub wanted : is_indexable store options captured ≡ true

member-All :
    (P : IndexedRow → Type 0) (row : IndexedRow) (rows : List IndexedRow)
    → Memᴰ row rows
    → All P rows
    → P row
member-All P row [] m h = elim m [ ]
member-All P row (x ∷ rows) (head e) (h, hs) = subst P (sym e) h
member-All P row (x ∷ rows) (tail m) (h, hs) = member-All P row rows m hs

module _ (site : Site) (archive : Archive) where
  -- The archive of a session is found under the identity that the cursor has.
  path_found :
      (directory : Bytes) (file : FileId) (info : Lstat)
      → ensure_path_within site site.root (join directory (codes "traffic.jsonl")) ≡ ok tt
      → archive.regular_file (join directory (codes "traffic.jsonl")) ≡ some info
      → (info.known && same_file info.file file) ≡ true
      → indexed_traffic_path site archive directory file
        ≡ ok (join directory (codes "traffic.jsonl"))
  unfolding indexed_traffic_path
  path_found directory file info inside found same =
      let path = join directory (codes "traffic.jsonl") in
      let live =
        live_source site archive (archive.read_metadata (join directory (codes "meta.json"))) in
      ap (path_from site archive file (path ∷ live)) inside
      ∙ ap
          (λ o.
            if is_that_file site archive file o
            then ok path
            else first_of_file site archive file live)
          found
      ∙ ap (λ b. if b then ok path else first_of_file site archive file live) same

  module _ (store : Store) (options : TrafficScanOptions) (content : Bytes)
      -- encoding/json passes over the space around a value
      (decodes : (s : Bytes) (captured : CapturedTransaction)
        → store.decode s ≡ some captured
        → archive.decode (trim_space s) ≡ some captured)
      (fits : store.maximum ≤ maximum_line) where
    reads_record :
        (id : Bytes) (key : ℤ) (kept : Kept) (cursor : TrafficCursor) (row : IndexedRow)
        (path : Bytes)
        → is_session_id id ≡ true
        → archive.query_refused ≡ false
        → find_row id archive.rows ≡ some kept
        → archive.row_with key kept.traffic.rows ≡ some row
        → kept.traffic.cursor ≡ some cursor
        → indexed_traffic_path site archive kept.source.directory cursor.file ≡ ok path
        → archive.open_file path ≡ ok content
        → Backed store options content row
        → IsReadBack store options row (request_transaction site archive id key)
    unfolding request_transaction
    reads_record id key kept cursor row path valid answers listed chosen stored found opened
          backed =
        let length_fits : (row.byte_length == 0 || ltb maximum_line row.byte_length) ≡ false =
          ground (arith, backed.some_bytes, backed.bounded, fits) in
        record {
          captured = backed.captured;
          replied =
              simp
                (
                  valid,
                  answers,
                  listed,
                  chosen,
                  stored,
                  length_fits,
                  found,
                  opened,
                  decodes _ _ backed.recorded,
                )
                refl;
          of_record = backed.of_record;
          wanted = backed.wanted;
        }

    -- Opening a request gives the very record that its row was made of, one that the scan wanted,
    -- when the index agrees with what the archived traffic of the session was (`old`), which may
    -- have grown since (`more`), the id is valid and listed, the key is that of a row of the session,
    -- the database answers, and the archive lies in the sessions' root, has the identity that the
    -- cursor holds and can be read. Of the libraries it takes that bufio gives each line whole, in
    -- pieces, that encoding/json passes over the space around a value, and that the scan indexes
    -- no line above the limit of 32 MiB.
    pub request_transaction-IsReadBack :
        (old more : Bytes)
        → old ++ more ≡ content
        → (id : Bytes) (key : ℤ) (kept : Kept) (cursor : TrafficCursor) (row : IndexedRow)
          (info : Lstat)
        → CutsLines store
        → Agrees store options old kept.traffic
        → is_session_id id ≡ true
        → archive.query_refused ≡ false
        → find_row id archive.rows ≡ some kept
        → archive.row_with key kept.traffic.rows ≡ some row
        → Memᴰ row kept.traffic.rows
        → kept.traffic.cursor ≡ some cursor
        → ensure_path_within site site.root (join kept.source.directory (codes "traffic.jsonl"))
          ≡ ok tt
        → archive.regular_file (join kept.source.directory (codes "traffic.jsonl")) ≡ some info
        → (info.known && same_file info.file cursor.file) ≡ true
        → archive.open_file (join kept.source.directory (codes "traffic.jsonl")) ≡ ok content
        → IsReadBack store options row (request_transaction site archive id key)
    request_transaction-IsReadBack old more same id key kept cursor row info cuts agrees valid
          answers listed chosen member stored inside there known opened =
        reads_record id key kept cursor row _ valid answers listed chosen stored
          (path_found kept.source.directory cursor.file info inside there known) opened
          (subst (λ c. Backed store options c row) same
            (member-All _ row kept.traffic.rows member
              (Agrees-Backed store options old more kept.traffic cuts agrees)))
