-- ===== src/Index/Refresh.antt =====
-- What `updateTraffic` and `rebuildTraffic` of cli/web_incremental.go leave behind when they
-- succeed: an index that agrees with the file, whether they read on or read all over again.
use http_capture.Prelude.{
  ◌≤◌, true, false, ℤ, Bytes, ◌++◌, Option, some, ◌≡◌, ◌⊎◌, ap, ◌∙◌, sym, subst, arith, length,
  length-append, drop, drop-drop, drop-append, inl, inr,
}
use http_capture.Effects.{ok, ◌>>=◌}
use http_capture.Session.Extract.{lines_of}
use http_capture.Index.{
  TrafficScanOptions, TrafficCursor, SessionIndex, Store, Opened, FileInfo, execute,
}
use http_capture.Index.Scan.{Progress, scan_lines}
use http_capture.Index.Split.{finished, unfinished, lines_length, finished-append, drop-finished}
use http_capture.Index.Growth.{
  CutsLines, read_lines, read_lines-append, read_lines-offset, scan-read,
}
use http_capture.Index.Traffic.{
  scan_traffic, rebuild_traffic, continue_from, with_cursor, update_traffic,
}
use http_capture.Index.Agreement.{
  Agrees, start, beginning, whole_scan, from, scan_traffic-Agrees, scan_again-Agrees,
}

module _ (store : Store) (options : TrafficScanOptions) where
  -- Behind the finished lines of a file stands its unfinished line, and what is added to it.
  remaining :
      (old more : Bytes)
      → CutsLines store
      → start store options ≤ length old
      → drop (whole_scan store options old).offset (old ++ more)
        ≡ unfinished (drop (start store options) old) ++ more
  remaining old more cuts within =
      let place =
        read_lines-offset store options (beginning store options)
          (finished (drop (start store options) old)) cuts in
      ap (λ k. drop k (old ++ more)) place
      ∙ drop-drop (start store options) (lines_length (finished (drop (start store options) old)))
          (old ++ more)
      ∙ ap (drop (lines_length (finished (drop (start store options) old))))
          (drop-append (start store options) old more within)
      ∙ drop-finished (drop (start store options) old) more

  -- Reading on from the finished lines gives the finished lines of the whole file.
  read_on :
      (old more : Bytes)
      → start store options ≤ length old
      → read_lines store options
          (whole_scan store options old)
          (finished (unfinished (drop (start store options) old) ++ more))
        ≡ whole_scan store options (old ++ more)
  read_on old more within =
      let x = drop (start store options) old in
      sym (
        read_lines-append store options (beginning store options) (finished x)
          (finished (unfinished x ++ more)))
      ∙ ap (read_lines store options (beginning store options)) (sym (finished-append x more))
      ∙ ap (λ y. read_lines store options (beginning store options) (finished y))
          (sym (drop-append (start store options) old more within))

  module _ (file : Opened) (old more : Bytes) (grown : file.content ≡ old ++ more)
      (cuts : CutsLines store) where
    scan_on-Agrees :
        (index : SessionIndex) (a : Agrees store options old index)
        → (scan_traffic store options false file a.cursor.offset a.cursor.line_number
            a.cursor.skipped index).0
          ≡ ok tt
        → Agrees store options file.content
            (scan_traffic store options false file a.cursor.offset a.cursor.line_number
              a.cursor.skipped index).1
    scan_on-Agrees index a h =
        scan_traffic-Agrees store options file false a.cursor.offset a.cursor.line_number
          a.cursor.skipped index reaches h
      where
        p : Progress
        p = from a.cursor.offset a.cursor.line_number a.cursor.skipped index.rows

        same_place : p ≡ whole_scan store options old
        same_place = λ i. record {
          offset = a.offset i;
          line_number = a.line_number i;
          skipped = a.skipped i;
          rows = a.rows i;
        }

        place :
            drop a.cursor.offset file.content ≡ unfinished (drop (start store options) old) ++ more
        place =
            ap (drop a.cursor.offset) grown
            ∙ ap (λ k. drop k (old ++ more)) a.offset
            ∙ remaining old more cuts a.within

        reaches :
            (q : Progress)
            → scan_lines store options p (lines_of (drop a.cursor.offset file.content)) ≡ ok q
            → q.offset ≤ length file.content
            → (q ≡ whole_scan store options file.content)
              × (start store options ≤ length file.content)
        reaches q scanned inside =
            let more_lines = unfinished (drop (start store options) old) ++ more in
            let read =
              scan-read store options p q more_lines
                (subst (λ s. scan_lines store options p (lines_of s) ≡ ok q) place scanned) in
            (
              read
                  ∙ ap (λ r. read_lines store options r (finished more_lines)) same_place
                  ∙ read_on old more a.within
                  ∙ ap (whole_scan store options) (sym grown),
              omega (arith, a.within, length-append old more, ap length grown),
            )

    update-cases :
        (info : FileInfo) (previous : Option ℤ) (index : SessionIndex) (cursor : TrafficCursor)
        → index.cursor ≡ some cursor
        → (update_traffic store options (some info) previous (ok file) index).0 ≡ ok tt
        → (update_traffic store options (some info) previous (ok file) index
            ≡ scan_traffic store options true file (start store options) 0 0 index)
          ⊎ (update_traffic store options (some info) previous (ok file) index
              ≡ scan_traffic store options false file cursor.offset cursor.line_number
                  cursor.skipped index)
    unfolding update_traffic with_cursor continue_from rebuild_traffic execute ◌>>=◌
    update-cases info previous index cursor e h = ground arith

    -- After a file has grown, an update that succeeds gives an index of the whole file, whether it
    -- has read on from the cursor or read everything again.
    pub update_traffic-Agrees :
        (info : FileInfo) (previous : Option ℤ) (index : SessionIndex)
        → Agrees store options old index
        → (update_traffic store options (some info) previous (ok file) index).0 ≡ ok tt
        → Agrees store options file.content
            (update_traffic store options (some info) previous (ok file) index).1
    update_traffic-Agrees info previous index a h =
        elim (update-cases info previous index a.cursor a.stored h) [
          | inl again ↦
              subst (λ r. Agrees store options file.content r.1) (sym again)
                (scan_again-Agrees store options file index cuts (ap (λ r. r.0) (sym again) ∙ h))
          | inr on ↦
              subst (λ r. Agrees store options file.content r.1) (sym on)
                (scan_on-Agrees index a (ap (λ r. r.0) (sym on) ∙ h))
        ]
