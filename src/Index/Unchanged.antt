-- ===== src/Index/Unchanged.antt =====
-- An update of the index that fails changes nothing, `updateTraffic` of cli/web_incremental.go.
use http_capture.Prelude.{ℕ, Bool, ℤ, Option, none, some, ◌≡◌, ◌≢◌, refl, arith}
use http_capture.Errors.{Error}
use http_capture.Effects.{Outcome, ok, err, ◌>>=◌}
use http_capture.Index.{
  TrafficScanOptions, TrafficCursor, SessionIndex, Store, Statement, Opened, FileInfo, Scanning,
  in_transaction, rolled_back, execute,
}
use http_capture.Effects.Frames.{
  Frame, FrameOnError, frame_rules, FrameOnError-bind, FrameOnError-if, FrameOnError-fail,
}
use http_capture.Index.Traffic.{
  scan_traffic, scan_nothing, rebuild_traffic, continue_from, with_cursor, update_traffic,
}

rolled_back-unchanged :
    {A : Type 0} (index : SessionIndex) (r : Outcome A × SessionIndex) (e : Error)
    → (rolled_back index r).0 ≡ err e
    → (rolled_back index r).1 ≡ index
rolled_back-unchanged index (ok a, w) e h = absurd (cc h)
rolled_back-unchanged index (err x, w) e h = refl

abbrev whole : SessionIndex → SessionIndex
whole index = index

in_transaction-FrameOnError : {A : Type 0} (m : Scanning A) → FrameOnError whole (in_transaction m)
unfolding in_transaction
in_transaction-FrameOnError m = record {
  at = λ index e h. rolled_back-unchanged index (m index) e h;
}

execute-Frame :
    (store : Store) (statement : Statement) → Frame whole (execute store statement whole)
unfolding execute
execute-Frame store statement = record { at = λ index. ground arith }

ruleset rounds_rules = (
  frame_rules, FrameOnError-bind, FrameOnError-if, FrameOnError-fail, in_transaction-FrameOnError,
  execute-Frame,
)

module _ (store : Store) (options : TrafficScanOptions) where
  scan_traffic-FrameOnError :
      (reset : Bool) (file : Opened) (offset line_number skipped : ℕ)
      → FrameOnError whole (scan_traffic store options reset file offset line_number skipped)
  unfolding scan_traffic
  scan_traffic-FrameOnError reset file offset line_number skipped = in_transaction-FrameOnError _

  scan_nothing-FrameOnError : FrameOnError whole (scan_nothing store options)
  unfolding scan_nothing
  scan_nothing-FrameOnError = in_transaction-FrameOnError _

  rebuild_traffic-FrameOnError :
      (info : Option FileInfo) (opened : Outcome Opened)
      → FrameOnError whole (rebuild_traffic store options info opened)
  unfolding rebuild_traffic
  rebuild_traffic-FrameOnError none opened = scan_nothing-FrameOnError
  rebuild_traffic-FrameOnError (some info) opened =
      search (rounds_rules, scan_traffic-FrameOnError) depth 12

  with_cursor-FrameOnError :
      (info : FileInfo) (opened : Outcome Opened) (cursor : Option TrafficCursor)
      → FrameOnError whole (with_cursor store options info opened cursor)
  unfolding with_cursor continue_from
  with_cursor-FrameOnError info opened none = rebuild_traffic-FrameOnError (some info) opened
  with_cursor-FrameOnError info opened (some cursor) =
      search (rounds_rules, scan_traffic-FrameOnError, rebuild_traffic-FrameOnError) depth 12

  update_traffic-FrameOnError :
      (info : Option FileInfo) (previous : Option ℤ) (opened : Outcome Opened)
      → FrameOnError whole (update_traffic store options info previous opened)
  unfolding update_traffic
  update_traffic-FrameOnError none previous opened = rebuild_traffic-FrameOnError none opened
  update_traffic-FrameOnError (some info) previous opened =
      search (rounds_rules, rebuild_traffic-FrameOnError, with_cursor-FrameOnError) depth 12

  -- An update that fails leaves the rows, the cursor and the epoch as they were.
  pub update_traffic-unchanged :
      (info : Option FileInfo) (previous : Option ℤ) (opened : Outcome Opened)
      (index : SessionIndex) (e : Error)
      → (update_traffic store options info previous opened index).0 ≡ err e
      → (update_traffic store options info previous opened index).1 ≡ index
  update_traffic-unchanged info previous opened index e =
      (update_traffic-FrameOnError info previous opened).at index e

pub never_unopened :
    (store : Store) (options : TrafficScanOptions) (info : FileInfo) (previous : Option ℤ)
    (index : SessionIndex) (e : Error)
    → (update_traffic store options (some info) previous (err e) index).0 ≢ ok tt
unfolding update_traffic with_cursor rebuild_traffic execute ◌>>=◌
never_unopened store options info previous index e h = ground arith
