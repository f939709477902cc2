-- ===== src/Index/Rounds.antt =====
-- Round after round of `updateTraffic`, cli/web_incremental.go, on a file that is written behind
-- its end: the index is never ahead of the file nor at odds with it, also when rounds fail.
use http_capture.Prelude.{Bool, ℤ, Bytes, List, [], ◌∷◌, ◌++◌, Option, none, some, ◌≡◌}
use http_capture.Errors.{Error}
use http_capture.Effects.{Outcome, ok, err}
use http_capture.Index.{
  TrafficScanOptions, SessionIndex, Store, Statement, Opened, FileId, FileInfo,
}
use http_capture.Index.Traffic.{update_traffic}
use http_capture.Index.Agreement.{Agrees}

-- One round: what the file has gained, and what the database and the system do meanwhile.
pub record Round : Type 0 where
  pub more : Bytes
  pub refuses : Statement → Bool
  pub now : ℤ
  pub info : FileInfo
  pub previous : Option ℤ
  pub file : FileId
  pub known : Bool
  pub broken : Bool
  -- an error of `os.Open` or of `Stat`
  pub unopened : Option Error

abbrev pub store_of : Store → Round → Store
store_of store r = record store { refuses = r.refuses; now = r.now }

abbrev opened_of : Round → Bytes → Option Error → Outcome Opened
opened_of r content (some e) = err e
opened_of r content none =
    ok (record { file = r.file; known = r.known; content = content; broken = r.broken })

module _ (store : Store) (options : TrafficScanOptions) where
  unfoldable pub play : Round → Bytes → SessionIndex → Outcome (Unit {0}) × SessionIndex
  play r content index =
      update_traffic (store_of store r) options (some r.info) r.previous
        (opened_of r content r.unopened) index

  -- The rounds, one after the other; the content of the file and the index at the end.
  unfoldable pub play_all : List Round → Bytes → SessionIndex → Bytes × SessionIndex
  play_all [] content index = (content, index)
  play_all (r ∷ rounds) content index =
      play_all rounds (content ++ r.more) (play r (content ++ r.more) index).1

  -- The index agrees with a part of the file that it begins with.
  pub record Follows (content : Bytes) (index : SessionIndex) : Type 0 where
    pub old : Bytes
    pub more : Bytes
    pub prefix : content ≡ old ++ more
    pub agrees : Agrees store options old index
