-- ===== src/Live.antt =====
-- The live events of cli/web_live.go: what the handler sends to the browser at each tick of its clock,
-- until a query or a write fails or the browser goes. Other requests change the database between
-- any two of its queries.
pub mod Handler
pub mod Ends
pub mod Pages
pub mod Delivery
pub mod Ticks
use http_capture.Prelude.{
  ℕ, zero, suc, ◌+◌, ◌-◌, max, Bool, true, false, ltb, ◌==◌, ℤ, pos, eq_int, Bytes, codes, List, [],
  ◌∷◌, ◌++◌, Option, none, some, if◌then◌else◌, str_eq, take,
}
use http_capture.Errors.{Error, sql_failed}
use http_capture.Effects.{Outcome, ok, err}
use http_capture.Numbers.{itoa}

pub record LiveRequestSummary : Type 0 where
  pub session_id : Bytes
  pub request_id : ℕ
  pub timestamp_millis : ℤ
  pub method : Bytes
  pub url : Bytes
  pub status : ℤ
  pub duration_millis : ℤ

-- A row of the query of `liveRevision`.
pub record SessionRow : Type 0 where
  pub id : Bytes
  pub status : Bytes
  pub mtime : ℤ
  pub size : ℤ
  pub index_error : Bytes
  pub device : ℤ
  pub inode : ℤ
  pub offset : ℤ
  pub epoch : ℤ
  pub count : ℤ

pub data LiveQuery : Type 0 where
  revision_query epochs_query latest_query requests_query : LiveQuery

-- The tables as one query sees them, the rows of `requests` by their key, and which queries fail.
pub record Tables : Type 0 where
  pub sessions : List SessionRow
  pub resets : List (Bytes × ℤ)
  pub requests : List LiveRequestSummary
  pub refuses : LiveQuery → Bool

-- `%q` of package fmt, and crypto/sha256 in hex.
pub record Digest : Type 0 where
  pub quote : Bytes → Bytes
  pub sha256_hex : Bytes → Bytes

pub data Refreshed : Type 0 where
  connected index_reset index_changed : Refreshed

pub data Interruption : Type 0 where
  scan_interrupted state_unreadable : Interruption

pub data LiveEvent : Type 0 where
  refresh : Refreshed → LiveEvent
  interrupted : Interruption → LiveEvent
  reset : List Bytes → LiveEvent
  requests : List LiveRequestSummary → LiveEvent
  heartbeat : LiveEvent

-- The variables of the handler, and the events that it has sent.
pub record Live : Type 0 where
  pub revision : Bytes
  pub last_id : ℕ
  pub reset_epochs : List (Bytes × ℤ)
  pub sent : List LiveEvent

-- What a tick finds: the scan, and the tables for each of its queries.
pub record Tick : Type 0 where
  pub rescan : Outcome (Unit {0})
  pub revision_in : Tables
  pub resets_in : Tables
  pub latest_in : Tables
  pub page_in : ℕ → Tables

pub data Ending : Type 0 where
  goes_on ended out_of_fuel : Ending

unfoldable pub colons : List Bytes → Bytes
colons [] = codes "\n"
colons (text ∷ []) = text ++ codes "\n"
colons (text ∷ (next ∷ texts)) = text ++ (codes ":" ++ colons (next ∷ texts))

unfoldable pub revision_text : Digest → List SessionRow → Bytes
revision_text digest [] = []
revision_text digest (row ∷ rows) =
    colons (
      digest.quote row.id
      ∷ digest.quote row.status
      ∷ itoa row.mtime
      ∷ itoa row.size
      ∷ digest.quote row.index_error
      ∷ itoa row.device
      ∷ itoa row.inode
      ∷ itoa row.offset
      ∷ itoa row.epoch
      ∷ itoa row.count
      ∷ [])
    ++ revision_text digest rows

unfoldable pub answered_by : {A : Type 0} → Tables → LiveQuery → A → Outcome A
answered_by tables query answer = if tables.refuses query then err sql_failed else ok answer

unfoldable pub live_revision : Digest → Tables → Outcome Bytes
unfolding answered_by
live_revision digest tables =
    answered_by tables revision_query (digest.sha256_hex (revision_text digest tables.sessions))

unfoldable pub live_reset_epochs : Tables → Outcome (List (Bytes × ℤ))
unfolding answered_by
live_reset_epochs tables = answered_by tables epochs_query tables.resets

-- `MAX(id)`, and 0 for no request.
unfoldable pub newest : List LiveRequestSummary → ℕ
newest [] = 0
newest (item ∷ items) = max item.request_id (newest items)

unfoldable pub latest_live_request_id : Tables → Outcome ℕ
unfolding answered_by
latest_live_request_id tables = answered_by tables latest_query (newest tables.requests)

unfoldable pub later_than : ℕ → List LiveRequestSummary → List LiveRequestSummary
later_than after [] = []
later_than after (item ∷ items) =
    let others = later_than after items in
    if ltb after item.request_id then item ∷ others else others

unfoldable pub live_requests_after : Tables → ℕ → ℕ → Outcome (List LiveRequestSummary)
unfolding answered_by
live_requests_after tables after limit =
    answered_by tables requests_query (take limit (later_than after tables.requests))

-- An epoch that is not there is 0.
unfoldable pub epoch_of : Bytes → List (Bytes × ℤ) → ℤ
epoch_of id [] = pos 0
epoch_of id ((name, epoch) ∷ epochs) = if str_eq name id then epoch else epoch_of id epochs

-- The ids of the sessions whose epoch is another one; a map of Go gives them in any order.
unfoldable pub reset_sessions : List (Bytes × ℤ) → List (Bytes × ℤ) → List Bytes
reset_sessions old [] = []
reset_sessions old ((id, epoch) ∷ epochs) =
    let others = reset_sessions old epochs in
    if eq_int epoch (epoch_of id old) then others else id ∷ others

unfoldable pub last_id_of : ℕ → List LiveRequestSummary → ℕ
last_id_of id [] = id
last_id_of id (item ∷ items) = last_id_of item.request_id items
