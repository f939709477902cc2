-- ===== src/Index.antt =====
-- The index of recorded traffic, cli/web_index.go and cli/web_incremental.go: what the database
-- holds on one session, and the calls that it makes. Every statement of the source on requests,
-- cursors and resets names its session, so one session's part is the state.
pub mod Row
pub mod Scan
pub mod Traffic
pub mod Split
pub mod Growth
pub mod Agreement
pub mod Refresh
pub mod Unchanged
pub mod Rounds
pub mod Records
use http_capture.Prelude.{
  ℕ, Bool, true, false, ℤ, pos, Bytes, List, [], Option, none, some, if◌then◌else◌,
}
use http_capture.Errors.{Error, sql_failed}
use http_capture.Effects.{Outcome, ok, err, M}
use http_capture.Captured.{CapturedTransaction}

pub record TrafficScanOptions : Type 0 where
  pub start_offset : ℤ
  pub start_ms : ℤ
  pub client_ip : Bytes

-- A row of `requests`, with its text in `request_fts`.
pub record IndexedRow : Type 0 where
  pub line_number : ℕ
  pub byte_offset : ℕ
  pub byte_length : ℕ
  pub timestamp_ms : ℤ
  pub method : Bytes
  pub url : Bytes
  pub host : Bytes
  pub path : Bytes
  pub status : ℤ
  pub content_type : Bytes
  pub duration_ms : ℤ
  pub request_size : ℤ
  pub response_size : ℤ
  pub content : Bytes

-- The device and the inode of a file.
pub record FileId : Type 0 where
  pub device : ℕ
  pub inode : ℕ

-- A row of `traffic_cursors`.
pub record TrafficCursor : Type 0 where
  pub file : FileId
  pub offset : ℕ
  pub line_number : ℕ
  pub skipped : ℕ
  pub head_hash : Bytes
  pub tail_hash : Bytes

-- The column `index_error`: empty, the number of skipped lines, or the error of a scan.
pub data IndexError : Type 0 where
  clear : IndexError
  skipped_lines : ℕ → IndexError
  scan_failed : Error → IndexError

pub record SessionIndex : Type 0 where
  pub rows : List IndexedRow
  pub cursor : Option TrafficCursor
  -- `traffic_resets`
  pub epoch : ℕ
  pub index_error : IndexError
  pub indexed_at_ms : ℤ

-- The statements, each of which the database can refuse.
pub data Statement : Type 0 where
  begin delete_text delete_rows count_reset delete_cursor note_session save_cursor commit :
      Statement
  load_cursor : Statement
  insert_row : ℕ → Statement

-- What a file shows when it is opened: `known` is what `sourceDeviceInode` says of it, and a file
-- that is broken fails to be read before its end.
pub record Opened : Type 0 where
  pub file : FileId
  pub known : Bool
  pub content : Bytes
  pub broken : Bool

pub record FileInfo : Type 0 where
  pub file : FileId
  pub size : ℤ

-- The surroundings of one scan.
pub record Store : Type 0 where
  pub now : ℤ
  pub refuses : Statement → Bool
  -- encoding/json, net/url (`Hostname` and `EscapedPath`), unicode/utf8, crypto/sha256 in hex
  pub decode : Bytes → Option CapturedTransaction
  pub parse_url : Bytes → Option (Bytes × Bytes)
  pub valid_utf8 : Bytes → Bool
  pub sha256_hex : Bytes → Bytes
  -- how bufio cuts a line to the size of its buffer
  pub cut : Bytes → List Bytes
  pub maximum : ℕ

abbrev pub Scanning : Type 0 → Type 0
Scanning A = M SessionIndex A

-- `BeginTx` with a deferred `Rollback`: an error leaves everything as it was.
abbrev pub rolled_back :
    {A : Type 0} → SessionIndex → Outcome A × SessionIndex → Outcome A × SessionIndex
rolled_back before (ok a, index) = (ok a, index)
rolled_back before (err e, index) = (err e, before)

unfoldable pub in_transaction : {A : Type 0} → Scanning A → Scanning A
in_transaction m index = rolled_back index (m index)

-- A statement with its effect.
unfoldable pub execute : Store → Statement → (SessionIndex → SessionIndex) → Scanning (Unit {0})
execute store statement change index =
    if store.refuses statement then (err sql_failed, index) else (ok tt, change index)
