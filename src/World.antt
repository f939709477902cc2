-- ===== src/World.antt =====
-- The files of one user that the commands share, and what one command finds in its surroundings.
-- The typed files stand for their JSON: active-session.json, meta.json in each session directory,
-- proxify.json, mitmproxy.json and control-devices.json. A map is an association list; the newest entry is first.
use http_capture.Prelude.{
  ℕ, Bool, true, false, ℤ, Bytes, codes, List, [], ◌∷◌, Option, none, some, if◌then◌else◌, str_eq,
}
use http_capture.Errors.{
  Op, refused_by_system, user_config_dir, make_directory, change_mode, read_file, write_file,
  not_exist, corrupt_file,
}
use http_capture.Effects.{Outcome, ok, err, M, ◌>>◌, ◌>>=◌, return, gets, lift}
use http_capture.Paths.{join}
use http_capture.Captured.{CapturedTransaction}

-- cli/main.go, type sessionState.
pub record SessionState : Type 0 where
  pub capture_id : Bytes
  pub engine : Bytes
  pub engine_version : Bytes
  pub engine_revision : Bytes
  pub packages : List Bytes
  pub device_name : Bytes
  pub client_ip : Bytes
  pub proxy_host : Bytes
  pub proxy_port : ℤ
  pub started_ms : ℤ
  pub stopped_ms : ℤ
  pub status : Bytes
  pub session_dir : Bytes
  pub traffic_source : Bytes
  pub start_offset : ℤ
  pub request_count : ℕ
  pub skipped_count : ℕ

-- cli/proxy_proxify.go, type proxifyProcessState.
pub record ProxifyState : Type 0 where
  pub pid : ℤ
  pub start_token : Bytes
  pub executable : Bytes
  pub host : Bytes
  pub port : ℤ
  pub started_ms : ℤ
  pub log_path : Bytes
  pub traffic_path : Bytes
  pub config_dir : Bytes
  pub max_body_bytes : ℤ
  pub version : Bytes
  pub source_revision : Bytes

-- cli/proxy_mitm.go, type mitmState.
pub record MitmState : Type 0 where
  pub pid : ℤ
  pub start_token : Bytes
  pub executable : Bytes
  pub host : Bytes
  pub port : ℤ
  pub started_ms : ℤ
  pub log_path : Bytes

-- cli/control_devices.go, type controlDevice.
pub record Device : Type 0 where
  pub profile_id : Bytes
  pub device_id : Bytes
  pub device_name : Bytes
  pub token_sha256 : Bytes
  pub engine : Bytes
  pub created_ms : ℤ
  pub last_seen_ms : ℤ
  pub revoked : Bool
  pub revoked_ms : ℤ

-- A file that is there: JSON that a reader takes, or anything else.
pub data Slot (A : Type 0) : Type 0 where
  corrupt : Slot A
  holds : A → Slot A

pub record World : Type 0 where
  pub active : Option (Slot SessionState)
  pub metas : List (Bytes × Slot SessionState)
  pub proxify : Option (Slot ProxifyState)
  pub mitm : Option (Slot MitmState)
  pub devices : Option (Slot (List Device))
  pub files : List (Bytes × Bytes)
  -- requests sent to Charles: the proxy address and the path
  pub charles_log : List (Bytes × Bytes)

-- How a write of a file ends. A write that is torn leaves a file that no reader takes.
pub data Fault : Type 0 where
  fine refused torn : Fault

pub record Url : Type 0 where
  pub hostname : Bytes
  pub port : Bytes

-- The surroundings of one command: the clock, the failures of the system, the processes, Charles.
pub record Env : Type 0 where
  pub now : ℤ
  pub fault : Op → Fault
  pub config_root : Bytes
  pub working_directory : Bytes
  -- what time.Now().Format and crypto/rand give to a new capture id
  pub timestamp : Bytes
  pub random_suffix : Bytes
  -- the start token and the state of a process, as /proc shows them
  pub process_identity : ℤ → Option (Bytes × Bytes)
  -- crypto/sha256 with encoding/hex
  pub sha256_hex : Bytes → Bytes
  pub parse_url : Bytes → Option Url
  -- the status and the body of the reply to a GET of a path through a proxy, if one comes
  pub charles_reply : Bytes → Bytes → Option (ℕ × Bytes)
  -- encoding/json: a line of a traffic file; an entry of a HAR file, with `transactionToHAR`
  pub decode : Bytes → Option CapturedTransaction
  pub encode_har_entry : CapturedTransaction → Option Bytes

abbrev pub Run : Type 0 → Type 0
Run A = M World A

module _ {A : Type 0} where
  unfoldable pub find_file : Bytes → List (Bytes × A) → Option A
  find_file path [] = none
  find_file path ((p, a) ∷ rest) = if str_eq p path then some a else find_file path rest

abbrev pub is_fine : Fault → Bool
is_fine fine = true
is_fine refused = false
is_fine torn = false

-- What a read finds.
abbrev pub content_of : {A : Type 0} → Bytes → Option (Slot A) → Outcome A
content_of path none = err (not_exist path)
content_of path (some corrupt) = err (corrupt_file path)
content_of path (some (holds a)) = ok a

module _ (env : Env) where
  -- A call of the system with no effect on the modelled files.
  unfoldable pub system : Op → Run (Unit {0})
  system op w = if is_fine (env.fault op) then (ok tt, w) else (err (refused_by_system op), w)

  unfoldable pub config_directory : Run Bytes
  config_directory = do
    system user_config_dir
    system (make_directory (join env.config_root (codes "httpcapture")))
    return (join env.config_root (codes "httpcapture"))

  -- `os.WriteFile` and `os.Chmod`; `put` stores what the file then holds.
  unfoldable pub secure_write : {A : Type 0} → Bytes → A → (Slot A → World → World) → Run (Unit {0})
  secure_write path a put w = elim (env.fault (write_file path)) [
    | fine ↦ system (change_mode path) (put (holds a) w)
    | refused ↦ (err (refused_by_system (write_file path)), w)
    | torn ↦ (err (refused_by_system (write_file path)), put corrupt w)
  ]

  -- `os.ReadFile` and `json.Unmarshal`.
  unfoldable pub read_slot : {A : Type 0} → Bytes → (World → Option (Slot A)) → Run A
  read_slot path slot = do system (read_file path); found ← gets slot; lift (content_of path found)

-- A file of bytes; a torn write leaves it empty.
abbrev pub put_file : Bytes → Slot Bytes → World → World
put_file path corrupt w = record w { files = (path, []) ∷ w.files }
put_file path (holds content) w = record w { files = (path, content) ∷ w.files }
