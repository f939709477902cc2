-- ===== src/Session/Extract.antt =====
-- The traffic of one session out of the live file of the proxy, cli/record_proxify.go:
-- `extractCapturedTransactions`, `exportCaptureHAR` and `parseProxifyFormats`.
pub mod Selection
use http_capture.Prelude.{
  ℕ, suc, ◌-◌, Bool, true, false, ◌&&◌, ◌||◌, not, ℤ, pos, negsuc, ltb_int, eq_int, Bytes, codes,
  List, [], ◌∷◌, ◌++◌, Option, none, some, if◌then◌else◌, ◌==◌, str_eq, trim_space, to_lower, take,
  drop, split_on,
}
use http_capture.Errors.{
  bad_offset, open_file, seek_file, create_file, write_file, read_file, sync_file, close_file,
  rename_file, change_mode, not_exist, refused_by_system, unsupported_format, no_format, bad_record,
}
use http_capture.Effects.{
  Outcome, ok, err, ◌>>=◌, ◌>>◌, return, fail, refuse_if, lift, gets, modify,
}
use http_capture.Captured.{CapturedTransaction, capture_schema_version, client_address_matches}
use http_capture.World.{Env, Run, holds, system, find_file, put_file, is_fine}

abbrev newline : ℕ
newline = b'\n'

unfoldable pub grow : ℕ → List Bytes → List Bytes
grow c [] = (c ∷ []) ∷ []
grow c (line ∷ lines) = (c ∷ line) ∷ lines

-- What `ReadBytes('\n')` returns until the end of the file: each line with its newline, and the
-- rest behind the last newline, if there is any.
unfoldable pub lines_of : Bytes → List Bytes
unfolding grow
lines_of [] = []
lines_of (c ∷ s) = let rest = lines_of s in if c == newline then (c ∷ []) ∷ rest else grow c rest

pub data Verdict : Type 0 where
  blank skipped : Verdict
  wanted : Bytes → Verdict

-- The window of a session.
pub record Window : Type 0 where
  pub start_ms : ℤ
  pub end_ms : ℤ
  pub client_ip : Bytes

unfoldable pub judge_record : Window → Bytes → Option CapturedTransaction → Verdict
judge_record window trimmed none = skipped
judge_record window trimmed (some t) =
    if not (eq_int t.schema_version (pos capture_schema_version))
    then skipped
    else if ltb_int t.timestamp_millis window.start_ms
        || ltb_int window.end_ms t.timestamp_millis
        || not (str_eq window.client_ip [])
          && not (client_address_matches t.client_address window.client_ip)
    then skipped
    else wanted trimmed

module _ (decode : Bytes → Option CapturedTransaction) (window : Window) where
  unfoldable pub judge : Bytes → Verdict
  unfolding judge_record
  judge line =
      if str_eq (trim_space line) []
      then blank
      else judge_record window (trim_space line) (decode (trim_space line))

-- The counts of the loop, and the bytes written so far.
pub record Extract : Type 0 where
  pub count : ℕ
  pub skips : ℕ
  pub output : Bytes

unfoldable pub add_line : Extract → Verdict → Extract
add_line e blank = e
add_line e skipped = record e { skips = suc e.skips }
add_line e (wanted trimmed) = record e {
  count = suc e.count;
  output = e.output ++ (trimmed ++ (newline ∷ []));
}

unfoldable pub extract_lines :
    (Bytes → Option CapturedTransaction) → Window → Extract → List Bytes → Extract
unfolding judge add_line
extract_lines decode window e [] = e
extract_lines decode window e (line ∷ lines) =
    extract_lines decode window (add_line e (judge decode window line)) lines

abbrev pub no_lines : Extract
no_lines = record { count = 0; skips = 0; output = [] }

-- The bytes from one offset to another.
abbrev pub section : ℕ → ℕ → Bytes → Bytes
section start end content = take (end - start) (drop start content)

abbrev pub offset_of : ℤ → ℕ
offset_of (pos n) = n
offset_of (negsuc n) = 0

unfoldable pub content_or_missing : Bytes → Option Bytes → Run Bytes
content_or_missing path none = fail (not_exist path)
content_or_missing path (some content) = return content

-- The new file under its temporary name, and then under its own.
abbrev partial : Bytes → Bytes
partial path = path ++ codes ".partial"

abbrev har_head : Bytes
har_head =
    codes
      "{\"log\":{\"version\":\"1.2\",\"creator\":{\"name\":\"httpcapture\",\"version\":\"0.4.0\"},\"entries\":["

module _ (env : Env) where
  unfoldable pub open_content : Bytes → Run Bytes
  open_content path = do
    system env (open_file path)
    content ← gets (λ w. find_file path w.files)
    content_or_missing path content

  -- What follows the loop: the temporary file gets the name of the destination.
  unfoldable pub finish_file : Bytes → Bytes → Run (Unit {0})
  finish_file path content = do
    system env (sync_file (partial path))
    system env (close_file (partial path))
    system env (rename_file (partial path))
    modify (put_file path (holds content))
    system env (change_mode path)

  unfoldable pub extract_captured_transactions : Bytes → Bytes → ℤ → ℤ → Window → Run (ℕ × ℕ)
  extract_captured_transactions source destination start end window = do
    refuse_if (ltb_int start (pos 0) || ltb_int end start) bad_offset
    content ← open_content source
    system env (seek_file source)
    system env (create_file (partial destination))
    system env (read_file source)
    let lines = lines_of (section (offset_of start) (offset_of end) content)
    let all = extract_lines env.decode window no_lines lines
    refuse_if (not (all.count == 0) && not (is_fine (env.fault (write_file (partial destination)))))
        (refused_by_system (write_file (partial destination)))
    finish_file destination all.output
    return (all.count, all.skips)

  abbrev entry_of : Option CapturedTransaction → Option Bytes
  entry_of none = none
  entry_of (some t) = env.encode_har_entry t

  abbrev with_entry : Bool → Option Bytes → Outcome Bytes → Outcome Bytes
  with_entry first none rest = err bad_record
  with_entry first (some entry) (err e) = err e
  with_entry first (some entry) (ok rest) = ok ((if first then entry else b',' ∷ entry) ++ rest)

  -- The entries of the HAR file, each behind a comma but the first.
  unfoldable pub har_entries : Bool → List Bytes → Outcome Bytes
  unfolding trim_space str_eq
  har_entries first [] = ok []
  har_entries first (line ∷ lines) =
      let skip = har_entries first lines in
      let more = har_entries false lines in
      if str_eq (trim_space line) []
      then skip
      else with_entry first (entry_of (env.decode line)) more

  unfoldable pub export_capture_har : Bytes → Bytes → Run (Unit {0})
  export_capture_har source destination = do
    content ← open_content source
    system env (create_file (partial destination))
    system env (write_file (partial destination))
    system env (read_file source)
    entries ← lift (har_entries true (lines_of content))
    finish_file destination (har_head ++ (entries ++ codes "]}}"))

-- The formats asked for at the end of a session.
pub record Formats : Type 0 where
  pub jsonl : Bool
  pub har : Bool

-- `parseProxifyFormats`.
unfoldable pub read_formats : Formats → List Bytes → Outcome Formats
unfolding trim_space to_lower str_eq
read_formats f [] = if f.jsonl || f.har then ok f else err no_format
read_formats f (part ∷ parts) =
    let format = to_lower (trim_space part) in
    let skip = read_formats f parts in
    let jsonl = read_formats (record f { jsonl = true }) parts in
    let har = read_formats (record f { har = true }) parts in
    if str_eq format []
    then skip
    else if str_eq format (codes "jsonl")
    then jsonl
    else if str_eq format (codes "har")
    then har
    else err (unsupported_format format)

unfoldable pub parse_proxify_formats : Bytes → Outcome Formats
unfolding read_formats split_on
parse_proxify_formats value =
    read_formats (record { jsonl = false; har = false }) (split_on b',' value)
