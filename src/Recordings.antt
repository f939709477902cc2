-- ===== src/Recordings.antt =====
-- The command `export` of cli/export.go: `exportCommand`, `filterXML` on files, and `filterHAR` over a
-- JSON document.
use http_capture.Prelude.{
  ℕ, Bool, false, not, ◌&&◌, ◌||◌, ℤ, Bytes, codes, List, [], ◌∷◌, Option, none, some,
  if◌then◌else◌, str_eq, to_lower, contains_byte, ◌==◌,
}
use http_capture.Errors.{
  Op, Error, not_exist, open_file, read_file, bad_json, bad_switch_value, input_and_output_required,
  har_without_client, unsupported_input, har_without_log, har_without_entries,
}
use http_capture.Effects.{Outcome, ok, err, ◌>>=◌, ◌>>◌, return, fail, lift, gets, refuse_if}
use http_capture.Flags
use http_capture.Flags.{Kind, text, Setting}
use http_capture.World.{Env, Run, system, find_file, secure_write, put_file}
use http_capture.Markup.{ExportFilter, Token, Stream, is_outside, filter_stream}

mutual
  pub data Json : Type 0 where
    string : Bytes → Json
    object : Members → Json
    array : Items → Json
    -- numbers, truth values and null
    other : Bytes → Json

  pub data Items : Type 0 where
    end : Items
    item : Json → Items → Items

  pub data Members : Type 0 where
    empty : Members
    member : Bytes → Json → Members → Members

unfoldable pub member_of : Bytes → Members → Option Json
member_of key empty = none
member_of key (member name value rest) =
    let later = member_of key rest in if str_eq name key then some value else later

-- An assignment to a key that is there.
unfoldable pub set_member : Bytes → Json → Members → Members
set_member key new empty = empty
set_member key new (member name value rest) =
    let others = set_member key new rest in
    if str_eq name key then member name new rest else member name value others

abbrev log_of : Option Json → Outcome Members
log_of (some (object log)) = ok log
log_of (some (string s)) = err har_without_log
log_of (some (array items)) = err har_without_log
log_of (some (other s)) = err har_without_log
log_of none = err har_without_log

abbrev entries_of : Option Json → Outcome Items
entries_of (some (array items)) = ok items
entries_of (some (object log)) = err har_without_entries
entries_of (some (string s)) = err har_without_entries
entries_of (some (other s)) = err har_without_entries
entries_of none = err har_without_entries

-- The text of a member, empty if it is none.
abbrev text_of : Option Json → Bytes
text_of (some (string s)) = s
text_of (some (object log)) = []
text_of (some (array items)) = []
text_of (some (other s)) = []
text_of none = []

-- The libraries: the tokens of encoding/xml and its encoder, encoding/json, `time.Parse` in milliseconds,
-- and the numbers of package flag.
pub record Decoders (S : Type 0) : Type 0 where
  pub tokens : Bytes → Stream
  pub fresh : S
  pub put : S → Token → Outcome (Bytes × S)
  pub decode : Bytes → Option Members
  pub encode : Members → Bytes
  pub parse_time : Bytes → Option ℤ
  pub parse_number : Bytes → Option ℤ

abbrev in_time : ExportFilter → Option ℤ → Bool
in_time filter none = false
in_time filter (some millis) = not (is_outside filter millis)

abbrev file_or : Error → Option Bytes → Outcome Bytes
file_or e none = err e
file_or e (some content) = ok content

abbrev document_or : Option Members → Outcome Members
document_or none = err bad_json
document_or (some document) = ok document

unfoldable pub export_flags : Bytes → Option Kind
export_flags name =
    if str_eq name (codes "input")
      || str_eq name (codes "output")
      || str_eq name (codes "from-ms")
      || str_eq name (codes "to-ms")
      || str_eq name (codes "client-ip")
    then some text
    else none

-- `filepath.Ext`: from the last dot of the last element on.
unfoldable pub extension : Bytes → Bytes
extension [] = []
extension (c ∷ s) =
    let rest = extension s in
    if not (str_eq rest [])
    then rest
    else if c == b'.' && not (contains_byte b'/' s)
    then c ∷ s
    else []

module _ {S : Type 0} (formats : Decoders S) (env : Env) where
  -- The file that is filtered.
  unfoldable pub read_input : Op → Bytes → Run Bytes
  read_input op path = do
    system env op
    found ← gets (λ w. find_file path w.files)
    lift (file_or (not_exist path) found)

  unfoldable pub filter_xml : Bytes → Bytes → ExportFilter → Run ℕ
  filter_xml input output filter = do
    content ← read_input (open_file input) input
    filtered ← lift (filter_stream formats.fresh formats.put filter (formats.tokens content))
    secure_write env output filtered.0 (put_file output)
    return filtered.1

  -- The entries that have a time in the limits; what is no object is dropped.
  unfoldable pub filter_entries : ExportFilter → Items → Items
  filter_entries filter end = end
  filter_entries filter (item (object entry) items) =
      let rest = filter_entries filter items in
      if in_time filter (formats.parse_time (text_of (member_of (codes "startedDateTime") entry)))
      then item (object entry) rest
      else rest
  filter_entries filter (item (string s) items) = filter_entries filter items
  filter_entries filter (item (array a) items) = filter_entries filter items
  filter_entries filter (item (other s) items) = filter_entries filter items

  unfoldable pub filter_document : ExportFilter → Members → Outcome Members
  filter_document filter document = elim (log_of (member_of (codes "log") document)) [
    | err e ↦ err e
    | ok log ↦ elim (entries_of (member_of (codes "entries") log)) [
      | err e ↦ err e
      | ok entries ↦ ok (
          set_member (codes "log")
            (object (set_member (codes "entries") (array (filter_entries filter entries)) log))
            document)
    ]
  ]

  unfoldable pub filter_har : Bytes → Bytes → ExportFilter → Run (Unit {0})
  filter_har input output filter = do
    content ← read_input (read_file input) input
    document ← lift (document_or (formats.decode content))
    filtered ← lift (filter_document filter document)
    secure_write env output (formats.encode filtered) (put_file output)

  number_flag : Bytes → List Setting → Outcome ℤ
  number_flag name settings =
      elim (formats.parse_number (Flags.value_of name (codes "0") settings)) [
        | none ↦ err (bad_switch_value name)
        | some n ↦ ok n
      ]

  -- By the extension of the input.
  unfoldable pub export_file : Bytes → Bytes → Bytes → ExportFilter → Run (Unit {0})
  export_file kind input output filter =
      if str_eq kind (codes ".xml")
      then (filter_xml input output filter >>= λ kept. return tt)
      else if str_eq kind (codes ".har")
      then (refuse_if (not (str_eq filter.client_ip [])) har_without_client
          >> filter_har input output filter)
      else fail unsupported_input

  unfoldable pub export_command : List Bytes → Run (Unit {0})
  unfolding number_flag Flags.parse Flags.value_of export_flags
  export_command args = do
    parsed ← lift (Flags.parse export_flags args)
    from_ms ← lift (number_flag (codes "from-ms") parsed.0)
    to_ms ← lift (number_flag (codes "to-ms") parsed.0)
    let input = Flags.value_of (codes "input") [] parsed.0
    let output = Flags.value_of (codes "output") [] parsed.0
    refuse_if (str_eq input [] || str_eq output []) input_and_output_required
    export_file (to_lower (extension input)) input output (record {
      from_ms = from_ms;
      to_ms = to_ms;
      client_ip = Flags.value_of (codes "client-ip") [] parsed.0;
    })
