-- ===== src/Details/Display.antt =====
-- How a request is shown, `requestDetail` of cli/web_index.go with `payloadForDisplay` and what it
-- calls: the bytes of a body, the encodings that are taken off, and the text that is left.
pub mod Bounds
use http_capture.Prelude.{
  ℕ, zero, suc, ◌+◌, ◌*◌, Bool, true, false, not, ◌&&◌, ◌||◌, ltb, leb, ◌==◌, ℤ, pos, Bytes, codes,
  List, [], ◌∷◌, ◌++◌, reverse, Option, none, some, if◌then◌else◌, str_eq, trim_space, to_lower,
  split_on, length, take,
}
use http_capture.Errors.{Error, unknown_body_encoding, unsupported_encoding, undecodable}
use http_capture.Effects.{Outcome, ok, err}
use http_capture.Numbers.{itoa}
use http_capture.Captured.{CapturedPayload, CapturedTransaction}
use http_capture.Index.Row.{first_header, truncate_utf8}

-- The libraries: UTF-8, base64, the first bytes of what gzip and zlib give, if they can be read,
-- and net/url.
pub record Codecs : Type 0 where
  pub valid_utf8 : Bytes → Bool
  pub base64 : Bytes → Option Bytes
  pub gzip : ℕ → Bytes → Option Bytes
  pub zlib : ℕ → Bytes → Option Bytes
  pub path_escape : Bytes → Bytes
  pub parse_query : Bytes → Option (List (Bytes × List Bytes))

pub record PayloadView : Type 0 where
  pub declared_size : ℤ
  pub captured_size : ℕ
  pub encoding : Bytes
  pub content : Bytes
  pub truncated : Bool
  pub display_truncated : Bool
  pub decoded_encoding : Bytes
  pub display_error : Option Error
  pub read_error : Bytes
  pub download_url : Bytes

-- What is left of a body while encodings are taken off.
pub record Decoding : Type 0 where
  pub content : Bytes
  pub names : Bytes
  pub truncated : Bool

pub record Shown : Type 0 where
  pub text : Bytes
  pub names : Bytes
  pub truncated : Bool

abbrev pub maximum_display : ℕ
maximum_display = 524288

without_blank : List Bytes → List Bytes
without_blank [] = []
without_blank (part ∷ parts) =
    let others = without_blank parts in
    let encoding = to_lower (trim_space part) in
    if str_eq encoding [] then others else encoding ∷ others

unfoldable pub content_encodings : Bytes → List Bytes
unfolding without_blank
content_encodings value = without_blank (split_on b',' value)

-- Control characters that are neither tabs nor ends of lines.
unfoldable pub controls_in : Bytes → ℕ
controls_in [] = 0
controls_in (c ∷ s) =
    let others = controls_in s in
    if ltb c 32 && not (c == b'\t') && not (c == b'\n') && not (c == b'\r')
    then suc others
    else others

unfoldable pub has_zero : Bytes → Bool
has_zero [] = false
has_zero (c ∷ s) = let later = has_zero s in c == 0 || later

module _ (codecs : Codecs) where
  -- The quotient of floats is at most 0.01 where the integers say so, for any length in memory.
  unfoldable pub display_bytes_are_text : Bytes → Bool
  unfolding controls_in has_zero
  display_bytes_are_text content =
      codecs.valid_utf8 content
      && not (has_zero content)
      && (leb (controls_in content) 8 || leb (controls_in content * 100) (length content))

  from_base64 : Option Bytes → Outcome Bytes
  from_base64 none = err (undecodable (codes "base64"))
  from_base64 (some content) = ok content

  unfoldable pub payload_bytes : CapturedPayload → Outcome Bytes
  unfolding from_base64
  payload_bytes payload =
      if str_eq payload.encoding [] || str_eq payload.encoding (codes "utf8")
      then ok payload.content
      else if str_eq payload.encoding (codes "base64")
      then from_base64 (codecs.base64 payload.content)
      else err unknown_body_encoding

  -- What is too long is cut, and shortened to whole characters.
  decoded_from : Bytes → Option Bytes → Outcome (Bytes × Bool)
  decoded_from encoding none = err (undecodable encoding)
  decoded_from encoding (some decoded) = ok (
    truncate_utf8 codecs.valid_utf8 decoded maximum_display,
    ltb maximum_display (length decoded),
  )

  unfoldable pub decode_content_encoding : Bytes → Bytes → Outcome (Bytes × Bool)
  unfolding decoded_from
  decode_content_encoding content encoding =
      if str_eq encoding (codes "gzip") || str_eq encoding (codes "x-gzip")
      then decoded_from encoding (codecs.gzip (maximum_display + 1) content)
      else if str_eq encoding (codes "deflate")
      then decoded_from encoding (codecs.zlib (maximum_display + 1) content)
      else err (unsupported_encoding encoding)

  without_encoding : Bytes → Decoding → Outcome (Bytes × Bool) → Outcome Decoding
  without_encoding encoding d (err e) = err e
  without_encoding encoding d (ok (content, cut)) = ok (record {
    content = content;
    names = if str_eq d.names [] then encoding else d.names ++ (codes "," ++ encoding);
    truncated = d.truncated || cut;
  })

  unfoldable pub take_off : Decoding → Bytes → Outcome Decoding
  unfolding without_encoding
  take_off d encoding =
      if str_eq encoding (codes "identity")
      then ok d
      else without_encoding encoding d (decode_content_encoding d.content encoding)

  -- The last encoding is taken off first.
  unfoldable pub take_off_all : List Bytes → Outcome Decoding → Outcome Decoding
  take_off_all encodings (err e) = err e
  take_off_all [] (ok d) = ok d
  take_off_all (encoding ∷ encodings) (ok d) = take_off_all encodings (take_off d encoding)

  unfoldable pub shown_text : Decoding → Shown
  shown_text d =
      if not (display_bytes_are_text d.content)
      then record { text = []; names = d.names; truncated = false }
      else let display = truncate_utf8 codecs.valid_utf8 d.content maximum_display in
        record {
          text = display;
          names = d.names;
          truncated =
              d.truncated
              || ltb maximum_display (length d.content)
              || ltb (length display) (length d.content);
        }

  unfoldable pub shown_of : Outcome Decoding → Outcome Shown
  shown_of (err e) = err e
  shown_of (ok d) = ok (shown_text d)

  unfoldable pub start_decoding : Outcome Bytes → Outcome Decoding
  start_decoding (err e) = err e
  start_decoding (ok content) = ok (record { content = content; names = []; truncated = false })

  unfoldable pub payload_text_for_display : CapturedPayload → Bytes → Outcome Shown
  unfolding shown_of start_decoding
  payload_text_for_display payload content_encoding =
      if payload.captured_size == 0
      then ok (record { text = []; names = []; truncated = false })
      else shown_of (
          take_off_all (reverse (content_encodings content_encoding))
            (start_decoding (payload_bytes payload)))

  abbrev pub plain_view : CapturedPayload → Bytes → ℤ → Bytes → PayloadView
  plain_view payload session_id request_id side = record {
    declared_size = payload.declared_size;
    captured_size = payload.captured_size;
    encoding = payload.encoding;
    content = [];
    truncated = payload.truncated;
    display_truncated = false;
    decoded_encoding = [];
    display_error = none;
    read_error = payload.read_error;
    download_url =
        if payload.captured_size == 0
        then []
        else codes "/api/sessions/"
          ++ (codecs.path_escape session_id
              ++ (codes "/requests/" ++ (itoa request_id ++ (codes "/body/" ++ side))));
  }

  unfoldable pub view_with : PayloadView → Outcome Shown → PayloadView
  view_with view (err e) = record view { display_error = some e }
  view_with view (ok shown) =
      if not (str_eq shown.text []) || not (view.captured_size == 0) && not (str_eq shown.names [])
      then record view {
        encoding = codes "utf8";
        content = shown.text;
        decoded_encoding = shown.names;
        display_truncated = shown.truncated;
      }
      else view

  unfoldable pub payload_for_display :
      CapturedPayload → List (Bytes × List Bytes) → Bytes → ℤ → Bytes → PayloadView
  unfolding view_with
  payload_for_display payload headers session_id request_id side =
      view_with (plain_view payload session_id request_id side)
        (payload_text_for_display payload (first_header headers (codes "Content-Encoding")))
