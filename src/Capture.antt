-- ===== src/Capture.antt =====
-- The bodies of the proxy's traffic as they pass through, cli/proxy_proxify.go:
-- `capturingReadCloser`, `wrapResponseCapture` and `captureResponse`. What the program's reader
-- sees of the connection is a sequence of events: reads with the bytes that they return, and
-- calls of Close. `maxBodyBytes` is a natural number: the program refuses a negative one.
pub mod Prefix
pub mod Once
use http_capture.Prelude.{
  ℕ, ◌+◌, ◌-◌, Bool, true, false, not, ◌||◌, ℤ, pos, negsuc, ltb_int, leb_int, eq_int, Bytes, codes,
  List, [], ◌∷◌, ◌++◌, Option, none, some, if◌then◌else◌, ltb, str_eq, length, take,
}
use http_capture.Captured.{
  CapturedPayload, CapturedRequest, CapturedResponse, CapturedTransaction, capture_schema_version,
}

-- unicode/utf8 and encoding/base64.
pub record Encoding : Type 0 where
  pub valid_utf8 : Bytes → Bool
  pub base64 : Bytes → Bytes

-- How a read ends: with more to come, at the end, or with an error and its message.
pub data ReadEnd : Type 0 where
  more eof : ReadEnd
  failed : Bytes → ReadEnd

pub data Event : Type 0 where
  read : Bytes → ReadEnd → Event
  close : Option Bytes → Event

pub record Capturing : Type 0 where
  pub declared_size : ℤ
  pub max_bytes : ℕ
  pub buffer : Bytes
  pub total_read : ℕ
  pub reached_eof : Bool
  pub read_error : Bytes
  -- whether `onComplete` is set
  pub reports : Bool
  -- `sync.Once`
  pub done : Bool
  -- the calls of `onComplete`, latest first
  pub completed : List CapturedPayload

unfoldable pub new_capturing : ℤ → ℕ → Bool → Capturing
new_capturing declared_size max_bytes reports = record {
  declared_size = declared_size;
  max_bytes = max_bytes;
  buffer = [];
  total_read = 0;
  reached_eof = false;
  read_error = [];
  reports = reports;
  done = false;
  completed = [];
}

unfoldable pub empty_captured_payload : ℤ → CapturedPayload
empty_captured_payload declared_size = record {
  declared_size = declared_size;
  captured_size = 0;
  encoding = [];
  content = [];
  truncated = false;
  read_error = [];
}

-- The bytes of one read: as many of them are kept as there is room for.
unfoldable pub keep_bytes : Bytes → Capturing → Capturing
keep_bytes bytes r = record r {
  total_read = r.total_read + length bytes;
  buffer = r.buffer ++ take (r.max_bytes - length r.buffer) bytes;
}

abbrev pub is_truncated : Capturing → ℕ → Bool
is_truncated r captured =
    if leb_int (pos 0) r.declared_size
    then ltb_int (pos captured) r.declared_size
    else not r.reached_eof || ltb captured r.total_read

module _ (enc : Encoding) where
  unfoldable pub set_captured_payload_data : CapturedPayload → Bytes → CapturedPayload
  set_captured_payload_data payload [] = record payload { captured_size = 0 }
  set_captured_payload_data payload (c ∷ bytes) =
      if enc.valid_utf8 (c ∷ bytes)
      then record payload {
        captured_size = length (c ∷ bytes);
        encoding = codes "utf8";
        content = c ∷ bytes;
      }
      else record payload {
        captured_size = length (c ∷ bytes);
        encoding = codes "base64";
        content = enc.base64 (c ∷ bytes);
      }

  unfoldable pub payload_of : Capturing → CapturedPayload
  unfolding empty_captured_payload set_captured_payload_data
  payload_of r =
      let result = set_captured_payload_data (empty_captured_payload r.declared_size) r.buffer in
      record result { read_error = r.read_error; truncated = is_truncated r result.captured_size }

  unfoldable pub complete : Capturing → Capturing
  complete r =
      if not r.reports || r.done
      then r
      else record r { done = true; completed = payload_of r ∷ r.completed }

  unfoldable pub end_read : ReadEnd → Capturing → Capturing
  end_read more r = r
  end_read eof r = complete (record r { reached_eof = true })
  end_read (failed message) r = complete (record r { read_error = message })

  -- An error of Close is kept unless a read has failed before.
  unfoldable pub close_source : Option Bytes → Capturing → Capturing
  close_source none r = complete r
  close_source (some message) r =
      complete (if str_eq r.read_error [] then record r { read_error = message } else r)

  unfoldable pub step : Event → Capturing → Capturing
  step (read bytes e) r = end_read e (keep_bytes bytes r)
  step (close error) r = close_source error r

  unfoldable pub run : List Event → Capturing → Capturing
  run [] r = r
  run (e ∷ events) r = run events (step e r)

-- What the proxy knows of a request when its response comes.
pub record ProxifyRequestState : Type 0 where
  pub started_ms : ℤ
  pub started : Bytes
  pub client_address : Bytes
  pub request : CapturedRequest
  pub request_body : Option Capturing

-- The parts of a `http.Response` that are captured; `has_body` says that Body is neither nil nor
-- `http.NoBody`.
pub record HttpResponse : Type 0 where
  pub status_code : ℤ
  pub status : Bytes
  pub proto : Bytes
  pub header : List (Bytes × List Bytes)
  pub content_length : ℤ
  pub has_body : Bool

-- A duration is not negative: a clock that was set back gives 0.
unfoldable pub capture_response : ProxifyRequestState → CapturedResponse → ℤ → CapturedTransaction
capture_response state response elapsed_ms = record {
  schema_version = pos capture_schema_version;
  timestamp = state.started;
  timestamp_millis = state.started_ms;
  duration_millis = if ltb_int elapsed_ms (pos 0) then pos 0 else elapsed_ms;
  client_address = state.client_address;
  request = state.request;
  response = response;
}

-- Either the record is written at once, or the body is captured and the record is written when
-- that is complete.
pub data Wrapped : Type 0 where
  written : CapturedTransaction → Wrapped
  watched : Capturing → (CapturedPayload → ℤ → CapturedTransaction) → Wrapped

module _ (enc : Encoding) where
  unfoldable pub with_captured_body : CapturedRequest → Option Capturing → CapturedRequest
  with_captured_body request none = request
  with_captured_body request (some body) = record request { body = payload_of enc body }

  abbrev response_of : HttpResponse → CapturedPayload → CapturedResponse
  response_of resp body = record {
    status_code = resp.status_code;
    status = resp.status;
    http_version = resp.proto;
    headers = resp.header;
    body = body;
  }

  -- A response without a body, or that switches protocols, is written with an empty one.
  unfoldable pub wrap_response_capture : ProxifyRequestState → HttpResponse → ℕ → ℤ → Wrapped
  unfolding new_capturing empty_captured_payload capture_response with_captured_body
  wrap_response_capture state resp max_body_bytes elapsed_ms =
      let sent = record state { request = with_captured_body state.request state.request_body } in
      let report : CapturedPayload → ℤ → CapturedTransaction =
        λ body elapsed. capture_response sent (response_of resp body) elapsed in
      if eq_int resp.status_code (pos 101)
        || not resp.has_body
        || eq_int resp.content_length (pos 0)
      then written (report (empty_captured_payload resp.content_length) elapsed_ms)
      else watched (new_capturing resp.content_length max_body_bytes true) report
