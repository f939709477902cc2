-- ===== src/Captured.antt =====
-- The record of one captured exchange, cli/proxy_proxify.go, and the test of a client's address,
-- cli/export.go. A header map is an association list.
use http_capture.Prelude.{ℕ, Bool, ℤ, Bytes, codes, List, ◌++◌, ◌||◌, str_eq, has_prefix}

pub record CapturedPayload : Type 0 where
  pub declared_size : ℤ
  pub captured_size : ℕ
  pub encoding : Bytes
  pub content : Bytes
  pub truncated : Bool
  pub read_error : Bytes

pub record CapturedRequest : Type 0 where
  pub method : Bytes
  pub url : Bytes
  pub http_version : Bytes
  pub headers : List (Bytes × List Bytes)
  pub body : CapturedPayload

pub record CapturedResponse : Type 0 where
  pub status_code : ℤ
  pub status : Bytes
  pub http_version : Bytes
  pub headers : List (Bytes × List Bytes)
  pub body : CapturedPayload

pub record CapturedTransaction : Type 0 where
  pub schema_version : ℤ
  pub timestamp : Bytes
  pub timestamp_millis : ℤ
  pub duration_millis : ℤ
  pub client_address : Bytes
  pub request : CapturedRequest
  pub response : CapturedResponse

abbrev pub capture_schema_version : ℕ
capture_schema_version = 1

unfoldable pub client_address_matches : Bytes → Bytes → Bool
client_address_matches value expected =
    str_eq value expected
    || has_prefix value (expected ++ codes ":")
    || has_prefix value (codes "/" ++ (expected ++ codes ":"))
