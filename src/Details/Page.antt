-- ===== src/Details/Page.antt =====
-- The pages on one request: `requestDetail` of cli/web_index.go, and the body of `handleBody` in
-- cli/web.go.
use http_capture.Prelude.{
  ℕ, Bool, ◌||◌, ℤ, Bytes, codes, List, [], ◌++◌, Option, none, some, if◌then◌else◌, str_eq, length,
}
use http_capture.Effects.{Outcome, ok, err}
use http_capture.Numbers.{itoa}
use http_capture.Captured.{CapturedPayload, CapturedTransaction}
use http_capture.Index.Row.{first_header}
use http_capture.Web.{Site, status_of_error}
use http_capture.Details.{Archive, request_transaction}
use http_capture.Details.Display.{Codecs, PayloadView, payload_bytes, payload_for_display}

-- The record, less its bodies, and what is shown of them.
pub record RequestDetail : Type 0 where
  pub id : ℤ
  pub session_id : Bytes
  pub captured : CapturedTransaction
  pub query : List (Bytes × List Bytes)
  pub request_body : PayloadView
  pub response_body : PayloadView

pub data BodyReply : Type 0 where
  refused : ℕ → BodyReply
  body :
      (content_type content_length : Bytes) (disposition : Option Bytes) (content : Bytes)
      → BodyReply

module _ (site : Site) (archive : Archive) (codecs : Codecs) where
  abbrev query_or_none : Option (List (Bytes × List Bytes)) → List (Bytes × List Bytes)
  query_or_none none = []
  query_or_none (some query) = query

  unfoldable pub detail_of : Bytes → ℤ → CapturedTransaction → RequestDetail
  detail_of session_id key captured = record {
    id = key;
    session_id = session_id;
    captured = captured;
    query = query_or_none (codecs.parse_query captured.request.url);
    request_body =
        payload_for_display codecs captured.request.body captured.request.headers session_id key
          (codes "request");
    response_body =
        payload_for_display codecs captured.response.body captured.response.headers session_id key
          (codes "response");
  }

  with_detail : Bytes → ℤ → Outcome CapturedTransaction → Outcome RequestDetail
  with_detail session_id key (err e) = err e
  with_detail session_id key (ok captured) = ok (detail_of session_id key captured)

  unfoldable pub request_detail : Bytes → ℤ → Outcome RequestDetail
  unfolding with_detail
  request_detail session_id key =
      with_detail session_id key (request_transaction site archive session_id key)

  -- The side of an exchange: its body, and the header with its type.
  unfoldable pub side_of : Bytes → CapturedTransaction → CapturedPayload × Bytes
  side_of side captured =
      if str_eq side (codes "response")
      then (captured.response.body, first_header captured.response.headers (codes "Content-Type"))
      else (captured.request.body, first_header captured.request.headers (codes "Content-Type"))

  -- Package mime: the media type written out, if it can be read.
  module _ (media_type : Bytes → Option Bytes) where
    unfoldable pub safe_response_content_type : Bytes → Bytes
    safe_response_content_type value = elim (media_type value) [
      | none ↦ codes "application/octet-stream"
      | some text ↦ text
    ]

    body_name : Bytes → ℤ → Bytes → Bytes
    body_name session_id key side =
        session_id ++ (codes "-" ++ (itoa key ++ (codes "-" ++ (side ++ codes ".body"))))

    content_reply : Option Bytes → CapturedPayload × Bytes → Outcome Bytes → BodyReply
    content_reply disposition (payload, content_type) (err e) = refused 422
    content_reply disposition (payload, content_type) (ok content) =
        body (safe_response_content_type content_type) (itoa (ℤ.pos (length content))) disposition
          content

    body_of : Bytes → ℤ → Bytes → Bool → Outcome CapturedTransaction → BodyReply
    unfolding content_reply body_name
    body_of session_id key side download (err e) = refused (status_of_error e)
    body_of session_id key side download (ok captured) =
        let (payload, content_type) = side_of side captured in
        content_reply
          (if download || str_eq payload.encoding (codes "base64")
            then some (body_name session_id key side)
            else none)
          (payload, content_type) (payload_bytes codecs payload)

    unfoldable pub handle_body : Bytes → ℤ → Bytes → Bool → BodyReply
    unfolding body_of
    handle_body session_id key side download =
        body_of session_id key side download (request_transaction site archive session_id key)
