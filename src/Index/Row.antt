-- ===== src/Index/Row.antt =====
-- The row of one request, `insertIndexedRequest` of cli/web_index.go with `firstHeader` and
-- `payloadSize` of cli/record_proxify.go. A header map is an association list, searched in order.
use http_capture.Prelude.{
  ℕ, zero, suc, ◌*◌, Bool, true, false, not, ◌&&◌, ◌||◌, leb, ltb, ℤ, pos, leb_int, Bytes, codes,
  List, [], ◌∷◌, ◌++◌, Option, none, some, if◌then◌else◌, str_eq, to_lower, length, take, join_with,
}
use http_capture.Captured.{CapturedPayload, CapturedTransaction}
use http_capture.Numbers.{itoa}
use http_capture.Index.{IndexedRow, Store}

abbrev Headers : Type 0
Headers = List (Bytes × List Bytes)

abbrev first_value : List Bytes → Bytes → Bytes
first_value [] other = other
first_value (v ∷ values) other = v

unfoldable pub first_header : Headers → Bytes → Bytes
first_header [] name = []
first_header ((key, values) ∷ headers) name =
    let rest = first_header headers name in
    if str_eq (to_lower key) (to_lower name) then first_value values rest else rest

unfoldable pub payload_size : CapturedPayload → ℤ
payload_size payload =
    if leb_int (pos 0) payload.declared_size
    then payload.declared_size
    else pos payload.captured_size

-- `sort.Strings`, on the keys of a map.
bytes_before : Bytes → Bytes → Bool
bytes_before [] t = true
bytes_before (a ∷ s) [] = false
bytes_before (a ∷ s) (b ∷ t) = ltb a b || leb a b && bytes_before s t

insert_header : (Bytes × List Bytes) → Headers → Headers
unfolding bytes_before
insert_header h [] = h ∷ []
insert_header (key, values) ((k, vs) ∷ headers) =
    let later = insert_header (key, values) headers in
    if bytes_before key k then (key, values) ∷ (k, vs) ∷ headers else (k, vs) ∷ later

unfoldable pub sort_headers : Headers → Headers
unfolding insert_header
sort_headers [] = []
sort_headers (h ∷ headers) = insert_header h (sort_headers headers)

values_for_search : Bytes → List Bytes → Bytes
values_for_search key [] = []
values_for_search key (value ∷ values) =
    key ++ (codes ": " ++ (value ++ (b'\n' ∷ values_for_search key values)))

lines_for_search : Headers → Bytes
unfolding values_for_search
lines_for_search [] = []
lines_for_search ((key, values) ∷ headers) =
    values_for_search key values ++ lines_for_search headers

unfoldable pub headers_for_search : Headers → Bytes
unfolding lines_for_search
headers_for_search headers = lines_for_search (sort_headers headers)

-- `truncateUTF8`: bytes are taken off the end until the text is valid.
unfoldable pub shorten : (Bytes → Bool) → ℕ → Bytes → Bytes
shorten valid zero s = []
shorten valid (suc n) s =
    let shorter = shorten valid n s in if valid (take (suc n) s) then take (suc n) s else shorter

unfoldable pub truncate_utf8 : (Bytes → Bool) → Bytes → ℕ → Bytes
unfolding shorten
truncate_utf8 valid value maximum =
    let shorter = shorten valid maximum value in
    if leb (length value) maximum then value else shorter

module _ (store : Store) where
  unfoldable pub payload_for_search : CapturedPayload → Bytes
  payload_for_search payload =
      if not (str_eq payload.encoding (codes "utf8")) || str_eq payload.content []
      then []
      else truncate_utf8 store.valid_utf8 payload.content (256 * 1024)

  unfoldable pub searchable_transaction : CapturedTransaction → Bytes → Bytes → Bytes
  searchable_transaction captured host path = join_with (codes "\n") (
      captured.request.method
      ∷ captured.request.url
      ∷ host
      ∷ path
      ∷ itoa captured.response.status_code
      ∷ captured.response.status
      ∷ headers_for_search captured.request.headers
      ∷ headers_for_search captured.response.headers
      ∷ payload_for_search captured.request.body
      ∷ payload_for_search captured.response.body
      ∷ [])

  -- The host and the path of a URL; a URL that does not parse has neither.
  abbrev host_and_path : Option (Bytes × Bytes) → Bytes × Bytes
  host_and_path none = ([], [])
  host_and_path (some (host, path)) = (host, if str_eq path [] then codes "/" else path)

  unfoldable pub indexed_row : ℕ → ℕ → ℕ → CapturedTransaction → IndexedRow
  indexed_row line_number offset size captured =
      let (host, path) = host_and_path (store.parse_url captured.request.url) in
      let of_response = first_header captured.response.headers (codes "Content-Type") in
      record {
        line_number = line_number;
        byte_offset = offset;
        byte_length = size;
        timestamp_ms = captured.timestamp_millis;
        method = captured.request.method;
        url = captured.request.url;
        host = host;
        path = path;
        status = captured.response.status_code;
        content_type =
            if str_eq of_response []
            then first_header captured.request.headers (codes "Content-Type")
            else of_response;
        duration_ms = captured.duration_millis;
        request_size = payload_size captured.request.body;
        response_size = payload_size captured.response.body;
        content = searchable_transaction captured host path;
      }
