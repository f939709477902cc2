-- ===== src/Examples/Displays.antt =====
-- The body of a response that gzip has packed.
use http_capture.Prelude.{
  pos, codes, reverse, [], ◌∷◌, some, none, true, false, refl, List, Bytes, take,
}
use http_capture.Captured.{CapturedPayload}
use http_capture.Index.Row.{first_header}
use http_capture.Details.Display.{
  Codecs, PayloadView, content_encodings, payload_bytes, take_off_all, start_decoding,
  payload_for_display,
}
use http_capture.Details.Display.Bounds.{IsReadable, payload_for_display-IsReadable}

-- Packed bytes stand for the text "hello".
abbrev codecs : Codecs
codecs = record {
  valid_utf8 = λ s. true;
  base64 = λ s. some s;
  gzip = λ n s. some (take n (codes "hello"));
  zlib = λ n s. none;
  path_escape = λ s. s;
  parse_query = λ url. none;
}

abbrev packed : CapturedPayload
packed = record {
  declared_size = pos 3;
  captured_size = 3;
  encoding = codes "base64";
  content = codes "xyz";
  truncated = false;
  read_error = [];
}

abbrev packed_headers : List (Bytes × List Bytes)
packed_headers = (codes "Content-Encoding", codes "gzip" ∷ []) ∷ []

abbrev shown_packed : PayloadView
shown_packed =
    payload_for_display codecs packed packed_headers (codes "a") (pos 1) (codes "response")

payload_for_display-IsReadable_example :
    IsReadable codecs refl
      (take_off_all codecs
        (reverse (content_encodings (first_header packed_headers (codes "Content-Encoding"))))
        (start_decoding codecs (payload_bytes codecs packed)))
      shown_packed.content
      shown_packed.display_truncated
payload_for_display-IsReadable_example =
    payload_for_display-IsReadable codecs refl packed packed_headers (codes "a") (pos 1)
      (codes "response")
