-- ===== src/Details/Display/Bounds.antt =====
-- What cli/web_index.go shows of a body is short, is text, and is complete unless it says otherwise.
use http_capture.Prelude.{
  ℕ, zero, suc, ◌≤◌, Bool, true, false, ltb, leb, ◌==◌, ℤ, Bytes, codes, List, [], reverse,
  if◌then◌else◌, length, take, length-take, ◌≡◌, refl, subst, arith, Bool-cases, inl, inr, ◌⊎◌,
}
use http_capture.Effects.{Outcome, ok, err}
use http_capture.Captured.{CapturedPayload}
use http_capture.Index.Row.{first_header, truncate_utf8, shorten}
use http_capture.Details.Display.{
  Codecs, PayloadView, Decoding, Shown, maximum_display, content_encodings, display_bytes_are_text,
  payload_bytes, take_off_all, start_decoding, shown_text, shown_of, payload_text_for_display,
  view_with, payload_for_display,
}

module _ (valid : Bytes → Bool) where
  shorten-length : (n : ℕ) (s : Bytes) → length (shorten valid n s) ≤ n
  unfolding shorten
  shorten-length zero s = omega arith
  shorten-length (suc n) s =
      let cut = length-take (suc n) s in let shorter = shorten-length n s in ground arith

  shorten-valid : (n : ℕ) (s : Bytes) → valid [] ≡ true → valid (shorten valid n s) ≡ true
  unfolding shorten
  shorten-valid zero s e = e
  shorten-valid (suc n) s e = elim (Bool-cases (valid (take (suc n) s))) [
    | inl yes' ↦ simp yes' refl
    | inr no' ↦ simp no' (shorten-valid n s e)
  ]

  truncate_utf8-length : (s : Bytes) (n : ℕ) → length (truncate_utf8 valid s n) ≤ n
  unfolding truncate_utf8
  truncate_utf8-length s n = let shorter = shorten-length n s in ground arith

  truncate_utf8-valid :
      (s : Bytes) (n : ℕ)
      → valid [] ≡ true
      → valid s ≡ true
      → valid (truncate_utf8 valid s n) ≡ true
  unfolding truncate_utf8
  truncate_utf8-valid s n e h = elim (Bool-cases (leb (length s) n)) [
    | inl short ↦ simp short h
    | inr long ↦ simp long (shorten-valid n s e)
  ]

  truncate_utf8-whole : (s : Bytes) (n : ℕ) → ltb n (length s) ≡ false → truncate_utf8 valid s n ≡ s
  unfolding truncate_utf8
  truncate_utf8-whole s n h = ground arith

module _ (codecs : Codecs) (empty_valid : codecs.valid_utf8 [] ≡ true) where
  -- A text that is short and valid, and that is the whole of what was decoded unless it says that it is
  -- not, or nothing.
  pub record IsReadable (decoded : Outcome Decoding) (text : Bytes) (truncated : Bool)
      : Type 0 where
    pub bounded : length text ≤ maximum_display
    pub valid : codecs.valid_utf8 text ≡ true
    pub whole :
        truncated ≡ false
        → (text ≡ [])
          ⊎ ((d : Decoding) × (decoded ≡ ok d) × (text ≡ d.content) × (d.truncated ≡ false))

  nothing : (decoded : Outcome Decoding) → IsReadable decoded [] false
  nothing decoded = record { bounded = omega arith; valid = empty_valid; whole = λ e. inl refl }

  text-valid :
      (content : Bytes)
      → display_bytes_are_text codecs content ≡ true
      → codecs.valid_utf8 content ≡ true
  unfolding display_bytes_are_text
  text-valid content h = ground arith

  shown_text-IsReadable :
      (d : Decoding) (b : Bool)
      → display_bytes_are_text codecs d.content ≡ b
      → IsReadable (ok d) (shown_text codecs d).text (shown_text codecs d).truncated
  unfolding shown_text
  shown_text-IsReadable d false e = simp e (nothing (ok d))
  shown_text-IsReadable d true e = simp e (record {
    bounded = truncate_utf8-length codecs.valid_utf8 d.content maximum_display;
    valid =
        truncate_utf8-valid codecs.valid_utf8 d.content maximum_display empty_valid
          (text-valid d.content e);
    whole = λ all. inr (
      d,
      refl,
      truncate_utf8-whole codecs.valid_utf8 d.content maximum_display (ground arith),
      (ground arith),
    );
  })

  either_view :
      (v w : PayloadView) (decoded : Outcome Decoding) (b : Bool)
      → IsReadable decoded v.content v.display_truncated
      → IsReadable decoded w.content w.display_truncated
      → IsReadable decoded (if b then w else v).content (if b then w else v).display_truncated
  either_view v w decoded true hv hw = hw
  either_view v w decoded false hv hw = hv

  shown_of-IsReadable :
      (decoded : Outcome Decoding) (shown : Shown)
      → shown_of codecs decoded ≡ ok shown
      → IsReadable decoded shown.text shown.truncated
  unfolding shown_of
  shown_of-IsReadable (err e) shown h = absurd (cc h)
  shown_of-IsReadable (ok d) shown h =
      let same : shown_text codecs d ≡ shown = cc h in
      subst (λ s. IsReadable (ok d) s.text s.truncated) same (shown_text-IsReadable d _ refl)

  view_with-IsReadable :
      (view : PayloadView) (decoded : Outcome Decoding) (reply : Outcome Shown)
      → IsReadable decoded view.content view.display_truncated
      → ((shown : Shown) → reply ≡ ok shown → IsReadable decoded shown.text shown.truncated)
      → IsReadable decoded
          (view_with codecs view reply).content
          (view_with codecs view reply).display_truncated
  unfolding view_with
  view_with-IsReadable view decoded (err e) plain h = plain
  view_with-IsReadable view decoded (ok shown) plain h =
      either_view view _ decoded _ plain (h shown refl)

  text-IsReadable :
      (payload : CapturedPayload) (encoding : Bytes) (b : Bool)
      → (payload.captured_size == 0) ≡ b
      → (shown : Shown) → payload_text_for_display codecs payload encoding ≡ ok shown
      → IsReadable
          (take_off_all codecs
            (reverse (content_encodings encoding))
            (start_decoding codecs (payload_bytes codecs payload)))
          shown.text
          shown.truncated
  unfolding payload_text_for_display
  text-IsReadable payload encoding true e shown h =
      let body = start_decoding codecs (payload_bytes codecs payload) in
      let decoded = take_off_all codecs (reverse (content_encodings encoding)) body in
      let same : record { text = []; names = []; truncated = false } ≡ shown = cc (simp e at h) in
      subst (λ s. IsReadable decoded s.text s.truncated) same (nothing decoded)
  text-IsReadable payload encoding false e shown h = shown_of-IsReadable _ shown (simp e at h)

  -- What is shown of a body is at most 512 KiB long and valid UTF-8, whichever encodings were taken
  -- off, and unless the view says that it was cut, it is empty or the whole of what the decoding of
  -- the captured bytes gave.
  pub payload_for_display-IsReadable :
      (payload : CapturedPayload) (headers : List (Bytes × List Bytes)) (session_id : Bytes)
      (request_id : ℤ) (side : Bytes)
      → IsReadable
          (take_off_all codecs
            (reverse (content_encodings (first_header headers (codes "Content-Encoding"))))
            (start_decoding codecs (payload_bytes codecs payload)))
          (payload_for_display codecs payload headers session_id request_id side).content
          (payload_for_display codecs payload headers session_id request_id side).display_truncated
  unfolding payload_for_display
  payload_for_display-IsReadable payload headers session_id request_id side =
      view_with-IsReadable _ _ _ (nothing _)
        (text-IsReadable payload (first_header headers (codes "Content-Encoding")) _ refl)
