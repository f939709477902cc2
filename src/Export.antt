-- ===== src/Export.antt =====
-- Which payloads an export warns about, `incompleteCapturedPayload` of cli/web_export.go, and what
-- that says of the payloads that `capturingReadCloser` of cli/proxy_proxify.go makes.
pub mod Sessions
use http_capture.Prelude.{
  ℕ, Bool, true, false, not, ◌&&◌, ◌||◌, ◌==◌, ltb, ℤ, pos, negsuc, ltb_int, leb_int, Bytes, codes,
  [], ◌∷◌, Option, none, some, if◌then◌else◌, str_eq, str_eq_iff, length, ◌≡◌, ◌≢◌, refl, ap, ◌∙◌,
  sym, arith, Bool-cases, inl, inr,
}
use http_capture.Captured.{CapturedPayload}
use http_capture.Capture.{
  Encoding, Capturing, payload_of, set_captured_payload_data, empty_captured_payload, is_truncated,
}

abbrev wrong_size : ℕ → Option Bytes → Bool
wrong_size size none = true
wrong_size size (some bytes) = not (length bytes == size)

-- `from_base64` is `base64.StdEncoding.DecodeString`.
unfoldable pub wrong_content : (Bytes → Option Bytes) → CapturedPayload → Bool
wrong_content from_base64 p =
    if str_eq p.encoding [] || str_eq p.encoding (codes "utf8")
    then not (length p.content == p.captured_size)
    else if str_eq p.encoding (codes "base64")
    then wrong_size p.captured_size (from_base64 p.content)
    else true

unfoldable pub incomplete_captured_payload : (Bytes → Option Bytes) → CapturedPayload → Bool
unfolding wrong_content
incomplete_captured_payload from_base64 p =
    if p.truncated
      || not (str_eq p.read_error [])
      || ltb_int (pos p.captured_size) p.declared_size
      || ltb 0 p.captured_size && str_eq p.content []
    then true
    else wrong_content from_base64 p

only_two :
    (t e l b w : Bool)
    → b ≡ false
    → w ≡ false
    → (l ≡ true → t ≡ true)
    → (if t || e || l || b then true else w) ≡ (t || e)
only_two true e l b w hb hw hl = refl
only_two false true l b w hb hw hl = refl
only_two false false true b w hb hw hl = absurd (cc (hl refl))
only_two false false false b w hb hw hl = cc (hb, hw)

declared_more :
    (declared : ℤ) (captured : ℕ) (unknown : Bool)
    → ltb_int (pos captured) declared ≡ true
    → (if leb_int (pos 0) declared then ltb_int (pos captured) declared else unknown) ≡ true
declared_more (pos n) captured unknown h = ground arith
declared_more (negsuc n) captured unknown h = absurd (cc h)

module _ (enc : Encoding) (from_base64 : Bytes → Option Bytes) where
  -- What the libraries do: a decoder takes back what was encoded, and empty text is no bytes.
  abbrev pub Inverse : Type 0
  Inverse = ((s : Bytes) → from_base64 (enc.base64 s) ≡ some s) × (from_base64 [] ≡ some [])

  base64_filled : (c : ℕ) (s : Bytes) → Inverse → enc.base64 (c ∷ s) ≢ []
  base64_filled c s (inverse, nothing) e =
      let same : Path (Option Bytes) (some (c ∷ s)) (some []) =
        sym (inverse (c ∷ s)) ∙ ap from_base64 e ∙ nothing in
      cc same

  -- The content of a captured payload has the size that it says.
  captured_content :
      (declared : ℤ) (bytes : Bytes)
      → Inverse
      → let q = set_captured_payload_data enc (empty_captured_payload declared) bytes in
        (wrong_content from_base64 q ≡ false)
        × ((ltb 0 q.captured_size && str_eq q.content []) ≡ false)
        × (q.captured_size ≡ length bytes)
        × (q.declared_size ≡ declared)
  unfolding set_captured_payload_data empty_captured_payload wrong_content str_eq
  captured_content declared [] inverse = (refl, refl, refl, refl)
  captured_content declared (c ∷ bytes) inverse = elim (Bool-cases (enc.valid_utf8 (c ∷ bytes))) [
    | inl text ↦ simp text (ground arith, ground arith, refl, refl)
    | inr binary ↦
        simp (binary, inverse.0 (c ∷ bytes))
          (
            ground arith,
            ground (arith, str_eq_iff (enc.base64 (c ∷ bytes)) [], base64_filled c bytes inverse),
            refl,
            refl,
          )
  ]

  -- Of the payloads that a capture makes, an export warns about exactly those that are marked as
  -- truncated or ended with an error, where base64 decoding takes back what was encoded.
  pub payload_of-incomplete :
      (r : Capturing)
      → Inverse
      → incomplete_captured_payload from_base64 (payload_of enc r)
        ≡ ((payload_of enc r).truncated || not (str_eq r.read_error []))
  unfolding incomplete_captured_payload payload_of wrong_content empty_captured_payload
  payload_of-incomplete r inverse =
      let (content, filled, size, declared) = captured_content r.declared_size r.buffer inverse in
      let q = set_captured_payload_data enc (empty_captured_payload r.declared_size) r.buffer in
      only_two (is_truncated r q.captured_size) (not (str_eq r.read_error []))
        (ltb_int (pos q.captured_size) q.declared_size)
        (ltb 0 q.captured_size && str_eq q.content []) (wrong_content from_base64 q) filled content
        λ more.
          declared_more r.declared_size q.captured_size
            (not r.reached_eof || ltb q.captured_size r.total_read)
            (ap (λ d. ltb_int (pos q.captured_size) d) (sym declared) ∙ more)
