-- ===== src/Capture/Prefix.antt =====
-- What is captured of a body is its beginning, and a capture that is not marked as truncated is
-- the whole body. Over `capturingReadCloser` of cli/proxy_proxify.go.
use http_capture.Prelude.{
  ℕ, zero, suc, ◌-◌, Bool, true, false, ℤ, pos, negsuc, Bytes, List, [], ◌∷◌, ◌++◌, Option, none,
  some, ◌≡◌, refl, ap, ◌∙◌, sym, arith, length, take, length-append, length-take, ◌≤◌, append_assoc,
  append-nil, if◌then◌else◌, subst, not, ◌||◌, str_eq, Bool-cases, inl, inr, leb_int, ltb_int, ltb,
}
use http_capture.Captured.{CapturedPayload}
use http_capture.Capture.{
  Encoding, ReadEnd, more, eof, failed, Event, read, close, Capturing, new_capturing, keep_bytes,
  end_read, close_source, complete, step, run, payload_of, set_captured_payload_data,
  empty_captured_payload,
}

-- The bytes that the reads return.
unfoldable pub received : List Event → Bytes
received [] = []
received (read bytes e ∷ events) = bytes ++ received events
received (close error ∷ events) = received events

take-nil : (n : ℕ) → take {A = ℕ} n [] ≡ []
take-nil zero = refl
take-nil (suc n) = refl

take-append : (n : ℕ) (xs ys : Bytes) → take n (xs ++ ys) ≡ take n xs ++ take (n - length xs) ys
take-append n [] ys =
    let all : take n ys ≡ take (n - 0) ys = ap (λ k. take k ys) (omega arith) in rw (take-nil n) all
take-append zero (x ∷ xs) ys =
    let none_left : 0 ≡ 0 - length (x ∷ xs) = omega arith in ap (λ k. take k ys) none_left
take-append (suc n) (x ∷ xs) ys =
    let left : n - length xs ≡ suc n - length (x ∷ xs) = omega arith in
    ap (λ zs. x ∷ zs) (take-append n xs ys ∙ ap (λ k. take n xs ++ take k ys) left)

-- The buffer and the count belong to the bytes `s`.
pub record Holds (max : ℕ) (s : Bytes) (r : Capturing) : Type 0 where
  pub room : r.max_bytes ≡ max
  pub buffer : r.buffer ≡ take max s
  pub total : r.total_read ≡ length s

room_left : (max : ℕ) (s : Bytes) → max - length (take max s) ≡ max - length s
room_left max s = omega (arith, length-take max s)

keep_bytes-Holds :
    (max : ℕ) (s bytes : Bytes) (r : Capturing)
    → Holds max s r
    → Holds max (s ++ bytes) (keep_bytes bytes r)
unfolding keep_bytes
keep_bytes-Holds max s bytes r h = record {
  room = h.room;
  buffer =
      ap (λ b. b ++ take (r.max_bytes - length b) bytes) h.buffer
      ∙ ap (λ m. take max s ++ take (m - length (take max s)) bytes) h.room
      ∙ ap (λ k. take max s ++ take k bytes) (room_left max s)
      ∙ sym (take-append max s bytes);
  total = omega (arith, h.total, length-append s bytes);
}

module _ (enc : Encoding) (max : ℕ) where
  Holds-if :
      (s : Bytes) (b : Bool) (r r' : Capturing)
      → Holds max s r
      → Holds max s r'
      → Holds max s (if b then r else r')
  Holds-if s true r r' h k = h
  Holds-if s false r r' h k = k

  complete-Holds : (s : Bytes) (r : Capturing) → Holds max s r → Holds max s (complete enc r)
  unfolding complete
  complete-Holds s r h = elim (Bool-cases (not r.reports || r.done)) [
    | inl passive ↦ simp passive h
    | inr active ↦ simp active (record { room = h.room; buffer = h.buffer; total = h.total })
  ]

  end_read-Holds :
      (s : Bytes) (e : ReadEnd) (r : Capturing) → Holds max s r → Holds max s (end_read enc e r)
  unfolding end_read
  end_read-Holds s more r h = h
  end_read-Holds s eof r h =
      complete-Holds s _ (record { room = h.room; buffer = h.buffer; total = h.total })
  end_read-Holds s (failed message) r h =
      complete-Holds s _ (record { room = h.room; buffer = h.buffer; total = h.total })

  close_source-Holds :
      (s : Bytes) (error : Option Bytes) (r : Capturing)
      → Holds max s r
      → Holds max s (close_source enc error r)
  unfolding close_source
  close_source-Holds s none r h = complete-Holds s r h
  close_source-Holds s (some message) r h = complete-Holds s _ (
      Holds-if s (str_eq r.read_error []) (record r { read_error = message }) r
        (record { room = h.room; buffer = h.buffer; total = h.total }) h)

  run-Holds :
      (s : Bytes) (r : Capturing) (events : List Event)
      → Holds max s r
      → Holds max (s ++ received events) (run enc events r)
  unfolding run step received
  run-Holds s r [] h = rw (append-nil s) h
  run-Holds s r (read bytes e ∷ events) h =
      subst (λ t. Holds max t (run enc (read bytes e ∷ events) r))
        (append_assoc s bytes (received events))
        (run-Holds (s ++ bytes) _ events
          (end_read-Holds (s ++ bytes) e _ (keep_bytes-Holds max s bytes r h)))
  run-Holds s r (close error ∷ events) h = run-Holds s _ events (close_source-Holds s error r h)

  new_capturing-Holds :
      (declared : ℤ) (reports : Bool) → Holds max [] (new_capturing declared max reports)
  unfolding new_capturing
  new_capturing-Holds declared reports = record {
    room = refl;
    buffer = sym (take-nil max);
    total = refl;
  }

  -- After any reads and calls of Close, the buffer holds the first bytes that the reads returned,
  -- as many as the limit allows, and the count is the number of all of them.
  pub run-prefix :
      (declared : ℤ) (reports : Bool) (events : List Event)
      → let r = run enc events (new_capturing declared max reports) in
        (r.buffer ≡ take max (received events)) × (r.total_read ≡ length (received events))
  run-prefix declared reports events =
      let h =
        run-Holds [] (new_capturing declared max reports) events
          (new_capturing-Holds declared reports) in
      (h.buffer, h.total)

take_all : (n : ℕ) (s : Bytes) → length s ≤ n → take n s ≡ s
take_all zero [] h = refl
take_all zero (x ∷ s) h = absurd (omega (arith, h))
take_all (suc n) [] h = refl
take_all (suc n) (x ∷ s) h = ap (λ t. x ∷ t) (take_all n s (omega (arith, h)))

kept_all :
    (declared : ℤ) (captured total : ℕ) (ended : Bool)
    → (if leb_int (pos 0) declared
        then ltb_int (pos captured) declared
        else not ended || ltb captured total)
      ≡ false
    → ((n : ℕ) → declared ≡ pos n → total ≤ n)
    → total ≤ captured
kept_all (pos n) captured total ended h fits = ground (arith, fits n refl)
kept_all (negsuc n) captured total ended h fits = ground arith

module _ (enc : Encoding) where
  set_captured_payload_data-size :
      (p : CapturedPayload) (bytes : Bytes)
      → (set_captured_payload_data enc p bytes).captured_size ≡ length bytes
  unfolding set_captured_payload_data
  set_captured_payload_data-size p [] = refl
  set_captured_payload_data-size p (c ∷ bytes) = ground arith

  set_captured_payload_data-content :
      (p : CapturedPayload) (bytes : Bytes)
      → p.content ≡ []
      → enc.valid_utf8 bytes ≡ true
      → (set_captured_payload_data enc p bytes).content ≡ bytes
  unfolding set_captured_payload_data
  set_captured_payload_data-content p [] h v = h
  set_captured_payload_data-content p (c ∷ bytes) h v = simp v refl

  step-declared : (e : Event) (r : Capturing) → (step enc e r).declared_size ≡ r.declared_size
  unfolding step keep_bytes end_read close_source complete
  step-declared (read bytes more) r = refl
  step-declared (read bytes eof) r = ground arith
  step-declared (read bytes (failed message)) r = ground arith
  step-declared (close none) r = ground arith
  step-declared (close (some message)) r = ground arith

  run-declared :
      (events : List Event) (r : Capturing) → (run enc events r).declared_size ≡ r.declared_size
  unfolding run
  run-declared [] r = refl
  run-declared (e ∷ events) r = run-declared events (step enc e r) ∙ step-declared e r

  not_truncated :
      (r : Capturing)
      → (payload_of enc r).truncated ≡ false
      → ((n : ℕ) → r.declared_size ≡ pos n → r.total_read ≤ n)
      → r.total_read ≤ length r.buffer
  unfolding payload_of
  not_truncated r h fits =
      let size = set_captured_payload_data-size (empty_captured_payload r.declared_size) r.buffer in
      kept_all r.declared_size (length r.buffer) r.total_read r.reached_eof (simp size at h) fits

  payload_of-kept :
      (r : Capturing) (s : Bytes)
      → r.buffer ≡ s
      → ((payload_of enc r).captured_size ≡ length s)
        × (enc.valid_utf8 s ≡ true → (payload_of enc r).content ≡ s)
  unfolding payload_of empty_captured_payload
  payload_of-kept r s e = (
    set_captured_payload_data-size (empty_captured_payload r.declared_size) r.buffer ∙ ap length e,
    λ v. rw e (set_captured_payload_data-content (empty_captured_payload r.declared_size) s refl v),
  )

  -- A payload that is not marked as truncated has all the bytes that the reads returned, where
  -- they are no more than the declared size, if there is one; a text stands there as it is.
  pub not_truncated-whole :
      (max : ℕ) (declared : ℤ) (reports : Bool) (events : List Event)
      → let p = payload_of enc (run enc events (new_capturing declared max reports)) in
        p.truncated ≡ false
        → ((n : ℕ) → declared ≡ pos n → length (received events) ≤ n)
        → (p.captured_size ≡ length (received events))
          × (enc.valid_utf8 (received events) ≡ true → p.content ≡ received events)
  not_truncated-whole max declared reports events h fits = payload_of-kept r (received events) whole
    where
      r : Capturing
      r = run enc events (new_capturing declared max reports)

      same : r.declared_size ≡ declared
      same = run-declared events (new_capturing declared max reports) ∙ unfold new_capturing in refl

      all : r.total_read ≤ length r.buffer
      all =
          let (_, total) = run-prefix enc max declared reports events in
          not_truncated r h (λ n e. omega (arith, total, fits n (sym same ∙ e)))

      whole : r.buffer ≡ received events
      whole =
          let (kept, total) = run-prefix enc max declared reports events in
          let size = length-take max (received events) in
          let short : length (received events) ≤ max =
            omega (arith, all, total, size, ap length kept) in
          kept ∙ take_all max (received events) short
