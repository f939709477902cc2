-- ===== src/Capture/Once.antt =====
-- A captured body is reported once, when it ends. Over `complete` of `capturingReadCloser` in
-- cli/proxy_proxify.go.
use http_capture.Prelude.{
  ℕ, Bool, true, false, ℤ, List, [], ◌∷◌, ◌++◌, none, some, ◌≡◌, refl, ap, ◌∙◌, sym, arith, All,
  str_eq, Bool-cases, inl, inr,
}
use http_capture.Capture.{
  Encoding, more, eof, failed, Event, read, close, Capturing, new_capturing, keep_bytes, end_read,
  close_source, complete, step, run, payload_of,
}

-- The events after which a body has ended.
abbrev pub ends : Event → Bool
ends (read bytes more) = false
ends (read bytes eof) = true
ends (read bytes (failed message)) = true
ends (close error) = true

-- Nothing was reported yet, and a report will be made.
abbrev Waiting : Capturing → Type 0
Waiting r = (r.reports ≡ true) × (r.done ≡ false) × (r.completed ≡ [])

module _ (enc : Encoding) where
  step-Waiting : (e : Event) (r : Capturing) → ends e ≡ false → Waiting r → Waiting (step enc e r)
  unfolding step keep_bytes end_read
  step-Waiting (read bytes more) r h w = w
  step-Waiting (read bytes eof) r h w = absurd (cc h)
  step-Waiting (read bytes (failed message)) r h w = absurd (cc h)
  step-Waiting (close error) r h w = absurd (cc h)

  run-Waiting :
      (events : List Event) (r : Capturing)
      → All (λ e. ends e ≡ false) events
      → Waiting r
      → Waiting (run enc events r)
  unfolding run
  run-Waiting [] r h w = w
  run-Waiting (e ∷ events) r (first, rest) w =
      run-Waiting events (step enc e r) rest (step-Waiting e r first w)

  -- The report describes the body as it is when it ends.
  complete-report :
      (r : Capturing)
      → Waiting r
      → ((complete enc r).done ≡ true)
        × ((complete enc r).completed ≡ payload_of enc (complete enc r) ∷ [])
  unfolding complete payload_of
  complete-report r (reports, waits, empty) =
      simp (reports, waits) (refl, ap (λ l. payload_of enc r ∷ l) empty)

  step-report :
      (e : Event) (r : Capturing)
      → ends e ≡ true
      → Waiting r
      → ((step enc e r).done ≡ true)
        × ((step enc e r).completed ≡ payload_of enc (step enc e r) ∷ [])
  unfolding step keep_bytes end_read close_source
  step-report (read bytes more) r h w = absurd (cc h)
  step-report (read bytes eof) r h w = complete-report _ w
  step-report (read bytes (failed message)) r h w = complete-report _ w
  step-report (close none) r h w = complete-report r w
  step-report (close (some message)) r h w = elim (Bool-cases (str_eq r.read_error [])) [
    | inl first ↦ simp first (complete-report (record r { read_error = message }) w)
    | inr later ↦ simp later (complete-report r w)
  ]

  step-done :
      (e : Event) (r : Capturing)
      → r.done ≡ true
      → ((step enc e r).done ≡ true) × ((step enc e r).completed ≡ r.completed)
  unfolding step keep_bytes end_read close_source complete
  step-done (read bytes more) r h = (h, refl)
  step-done (read bytes eof) r h = ground arith
  step-done (read bytes (failed message)) r h = ground arith
  step-done (close none) r h = ground arith
  step-done (close (some message)) r h = ground arith

  run-done :
      (events : List Event) (r : Capturing)
      → r.done ≡ true
      → (run enc events r).completed ≡ r.completed
  unfolding run
  run-done [] r h = refl
  run-done (e ∷ events) r h =
      let (done, same) = step-done e r h in run-done events (step enc e r) done ∙ same

  run-after_end :
      (e : Event) (after : List Event) (r : Capturing)
      → (step enc e r).done ≡ true
      → (run enc (e ∷ after) r).completed ≡ (step enc e r).completed
  unfolding run
  run-after_end e after r h = run-done after (step enc e r) h

  run-append :
      (before after : List Event) (r : Capturing)
      → run enc (before ++ after) r ≡ run enc after (run enc before r)
  unfolding run
  run-append [] after r = refl
  run-append (e ∷ before) after r = run-append before after (step enc e r)

  new_capturing-Waiting : (declared : ℤ) (max : ℕ) → Waiting (new_capturing declared max true)
  unfolding new_capturing
  new_capturing-Waiting declared max = (refl, refl, refl)

  -- Nothing is reported while reads go on. The first event that ends the body makes one report,
  -- of what was read up to it, and no later event makes another.
  pub run-completed :
      (declared : ℤ) (max : ℕ) (before after : List Event) (e : Event)
      → All (λ b. ends b ≡ false) before
      → ends e ≡ true
      → let r = new_capturing declared max true in
        ((run enc before r).completed ≡ [])
        × ((run enc (before ++ (e ∷ after)) r).completed
            ≡ payload_of enc (run enc (before ++ (e ∷ [])) r) ∷ [])
  run-completed declared max before after e passive ending = (waits.2, whole)
    where
      r : Capturing
      r = new_capturing declared max true

      waits : Waiting (run enc before r)
      waits = run-Waiting before r passive (new_capturing-Waiting declared max)

      report :
          ((step enc e (run enc before r)).done ≡ true)
          × ((step enc e (run enc before r)).completed
              ≡ payload_of enc (step enc e (run enc before r)) ∷ [])
      report = step-report e (run enc before r) ending waits

      ended : run enc (before ++ (e ∷ [])) r ≡ step enc e (run enc before r)
      ended = run-append before (e ∷ []) r ∙ unfold run in refl

      whole :
          (run enc (before ++ (e ∷ after)) r).completed
          ≡ payload_of enc (run enc (before ++ (e ∷ [])) r) ∷ []
      whole =
          ap (λ s. s.completed) (run-append before (e ∷ after) r)
          ∙ run-after_end e after (run enc before r) report.0
          ∙ report.1
          ∙ ap (λ s. payload_of enc s ∷ []) (sym ended)
