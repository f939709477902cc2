-- ===== src/Machine/Owned.antt =====
-- Which process the server tells to end: the one that it started itself, while the state file still
-- names it. Over `stopServeStartedProxify` of cli/serve.go.
use http_capture.Prelude.{
  true, false, ◌∷◌, some, ◌≡◌, ◌⊎◌, inl, inr, refl, ap, ◌∙◌, sym, subst, Bool-cases,
}
use http_capture.Errors.{Error, not_exist}
use http_capture.Effects.{Outcome, ok, err, ◌>>=◌, return, fail, gets, attempt}
use http_capture.World.{ProxifyState}
use http_capture.Processes.{read_proxify_state}
use http_capture.Machine.{Host, Machine, on_files, matches, runs_as}
use http_capture.Machine.Proxify.{remove_proxify_state, end_recorded}
use http_capture.Machine.Serve.{is_other, stop_current, stop_serve_started_proxify}
use http_capture.Machine.Signals.{on_files-Frame, end_recorded-Sends, read_state_file-same}

module _ (m : Machine) where
  -- One signal at most, and only to the process that was started, while it runs and the state
  -- file names it.
  pub Owned : ProxifyState → Host → Host → Type 0
  Owned started h h' =
      (h'.signals ≡ h.signals)
      ⊎ ((current : ProxifyState) × ((on_files m read_proxify_state h).0 ≡ ok current)
          × (is_other current started ≡ false)
          × (runs_as m h started.pid started.start_token ≡ true)
          × (h'.signals ≡ started.pid ∷ h.signals))

  stop_current-other :
      (started current : ProxifyState) (h : Host)
      → is_other current started ≡ true
      → stop_current m started (ok current) h ≡ (ok tt, h)
  unfolding stop_current return
  stop_current-other started current h e = simp e refl

  stop_current-running :
      (started current : ProxifyState) (h : Host)
      → is_other current started ≡ false
      → runs_as m h started.pid started.start_token ≡ true
      → stop_current m started (ok current) h ≡ end_recorded m started h
  unfolding stop_current matches gets return ◌>>=◌
  stop_current-running started current h e runs = simp (e, runs) refl

  stop_current-gone :
      (started current : ProxifyState) (h : Host)
      → is_other current started ≡ false
      → runs_as m h started.pid started.start_token ≡ false
      → stop_current m started (ok current) h ≡ on_files m remove_proxify_state h
  unfolding stop_current matches gets return ◌>>=◌
  stop_current-gone started current h e gone = simp (e, gone) refl

  stop_named-Owned :
      (started current : ProxifyState) (h : Host)
      → (on_files m read_proxify_state h).0 ≡ ok current
      → Owned started h (stop_current m started (ok current) h).1
  unfolding Owned
  stop_named-Owned started current h found = elim (Bool-cases (is_other current started)) [
    | inl other ↦ inl (ap (λ r. r.1.signals) (stop_current-other started current h other))
    | inr same ↦ elim (Bool-cases (runs_as m h started.pid started.start_token)) [
      | inl runs ↦
          let e = stop_current-running started current h same runs in
          elim ((end_recorded-Sends m started).at h) [
            | inl quiet ↦ inl (ap (λ r. r.1.signals) e ∙ quiet)
            | inr sent ↦ inr (current, found, same, runs, ap (λ r. r.1.signals) e ∙ sent)
          ]
      | inr gone ↦ inl (
          ap (λ r. r.1.signals) (stop_current-gone started current h same gone)
          ∙ (on_files-Frame m remove_proxify_state).at h)
    ]
  ]

  stop_current-err :
      (started : ProxifyState) (e : Error) (h : Host) → (stop_current m started (err e) h).1 ≡ h
  unfolding stop_current fail return
  stop_current-err started (not_exist path) h = refl
  stop_current-err started e h = refl

  stop_current-Owned :
      (started : ProxifyState) (found : Outcome ProxifyState) (h : Host)
      → (on_files m read_proxify_state h).0 ≡ found
      → Owned started h (stop_current m started found h).1
  unfolding Owned
  stop_current-Owned started (ok current) h e = stop_named-Owned started current h e
  stop_current-Owned started (err x) h e = inl (ap (λ k. k.signals) (stop_current-err started x h))

  stop_serve-read :
      (started : ProxifyState) (h : Host)
      → stop_serve_started_proxify m (some started) h
        ≡ stop_current m started (on_files m read_proxify_state h).0 h
  unfolding stop_serve_started_proxify attempt ◌>>=◌
  stop_serve-read started h =
      ap (stop_current m started (on_files m read_proxify_state h).0)
        ((read_state_file-same m).at h)

  -- A server that ends and has started a proxy sends at most one signal, to that proxy, and only if
  -- the state file still names that process and it runs with the start token that it was
  -- started with. A proxy that was started anew in the meantime is left running.
  pub stop_serve_started_proxify-Owned :
      (started : ProxifyState) (h : Host)
      → Owned started h (stop_serve_started_proxify m (some started) h).1
  stop_serve_started_proxify-Owned started h =
      subst (λ r. Owned started h r.1) (sym (stop_serve-read started h))
        (stop_current-Owned started _ h refl)
