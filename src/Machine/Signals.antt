-- ===== src/Machine/Signals.antt =====
-- Which processes are told to end: only those that the state files name with the start token
-- that they have, or that the command itself has started. Over cli/proxy_proxify.go and
-- cli/serve.go.
use http_capture.Prelude.{
  ℕ, zero, suc, true, false, ℤ, Bytes, List, [], ◌∷◌, ◌≡◌, ◌⊎◌, inl, inr, refl, ap, ◌∙◌, sym, subst,
  arith, Bool-cases,
}
use http_capture.Errors.{Error, not_exist, process_not_running}
use http_capture.Effects.{
  Outcome, ok, err, ◌>>=◌, return, fail, gets, modify, attempt, refuse_if, after,
}
use http_capture.Effects.Frames.{Frame, frame_rules, Frame-bind, Frame-if, Frame-return}
use http_capture.World.{ProxifyState, Env, Run}
use http_capture.Processes.{read_proxify_state}
use http_capture.Session.Frames.{config_directory-Frame, read_slot-Frame}
use http_capture.Machine.{
  Host, HostRun, Machine, on_files, matches, runs_as, terminate_managed_process, sleep,
  wait_for_exit,
}
use http_capture.Machine.Proxify.{end_recorded, stop_recorded, proxify_stop}

abbrev pub signals_of : Host → List ℤ
signals_of h = h.signals

module _ (m : Machine) where
  pub on_files-Frame : {A : Type 0} (run : Env → Run A) → Frame signals_of (on_files m run)
  unfolding on_files
  on_files-Frame run = record { at = λ h. refl }

  matches-Frame : (pid : ℤ) (token : Bytes) → Frame signals_of (matches m pid token)
  unfolding matches gets
  matches-Frame pid token = record { at = λ h. refl }

  sleep-Frame : Frame signals_of sleep
  unfolding sleep modify
  sleep-Frame = record { at = λ h. refl }

  wait_for_exit-Frame :
      (n : ℕ) (pid : ℤ) (token : Bytes) → Frame signals_of (wait_for_exit m n pid token)
  unfolding wait_for_exit
  wait_for_exit-Frame zero pid token = search frame_rules
  wait_for_exit-Frame (suc n) pid token = Frame-bind _ _ (matches-Frame pid token) λ running.
      Frame-if _ _ _ (Frame-bind _ _ sleep-Frame λ u. wait_for_exit-Frame n pid token)
        (Frame-return tt)

-- A run that sends at most one signal, and that to `pid`.
pub record Sends (pid : ℤ) {A : Type 0} (run : HostRun A) : Type 0 where
  pub at : (h : Host) → ((run h).1.signals ≡ h.signals) ⊎ ((run h).1.signals ≡ pid ∷ h.signals)

module _ (pid : ℤ) {A B : Type 0} where
  Sends-after :
      (r : Outcome A) (h h' : Host) (f : A → HostRun B)
      → ((a : A) → Frame signals_of (f a))
      → (h'.signals ≡ h.signals) ⊎ (h'.signals ≡ pid ∷ h.signals)
      → ((after (r, h') f).1.signals ≡ h.signals) ⊎ ((after (r, h') f).1.signals ≡ pid ∷ h.signals)
  Sends-after (err e) h h' f quiet s = s
  Sends-after (ok a) h h' f quiet (inl s) = inl ((quiet a).at h' ∙ s)
  Sends-after (ok a) h h' f quiet (inr s) = inr ((quiet a).at h' ∙ s)

  Sends-bind :
      (run : HostRun A) (f : A → HostRun B)
      → Sends pid run
      → ((a : A) → Frame signals_of (f a))
      → Sends pid (run >>= f)
  unfolding ◌>>=◌
  Sends-bind run f s quiet = record {
    at = λ h. let (r, h') = run h in Sends-after r h h' f quiet (s.at h);
  }

module _ (m : Machine) where
  terminate-Sends : (pid : ℤ) → Sends pid (terminate_managed_process m pid)
  unfolding terminate_managed_process
  terminate-Sends pid = record { at = λ h. ground arith }

  pub end_recorded-Sends : (s : ProxifyState) → Sends s.pid (end_recorded m s)
  unfolding end_recorded
  end_recorded-Sends s =
      Sends-bind s.pid _ _ (terminate-Sends s.pid)
        λ u. search (frame_rules, wait_for_exit-Frame, matches-Frame, on_files-Frame) depth 12

  -- One signal at most, and only to the process that the file names, while it runs with the start
  -- token that the file has.
  pub Careful : Host → Host → Type 0
  Careful h h' =
      (h'.signals ≡ h.signals)
      ⊎ ((s : ProxifyState) × ((on_files m read_proxify_state h).0 ≡ ok s)
          × (runs_as m h s.pid s.start_token ≡ true)
          × (h'.signals ≡ s.pid ∷ h.signals))

  pub stop_recorded-running :
      (s : ProxifyState) (h : Host)
      → runs_as m h s.pid s.start_token ≡ true
      → stop_recorded m (ok s) h ≡ end_recorded m s h
  unfolding stop_recorded matches gets refuse_if return ◌>>=◌
  stop_recorded-running s h runs = simp runs refl

  pub stop_recorded-gone :
      (s : ProxifyState) (h : Host)
      → runs_as m h s.pid s.start_token ≡ false
      → stop_recorded m (ok s) h ≡ (err process_not_running, h)
  unfolding stop_recorded matches gets refuse_if fail ◌>>=◌
  stop_recorded-gone s h gone = simp gone refl

  stop_running-Careful :
      (s : ProxifyState) (h : Host)
      → (on_files m read_proxify_state h).0 ≡ ok s
      → Careful h (stop_recorded m (ok s) h).1
  unfolding Careful
  stop_running-Careful s h found = elim (Bool-cases (runs_as m h s.pid s.start_token)) [
    | inl runs ↦
        let e = stop_recorded-running s h runs in
        elim ((end_recorded-Sends s).at h) [
          | inl quiet ↦ inl (ap (λ r. r.1.signals) e ∙ quiet)
          | inr sent ↦ inr (s, found, runs, ap (λ r. r.1.signals) e ∙ sent)
        ]
    | inr gone ↦ inl (ap (λ r. r.1.signals) (stop_recorded-gone s h gone))
  ]

  stop_recorded-err : (e : Error) (h : Host) → (stop_recorded m (err e) h).1 ≡ h
  unfolding stop_recorded fail
  stop_recorded-err (not_exist path) h = refl
  stop_recorded-err e h = refl

  stop_recorded-Careful :
      (found : Outcome ProxifyState) (h : Host)
      → (on_files m read_proxify_state h).0 ≡ found
      → Careful h (stop_recorded m found h).1
  unfolding Careful
  stop_recorded-Careful (ok s) h e = stop_running-Careful s h e
  stop_recorded-Careful (err x) h e = inl (ap (λ k. k.signals) (stop_recorded-err x h))

-- A command on files that leaves the files alone leaves everything alone.
module _ {A : Type 0} (m : Machine) (run : Env → Run A) where
  pub on_files-same : ((env : Env) → Frame (λ w. w) (run env)) → Frame (λ h. h) (on_files m run)
  unfolding on_files
  on_files-same same = record { at = λ h. ap (λ w. record h { world = w }) ((same _).at h.world) }

pub read_proxify_state-Frame : (env : Env) → Frame (λ w. w) (read_proxify_state env)
unfolding read_proxify_state
read_proxify_state-Frame env = search (frame_rules, config_directory-Frame, read_slot-Frame)

module _ (m : Machine) where
  pub read_state_file-same : Frame (λ h. h) (on_files m read_proxify_state)
  read_state_file-same = on_files-same m read_proxify_state read_proxify_state-Frame

  -- Without arguments, a stop acts on what the state file says.
  pub proxify_stop-read :
      (h : Host) → proxify_stop m [] h ≡ stop_recorded m (on_files m read_proxify_state h).0 h
  unfolding proxify_stop refuse_if attempt return ◌>>=◌
  proxify_stop-read h =
      ap (stop_recorded m (on_files m read_proxify_state h).0) (read_state_file-same.at h)

  proxify_stop-refused :
      (a : Bytes) (args : List Bytes) (h : Host) → Careful m h (proxify_stop m (a ∷ args) h).1
  unfolding proxify_stop Careful refuse_if fail ◌>>=◌
  proxify_stop-refused a args h = inl refl

  -- Whatever the state is: `proxify stop` sends at most one signal, and it sends that one to the
  -- process that the state file names, and only while a process with that pid runs with the start
  -- token of the file. A process that took over the pid is never told to end.
  pub proxify_stop-Careful : (args : List Bytes) (h : Host) → Careful m h (proxify_stop m args h).1
  proxify_stop-Careful [] h =
      subst (λ r. Careful m h r.1) (sym (proxify_stop-read h)) (stop_recorded-Careful m _ h refl)
  proxify_stop-Careful (a ∷ args) h = proxify_stop-refused a args h
