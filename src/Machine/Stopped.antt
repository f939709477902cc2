-- ===== src/Machine/Stopped.antt =====
-- What `proxifyStop` of cli/proxy_proxify.go leaves behind when it succeeds, and when it does.
use http_capture.Prelude.{
  ℕ, ltb, true, false, ℤ, Bytes, [], Option, none, some, ◌≡◌, inl, inr, refl, ap, ◌∙◌, sym, subst,
}
use http_capture.Errors.{Error, remove_file, process_did_not_exit}
use http_capture.Effects.{
  Outcome, ok, err, Outcome-cases, ◌>>=◌, ◌>>◌, return, gets, modify, attempt, refuse_if, after,
}
use http_capture.World.{ProxifyState, World, Env, Slot, fine, system, config_directory}
use http_capture.Session.Frames.{config_directory-Frame}
use http_capture.Processes.{read_proxify_state}
use http_capture.Machine.{
  Host, HostRun, Machine, env_of, on_files, matches, runs_as, terminate_managed_process,
  wait_for_exit,
}
use http_capture.Machine.Proxify.{
  remove_state_in, remove_proxify_state, end_recorded, stop_recorded, proxify_stop,
}
use http_capture.Machine.Signals.{proxify_stop-read, stop_recorded-running}
use http_capture.Machine.Ended.{
  Ends, told, all_end, end_process-all_end, wait_for_exit-Ends, runs_as-is_there, terminate-told,
}

-- The state file is gone.
Removed : Outcome (Unit {0}) × World → Type 0
Removed (r, w) = (r ≡ ok tt) × (w.proxify ≡ none)

module _ (env : Env) (removable : (path : Bytes) → env.fault (remove_file path) ≡ fine) where
  remove_found :
      (directory : Bytes) (found : Option (Slot ProxifyState)) (w : World)
      → w.proxify ≡ found
      → Removed (remove_state_in env (ok directory) found w)
  unfolding remove_state_in Removed system modify return ◌>>=◌
  remove_found directory none w e = (refl, e)
  remove_found directory (some s) w e = simp (removable _) (refl, refl)

  remove_removes :
      (directory : Bytes) (w : World)
      → config_directory env w ≡ (ok directory, w)
      → Removed (remove_proxify_state env w)
  unfolding remove_proxify_state attempt gets ◌>>=◌
  remove_removes directory w e = rw (e) (remove_found directory w.proxify w refl)

after-err :
    {W A B : Type 0} (r : Outcome A × W) (f : A → W → Outcome B × W) (e : Error)
    → r.0 ≡ err e
    → (after r f).0 ≡ err e
after-err (ok a, w) f e h = cc
after-err (err x, w) f e h = cc

-- A state file that was read is in a directory that can be used.
read-directory :
    (env : Env) (w : World) (s : ProxifyState)
    → (read_proxify_state env w).0 ≡ ok s
    → (directory : Bytes) × (config_directory env w ≡ (ok directory, w))
unfolding read_proxify_state ◌>>=◌
read-directory env w s h =
    let same = (config_directory-Frame {view = λ w. w} env).at w in
    elim (Outcome-cases (config_directory env w).0) [
      | inl (directory, e) ↦ (directory, cc)
      | inr (e, failed) ↦ let bad = sym h ∙ after-err _ _ e failed in cc
    ]

module _ (m : Machine) where
  -- What follows the wait in a stop.
  abbrev last_look : ProxifyState → HostRun (Unit {0})
  last_look s = do
    running ← matches m s.pid s.start_token
    refuse_if running process_did_not_exit
    on_files m remove_proxify_state

  -- The stop has succeeded: the process is gone, and so is its state file.
  pub Stopped : ProxifyState → Outcome (Unit {0}) × Host → Type 0
  Stopped s (r, h) =
      (r ≡ ok tt) × (runs_as m h s.pid s.start_token ≡ false) × (h.world.proxify ≡ none)

  last_look-gone :
      (s : ProxifyState) (h : Host)
      → runs_as m h s.pid s.start_token ≡ false
      → last_look s h ≡ on_files m remove_proxify_state h
  unfolding matches gets return ◌>>=◌
  last_look-gone s h e = simp e refl

  end_recorded-told :
      (s : ProxifyState) (h : Host)
      → terminate_managed_process m s.pid h ≡ (ok tt, told m s.pid h)
      → end_recorded m s h
        ≡ after (wait_for_exit m 50 s.pid s.start_token (told m s.pid h)) (λ u. last_look s)
  unfolding end_recorded ◌>>=◌
  end_recorded-told s h e = rw (e)

  module _ (removable : (path : Bytes) → m.env.fault (remove_file path) ≡ fine) where
    files_removed :
        (s : ProxifyState) (h : Host) (directory : Bytes)
        → config_directory (env_of m h) h.world ≡ (ok directory, h.world)
        → runs_as m h s.pid s.start_token ≡ false
        → Stopped s (on_files m remove_proxify_state h)
    unfolding Stopped Removed on_files
    files_removed s h directory e gone =
        let (r, removed) = remove_removes (env_of m h) removable directory h.world e in
        (r, gone, removed)

    -- Where the directory can be used, it can be used at any time.
    same_directory :
        (h h' : Host) (directory : Bytes)
        → config_directory (env_of m h) h.world ≡ (ok directory, h.world)
        → h'.world ≡ h.world
        → config_directory (env_of m h') h'.world ≡ (ok directory, h'.world)
    unfolding config_directory system ◌>>=◌
    same_directory h h' directory e same =
        subst (λ w. config_directory (env_of m h') w ≡ (ok directory, w)) (sym same) e

    after_wait :
        (s : ProxifyState) (h : Host) (directory : Bytes) (r : Outcome (Unit {0})) (h' : Host)
        → config_directory (env_of m h) h.world ≡ (ok directory, h.world)
        → Ends m s.pid s.start_token h (r, h')
        → Stopped s (after (r, h') (λ u. last_look s))
    unfolding Ends
    after_wait s h directory (ok u) h' e (succeeds, gone, same) =
        subst (Stopped s) (sym (last_look-gone s h' gone))
          (files_removed s h' directory (same_directory h h' directory e same) gone)
    after_wait s h directory (err x) h' e (succeeds, gone, same) = cc

    all_told :
        (pid : ℤ) (n : ℕ) (h : Host)
        → m.obeys pid ≡ some n
        → ltb n 50 ≡ true
        → all_end pid 50 (told m pid h).processes ≡ true
    all_told pid n h obeys soon = rw (obeys) (end_process-all_end pid 50 n h.processes soon)

    -- A stop succeeds when the process does what it is told: if the state file names a process that
    -- runs, which may be signalled and which ends within fewer than fifty looks after SIGTERM, and
    -- files can be removed, then `proxify stop` returns without an error, the process does not run
    -- any more and the state file is gone.
    pub proxify_stop-Stopped :
        (s : ProxifyState) (h : Host) (n : ℕ)
        → (on_files m read_proxify_state h).0 ≡ ok s
        → runs_as m h s.pid s.start_token ≡ true
        → m.kill_refused s.pid ≡ false
        → m.obeys s.pid ≡ some n
        → ltb n 50 ≡ true
        → Stopped s (proxify_stop m [] h)
    unfolding on_files
    proxify_stop-Stopped s h n found runs signalled obeys soon =
        let (directory, e) = read-directory (env_of m h) h.world s found in
        let told_h = terminate-told m h s.pid (runs_as-is_there m h _ _ runs) signalled in
        let ends =
          wait_for_exit-Ends m 50 s.pid s.start_token (told m s.pid h)
            (all_told s.pid n h obeys soon) in
        subst (Stopped s)
          (sym (
            proxify_stop-read m h
            ∙ ap (λ r. stop_recorded m r h) found
            ∙ stop_recorded-running m s h runs
            ∙ end_recorded-told s h told_h))
          (after_wait s (told m s.pid h) directory _ _
            (same_directory h (told m s.pid h) directory e refl) ends)
