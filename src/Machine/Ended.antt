-- ===== src/Machine/Ended.antt =====
-- A process that was told to end: how the process table loses it, and that the looks of
-- `proxifyStop` in cli/proxy_proxify.go are enough for that.
use http_capture.Prelude.{
  ℕ, zero, suc, ltb, Bool, true, false, not, ◌&&◌, ◌||◌, ℤ, eq_int, Bytes, List, [], ◌∷◌, Option,
  none, some, ◌≡◌, refl, sym, subst, inl, inr, arith, Bool-cases,
}
use http_capture.Effects.{Outcome, ok, ◌>>=◌, return, gets, modify}
use http_capture.Processes.{managed_process_matches}
use http_capture.Machine.{
  Process, Host, Machine, terminate_managed_process, is_there, find_process, end_process,
  tick_processes, matches, runs_as, sleep, wait_for_exit,
}

-- The process is gone within so many ticks.
unfoldable pub ends_within : ℕ → Option ℕ → Bool
ends_within n none = false
ends_within n (some k) = ltb k n

-- Each process with this pid is gone within so many ticks.
unfoldable pub all_end : ℤ → ℕ → List Process → Bool
all_end pid n [] = true
all_end pid n (p ∷ processes) =
    (not (eq_int p.pid pid) || ends_within n p.ending) && all_end pid n processes

-- Told to end within `k` ticks, so gone within more than `k`.
pub end_process-all_end :
    (pid : ℤ) (n k : ℕ) (processes : List Process)
    → ltb k n ≡ true
    → all_end pid n (end_process pid (some k) processes) ≡ true
unfolding all_end end_process ends_within
end_process-all_end pid n k [] h = refl
end_process-all_end pid n k (p ∷ processes) h =
    let rest = end_process-all_end pid n k processes h in ground arith

tick-all_end :
    (pid : ℤ) (n : ℕ) (processes : List Process)
    → all_end pid (suc n) processes ≡ true
    → all_end pid n (tick_processes processes) ≡ true
unfolding all_end tick_processes ends_within
tick-all_end pid n [] h = refl
tick-all_end pid n (p ∷ processes) h = let rest = tick-all_end pid n processes in ground arith

all_end-gone :
    (pid : ℤ) (processes : List Process)
    → all_end pid 0 processes ≡ true
    → find_process pid processes ≡ none
unfolding all_end find_process ends_within
all_end-gone pid [] h = refl
all_end-gone pid (p ∷ processes) h = let rest = all_end-gone pid processes in ground arith

module _ (m : Machine) where
  gone-runs_as :
      (h : Host) (pid : ℤ) (token : Bytes)
      → find_process pid h.processes ≡ none
      → runs_as m h pid token ≡ false
  unfolding managed_process_matches
  gone-runs_as h pid token e = rw (e)

  -- What is left of the wait, once it is clear whether the process runs.
  wait_for_exit-stopped :
      (n : ℕ) (pid : ℤ) (token : Bytes) (h : Host)
      → runs_as m h pid token ≡ false
      → wait_for_exit m (suc n) pid token h ≡ (ok tt, h)
  unfolding wait_for_exit matches gets return ◌>>=◌
  wait_for_exit-stopped n pid token h e = simp e refl

  wait_for_exit-running :
      (n : ℕ) (pid : ℤ) (token : Bytes) (h : Host)
      → runs_as m h pid token ≡ true
      → wait_for_exit m (suc n) pid token h
        ≡ wait_for_exit m n pid token (record h { processes = tick_processes h.processes })
  unfolding wait_for_exit matches sleep gets modify return ◌>>=◌
  wait_for_exit-running n pid token h e = simp e refl

  -- The wait is over without an error, and the process is gone.
  unfoldable pub Ends : ℤ → Bytes → Host → Outcome (Unit {0}) × Host → Type 0
  Ends pid token h (r, h') = (r ≡ ok tt) × (runs_as m h' pid token ≡ false) × (h'.world ≡ h.world)

  wait_for_exit-zero :
      (pid : ℤ) (token : Bytes) (h : Host) → wait_for_exit m 0 pid token h ≡ (ok tt, h)
  unfolding wait_for_exit return
  wait_for_exit-zero pid token h = refl

  pub wait_for_exit-Ends :
      (n : ℕ) (pid : ℤ) (token : Bytes) (h : Host)
      → all_end pid n h.processes ≡ true
      → Ends pid token h (wait_for_exit m n pid token h)
  unfolding Ends
  wait_for_exit-Ends zero pid token h e =
      subst (Ends pid token h) (sym (wait_for_exit-zero pid token h))
        (refl, gone-runs_as h pid token (all_end-gone pid h.processes e), refl)
  wait_for_exit-Ends (suc n) pid token h e = elim (Bool-cases (runs_as m h pid token)) [
    | inl runs ↦ subst (Ends pid token h) (sym (wait_for_exit-running n pid token h runs)) (
        wait_for_exit-Ends n pid token (record h { processes = tick_processes h.processes })
          (tick-all_end pid n h.processes e))
    | inr stopped ↦
        subst (Ends pid token h) (sym (wait_for_exit-stopped n pid token h stopped))
          (refl, stopped, refl)
  ]

  pub runs_as-is_there :
      (h : Host) (pid : ℤ) (token : Bytes)
      → runs_as m h pid token ≡ true
      → is_there (find_process pid h.processes) ≡ true
  unfolding managed_process_matches
  runs_as-is_there h pid token e = ground arith

  -- The process table and the signals once a process was told to end.
  abbrev pub told : ℤ → Host → Host
  told pid h = record h {
    processes = end_process pid (m.obeys pid) h.processes;
    signals = pid ∷ h.signals;
  }

  pub terminate-told :
      (h : Host) (pid : ℤ)
      → is_there (find_process pid h.processes) ≡ true
      → m.kill_refused pid ≡ false
      → terminate_managed_process m pid h ≡ (ok tt, told pid h)
  unfolding terminate_managed_process
  terminate-told h pid there fine = simp (there, fine) refl
