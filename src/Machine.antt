-- ===== src/Machine.antt =====
-- The processes that the commands start and stop, cli/process_linux.go: a table of processes beside
-- the files, and the signals that were sent. A process that is told to end does so after some
-- time, or never; what else a program does is given with the machine.
pub mod Proxify
pub mod Mitm
pub mod Serve
pub mod Signals
pub mod Owned
pub mod Ended
pub mod Stopped
pub mod Started
pub mod Launched
use http_capture.Prelude.{
  ℕ, zero, suc, Bool, true, false, not, ℤ, eq_int, Bytes, codes, List, [], ◌∷◌, Option, none, some,
  if◌then◌else◌,
}
use http_capture.Errors.{Error, process_not_running, process_exited, process_not_ready}
use http_capture.Effects.{Outcome, ok, err, M, ◌>>=◌, ◌>>◌, return, fail, gets, modify, refuse_if}
use http_capture.World.{World, Env, Run, Slot}
use http_capture.Processes.{managed_process_matches}

pub record Process : Type 0 where
  pub pid : ℤ
  pub start_token : Bytes
  -- the state in /proc: Z is a process that has ended and was not waited for
  pub state : Bytes
  -- how many ticks it still runs, once it was told to end
  pub ending : Option ℕ

pub record Host : Type 0 where
  pub world : World
  pub processes : List Process
  -- the processes that were sent SIGTERM, latest first
  pub signals : List ℤ

-- A program that is started: the process, what /proc shows of it at once, and at each look
-- whether it still runs and whether it is ready.
pub record Spawned : Type 0 where
  pub pid : ℤ
  pub start_token : Option Bytes
  pub alive : ℕ → Bool
  pub ready : ℕ → Bool

pub record Machine : Type 0 where
  pub env : Env
  -- the ticks that a process runs after SIGTERM; `none` where it ignores it
  pub obeys : ℤ → Option ℕ
  pub kill_refused : ℤ → Bool
  pub spawn : Option Spawned
  pub port_free : Bool
  pub executable : Option Bytes
  -- `strconv.ParseInt` with any base, as package flag reads a number
  pub parse_int : Bytes → Option ℤ
  pub version : Bytes
  pub source_revision : Bytes

abbrev pub HostRun : Type 0 → Type 0
HostRun A = M Host A

unfoldable pub find_process : ℤ → List Process → Option (Bytes × Bytes)
find_process pid [] = none
find_process pid (p ∷ processes) =
    if eq_int p.pid pid then some (p.start_token, p.state) else find_process pid processes

-- SIGTERM: how long the process still runs from now on.
unfoldable pub end_process : ℤ → Option ℕ → List Process → List Process
end_process pid time [] = []
end_process pid time (p ∷ processes) =
    let rest = end_process pid time processes in
    if eq_int p.pid pid then record p { ending = time } ∷ rest else p ∷ rest

-- A tick: processes whose time is over are gone.
unfoldable pub tick_processes : List Process → List Process
tick_processes [] = []
tick_processes (p ∷ processes) =
    let rest = tick_processes processes in
    elim p.ending [
      | none ↦ p ∷ rest
      | some n ↦ elim n [ zero ↦ rest | suc m ↦ record p { ending = some m } ∷ rest ]
    ]

unfoldable pub without_process : ℤ → List Process → List Process
without_process pid [] = []
without_process pid (p ∷ processes) =
    let rest = without_process pid processes in if eq_int p.pid pid then rest else p ∷ rest

abbrev pub is_there : Option (Bytes × Bytes) → Bool
is_there none = false
is_there (some identity) = true

unfoldable pub sleep : HostRun (Unit {0})
sleep = modify (λ h. record h { processes = tick_processes h.processes })

-- A new process; its table entry goes when a look finds that it does not run any more.
unfoldable pub start_process : Spawned → Bytes → HostRun (Unit {0})
start_process s token = modify (λ h. record h {
  processes =
      record { pid = s.pid; start_token = token; state = codes "S"; ending = none } ∷ h.processes;
})

unfoldable pub look : Spawned → ℕ → HostRun (Unit {0})
look s n =
    if s.alive n
    then return tt
    else modify (λ h. record h { processes = without_process s.pid h.processes })

module _ (m : Machine) where
  -- What a command on files finds: the processes as they are now.
  abbrev pub env_of : Host → Env
  env_of h = record m.env { process_identity = λ pid. find_process pid h.processes }

  abbrev moved : {A : Type 0} → Host → Outcome A × World → Outcome A × Host
  moved h (r, w) = (r, record h { world = w })

  unfoldable pub on_files : {A : Type 0} → (Env → Run A) → HostRun A
  on_files run h = moved h (run (env_of h) h.world)

  abbrev pub runs_as : Host → ℤ → Bytes → Bool
  runs_as h pid token = managed_process_matches (env_of h) pid token

  unfoldable pub matches : ℤ → Bytes → HostRun Bool
  matches pid token = gets (λ h. runs_as h pid token)

  -- `syscall.Kill` with SIGTERM.
  unfoldable pub terminate_managed_process : ℤ → HostRun (Unit {0})
  terminate_managed_process pid h =
      if not (is_there (find_process pid h.processes))
      then (err process_not_running, h)
      else if m.kill_refused pid
      then (err process_not_running, h)
      else (
        ok tt,
        record h {
          processes = end_process pid (m.obeys pid) h.processes;
          signals = pid ∷ h.signals;
        },
      )

  -- At most so many looks, one in each tenth of a second.
  unfoldable pub wait_for_exit : ℕ → ℤ → Bytes → HostRun (Unit {0})
  wait_for_exit zero pid token = return tt
  wait_for_exit (suc n) pid token =
      let rest = wait_for_exit n pid token in
      do running ← matches pid token; if running then (sleep >>= λ u. rest) else return tt
