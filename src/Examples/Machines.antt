-- ===== src/Examples/Machines.antt =====
-- One computer on which the proxy runs, or is started, as an example of what the processes need.
use http_capture.Prelude.{
  zero, suc, true, false, pos, codes, [], ◌∷◌, none, some, ◌≡◌, refl, str_eq,
}
use http_capture.Effects.{ok, ◌>>=◌, return}
use http_capture.Flags
use http_capture.World.{system, config_directory, read_slot, find_file}
use http_capture.Processes.{managed_process_matches, read_proxify_state}
use http_capture.Machine.{Host, Machine, Spawned, on_files, runs_as, find_process}
use http_capture.Machine.Proxify.{proxify_stop}
use http_capture.Machine.Serve.{stop_serve_started_proxify}
use http_capture.Machine.Signals.{Careful, proxify_stop-Careful}
use http_capture.Machine.Owned.{Owned, stop_serve_started_proxify-Owned}
use http_capture.Machine.Stopped.{Stopped, proxify_stop-Stopped}
use http_capture.Examples.Data.{calm, idle, proxy_one}

-- The program that is started; it is ready at the second look.
abbrev proxy : Spawned
proxy = record {
  pid = pos 12;
  start_token = some (codes "99");
  alive = λ n. true;
  ready = λ n. elim n [ zero ↦ false | suc k ↦ true ];
}

abbrev computer : Machine
computer = record {
  env = calm;
  obeys = λ pid. some 2;
  kill_refused = λ pid. false;
  spawn = some proxy;
  port_free = true;
  executable = some (codes "/bin/httpcapture");
  parse_int = λ text. some (pos 8899);
  version = codes "1";
  source_revision = codes "a";
}

-- The proxy of the state file runs.
abbrev running : Host
running = record {
  world = idle;
  processes =
      record { pid = pos 9; start_token = codes "77"; state = codes "S"; ending = none } ∷ [];
  signals = [];
}

abbrev quiet : Host
quiet = record running { processes = [] }

proxy_found : (on_files computer read_proxify_state running).0 ≡ ok proxy_one
unfolding on_files read_proxify_state config_directory system read_slot ◌>>=◌ return find_file
    str_eq
proxy_found = refl

proxy_runs : runs_as computer running proxy_one.pid proxy_one.start_token ≡ true
unfolding managed_process_matches find_process str_eq
proxy_runs = refl

proxify_stop-Careful_example : Careful computer running (proxify_stop computer [] running).1
proxify_stop-Careful_example = proxify_stop-Careful computer [] running

proxify_stop-Stopped_example : Stopped computer proxy_one (proxify_stop computer [] running)
proxify_stop-Stopped_example =
    proxify_stop-Stopped computer (λ path. refl) proxy_one running 2 proxy_found proxy_runs refl
      refl refl

stop_serve_started_proxify-Owned_example :
    Owned computer proxy_one running
      (stop_serve_started_proxify computer (some proxy_one) running).1
stop_serve_started_proxify-Owned_example =
    stop_serve_started_proxify-Owned computer proxy_one running
