-- ===== src/Examples/Streams.antt =====
-- A browser that follows a session with three requests, one of which it has.
use http_capture.Prelude.{
  zero, suc, ◌≤◌, ℕ, pos, codes, [], ◌∷◌, true, false, ◌≡◌, refl, str_eq, arith,
}
use http_capture.Effects.{ok}
use http_capture.Live.{LiveRequestSummary, Tables, Digest, Live, Tick, newest, revision_text}
use http_capture.Live.Ends.{Ends}
use http_capture.Live.Handler.{live_tick}
use http_capture.Live.Delivery.{Delivers}
use http_capture.Live.Ticks.{unchanged, live_tick-Delivers}
use http_capture.Live.Pages.{Ascending}

abbrev request_with : ℕ → LiveRequestSummary
request_with id = record {
  session_id = codes "S";
  request_id = id;
  timestamp_millis = pos 5;
  method = codes "GET";
  url = codes "http://h/";
  status = pos 200;
  duration_millis = pos 1;
}

abbrev three : Tables
three = record {
  sessions = [];
  resets = (codes "S", pos 1) ∷ [];
  requests = request_with 1 ∷ request_with 4 ∷ request_with 6 ∷ [];
  refuses = λ query. false;
}

abbrev digest : Digest
digest = record { quote = λ s. s; sha256_hex = λ s. s }

abbrev has_one : Live
has_one = record { revision = codes "r"; last_id = 1; reset_epochs = []; sent = [] }

in_order : Ascending 0 three.requests
in_order = (omega arith, (omega arith, (omega arith, tt)))

changed : str_eq (digest.sha256_hex (revision_text digest three.sessions)) has_one.revision ≡ false
unfolding revision_text str_eq
changed = refl

known_before : has_one.last_id ≤ newest three.requests
unfolding newest
known_before = omega arith

live_tick-Delivers_example :
    Delivers three has_one (live_tick (λ sent event. true) digest (unchanged three) has_one)
live_tick-Delivers_example =
    live_tick-Delivers (λ sent event. true) (λ sent event. refl) three in_order (λ query. refl)
      digest has_one changed known_before

-- A tick of which the second page fails to be read.
abbrev failing : Tick
failing = record {
  rescan = ok tt;
  revision_in = three;
  resets_in = three;
  latest_in = three;
  page_in = λ k. elim k [ zero ↦ three | suc n ↦ record three { refuses = λ query. true } ];
}
