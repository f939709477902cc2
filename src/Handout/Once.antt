-- ===== src/Handout/Once.antt =====
-- However the handlers of cli/pairing_server.go interleave, the bundle is handed out once.
use http_capture.Prelude.{
  ◌+◌, Bool, true, false, not, ◌||◌, ltb, ◌==◌, Bytes, [], ◌≡◌, refl, arith, if◌then◌else◌, str_eq,
}
use http_capture.Control.Pairing.{Method, get, post, put, other}
use http_capture.Handout.{
  PairingServer, Shared, claim, acknowledge, finish_write, one_less, handle, Step, arrives,
  finishes, Reaches, here, next, untouched,
}

-- The flag tells whether somebody has the bundle: one writes it or one has it, or nobody. An
-- acknowledgement was given only after somebody claimed the bundle.
pub record HandedOutOnce (s : Shared) : Type 0 where
  pub flag : s.writing + s.delivered ≡ (if s.downloaded then 1 else 0)
  pub claimed_first : (ltb 0 s.claimed || s.acknowledged == 0) ≡ true
  pub claim_counted : (ltb 0 s.claimed || not s.downloaded) ≡ true
  pub signal : (not s.acked || ltb 0 s.acknowledged) ≡ true

untouched-HandedOutOnce : HandedOutOnce untouched
untouched-HandedOutOnce = record {
  flag = refl;
  claimed_first = refl;
  claim_counted = refl;
  signal = refl;
}

claim-HandedOutOnce : (s : Shared) → HandedOutOnce s → HandedOutOnce (claim s).1
unfolding claim
claim-HandedOutOnce s h = record {
  flag = ground (arith, h.flag);
  claimed_first = ground (arith, h.claimed_first);
  claim_counted = ground (arith, h.claim_counted);
  signal = ground (arith, h.signal);
}

acknowledge-HandedOutOnce : (s : Shared) → HandedOutOnce s → HandedOutOnce (acknowledge s).1
unfolding acknowledge
acknowledge-HandedOutOnce s h = record {
  flag = ground (arith, h.flag);
  claimed_first = ground (arith, h.claimed_first, h.claim_counted);
  claim_counted = ground (arith, h.claim_counted);
  signal = ground (arith, h.signal);
}

finish-HandedOutOnce :
    (fine : Bool) (s : Shared)
    → ltb 0 s.writing ≡ true
    → HandedOutOnce s
    → HandedOutOnce (finish_write fine s)
unfolding finish_write one_less
finish-HandedOutOnce true s w h = record {
  flag = ground (arith, h.flag, w);
  claimed_first = h.claimed_first;
  claim_counted = h.claim_counted;
  signal = h.signal;
}
finish-HandedOutOnce false s w h = record {
  flag = ground (arith, h.flag, w);
  claimed_first = h.claimed_first;
  claim_counted = ground (arith, h.claim_counted);
  signal = h.signal;
}

method-HandedOutOnce :
    (server : PairingServer) (path query : Bytes) (method : Method) (s : Shared) (b : Bool)
    → (not (str_eq path server.path) || not (str_eq query [])) ≡ b
    → HandedOutOnce s
    → HandedOutOnce (handle server path query method s).1
unfolding handle
method-HandedOutOnce server path query method s true e h = simp e h
method-HandedOutOnce server path query get s false e h = simp e (claim-HandedOutOnce s h)
method-HandedOutOnce server path query post s false e h = simp e (acknowledge-HandedOutOnce s h)
method-HandedOutOnce server path query put s false e h = simp e h
method-HandedOutOnce server path query other s false e h = simp e h

Step-HandedOutOnce :
    (server : PairingServer) {s t : Shared} → Step server s t → HandedOutOnce s → HandedOutOnce t
Step-HandedOutOnce server (arrives path query method) h =
    method-HandedOutOnce server path query method _ _ refl h
Step-HandedOutOnce server (finishes fine w) h = finish-HandedOutOnce fine _ w h

-- However requests to the pairing server interleave, and whichever writes fail, at most one request
-- at a time writes the bundle or has written it, and `downloaded` tells whether one does; a post
-- is acknowledged, and the waiting command told, only after the bundle was claimed.
pub Reaches-HandedOutOnce :
    (server : PairingServer) (s : Shared) → Reaches server untouched s → HandedOutOnce s
Reaches-HandedOutOnce server s here = untouched-HandedOutOnce
Reaches-HandedOutOnce server s (next r step) =
    Step-HandedOutOnce server step (Reaches-HandedOutOnce server _ r)
