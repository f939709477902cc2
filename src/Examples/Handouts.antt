-- ===== src/Examples/Handouts.antt =====
-- Requests to the pairing server: a download that fails, another one, and the acknowledgement.
use http_capture.Prelude.{codes, [], true, false, refl, ltb, ◌≡◌, str_eq}
use http_capture.Control.Pairing.{get, post}
use http_capture.Handout.{
  PairingServer, Shared, arrives, finishes, Reaches, here, next, untouched, handle, claim,
  finish_write,
}
use http_capture.Handout.Once.{HandedOutOnce, Reaches-HandedOutOnce}

abbrev server : PairingServer
server = record { path = codes "/p/T"; url = codes "http://h/p/T"; bundle = codes "{}" }

asked_twice : Shared
asked_twice = (handle server server.path [] get (handle server server.path [] get untouched).1).1

asked_twice-Reached : Reaches server untouched asked_twice
unfolding asked_twice
asked_twice-Reached = next (next here (arrives server.path [] get)) (arrives server.path [] get)

one_writes : ltb 0 asked_twice.writing ≡ true
unfolding asked_twice handle claim str_eq
one_writes = refl

asked_again : Shared
asked_again = (handle server server.path [] get (finish_write false asked_twice)).1

asked_again-Reached : Reaches server untouched asked_again
unfolding asked_again
asked_again-Reached =
    next (next asked_twice-Reached (finishes false one_writes)) (arrives server.path [] get)

other_writes : ltb 0 asked_again.writing ≡ true
unfolding asked_again asked_twice handle claim finish_write str_eq
other_writes = refl

Reaches-HandedOutOnce_example :
    HandedOutOnce (handle server server.path [] post (finish_write true asked_again)).1
Reaches-HandedOutOnce_example =
    Reaches-HandedOutOnce server
      (handle server server.path [] post (finish_write true asked_again)).1
      (next (next asked_again-Reached (finishes true other_writes)) (arrives server.path [] post))
