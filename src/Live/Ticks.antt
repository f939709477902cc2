-- ===== src/Live/Ticks.antt =====
-- What a whole tick of cli/web_live.go sends when nothing fails: the new requests, among its other events.
use http_capture.Prelude.{
  ◌-◌, ◌≤◌, Bool, true, false, ltb, Bytes, List, [], ◌∷◌, ◌++◌, append-nil, ◌≡◌, refl, subst, arith,
  ap, sym, ◌∙◌, str_eq,
}
use http_capture.Effects.{ok}
use http_capture.Live.{
  Tables, Digest, LiveQuery, latest_query, epochs_query, revision_query, revision_text, LiveEvent,
  index_changed, refresh, reset, Live, Tick, Ending, goes_on, ended, out_of_fuel, live_revision,
  live_reset_epochs, latest_live_request_id, later_than, newest,
}
use http_capture.Live.Handler.{
  if_sent, tell_changed, tell_requests, tell_resets, with_epochs, with_revision, live_tick,
}
use http_capture.Live.Pages.{Ascending}
use http_capture.Live.Delivery.{Delivers, delivered, delivered-append, is_sent, send_pages-Delivers}

-- A tick whose scan succeeds and whose queries all see the same tables.
abbrev pub unchanged : Tables → Tick
unchanged tables = record {
  rescan = ok tt;
  revision_in = tables;
  resets_in = tables;
  latest_in = tables;
  page_in = λ k. tables;
}

-- The queries of a tick see these tables, each of them answers, and the browser takes what is sent.
module _ (accepts : List LiveEvent → LiveEvent → Bool)
    (takes : (sent : List LiveEvent) (event : LiveEvent) → accepts sent event ≡ true)
    (tables : Tables) (ascending : Ascending 0 tables.requests)
    (answers : (query : LiveQuery) → tables.refuses query ≡ false) where
  -- Events without requests do not count.
  Delivers-from :
      (l l' : Live) (run : Ending × Live)
      → l'.last_id ≡ l.last_id
      → delivered l'.sent ≡ delivered l.sent
      → Delivers tables l' run
      → Delivers tables l run
  Delivers-from l l' run same_id same d = record {
    on = d.on;
    all =
        d.all
        ∙ ap (λ s. s ++ later_than l'.last_id tables.requests) same
        ∙ ap (λ id. delivered l.sent ++ later_than id tables.requests) same_id;
    none_left = d.none_left;
  }

  without_requests :
      (sent : List LiveEvent) (event : LiveEvent)
      → delivered (event ∷ []) ≡ []
      → delivered (sent ++ (event ∷ [])) ≡ delivered sent
  without_requests sent event e =
      delivered-append sent (event ∷ [])
      ∙ ap (λ s. delivered sent ++ s) e
      ∙ append-nil (delivered sent)

  tell_changed-Delivers :
      (l : Live) (run : Ending × Live)
      → Delivers tables l run
      → Delivers tables l (tell_changed accepts run)
  unfolding tell_changed delivered
  tell_changed-Delivers l (goes_on, l') d =
      subst (Delivers tables l) (sym (is_sent accepts takes (refresh index_changed) l' _)) (record {
        on = refl;
        all = without_requests l'.sent (refresh index_changed) refl ∙ d.all;
        none_left = d.none_left;
      })
  tell_changed-Delivers l (ended, l') d = d
  tell_changed-Delivers l (out_of_fuel, l') d = d

  tell_requests-Delivers :
      (l : Live)
      → l.last_id ≤ newest tables.requests
      → Delivers tables l (tell_requests accepts (unchanged tables) (ok (newest tables.requests)) l)
  unfolding tell_requests
  tell_requests-Delivers l h =
      let forward : ltb (newest tables.requests) l.last_id ≡ false = ground (arith, h) in
      simp forward (
        tell_changed-Delivers l _ (
          send_pages-Delivers accepts takes tables ascending answers
            (newest tables.requests - l.last_id) l (omega (arith, h))))

  tell_resets-Delivers :
      (ids : List Bytes) (l : Live) (next : Live → Ending × Live)
      → ((l' : Live) → l'.last_id ≡ l.last_id → Delivers tables l' (next l'))
      → Delivers tables l (if_sent accepts (tell_resets accepts ids l) next)
  unfolding tell_resets delivered if_sent
  tell_resets-Delivers [] l next h = h l refl
  tell_resets-Delivers (id ∷ ids) l next h =
      subst (Delivers tables l) (sym (is_sent accepts takes (reset (id ∷ ids)) l next))
        (Delivers-from l _ _ refl (without_requests l.sent (reset (id ∷ ids)) refl) (h _ refl))

  with_latest :
      (l : Live)
      → l.last_id ≤ newest tables.requests
      → Delivers tables l
          (tell_requests accepts (unchanged tables) (latest_live_request_id tables) l)
  unfolding latest_live_request_id
  with_latest l h = simp (answers latest_query) (tell_requests-Delivers l h)

  with_epochs-Delivers :
      (l : Live)
      → l.last_id ≤ newest tables.requests
      → Delivers tables l (with_epochs accepts (unchanged tables) (live_reset_epochs tables) l)
  unfolding with_epochs live_reset_epochs
  with_epochs-Delivers l h = simp (answers epochs_query) (
      Delivers-from l _ _ refl refl
        (tell_resets-Delivers _ _ _ (λ l' same. with_latest l' (omega (arith, h, same)))))

  -- When the scan succeeds, the queries answer, nothing else changes the database during the tick, the
  -- rows of requests have keys that ascend from 1 on, the revision is another one than before, the
  -- last id is not above the newest one and the browser takes what it is sent, then the tick sends
  -- each request whose id is above the last one, once and in the order of the ids, over as many
  -- pages as it takes, and the last id that it keeps leaves no request out.
  pub live_tick-Delivers :
      (digest : Digest) (l : Live)
      → str_eq (digest.sha256_hex (revision_text digest tables.sessions)) l.revision ≡ false
      → l.last_id ≤ newest tables.requests
      → Delivers tables l (live_tick accepts digest (unchanged tables) l)
  unfolding live_tick with_revision live_revision
  live_tick-Delivers digest l new h =
      simp (answers revision_query, new) (Delivers-from l _ _ refl refl (with_epochs-Delivers _ h))
