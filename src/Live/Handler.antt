-- ===== src/Live/Handler.antt =====
-- `handleLiveEvents` of cli/web_live.go: its ticks and its loop over pages.
use http_capture.Prelude.{
  ℕ, zero, suc, ◌-◌, Bool, not, true, false, ltb, ℤ, Bytes, List, [], ◌∷◌, ◌++◌, if◌then◌else◌,
  str_eq,
}
use http_capture.Errors.{no_streaming}
use http_capture.Effects.{Outcome, ok, err}
use http_capture.Live.{
  LiveRequestSummary, Tables, Digest, connected, index_reset, index_changed, scan_interrupted,
  state_unreadable, LiveEvent, refresh, interrupted, reset, requests, heartbeat, Live, Tick, Ending,
  goes_on, ended, out_of_fuel, live_revision, live_reset_epochs, latest_live_request_id,
  live_requests_after, reset_sessions, last_id_of,
}

-- The browser takes an event, given those that it took before, or the write fails.
module _ (accepts : List LiveEvent → LiveEvent → Bool) where
  unfoldable pub write_live_event : LiveEvent → Live → Bool × Live
  write_live_event event l =
      if accepts l.sent event
      then (true, record l { sent = l.sent ++ (event ∷ []) })
      else (false, l)

  unfoldable pub if_sent : Bool × Live → (Live → Ending × Live) → Ending × Live
  if_sent (true, l) next = next l
  if_sent (false, l) next = (ended, l)

  abbrev pub continue : Live → Ending × Live
  continue l = (goes_on, l)

  unfoldable pub sent_page :
      (Live → Ending × Live) → Outcome (List LiveRequestSummary) → Live → Ending × Live
  sent_page next (err e) l = (ended, l)
  sent_page next (ok []) l = (goes_on, l)
  sent_page next (ok (item ∷ items)) l =
      if_sent
        (write_live_event (requests (item ∷ items))
          (record l { last_id = last_id_of item.request_id items }))
        next

  -- The loop over pages; it takes a page at most for each id up to the latest.
  unfoldable pub send_pages : ℕ → (ℕ → Tables) → ℕ → Live → Ending × Live
  send_pages zero page_in latest l = if ltb l.last_id latest then (out_of_fuel, l) else (goes_on, l)
  send_pages (suc fuel) page_in latest l =
      let turn =
        sent_page (send_pages fuel (λ k. page_in (suc k)) latest)
          (live_requests_after (page_in 0) l.last_id 250) l in
      if ltb l.last_id latest then turn else (goes_on, l)

  unfoldable pub tell_changed : Ending × Live → Ending × Live
  tell_changed (goes_on, l) = if_sent (write_live_event (refresh index_changed) l) continue
  tell_changed (ended, l) = (ended, l)
  tell_changed (out_of_fuel, l) = (out_of_fuel, l)

  unfoldable pub tell_requests : Tick → Outcome ℕ → Live → Ending × Live
  tell_requests tick (err e) l = (ended, l)
  tell_requests tick (ok latest) l =
      if ltb latest l.last_id
      then if_sent (write_live_event (refresh index_reset) (record l { last_id = latest })) continue
      else tell_changed (send_pages (latest - l.last_id) tick.page_in latest l)

  unfoldable pub tell_resets : List Bytes → Live → Bool × Live
  tell_resets [] l = (true, l)
  tell_resets (id ∷ ids) l = write_live_event (reset (id ∷ ids)) l

  unfoldable pub with_epochs : Tick → Outcome (List (Bytes × ℤ)) → Live → Ending × Live
  with_epochs tick (err e) l = (ended, l)
  with_epochs tick (ok epochs) l =
      if_sent
        (tell_resets (reset_sessions l.reset_epochs epochs) (record l { reset_epochs = epochs }))
        (tell_requests tick (latest_live_request_id tick.latest_in))

  unfoldable pub with_revision : Tick → Outcome Bytes → Live → Ending × Live
  with_revision tick (err e) l = (ended, (write_live_event (interrupted state_unreadable) l).1)
  with_revision tick (ok current) l =
      if str_eq current l.revision
      then (goes_on, (write_live_event heartbeat l).1)
      else with_epochs tick (live_reset_epochs tick.resets_in) (record l { revision = current })

  unfoldable pub live_tick : Digest → Tick → Live → Ending × Live
  live_tick digest tick l = elim tick.rescan [
    | err e ↦ (ended, (write_live_event (interrupted scan_interrupted) l).1)
    | ok u ↦ with_revision tick (live_revision digest tick.revision_in) l
  ]

  unfoldable pub after_tick : (Live → Ending × Live) → Ending × Live → Ending × Live
  after_tick next (goes_on, l) = next l
  after_tick next (ended, l) = (ended, l)
  after_tick next (out_of_fuel, l) = (out_of_fuel, l)

  -- The ticks until the browser goes.
  unfoldable pub live_ticks : Digest → List Tick → Live → Ending × Live
  unfolding after_tick
  live_ticks digest [] l = (ended, l)
  live_ticks digest (tick ∷ ticks) l =
      after_tick (live_ticks digest ticks) (live_tick digest tick l)

  -- What the handler begins with; each of these errors is a reply with status 500.
  unfoldable pub first_look :
      Outcome (Unit {0}) → Outcome Bytes → Outcome ℕ → Outcome (List (Bytes × ℤ)) → Outcome Live
  first_look (err e) revision latest epochs = err e
  first_look (ok u) (err e) latest epochs = err e
  first_look (ok u) (ok revision) (err e) epochs = err e
  first_look (ok u) (ok revision) (ok latest) (err e) = err e
  first_look (ok u) (ok revision) (ok latest) (ok epochs) =
      ok (record { revision = revision; last_id = latest; reset_epochs = epochs; sent = [] })

  unfoldable pub stream_from : Digest → List Tick → Outcome Live → Outcome (Ending × Live)
  stream_from digest ticks (err e) = err e
  stream_from digest ticks (ok l) =
      ok (if_sent (write_live_event (refresh connected) l) (live_ticks digest ticks))

  unfoldable pub handle_live_events : Digest → Bool → Tick → List Tick → Outcome (Ending × Live)
  unfolding first_look stream_from
  handle_live_events digest flushes first ticks =
      if not flushes
      then err no_streaming
      else stream_from digest ticks (
          first_look first.rescan (live_revision digest first.revision_in)
            (latest_live_request_id first.latest_in) (live_reset_epochs first.resets_in))
