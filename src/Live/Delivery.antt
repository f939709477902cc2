-- ===== src/Live/Delivery.antt =====
-- What a tick of cli/web_live.go sends when nothing fails: every request that is new, once, in order.
use http_capture.Prelude.{
  ℕ, zero, suc, ◌+◌, ◌≤◌, ◌<◌, Bool, true, false, ltb, List, [], ◌∷◌, ◌++◌, append-nil,
  append_assoc, ◌≡◌, refl, subst, arith, if◌then◌else◌, take, drop, take-append-drop, ap, sym, ◌∙◌,
}
use http_capture.Effects.{ok}
use http_capture.Live.{
  LiveRequestSummary, Tables, LiveQuery, requests_query, LiveEvent, refresh, interrupted, reset,
  heartbeat, requests, Live, Ending, goes_on, live_requests_after, last_id_of, later_than, newest,
}
use http_capture.Live.Handler.{write_live_event, if_sent, sent_page, send_pages}
use http_capture.Live.Pages.{
  Ascending, later_than-newest, later_than-Ascending, last_id_of-le, not_later, after_page,
  later_than-later_than,
}

-- The requests that were sent, over all events.
unfoldable pub delivered : List LiveEvent → List LiveRequestSummary
delivered [] = []
delivered (requests items ∷ events) = items ++ delivered events
delivered (refresh reason ∷ events) = delivered events
delivered (interrupted cause ∷ events) = delivered events
delivered (reset ids ∷ events) = delivered events
delivered (heartbeat ∷ events) = delivered events

pub delivered-append :
    (xs ys : List LiveEvent) → delivered (xs ++ ys) ≡ delivered xs ++ delivered ys
unfolding delivered
delivered-append [] ys = refl
delivered-append (requests items ∷ xs) ys =
    ap (λ s. items ++ s) (delivered-append xs ys)
    ∙ sym (append_assoc items (delivered xs) (delivered ys))
delivered-append (refresh reason ∷ xs) ys = delivered-append xs ys
delivered-append (interrupted cause ∷ xs) ys = delivered-append xs ys
delivered-append (reset ids ∷ xs) ys = delivered-append xs ys
delivered-append (heartbeat ∷ xs) ys = delivered-append xs ys

-- Everything after the last id was sent, and nothing is left.
pub record Delivers (tables : Tables) (l : Live) (run : Ending × Live) : Type 0 where
  pub on : run.0 ≡ goes_on
  pub all : delivered run.1.sent ≡ delivered l.sent ++ later_than l.last_id tables.requests
  pub none_left : later_than run.1.last_id tables.requests ≡ []

-- The browser takes what it is sent.
module _ (accepts : List LiveEvent → LiveEvent → Bool)
    (takes : (sent : List LiveEvent) (event : LiveEvent) → accepts sent event ≡ true) where
  pub is_sent :
      (event : LiveEvent) (l : Live) (next : Live → Ending × Live)
      → if_sent accepts (write_live_event accepts event l) next
        ≡ next (record l { sent = l.sent ++ (event ∷ []) })
  unfolding if_sent write_live_event
  is_sent event l next = simp (takes l.sent event) refl

-- The queries of a tick see these tables, each of them answers, and the browser takes what is sent.
module _ (accepts : List LiveEvent → LiveEvent → Bool)
    (takes : (sent : List LiveEvent) (event : LiveEvent) → accepts sent event ≡ true)
    (tables : Tables) (ascending : Ascending 0 tables.requests)
    (answers : (query : LiveQuery) → tables.refuses query ≡ false) where
  nothing_new :
      (l : Live) → later_than l.last_id tables.requests ≡ [] → Delivers tables l (goes_on, l)
  nothing_new l e = record {
    on = refl;
    all = sym (append-nil (delivered l.sent)) ∙ ap (λ s. delivered l.sent ++ s) (sym e);
    none_left = e;
  }

  -- The variables once a page was sent.
  after_sending : LiveRequestSummary → List LiveRequestSummary → Live → Live
  after_sending item items l = record l {
    last_id = last_id_of item.request_id items;
    sent = l.sent ++ (requests (item ∷ items) ∷ []);
  }

  one_more :
      (l : Live) (n : ℕ) (item : LiveRequestSummary) (items : List LiveRequestSummary)
      (run : Ending × Live)
      → later_than l.last_id tables.requests ≡ item ∷ items
      → later_than (last_id_of item.request_id (take n items)) tables.requests ≡ drop n items
      → Delivers tables (after_sending item (take n items) l) run
      → Delivers tables l run
  unfolding after_sending delivered
  one_more l n item items run e rest d = record {
    on = d.on;
    all =
        let page = item ∷ take n items in
        d.all
        ∙ ap (λ s. s ++ later_than (last_id_of item.request_id (take n items)) tables.requests)
            (delivered-append l.sent (requests page ∷ [])
              ∙ ap (λ s. delivered l.sent ++ s) (append-nil page))
        ∙ append_assoc (delivered l.sent) page _
        ∙ ap (λ s. delivered l.sent ++ s)
            (ap (λ s. page ++ s) rest ∙ ap (λ s. item ∷ s) (take-append-drop n items) ∙ sym e);
    none_left = d.none_left;
  }

  left_by_page :
      (l : Live) (n : ℕ) (item : LiveRequestSummary) (items : List LiveRequestSummary)
      → later_than l.last_id tables.requests ≡ item ∷ items
      → later_than (last_id_of item.request_id (take n items)) tables.requests ≡ drop n items
  left_by_page l n item items e =
      let (first, rest) : Ascending l.last_id (item ∷ items) =
        subst (Ascending l.last_id) e
          (later_than-Ascending tables.requests 0 l.last_id ascending (omega arith)) in
      let forward = last_id_of-le n items item.request_id rest in
      sym (
        later_than-later_than tables.requests l.last_id (last_id_of item.request_id (take n items))
          (omega (arith, first, forward)))
      ∙ ap (later_than (last_id_of item.request_id (take n items))) e
      ∙ not_later item items _ forward
      ∙ after_page n items item.request_id rest

  answered :
      (l : Live)
      → live_requests_after tables l.last_id 250
        ≡ ok (take 250 (later_than l.last_id tables.requests))
  unfolding live_requests_after
  answered l = simp (answers requests_query) refl

  goes_forward :
      (l : Live) (n : ℕ) (item : LiveRequestSummary) (items : List LiveRequestSummary)
      → later_than l.last_id tables.requests ≡ item ∷ items
      → l.last_id < last_id_of item.request_id (take n items)
  goes_forward l n item items e =
      let (first, rest) : Ascending l.last_id (item ∷ items) =
        subst (Ascending l.last_id) e
          (later_than-Ascending tables.requests 0 l.last_id ascending (omega arith)) in
      omega (arith, first, last_id_of-le n items item.request_id rest)

  page-Delivers :
      (l : Live) (next : Live → Ending × Live) (new : List LiveRequestSummary)
      → later_than l.last_id tables.requests ≡ new
      → ((item : LiveRequestSummary) (items : List LiveRequestSummary)
          → l.last_id < last_id_of item.request_id (take 249 items)
          → Delivers tables
              (after_sending item (take 249 items) l)
              (next (after_sending item (take 249 items) l)))
      → Delivers tables l (sent_page accepts next (ok (take 250 new)) l)
  unfolding sent_page after_sending
  page-Delivers l next [] e h = nothing_new l e
  page-Delivers l next (item ∷ items) e h =
      subst (Delivers tables l) (sym (is_sent accepts takes _ _ next)) (
        one_more l 249 item items _ e (left_by_page l 249 item items e)
          (h item items (goes_forward l 249 item items e)))

  turn-Delivers :
      (l : Live) (next : Live → Ending × Live) (b : Bool)
      → ltb l.last_id (newest tables.requests) ≡ b
      → Delivers tables l
          (sent_page accepts next (ok (take 250 (later_than l.last_id tables.requests))) l)
      → Delivers tables l (
          if ltb l.last_id (newest tables.requests)
          then sent_page accepts next (live_requests_after tables l.last_id 250) l
          else (goes_on, l))
  turn-Delivers l next true e h =
      simp e
        (subst (λ page. Delivers tables l (sent_page accepts next page l)) (sym (answered l)) h)
  turn-Delivers l next false e h =
      simp e (nothing_new l (later_than-newest tables.requests l.last_id (ground (arith, e))))

  pub send_pages-Delivers :
      (fuel : ℕ) (l : Live)
      → newest tables.requests ≤ fuel + l.last_id
      → Delivers tables l (send_pages accepts fuel (λ k. tables) (newest tables.requests) l)
  unfolding send_pages after_sending
  send_pages-Delivers zero l enough =
      let over : ltb l.last_id (newest tables.requests) ≡ false = ground (arith, enough) in
      simp over
        (nothing_new l (later_than-newest tables.requests l.last_id (omega (arith, enough))))
  send_pages-Delivers (suc fuel) l enough =
      turn-Delivers l _ (ltb l.last_id (newest tables.requests)) refl (
        page-Delivers l (send_pages accepts fuel (λ k. tables) (newest tables.requests)) _ refl
          (λ item items forward.
            send_pages-Delivers fuel (after_sending item (take 249 items) l)
              (omega (arith, enough, forward))))
