-- ===== src/Control/Replay.antt =====
-- A command that is sent again gets the reply that was kept, and nothing is done a second time:
-- `replyCachedCommand` and `rememberAndReply` of cli/control_server.go.
use http_capture.Prelude.{
  Bool, true, false, Bytes, List, [], Option, none, some, if◌then◌else◌, ◌≡◌, ◌≢◌, refl, ap, ◌∙◌,
  arith, str_eq_iff, str_eq_refl, subst,
}
use http_capture.Effects.{Outcome, ok, err, ◌>>=◌, return, after}
use http_capture.Effects.Frames.{Frame, Frame-return, frame_rules}
use http_capture.Effects.Ensures.{Ensures, Ensures-bind}
use http_capture.World.{Device, Env, Run, SessionState}
use http_capture.Control.{
  Service, Handler, Controller, CommandResult, StartRequest, CaptureRequest, call, find_command,
  remember_and_reply, cached_or, reply_cached_or, started, proxy_ready, stopped, stop_found,
  handle_start, handle_confirm, handle_stop, handle_abandon,
}

abbrev pub commands_of : Service → List (Bytes × CommandResult)
commands_of s = s.commands

-- The work behind a command leaves the kept replies alone.
abbrev Discreet : {A : Type 0} → Handler A → Type 0
Discreet m = Frame commands_of m

pub call-Discreet : {A : Type 0} (m : Run A) → Frame commands_of (call m)
unfolding call
call-Discreet m = record { at = λ s. refl }

-- What a reply to `id` leaves: the next command with this id gets the same reply.
module _ (id : Bytes) (work : Handler CommandResult) (named : id ≢ []) where
  remember-find :
      (s : Service) (r : CommandResult)
      → find_command id (remember_and_reply id r s).1.commands ≡ some r
  unfolding remember_and_reply find_command
  remember-find s r = ground (arith, str_eq_iff id [], str_eq_refl id)

  remember-Ensures :
      (k : CommandResult)
      → Ensures (λ r s. find_command id s.commands ≡ some r) (remember_and_reply id k)
  remember-Ensures k = record {
    at = λ s r h.
        let same : k ≡ r = unfold remember_and_reply in cc (h) in
        subst (λ x. find_command id (remember_and_reply id k s).1.commands ≡ some x) same
          (remember-find s k);
  }

  cached_or-find :
      (o : Option CommandResult) (s : Service) (r : CommandResult)
      → find_command id s.commands ≡ o
      → (cached_or id work o s).0 ≡ ok r
      → find_command id (cached_or id work o s).1.commands ≡ some r
  cached_or-find (some k) s r e h = unfold cached_or return in (e ∙ ap some (cc (h)))
  cached_or-find none s r e h =
      unfold cached_or in (Ensures-bind work (remember_and_reply id) remember-Ensures).at s r h

  pub reply_cached_or-find :
      (s : Service) (r : CommandResult)
      → (reply_cached_or id work s).0 ≡ ok r
      → find_command id (reply_cached_or id work s).1.commands ≡ some r
  unfolding reply_cached_or ◌>>=◌
  reply_cached_or-find s r h = cached_or-find _ s r refl h

  -- A reply that is kept is sent, and nothing else happens.
  pub reply_cached_or-again :
      (s : Service) (r : CommandResult)
      → find_command id s.commands ≡ some r
      → reply_cached_or id work s ≡ (ok r, s)
  unfolding reply_cached_or cached_or ◌>>=◌
  reply_cached_or-again s r h = rw h

-- A reply that is kept stays, whatever other command is handled.
module _ (id : Bytes) (kept : CommandResult) where
  pub record KeepsReply {A : Type 0} (m : Handler A) : Type 0 where
    pub at :
        (s : Service)
        → find_command id s.commands ≡ some kept
        → find_command id (m s).1.commands ≡ some kept

  pub KeepsReply-of_Frame : {A : Type 0} (m : Handler A) → Frame commands_of m → KeepsReply m
  KeepsReply-of_Frame m h = record { at = λ s e. ap (find_command id) (h.at s) ∙ e }

  KeepsReply-after :
      {A B : Type 0} (r : Outcome A) (s : Service) (f : A → Handler B)
      → ((a : A) → KeepsReply (f a))
      → find_command id s.commands ≡ some kept
      → find_command id (after (r, s) f).1.commands ≡ some kept
  KeepsReply-after (ok a) s f h e = (h a).at s e
  KeepsReply-after (err x) s f h e = e

  pub KeepsReply-bind :
      {A B : Type 0} (m : Handler A) (f : A → Handler B)
      → KeepsReply m
      → ((a : A) → KeepsReply (f a))
      → KeepsReply (m >>= f)
  unfolding ◌>>=◌
  KeepsReply-bind m f hm hf = record {
    at = λ s e. let (r, t) = m s in KeepsReply-after r t f hf (hm.at s e);
  }

  pub KeepsReply-if :
      {A : Type 0} (b : Bool) (m n : Handler A)
      → KeepsReply m
      → KeepsReply n
      → KeepsReply (if b then m else n)
  KeepsReply-if true m n hm hn = hm
  KeepsReply-if false m n hm hn = hn

  pub KeepsReply-return : {A : Type 0} (a : A) → KeepsReply (return a)
  KeepsReply-return a = KeepsReply-of_Frame _ (Frame-return a)

  remember_other :
      (other : Bytes) (s : Service) (r : CommandResult)
      → other ≢ id
      → find_command id s.commands ≡ some kept
      → find_command id (remember_and_reply other r s).1.commands ≡ some kept
  unfolding remember_and_reply find_command
  remember_other other s r differ e = ground (arith, str_eq_iff other id)

  cached_or-KeepsReply :
      (other : Bytes) (work : Handler CommandResult)
      → Frame commands_of work
      → (o : Option CommandResult) (s : Service) → find_command other s.commands ≡ o
      → find_command id s.commands ≡ some kept
      → find_command id (cached_or other work o s).1.commands ≡ some kept
  unfolding cached_or ◌>>=◌
  cached_or-KeepsReply other work quiet (some k) s f e = e
  cached_or-KeepsReply other work quiet none s f e =
      let differ : other ≢ id = λ same. cc (f, e, same) in
      (KeepsReply-bind work (remember_and_reply other) (KeepsReply-of_Frame work quiet)
          λ r. record { at = λ t. remember_other other t r differ }).at
        s e

  pub reply_cached_or-KeepsReply :
      (other : Bytes) (work : Handler CommandResult)
      → Frame commands_of work
      → KeepsReply (reply_cached_or other work)
  unfolding reply_cached_or ◌>>=◌
  reply_cached_or-KeepsReply other work quiet = record {
    at = λ s e. cached_or-KeepsReply other work quiet _ s refl e;
  }

started-Discreet :
    (ctl : Controller) (env : Env) (r : Outcome SessionState)
    → Frame commands_of (started ctl env r)
unfolding started
started-Discreet ctl env (ok state) = search (frame_rules, call-Discreet)
started-Discreet ctl env (err e) = Frame-return _

proxy_ready-Discreet :
    (ctl : Controller) (env : Env) (p : StartRequest) (d : Device) (remote : Option Bytes)
    (r : Outcome (Unit {0}))
    → Frame commands_of (proxy_ready ctl env p d remote r)
unfolding proxy_ready
proxy_ready-Discreet ctl env p d remote (ok u) =
    search (frame_rules, call-Discreet, started-Discreet)
proxy_ready-Discreet ctl env p d remote (err e) = Frame-return _

stopped-Discreet :
    (ctl : Controller) (env : Env) (id : Bytes) (state : SessionState) (r : Outcome (Unit {0}))
    → Frame commands_of (stopped ctl env id state r)
unfolding stopped
stopped-Discreet ctl env id state (ok u) = search (frame_rules, call-Discreet)
stopped-Discreet ctl env id state (err e) = Frame-return _

stop_found-Discreet :
    (ctl : Controller) (env : Env) (id : Bytes) (d : Device) (r : Outcome SessionState)
    → Frame commands_of (stop_found ctl env id d r)
unfolding stop_found
stop_found-Discreet ctl env id d (ok state) = search (frame_rules, call-Discreet, stopped-Discreet)
stop_found-Discreet ctl env id d (err e) = Frame-return _

ruleset discreet_rules =
    (frame_rules, call-Discreet, started-Discreet, proxy_ready-Discreet, stop_found-Discreet)

module _ (id : Bytes) (kept : CommandResult) (ctl : Controller) (env : Env) where
  pub handle_start-KeepsReply :
      (r : StartRequest) (d : Device) (remote : Option Bytes)
      → KeepsReply id kept (handle_start ctl env r d remote)
  unfolding handle_start
  handle_start-KeepsReply r d remote =
      search (KeepsReply-if, KeepsReply-return, reply_cached_or-KeepsReply, discreet_rules) depth 12

  pub handle_confirm-KeepsReply :
      (p : CaptureRequest) (capture : Bytes) → KeepsReply id kept (handle_confirm ctl env p capture)
  unfolding handle_confirm
  handle_confirm-KeepsReply p capture =
      search (KeepsReply-if, KeepsReply-return, reply_cached_or-KeepsReply, discreet_rules) depth 12

  pub handle_stop-KeepsReply :
      (p : CaptureRequest) (capture : Bytes) (d : Device)
      → KeepsReply id kept (handle_stop ctl env p capture d)
  unfolding handle_stop
  handle_stop-KeepsReply p capture d =
      search (KeepsReply-if, KeepsReply-return, reply_cached_or-KeepsReply, discreet_rules) depth 12

  pub handle_abandon-KeepsReply :
      (p : CaptureRequest) (capture : Bytes) → KeepsReply id kept (handle_abandon ctl env p capture)
  unfolding handle_abandon
  handle_abandon-KeepsReply p capture =
      search (KeepsReply-if, KeepsReply-return, reply_cached_or-KeepsReply, discreet_rules) depth 12
