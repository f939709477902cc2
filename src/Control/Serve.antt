-- ===== src/Control/Serve.antt =====
-- `authenticate` and `ServeHTTP` of cli/control_server.go: who is let in, and which handler runs.
use http_capture.Prelude.{
  Bool, not, Bytes, codes, List, [], ◌∷◌, Option, none, some, if◌then◌else◌, str_eq, has_prefix,
  has_suffix, trim_prefix, trim_suffix,
}
use http_capture.Errors.{bad_json, missing_credentials, invalid_credentials}
use http_capture.Effects.{Outcome, ok, err, ◌>>=◌, ◌>>◌, return, gets, modify}
use http_capture.World.{Device, Env}
use http_capture.Devices.{find_control_device_by_token}
use http_capture.Control.{
  Service, Handler, Controller, CommandResult, StartRequest, CaptureRequest, refusal, call,
  handle_status, handle_start, handle_confirm, handle_stop, handle_abandon, PairingState,
}
use http_capture.Control.Pairing.{Method, get, post, PairReply, serve_pairing}

pub record Request : Type 0 where
  pub method : Method
  pub path : Bytes
  pub authorization : Bytes
  pub remote_host : Option Bytes
  pub body : Bytes

-- `decodeControlJSON`: encoding/json without unknown fields, at most 64 KiB.
pub record Codec : Type 0 where
  pub decode_start : Bytes → Option StartRequest
  pub decode_capture : Bytes → Option CaptureRequest

pub data Answer : Type 0 where
  missing : Answer
  paired : PairReply → Answer
  answered : CommandResult → Answer

-- The routes behind `/control/v1`, and the handler's argument that the path holds.
pub data Route : Type 0 where
  status start unknown : Route
  confirm stop abandon : Bytes → Route

abbrev captures : Bytes
captures = codes "/control/v1/captures/"

abbrev capture_of : Bytes → Bytes → Bytes
capture_of path suffix = trim_suffix (trim_prefix path captures) suffix

unfoldable pub route : Method → Bytes → Route
unfolding str_eq has_suffix trim_prefix trim_suffix
route get path = if str_eq path (codes "/control/v1/status") then status else unknown
route post path =
    if str_eq path (codes "/control/v1/captures/start")
    then start
    else if has_suffix path (codes "/vpn-started")
    then confirm (capture_of path (codes "/vpn-started"))
    else if has_suffix path (codes "/stop")
    then stop (capture_of path (codes "/stop"))
    else if has_suffix path (codes "/abandon")
    then abandon (capture_of path (codes "/abandon"))
    else unknown
route Method.put path = unknown
route Method.other path = unknown

unfoldable pub is_open : Bytes → Bool
is_open path = has_prefix path (codes "/p/")

abbrev pub set_pairing : Option PairingState → Service → Service
set_pairing p s = record s { pairing = p }

module _ (ctl : Controller) (codec : Codec) (env : Env) where
  unfoldable pub with_start : Device → Option Bytes → Option StartRequest → Handler CommandResult
  with_start device remote none = return (refusal 400 bad_json)
  with_start device remote (some payload) = handle_start ctl env payload device remote

  unfoldable pub with_capture :
      (CaptureRequest → Handler CommandResult) → Option CaptureRequest → Handler CommandResult
  with_capture handler none = return (refusal 400 bad_json)
  with_capture handler (some payload) = handler payload

  unfoldable pub answer : Handler CommandResult → Handler Answer
  answer handler = do result ← handler; return (answered result)

  unfoldable pub dispatch : Request → Device → Route → Handler Answer
  dispatch r device status = answer (handle_status ctl env)
  dispatch r device start = answer (with_start device r.remote_host (codec.decode_start r.body))
  dispatch r device unknown = return missing
  dispatch r device (confirm id) =
      answer (with_capture (λ p. handle_confirm ctl env p id) (codec.decode_capture r.body))
  dispatch r device (stop id) =
      answer (with_capture (λ p. handle_stop ctl env p id device) (codec.decode_capture r.body))
  dispatch r device (abandon id) =
      answer (with_capture (λ p. handle_abandon ctl env p id) (codec.decode_capture r.body))

  -- The device of the credentials, or the reply to the lack of them.
  unfoldable pub let_in : Request → Outcome (Option Device) → Handler Answer
  let_in r (err e) = return (answered (refusal 500 e))
  let_in r (ok none) = return (answered (refusal 401 invalid_credentials))
  let_in r (ok (some device)) = dispatch r device (route r.method r.path)

  unfoldable pub authenticate : Request → Handler Answer
  authenticate r =
      if not (has_prefix r.authorization (codes "Bearer "))
      then return (answered (refusal 401 missing_credentials))
      else do
        found ←
            call (find_control_device_by_token env (trim_prefix r.authorization (codes "Bearer ")))
        let_in r found

  unfoldable pub pair : Request → Handler Answer
  pair r = do
    state ← gets (λ s. s.pairing)
    let (reply, next) = serve_pairing state (trim_prefix r.path (codes "/p/")) r.method
    modify (set_pairing next)
    return (paired reply)

  unfoldable pub serve_http : Request → Handler Answer
  serve_http r =
      if is_open r.path
      then pair r
      else if has_prefix r.path (codes "/control/v1/")
      then authenticate r
      else return missing

  unfoldable pub serve_requests : List Request → Handler (List Answer)
  serve_requests [] = return []
  serve_requests (r ∷ rs) =
      let rest = serve_requests rs in
      do reply ← serve_http r; replies ← rest; return (reply ∷ replies)
