-- ===== src/Control.antt =====
-- The control service for paired phones, cli/control_server.go. A request is handled at once: the
-- mutex of the application serialises its maps. Requests and replies stand for their JSON.
pub mod Pairing
pub mod Arguments
pub mod Serve
pub mod Replay
pub mod Once
use http_capture.Prelude.{
  ℕ, Bool, true, false, not, ◌&&◌, ◌||◌, ℤ, pos, leb_int, ltb_int, Bytes, codes, List, [], ◌∷◌,
  ◌++◌, Option, none, some, if◌then◌else◌, str_eq, trim_space, leb, ltb, ◌==◌, length,
}
use http_capture.Errors.{
  Error, bad_identity, no_package, bad_proxy_address, bad_confirmation, bad_stop, bad_abandonment,
  other_capture, no_active_session,
}
use http_capture.Effects.{Outcome, ok, err, M, ◌>>=◌, ◌>>◌, return, gets, modify}
use http_capture.Numbers.{itoa}
use http_capture.World.{SessionState, Device, World, Env, Run}
use http_capture.Session.{engine_charles, normalize_packages}
use http_capture.Session.Start.{is_empty}
use http_capture.Session.Manager.{
  join_host_port, charles_stop_args, mark_active_session_status, read_session_metadata,
}

pub record Response : Type 0 where
  pub success : Bool
  pub error : Option Error
  pub capture_id : Bytes
  pub status : Bytes
  pub start_time_ms : ℤ
  pub end_time_ms : ℤ
  pub session_dir : Bytes
  pub active_session : Option SessionState

pub record CommandResult : Type 0 where
  pub code : ℕ
  pub body : Response

pub record StartRequest : Type 0 where
  pub command_id : Bytes
  pub profile_id : Bytes
  pub device_id : Bytes
  pub device_name : Bytes
  pub proxy_host : Bytes
  pub proxy_port : ℤ
  pub packages : List Bytes

pub record CaptureRequest : Type 0 where
  pub command_id : Bytes
  pub capture_id : Bytes

pub record PairingState : Type 0 where
  pub token : Bytes
  pub bundle : Bytes
  pub downloaded : Bool
  pub acked : Bool

-- The application and the files that it works on.
pub record Service : Type 0 where
  pub pairing : Option PairingState
  pub commands : List (Bytes × CommandResult)
  pub world : World

abbrev pub Handler : Type 0 → Type 0
Handler A = M Service A

-- What the application calls through fields: `controlSessionController` and `ensureProxy`.
pub record Controller : Type 0 where
  pub start : List Bytes → Run SessionState
  pub stop : List Bytes → Run (Unit {0})
  pub abandon : Bytes → Run SessionState
  pub active : Run SessionState
  pub ensure_proxy : StartRequest → Device → Run (Unit {0})

abbrev no_response : Response
no_response = record {
  success = true;
  error = none;
  capture_id = [];
  status = [];
  start_time_ms = pos 0;
  end_time_ms = pos 0;
  session_dir = [];
  active_session = none;
}

abbrev pub refusal : ℕ → Error → CommandResult
refusal code e = record {
  code = code;
  body = record no_response { success = false; error = some e };
}

abbrev pub accepted : Response → CommandResult
accepted body = record { code = 200; body = body }

-- Letters, digits, `-` and `_`.
unfoldable pub capture_byte : ℕ → Bool
capture_byte c =
    leb b'a' c && leb c b'z'
    || leb b'A' c && leb c b'Z'
    || leb b'0' c && leb c b'9'
    || c == b'-'
    || c == b'_'

unfoldable pub capture_bytes : Bytes → Bool
unfolding capture_byte
capture_bytes [] = true
capture_bytes (c ∷ s) = capture_byte c && capture_bytes s

unfoldable pub valid_capture_id : Bytes → Bool
unfolding capture_bytes
valid_capture_id value =
    if ltb (length value) 10 || ltb 80 (length value) then false else capture_bytes value

unfoldable pub first_non_blank : List Bytes → Bytes
unfolding trim_space str_eq
first_non_blank [] = []
first_non_blank (value ∷ values) =
    if str_eq (trim_space value) [] then first_non_blank values else trim_space value

unfoldable pub find_command : Bytes → List (Bytes × CommandResult) → Option CommandResult
find_command id [] = none
find_command id ((key, result) ∷ rest) = if str_eq key id then some result else find_command id rest

-- A call on the files; its error is looked at by the caller.
abbrev moved : {A : Type 0} → Service → Outcome A × World → Outcome (Outcome A) × Service
moved s (r, w) = (ok r, record s { world = w })

unfoldable pub call : {A : Type 0} → Run A → Handler (Outcome A)
call m s = moved s (m s.world)

unfoldable pub remember_and_reply : Bytes → CommandResult → Handler CommandResult
unfolding str_eq
remember_and_reply command_id result s = (
  ok result,
  if str_eq command_id [] then s else record s { commands = (command_id, result) ∷ s.commands },
)

-- `replyCachedCommand`, and what is done where no reply is kept.
unfoldable pub cached_or :
    Bytes → Handler CommandResult → Option CommandResult → Handler CommandResult
cached_or command_id work (some result) = return result
cached_or command_id work none = do result ← work; remember_and_reply command_id result

unfoldable pub reply_cached_or : Bytes → Handler CommandResult → Handler CommandResult
reply_cached_or command_id work = do
  kept ← gets (λ s. find_command command_id s.commands)
  cached_or command_id work kept

-- The identity in a start request is not that of the device that was let in.
unfoldable pub wrong_identity : StartRequest → Device → Bool
wrong_identity payload device =
    str_eq payload.command_id []
    || not (str_eq payload.profile_id device.profile_id)
    || not (str_eq payload.device_id device.device_id)

-- The request names the capture of its path.
unfoldable pub names_capture : CaptureRequest → Bytes → Bool
names_capture payload capture_id =
    not (str_eq payload.command_id [])
    && str_eq payload.capture_id capture_id
    && valid_capture_id capture_id

package_args : List Bytes → List Bytes
package_args [] = []
package_args (name ∷ packages) = codes "--package" ∷ name ∷ package_args packages

abbrev client_ip_args : Option Bytes → List Bytes
client_ip_args none = []
client_ip_args (some host) = codes "--client-ip" ∷ host ∷ []

-- The arguments of `record start` for a request; `remote` is the host of its address.
unfoldable pub start_args : StartRequest → Device → Option Bytes → List Bytes
unfolding package_args
start_args payload device remote =
    (codes "--engine"
      ∷ device.engine
      ∷ codes "--device"
      ∷ first_non_blank (payload.device_name ∷ device.device_name ∷ [])
      ∷ [])
    ++ (client_ip_args remote
        ++ ((if str_eq device.engine engine_charles
              then codes "--proxy"
                ∷ join_host_port payload.proxy_host (itoa payload.proxy_port)
                ∷ []
              else [])
            ++ package_args payload.packages))

module _ (ctl : Controller) (env : Env) where
  unfoldable pub status_of : Outcome SessionState → CommandResult
  status_of (ok state) = accepted (record no_response {
    status = state.status;
    capture_id = state.capture_id;
    active_session = some state;
  })
  status_of (err no_active_session) = accepted (record no_response { status = codes "idle" })
  status_of (err e) = refusal 500 e

  unfoldable pub handle_status : Handler CommandResult
  handle_status = do found ← call ctl.active; return (status_of found)

  -- The status of a session that was just started is `starting`, whether or not it is written down.
  unfoldable pub started : Outcome SessionState → Handler CommandResult
  started (err e) = return (refusal 409 e)
  started (ok state) = do
    ignored ← call (mark_active_session_status env state.capture_id (codes "starting"))
    return (
        accepted (record no_response {
          capture_id = state.capture_id;
          status = codes "starting";
          start_time_ms = state.started_ms;
          session_dir = state.session_dir;
        }))

  unfoldable pub proxy_ready :
      StartRequest → Device → Option Bytes → Outcome (Unit {0}) → Handler CommandResult
  proxy_ready payload device remote (err e) = return (refusal 409 e)
  proxy_ready payload device remote (ok u) = do
    result ← call (ctl.start (start_args payload device remote))
    started result

  unfoldable pub handle_start : StartRequest → Device → Option Bytes → Handler CommandResult
  handle_start request device remote =
      let payload = record request { packages = normalize_packages request.packages } in
      if wrong_identity payload device
      then return (refusal 400 bad_identity)
      else if is_empty payload.packages
      then return (refusal 400 no_package)
      else if ltb_int payload.proxy_port (pos 1)
          || ltb_int (pos 65535) payload.proxy_port
          || str_eq (trim_space payload.proxy_host) []
      then return (refusal 400 bad_proxy_address)
      else reply_cached_or payload.command_id (do
        ready ← call (ctl.ensure_proxy payload device)
        proxy_ready payload device remote ready)

  unfoldable pub confirmed : Bytes → Outcome (Unit {0}) → CommandResult
  confirmed capture_id (err e) = refusal 409 e
  confirmed capture_id (ok u) =
      accepted (record no_response { capture_id = capture_id; status = codes "recording" })

  unfoldable pub handle_confirm : CaptureRequest → Bytes → Handler CommandResult
  handle_confirm payload capture_id =
      if names_capture payload capture_id
      then reply_cached_or payload.command_id (do
        marked ← call (mark_active_session_status env capture_id (codes "recording"))
        return (confirmed capture_id marked))
      else return (refusal 400 bad_confirmation)

  abbrev completed_with : Bytes → Outcome SessionState → Response
  completed_with capture_id (err e) = record no_response {
    capture_id = capture_id;
    status = codes "completed";
  }
  completed_with capture_id (ok state) = record no_response {
    capture_id = capture_id;
    status = codes "completed";
    end_time_ms = state.stopped_ms;
    session_dir = state.session_dir;
  }

  unfoldable pub stopped : Bytes → SessionState → Outcome (Unit {0}) → Handler CommandResult
  stopped capture_id state (err e) = return (refusal 409 e)
  stopped capture_id state (ok u) = do
    described ← call (read_session_metadata env state.session_dir)
    return (accepted (completed_with capture_id described))

  abbrev stop_args_for : Device → SessionState → List Bytes
  stop_args_for device state =
      if str_eq device.engine engine_charles
        && not (str_eq state.proxy_host [])
        && ltb_int (pos 0) state.proxy_port
      then codes "--proxy" ∷ join_host_port state.proxy_host (itoa state.proxy_port) ∷ []
      else []

  unfoldable pub stop_found : Bytes → Device → Outcome SessionState → Handler CommandResult
  stop_found capture_id device (err e) = return (refusal 409 e)
  stop_found capture_id device (ok state) =
      if not (str_eq state.capture_id capture_id)
      then return (refusal 409 other_capture)
      else do result ← call (ctl.stop (stop_args_for device state)); stopped capture_id state result

  unfoldable pub handle_stop : CaptureRequest → Bytes → Device → Handler CommandResult
  handle_stop payload capture_id device =
      if names_capture payload capture_id
      then reply_cached_or payload.command_id
          (do found ← call ctl.active; stop_found capture_id device found)
      else return (refusal 400 bad_stop)

  unfoldable pub abandoned : Bytes → Outcome SessionState → CommandResult
  abandoned capture_id (err e) = refusal 409 e
  abandoned capture_id (ok state) = accepted (record no_response {
    capture_id = capture_id;
    status = state.status;
    end_time_ms = state.stopped_ms;
    session_dir = state.session_dir;
  })

  unfoldable pub handle_abandon : CaptureRequest → Bytes → Handler CommandResult
  handle_abandon payload capture_id =
      if names_capture payload capture_id
      then reply_cached_or payload.command_id
          (do result ← call (ctl.abandon capture_id); return (abandoned capture_id result))
      else return (refusal 400 bad_abandonment)
