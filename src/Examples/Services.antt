-- ===== src/Examples/Services.antt =====
-- The theorems on the control server and its devices, at one phone and one session.
use http_capture.Prelude.{
  pos, Bytes, codes, List, [], ◌∷◌, none, some, ◌≡◌, ◌≢◌, ◌≤◌, refl, str_eq, str_eq_iff, trim_space,
  to_upper, false, true, inl, inr, subst,
}
use http_capture.Effects.{ok, ◌>>=◌}
use http_capture.Paths.{clean, join}
use http_capture.World.{Device, config_directory, system, secure_write, read_slot, find_file}
use http_capture.Session.{read_state}
use http_capture.Session.Manager
use http_capture.Devices.{
  find_control_device_by_token, see, save_seen, load_control_devices, save_control_devices,
  or_no_devices, control_token_digest, revoke_control_device, revoke, is_named, save_revoked,
}
use http_capture.Devices.Search.{Distinct}
use http_capture.Devices.Revocation.{Registry, revoke-find}
use http_capture.Control.{Controller, Service, CommandResult, PairingState, confirmed}
use http_capture.Control.Pairing.{Method, serve_all, downloads, get, post, serve_all-downloads}
use http_capture.Control.Serve.{Request, Codec}
use http_capture.Control.Once.{Command, confirm_capture}
use http_capture.Examples.Data.{calm, phone, tablet, idle, busy}

abbrev local : Controller
local = record {
  start = Manager.start calm;
  stop = Manager.stop calm;
  abandon = Manager.abandon calm;
  active = read_state calm;
  ensure_proxy = λ request device w. (ok tt, w);
}

abbrev codec : Codec
codec = record { decode_start = λ body. none; decode_capture = λ body. none }

abbrev a_status_request : Request
a_status_request = record {
  method = get;
  path = codes "/control/v1/status";
  authorization = codes "Bearer TOKEN";
  remote_host = none;
  body = [];
}

abbrev confirmation : Command
confirmation =
    confirm_capture (record { command_id = codes "k"; capture_id = codes "20260101-a" })
      (codes "20260101-a")

abbrev service : Service
service = record { pairing = none; commands = []; world = busy }

abbrev accepted_one : CommandResult
accepted_one = confirmed local calm (codes "20260101-a") (ok tt)

abbrev offered : PairingState
offered = record { token = codes "t"; bundle = codes "b"; downloaded = false; acked = false }

abbrev visits : List (Bytes × Method)
visits = (codes "t", get) ∷ (codes "t", post) ∷ (codes "t", get) ∷ []

serve_all-downloads_example :
    (downloads (serve_all (some offered) visits).0 ≤ 1)
    × ((q : PairingState)
        → some offered ≡ some q
        → q.downloaded ≡ true
        → downloads (serve_all (some offered) visits).0 ≡ 0)
serve_all-downloads_example = serve_all-downloads (some offered) visits

abbrev seen_phone : Device
seen_phone = record phone { last_seen_ms = pos 5000 }

abbrev lost_phone : Device
lost_phone = record phone { revoked = true; revoked_ms = pos 5000 }

revoke_runs : (revoke_control_device calm (codes "D") [] idle).0 ≡ ok lost_phone
unfolding revoke_control_device revoke is_named save_revoked load_control_devices
    save_control_devices config_directory system secure_write read_slot or_no_devices find_file
    trim_space str_eq clean join ◌>>=◌ to_upper
revoke_runs = refl

abbrev seen_tablet : Device
seen_tablet = record tablet { last_seen_ms = pos 5000 }

tablet_runs :
    (find_control_device_by_token calm
      (codes "OTHER")
      (revoke_control_device calm (codes "D") [] idle).1).0
    ≡ ok (some seen_tablet)
unfolding find_control_device_by_token see save_seen control_token_digest revoke_control_device
    revoke is_named save_revoked load_control_devices save_control_devices config_directory system
    secure_write read_slot or_no_devices find_file trim_space str_eq clean join ◌>>=◌ to_upper
tablet_runs = refl

phone_named : trim_space (codes "D") ≢ []
unfolding trim_space
phone_named e = cc e

other_device : codes "E" ≢ codes "D"
unfolding str_eq
other_device e = let same : false ≡ true = (str_eq_iff (codes "E") (codes "D")).1 e in cc same

idle-Distinct : (devices : List Device) → Registry idle devices → Distinct devices
idle-Distinct devices (inl e) =
    let same : phone ∷ tablet ∷ [] ≡ devices = cc e in
    subst Distinct same ((other_device, tt), (tt, tt))
idle-Distinct devices (inr (e, _)) = absurd (cc e)

revoke-find_example : seen_tablet.device_id ≢ trim_space (codes "D")
revoke-find_example =
    revoke-find calm calm (codes "D") (codes "OTHER") idle lost_phone seen_tablet phone_named
      idle-Distinct revoke_runs tablet_runs
