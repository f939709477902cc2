-- ===== src/Devices.antt =====
-- The registry of paired phones, cli/control_devices.go.
pub mod Search
pub mod Revocation
use http_capture.Prelude.{
  Bool, true, false, not, ◌&&◌, ◌||◌, ℤ, pos, Bytes, codes, List, [], ◌∷◌, ◌++◌, Option, none, some,
  if◌then◌else◌, str_eq, trim_space, to_lower, to_upper,
}
use http_capture.Errors.{
  Error, not_exist, one_of_device_and_profile, no_matching_device, random_bytes,
}
use http_capture.Effects.{Outcome, ok, err, ◌>>=◌, ◌>>◌, return, fail, lift, attempt, refuse_if}
use http_capture.Paths.{join}
use http_capture.World.{
  Device, World, Env, Run, Slot, system, secure_write, read_slot, config_directory,
}

abbrev pub put_devices : Slot (List Device) → World → World
put_devices s w = record w { devices = some s }

abbrev devices_file : Bytes → Bytes
devices_file directory = join directory (codes "control-devices.json")

-- A missing file is an empty registry.
unfoldable pub or_no_devices : Outcome (List Device) → Outcome (List Device)
or_no_devices (ok devices) = ok devices
or_no_devices (err (not_exist path)) = ok []
or_no_devices (err e) = err e

-- The three identifiers that crypto/rand gives to a new device.
pub record NewIds : Type 0 where
  pub device : Bytes
  pub profile : Bytes
  pub token : Bytes

-- The device that a search stops at, the registry after it, and whether that has to be saved.
pub record Seen : Type 0 where
  pub device : Device
  pub devices : List Device
  pub changed : Bool

abbrev behind : Device → Option Seen → Option Seen
behind d none = none
behind d (some seen) = some (record seen { devices = d ∷ seen.devices })

-- The first device that is not revoked and has the digest.
unfoldable pub see : ℤ → Bytes → List Device → Option Seen
see now digest [] = none
see now digest (d ∷ devices) =
    let later = behind d (see now digest devices) in
    let seen = record d { last_seen_ms = now } in
    if d.revoked
    then later
    else if str_eq d.token_sha256 digest
    then some (record { device = seen; devices = seen ∷ devices; changed = true })
    else later

-- Whether a device is the one that the command names by one of the two ids.
unfoldable pub is_named : Bytes → Bytes → Device → Bool
is_named device_id profile_id d =
    not (str_eq device_id []) && str_eq d.device_id device_id
    || not (str_eq profile_id []) && str_eq d.profile_id profile_id

abbrev revoked_at : ℤ → Device → Device
revoked_at now d = record d { revoked = true; revoked_ms = now }

-- The first device that is named is revoked, if it was not revoked before.
unfoldable pub revoke : ℤ → Bytes → Bytes → List Device → Option Seen
revoke now device_id profile_id [] = none
revoke now device_id profile_id (d ∷ devices) =
    let later = behind d (revoke now device_id profile_id devices) in
    if not (is_named device_id profile_id d)
    then later
    else if d.revoked
    then some (record { device = d; devices = d ∷ devices; changed = false })
    else some
        (record { device = revoked_at now d; devices = revoked_at now d ∷ devices; changed = true })

module _ (env : Env) where
  unfoldable pub load_control_devices : Run (List Device)
  load_control_devices = do
    directory ← config_directory env
    found ← attempt (read_slot env (devices_file directory) (λ w. w.devices))
    lift (or_no_devices found)

  unfoldable pub save_control_devices : List Device → Run (Unit {0})
  save_control_devices devices = do
    directory ← config_directory env
    secure_write env (devices_file directory) devices put_devices

  unfoldable pub control_token_digest : Bytes → Bytes
  control_token_digest token = to_upper (env.sha256_hex token)

  unfoldable pub create_control_device : NewIds → Bytes → Bytes → Run (Device × Bytes)
  create_control_device ids device_name engine = do
    system env random_bytes
    devices ← load_control_devices
    let device : Device = record {
      profile_id = codes "profile-" ++ ids.profile;
      device_id = codes "device-" ++ ids.device;
      device_name = trim_space device_name;
      token_sha256 = control_token_digest ids.token;
      engine = to_lower (trim_space engine);
      created_ms = env.now;
      last_seen_ms = pos 0;
      revoked = false;
      revoked_ms = pos 0;
    }
    save_control_devices (devices ++ (device ∷ []))
    return (device, ids.token)

  unfoldable pub save_seen : Option Seen → Run (Option Device)
  save_seen none = return none
  save_seen (some seen) = do save_control_devices seen.devices; return (some seen.device)

  unfoldable pub find_control_device_by_token : Bytes → Run (Option Device)
  find_control_device_by_token text =
      let token = trim_space text in
      if str_eq token [] then return none else do
        devices ← load_control_devices
        save_seen (see env.now (control_token_digest token) devices)

  -- Nothing is written where the device was revoked before.
  unfoldable pub save_revoked : Option Seen → Run Device
  save_revoked none = fail no_matching_device
  save_revoked (some seen) = do
    if seen.changed then save_control_devices seen.devices else return tt
    return seen.device

  unfoldable pub revoke_control_device : Bytes → Bytes → Run Device
  revoke_control_device device_text profile_text =
      let device_id = trim_space device_text in
      let profile_id = trim_space profile_text in
      do
        refuse_if (if str_eq device_id [] then str_eq profile_id [] else not (str_eq profile_id []))
            one_of_device_and_profile
        devices ← load_control_devices
        save_revoked (revoke env.now device_id profile_id devices)

-- The devices that `control devices` shows.
unfoldable pub listed_devices : Bool → List Device → List Device
listed_devices show_all [] = []
listed_devices show_all (d ∷ devices) =
    let rest = listed_devices show_all devices in
    if d.revoked && not show_all then rest else d ∷ rest
