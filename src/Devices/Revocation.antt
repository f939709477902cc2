-- ===== src/Devices/Revocation.antt =====
-- Who a token lets in: no device that was revoked. Over the registry on disk, in
-- cli/control_devices.go.
use http_capture.Prelude.{
  false, Bytes, List, [], Option, none, some, ◌≡◌, ◌≢◌, arith, trim_space, inl, inr, ◌∙◌, sym,
  subst, ◌⊎◌,
}
use http_capture.Effects.{ok, ◌>>=◌, fail}
use http_capture.Effects.Frames.{Frame}
use http_capture.Effects.Ensures.{
  EnsuresFrom, EnsuresFrom-known, EnsuresFrom-if, EnsuresFrom-return, EnsuresFrom-refuse_if,
  Ensures, Ensures-return, Ensures-bind,
}
use http_capture.World.{
  Device, World, Env, holds, system, secure_write, read_slot, config_directory,
}
use http_capture.Session.Frames.{system_rules}
use http_capture.Devices.{
  Seen, save_seen, save_revoked, load_control_devices, save_control_devices,
  find_control_device_by_token, revoke_control_device, or_no_devices,
}
use http_capture.Devices.Search.{Distinct, Found, Admitted, AllRevoked, see-AllRevoked, revoke-both}

-- The registry that is on disk; a missing file is an empty one.
abbrev pub Registry : World → List Device → Type 0
Registry w devices = (w.devices ≡ some (holds devices)) ⊎ ((w.devices ≡ none) × (devices ≡ []))

abbrev reader : World → World
reader w = w

module _ (env : Env) where
  load-Frame : Frame reader (load_control_devices env)
  unfolding load_control_devices
  load-Frame = search system_rules

  load-Registry :
      (w : World) (devices : List Device)
      → (load_control_devices env w).0 ≡ ok devices
      → Registry w devices
  unfolding load_control_devices read_slot config_directory system or_no_devices ◌>>=◌
  load-Registry w devices h = ground arith

  load_same : (w : World) → (load_control_devices env w).1 ≡ w
  load_same = load-Frame.at

  save_seen-Ensures :
      (P : Device → Type 0) (o : Option Seen)
      → Found (λ s. P s.device) o
      → Ensures (λ r w. Admitted P r) (save_seen env o)
  unfolding save_seen
  save_seen-Ensures P none f = Ensures-return _ (λ w. tt)
  save_seen-Ensures P (some s) f = Ensures-bind _ _ (λ u. Ensures-return _ (λ w. f))

  saved-Registry :
      (devices : List Device) (w : World) (u : Unit {0})
      → (save_control_devices env devices w).0 ≡ ok u
      → (save_control_devices env devices w).1.devices ≡ some (holds devices)
  unfolding save_control_devices config_directory secure_write system ◌>>=◌
  saved-Registry devices w u h = ground arith

-- Every device with the id is revoked in the registry on disk.
abbrev pub LockedOut : Bytes → World → Type 0
LockedOut id w = (devices : List Device) → Registry w devices → AllRevoked id devices

Registry-unique :
    (w : World) (devices others : List Device)
    → w.devices ≡ some (holds devices)
    → Registry w others
    → others ≡ devices
Registry-unique w devices others h (inl e) = cc (h, e)
Registry-unique w devices others h (inr (e, _)) = cc (h, e)

Registry-same :
    (w : World) (devices others : List Device)
    → Registry w devices
    → Registry w others
    → devices ≡ others
Registry-same w devices others (inl e) (inl f) = cc (e, f)
Registry-same w devices others (inl e) (inr (f, _)) = cc (e, f)
Registry-same w devices others (inr (e, _)) (inl f) = cc (e, f)
Registry-same w devices others (inr (_, e)) (inr (_, f)) = cc (e, f)

module _ (env : Env) where
  find-from :
      (text id : Bytes)
      → EnsuresFrom
          (λ w r w'. LockedOut id w → Admitted (λ d. d.device_id ≢ id) r)
          (find_control_device_by_token env text)
  unfolding find_control_device_by_token
  find-from text id = EnsuresFrom-if _ _ _ (EnsuresFrom-return _ (λ w out. tt)) (
      EnsuresFrom-known (λ devices w. Registry w devices) _ _ (load_same env) (load-Registry env)
        λ devices. record {
          at = λ w r h known out.
              (save_seen-Ensures env (λ d. d.device_id ≢ id) _
                  (see-AllRevoked env.now _ id devices (out devices known))).at
                w r h;
        })

  save_revoked-ok :
      (s : Seen) (w : World) (d : Device)
      → (save_revoked env (some s) w).0 ≡ ok d
      → ((save_revoked env (some s) w).1.devices ≡ some (holds s.devices))
        ⊎ ((s.changed ≡ false) × ((save_revoked env (some s) w).1 ≡ w))
  unfolding save_revoked save_control_devices config_directory secure_write system ◌>>=◌
  save_revoked-ok s w d h = ground arith

  save_revoked-LockedOut :
      (id : Bytes) (devices : List Device) (o : Option Seen)
      → Found (λ s. AllRevoked id s.devices × (s.changed ≡ false → s.devices ≡ devices)) o
      → (w : World) (d : Device) → (save_revoked env o w).0 ≡ ok d
      → Registry w devices
      → LockedOut id (save_revoked env o w).1
  save_revoked-LockedOut id devices none f w d h known others =
      absurd (unfold save_revoked fail in cc (h))
  save_revoked-LockedOut id devices (some s) (locked, same) w d h known others =
      elim (save_revoked-ok s w d h) [
        | inl saved ↦ λ r.
            subst (AllRevoked id)
              (sym (Registry-unique (save_revoked env (some s) w).1 s.devices others saved r))
              locked
        | inr (unchanged, still) ↦ λ r.
            subst (AllRevoked id)
              (same unchanged
                ∙ Registry-same w devices others known (subst (λ v. Registry v others) still r))
              locked
      ]

  revoke-from :
      (text : Bytes)
      → trim_space text ≢ []
      → EnsuresFrom
          (λ w d w'.
            ((devices : List Device) → Registry w devices → Distinct devices)
            → LockedOut (trim_space text) w')
          (revoke_control_device env text [])
  unfolding revoke_control_device trim_space
  revoke-from text named = EnsuresFrom-refuse_if _ _ _ λ b.
      EnsuresFrom-known (λ devices w. Registry w devices) _ _ (load_same env) (load-Registry env)
        λ devices. record {
          at = λ w d h known distinct.
              save_revoked-LockedOut (trim_space text) devices _
                (revoke-both env.now (trim_space text) devices named (distinct devices known)) w d h
                known;
        }

-- In the registry that a revocation by a device's id leaves behind, no token finds a device with
-- that id, at any later time, if the registry held no id twice before.
pub revoke-find :
    (env later : Env) (device text : Bytes) (w : World) (d e : Device)
    → trim_space device ≢ []
    → ((devices : List Device) → Registry w devices → Distinct devices)
    → (revoke_control_device env device [] w).0 ≡ ok d
    → (find_control_device_by_token later text (revoke_control_device env device [] w).1).0
      ≡ ok (some e)
    → e.device_id ≢ trim_space device
revoke-find env later device text w d e named distinct revoked found =
    (find-from later text (trim_space device)).at (revoke_control_device env device [] w).1 (some e)
      found ((revoke-from env device named).at w d revoked distinct)
