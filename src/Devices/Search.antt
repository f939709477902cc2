-- ===== src/Devices/Search.antt =====
-- What a search of the device registry finds, and what a revocation makes of it.
-- Over cli/control_devices.go.
use http_capture.Prelude.{
  true, false, ℤ, Bytes, List, [], ◌∷◌, Option, none, some, ◌≡◌, ◌≢◌, refl, arith, str_eq,
  str_eq_iff, All, Bool-cases, inl, inr, ap, subst,
}
use http_capture.World.{Device}
use http_capture.Devices.{Seen, behind, see, revoke, is_named}

-- No two devices have the same id.
abbrev pub Distinct : List Device → Type 0
Distinct [] = Unit
Distinct (d ∷ devices) = All (λ e. e.device_id ≢ d.device_id) devices × Distinct devices

-- What holds of the result of a search, if there is one.
abbrev pub Found : (Seen → Type 0) → Option Seen → Type 0
Found P none = Unit
Found P (some s) = P s

abbrev pub Admitted : (Device → Type 0) → Option Device → Type 0
Admitted P none = Unit
Admitted P (some d) = P d

abbrev pub LetIn : Bytes → Seen → Type 0
LetIn digest s = (s.device.revoked ≡ false) × (s.device.token_sha256 ≡ digest)

Found-behind :
    (P Q : Seen → Type 0) (d : Device) (o : Option Seen)
    → ((s : Seen) → P s → Q (record s { devices = d ∷ s.devices }))
    → Found P o
    → Found Q (behind d o)
Found-behind P Q d none h f = tt
Found-behind P Q d (some s) h f = h s f

-- The device that a digest finds has that digest and is not revoked.
pub see-LetIn :
    (now : ℤ) (digest : Bytes) (devices : List Device)
    → Found (LetIn digest) (see now digest devices)
unfolding see
see-LetIn now digest [] = tt
see-LetIn now digest (d ∷ devices) =
    let later =
      Found-behind (LetIn digest) (LetIn digest) d _ (λ s h. h) (see-LetIn now digest devices) in
    elim (Bool-cases d.revoked) [
      | inl out ↦ simp out later
      | inr free ↦ elim (Bool-cases (str_eq d.token_sha256 digest)) [
        | inl hit ↦ simp (free, hit) (refl, (str_eq_iff _ _).0 hit)
        | inr miss ↦ simp (free, miss) later
      ]
    ]

-- A registry of which every device with the id is revoked.
abbrev pub AllRevoked : Bytes → List Device → Type 0
AllRevoked id = All (λ e. e.device_id ≡ id → e.revoked ≡ true)

-- No device with an id that is locked out is found.
pub see-AllRevoked :
    (now : ℤ) (digest id : Bytes) (devices : List Device)
    → AllRevoked id devices
    → Found (λ s. s.device.device_id ≢ id) (see now digest devices)
unfolding see
see-AllRevoked now digest id [] h = tt
see-AllRevoked now digest id (d ∷ devices) h =
    let later =
      Found-behind (λ s. s.device.device_id ≢ id) (λ s. s.device.device_id ≢ id) d _ (λ s k. k)
        (see-AllRevoked now digest id devices h.1) in
    elim (Bool-cases d.revoked) [
      | inl out ↦ simp out later
      | inr free ↦ elim (Bool-cases (str_eq d.token_sha256 digest)) [
        | inl hit ↦ simp (free, hit) (λ e. cc (h.0 e, free))
        | inr miss ↦ simp (free, miss) later
      ]
    ]

locked_of_other :
    (id : Bytes) (devices : List Device)
    → All (λ e. e.device_id ≢ id) devices
    → AllRevoked id devices
locked_of_other id [] h = tt
locked_of_other id (d ∷ devices) h = (λ e. absurd (h.0 e), locked_of_other id devices h.1)

is_named-id : (id : Bytes) (d : Device) → id ≢ [] → is_named id [] d ≡ str_eq d.device_id id
unfolding is_named str_eq
is_named-id id d h = ground (arith, str_eq_iff id [])

-- After the device with an id was revoked, every device with that id is.
revoke-AllRevoked :
    (now : ℤ) (id : Bytes) (devices : List Device)
    → id ≢ []
    → Distinct devices
    → Found (λ s. AllRevoked id s.devices) (revoke now id [] devices)
unfolding revoke
revoke-AllRevoked now id [] h distinct = tt
revoke-AllRevoked now id (d ∷ devices) h (others, distinct) =
    elim (Bool-cases (str_eq d.device_id id)) [
      | inl same ↦
          let name = (str_eq_iff _ _).0 same in
          let rest =
            locked_of_other id devices
              (subst (λ i. All (λ e. e.device_id ≢ i) devices) name others) in
          elim (Bool-cases d.revoked) [
            | inl out ↦ simp (is_named-id id d h, same, out) ((λ e. refl), rest)
            | inr free ↦ simp (is_named-id id d h, same, free) ((λ e. refl), rest)
          ]
      | inr other ↦
          simp (is_named-id id d h, other)
            (Found-behind (λ s. AllRevoked id s.devices) (λ s. AllRevoked id s.devices) d _
              (λ s k. ((λ e. absurd (cc (other, (str_eq_iff _ _).1 e))), k))
              (revoke-AllRevoked now id devices h distinct))
    ]

-- A search that leaves nothing to save leaves the registry as it was.
revoke_unchanged :
    (now : ℤ) (id : Bytes) (devices : List Device)
    → Found (λ s. s.changed ≡ false → s.devices ≡ devices) (revoke now id [] devices)
unfolding revoke
revoke_unchanged now id [] = tt
revoke_unchanged now id (d ∷ devices) =
    let later =
      Found-behind (λ s. s.changed ≡ false → s.devices ≡ devices)
        (λ s. s.changed ≡ false → s.devices ≡ d ∷ devices) d _ (λ s k e. ap (λ ds. d ∷ ds) (k e))
        (revoke_unchanged now id devices) in
    elim (Bool-cases (is_named id [] d)) [
      | inl named ↦ elim (Bool-cases d.revoked) [
        | inl out ↦ simp (named, out) (λ e. refl)
        | inr free ↦ simp (named, free) (λ e. cc)
      ]
      | inr other ↦ simp other later
    ]

Found-both :
    (P Q : Seen → Type 0) (o : Option Seen) → Found P o → Found Q o → Found (λ s. P s × Q s) o
Found-both P Q none f g = tt
Found-both P Q (some s) f g = (f, g)

pub revoke-both :
    (now : ℤ) (id : Bytes) (devices : List Device)
    → id ≢ []
    → Distinct devices
    → Found
        (λ s. AllRevoked id s.devices × (s.changed ≡ false → s.devices ≡ devices))
        (revoke now id [] devices)
revoke-both now id devices h distinct =
    Found-both _ _ _ (revoke-AllRevoked now id devices h distinct) (revoke_unchanged now id devices)
