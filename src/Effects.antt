-- ===== src/Effects.antt =====
-- Go's `(value, error)` results with the state that the calls before an error leave behind. The
-- operations are shut: `unfolding ◌>>=◌` opens them all.
pub mod Frames
pub mod Ensures
pub mod Refusals
use http_capture.Prelude.{Bool, true, false, if◌then◌else◌, ◌≡◌, ◌⊎◌, inl, inr, refl}
use http_capture.Errors.{Error}

pub data Outcome {ℓ} (A : Type ℓ) : Type ℓ where
  ok : A → Outcome A
  err : Error → Outcome A

abbrev pub M : Type 0 → Type 0 → Type 0
M W A = W → Outcome A × W

module _ {W A : Type 0} where
  unfoldable pub return : A → M W A
  return a w = (ok a, w)

  unfoldable pub fail : Error → M W A
  fail e w = (err e, w)

  -- A call without effects.
  unfoldable pub lift : Outcome A → M W A
  lift r w = (r, w)

  unfoldable pub gets : (W → A) → M W A
  gets f w = (ok (f w), w)

  abbrev kept : Outcome A × W → Outcome (Outcome A) × W
  kept (r, w) = (ok r, w)

  -- A call whose error the caller looks at.
  unfoldable pub attempt : M W A → M W (Outcome A)
  attempt m w = kept (m w)

module _ {W : Type 0} where
  unfoldable pub modify : (W → W) → M W (Unit {0})
  modify f w = (ok tt, f w)

  -- `if refuse { return e }`.
  abbrev pub refuse_if : Bool → Error → M W (Unit {0})
  refuse_if b e = if b then fail e else return tt

module _ {W A B : Type 0} where
  -- What follows a call: nothing, if the call failed.
  abbrev pub after : Outcome A × W → (A → M W B) → Outcome B × W
  after (ok a, w) f = f a w
  after (err e, w) f = (err e, w)

  infixl 5 ◌>>=◌ ◌>>◌
  unfoldable pub ◌>>=◌ : M W A → (A → M W B) → M W B
  unfolding return fail lift gets attempt modify
  ◌>>=◌ m f w = after (m w) f

  abbrev pub ◌>>◌ : M W A → M W B → M W B
  m >> k = m >>= λ _. k

pub Outcome-cases {ℓ} :
    {A : Type ℓ} (r : Outcome A) → ((a : A) × (r ≡ ok a)) ⊎ ((e : Error) × (r ≡ err e))
Outcome-cases (ok a) = inl (a, refl)
Outcome-cases (err e) = inr (e, refl)

abbrev pub is_ok {ℓ} : {A : Type ℓ} → Outcome A → Bool
is_ok (ok a) = true
is_ok (err e) = false
