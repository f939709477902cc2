-- ===== src/Effects/Ensures.antt =====
-- What holds when a sequence of calls succeeds: a rule for each way to build one, and the inversion
-- of a sequence that succeeded.
use http_capture.Prelude.{Bool, true, false, if◌then◌else◌, ◌≡◌, refl, ap, ◌∙◌, sym, subst}
use http_capture.Errors.{Error}
use http_capture.Effects.{Outcome, ok, err, M, return, fail, ◌>>=◌, after, refuse_if}

module _ {W A : Type 0} where
  -- `P` holds of the result and the state whenever `m` succeeds.
  pub record Ensures (P : A → W → Type 0) (m : M W A) : Type 0 where
    pub at : (w : W) (a : A) → (m w).0 ≡ ok a → P a (m w).1

module _ {W A : Type 0} {P : A → W → Type 0} where
  pub Ensures-fail : (e : Error) → Ensures P (fail e)
  unfolding fail
  Ensures-fail e = record { at = λ w a h. cc }

  pub Ensures-return : (a : A) → ((w : W) → P a w) → Ensures P (return a)
  unfolding return
  Ensures-return a k = record {
    at = λ w b h. let same : a ≡ b = cc (h) in subst (λ x. P x w) same (k w);
  }

  pub Ensures-if :
      (b : Bool) (m n : M W A) → Ensures P m → Ensures P n → Ensures P (if b then m else n)
  Ensures-if true m n hm hn = hm
  Ensures-if false m n hm hn = hn

module _ {W A B : Type 0} {P : B → W → Type 0} where
  Ensures-after :
      (r : Outcome A) (w : W) (f : A → M W B) (b : B)
      → ((a : A) → Ensures P (f a))
      → (after (r, w) f).0 ≡ ok b
      → P b (after (r, w) f).1
  Ensures-after (ok a) w f b hf h = (hf a).at w b h
  Ensures-after (err e) w f b hf h = cc

  pub Ensures-bind : (m : M W A) (f : A → M W B) → ((a : A) → Ensures P (f a)) → Ensures P (m >>= f)
  unfolding ◌>>=◌
  Ensures-bind m f hf = record { at = λ w b h. let (r, w') = m w in Ensures-after r w' f b hf h }

pub ruleset ensures_rules = (Ensures-fail, Ensures-if, Ensures-bind)

module _ {W A B : Type 0} where
  after-ok :
      (r : Outcome A) (w : W) (f : A → M W B) (b : B)
      → (after (r, w) f).0 ≡ ok b
      → (a : A) × (r ≡ ok a) × (after (r, w) f ≡ f a w)
  after-ok (ok a) w f b h = (a, refl, refl)
  after-ok (err e) w f b h = cc

  -- A sequence that succeeds went through its first call.
  pub bind-ok :
      (m : M W A) (f : A → M W B) (w : W) (b : B)
      → ((m >>= f) w).0 ≡ ok b
      → (a : A) × ((m w).0 ≡ ok a) × ((m >>= f) w ≡ f a (m w).1)
  unfolding ◌>>=◌
  bind-ok m f w b h = let (r, w') = m w in after-ok r w' f b h

module _ {W A : Type 0} where
  -- The same with a look at the state before.
  pub record EnsuresFrom (Q : W → A → W → Type 0) (m : M W A) : Type 0 where
    pub at : (w : W) (a : A) → (m w).0 ≡ ok a → Q w a (m w).1

module _ {W A : Type 0} {Q : W → A → W → Type 0} where
  pub EnsuresFrom-fail : (e : Error) → EnsuresFrom Q (fail e)
  unfolding fail
  EnsuresFrom-fail e = record { at = λ w a h. cc }

  pub EnsuresFrom-return : (a : A) → ((w : W) → Q w a w) → EnsuresFrom Q (return a)
  unfolding return
  EnsuresFrom-return a k = record {
    at = λ w b h. let same : a ≡ b = cc (h) in subst (λ x. Q w x w) same (k w);
  }

  pub EnsuresFrom-if :
      (b : Bool) (m n : M W A)
      → EnsuresFrom Q m
      → EnsuresFrom Q n
      → EnsuresFrom Q (if b then m else n)
  EnsuresFrom-if true m n hm hn = hm
  EnsuresFrom-if false m n hm hn = hn

module _ {W A B : Type 0} {Q : W → B → W → Type 0} where
  -- A call that changes nothing, and what its result tells of the state.
  pub EnsuresFrom-known :
      (K : A → W → Type 0) (m : M W A) (f : A → M W B)
      → ((w : W) → (m w).1 ≡ w)
      → ((w : W) (a : A) → (m w).0 ≡ ok a → K a w)
      → ((a : A) → EnsuresFrom (λ w b w'. K a w → Q w b w') (f a))
      → EnsuresFrom Q (m >>= f)
  EnsuresFrom-known K m f same known hf = record {
    at = λ w b h.
        let (a, first, rest) = bind-ok m f w b h in
        let whole : (m >>= f) w ≡ f a w = rest ∙ ap (f a) (same w) in
        subst (λ w'. Q w b w') (sym (ap (λ p. p.1) whole))
          ((hf a).at w b (sym (ap (λ p. p.0) whole) ∙ h) (known w a first));
  }

  pub EnsuresFrom-reader :
      (m : M W A) (f : A → M W B)
      → ((w : W) → (m w).1 ≡ w)
      → ((a : A) → EnsuresFrom Q (f a))
      → EnsuresFrom Q (m >>= f)
  EnsuresFrom-reader m f same hf = record {
    at = λ w b h.
        let (a, first, rest) = bind-ok m f w b h in
        let whole : (m >>= f) w ≡ f a w = rest ∙ ap (f a) (same w) in
        subst (λ w'. Q w b w') (sym (ap (λ p. p.1) whole))
          ((hf a).at w b (sym (ap (λ p. p.0) whole) ∙ h));
  }

module _ {W B : Type 0} {Q : W → B → W → Type 0} where
  -- What follows a guard runs only if the guard lets it.
  pub EnsuresFrom-refuse_if :
      (b : Bool) (e : Error) (rest : M W B)
      → (b ≡ false → EnsuresFrom Q rest)
      → EnsuresFrom Q (refuse_if b e >>= λ _. rest)
  unfolding ◌>>=◌
  EnsuresFrom-refuse_if true e rest h = record { at = λ w x r. cc }
  EnsuresFrom-refuse_if false e rest h = record { at = (h refl).at }
