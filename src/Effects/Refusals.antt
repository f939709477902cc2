-- ===== src/Effects/Refusals.antt =====
-- Sequences of calls that fail and change nothing, in a given state.
use http_capture.Prelude.{false, true, Bool, ◌≡◌, refl, sym, subst}
use http_capture.Errors.{Error}
use http_capture.Effects.{Outcome, ok, err, M, ◌>>=◌, ◌>>◌, after, is_ok, refuse_if}

module _ {W A : Type 0} where
  pub record Refuses (w : W) (m : M W A) : Type 0 where
    pub failed : is_ok (m w).0 ≡ false
    pub unchanged : (m w).1 ≡ w

module _ {W A B : Type 0} {w : W} where
  Refuses-after :
      (r : Outcome A) (w' : W) (f : A → M W B)
      → w' ≡ w
      → ((a : A) → r ≡ ok a → Refuses w (f a))
      → (is_ok (after (r, w') f).0 ≡ false) × ((after (r, w') f).1 ≡ w)
  Refuses-after (ok a) w' f same h =
      subst (λ x. (is_ok (f a x).0 ≡ false) × ((f a x).1 ≡ w)) (sym same)
        ((h a refl).failed, (h a refl).unchanged)
  Refuses-after (err e) w' f same h = (refl, same)

  -- A call that changes nothing, and then a refusal or nothing at all.
  pub Refuses-bind :
      (m : M W A) (f : A → M W B)
      → ((v : W) → (m v).1 ≡ v)
      → ((a : A) → (m w).0 ≡ ok a → Refuses w (f a))
      → Refuses w (m >>= f)
  unfolding ◌>>=◌
  Refuses-bind m f same h =
      let (r, w') = m w in
      let both = Refuses-after r w' f (same w) h in record { failed = both.0; unchanged = both.1 }

module _ {W B : Type 0} {w : W} where
  pub Refuses-refuse_if :
      (b : Bool) (e : Error) (rest : M W B) → b ≡ true → Refuses w (refuse_if b e >> rest)
  unfolding ◌>>=◌
  Refuses-refuse_if b e rest h = rw h (record { failed = refl; unchanged = refl })

module _ {W A B : Type 0} {w : W} where
  then_refused :
      (r : Outcome A) (w' : W) (f : A → M W B)
      → is_ok r ≡ false
      → w' ≡ w
      → (is_ok (after (r, w') f).0 ≡ false) × ((after (r, w') f).1 ≡ w)
  then_refused (ok a) w' f failed same = cc
  then_refused (err e) w' f failed same = (refl, same)

  -- Nothing follows a refusal.
  pub Refuses-then : (m : M W A) (f : A → M W B) → Refuses w m → Refuses w (m >>= f)
  unfolding ◌>>=◌
  Refuses-then m f h =
      let (r, w') = m w in
      let both = then_refused r w' f h.failed h.unchanged in
      record { failed = both.0; unchanged = both.1 }
