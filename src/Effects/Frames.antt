-- ===== src/Effects/Frames.antt =====
-- What a sequence of calls leaves alone: a view of the state that is the same afterwards, always
-- (`Frame`) or whenever the sequence fails (`FrameOnError`). One rule for each way to build one.
use http_capture.Prelude.{Bool, true, false, if◌then◌else◌, ◌≡◌, refl, ◌∙◌, ap}
use http_capture.Errors.{Error}
use http_capture.Effects.{Outcome, ok, err, M, return, fail, lift, gets, attempt, ◌>>=◌, after}

module _ {W V A : Type 0} where
  pub record Frame (view : W → V) (m : M W A) : Type 0 where
    pub at : (w : W) → view (m w).1 ≡ view w

  pub record FrameOnError (view : W → V) (m : M W A) : Type 0 where
    pub at : (w : W) (e : Error) → (m w).0 ≡ err e → view (m w).1 ≡ view w

module _ {W V A : Type 0} {view : W → V} where
  pub Frame-return : (a : A) → Frame view (return a)
  unfolding return
  Frame-return a = record { at = λ w. refl }

  pub Frame-fail : (e : Error) → Frame view (fail {A = A} e)
  unfolding fail
  Frame-fail e = record { at = λ w. refl }

  pub Frame-lift : (r : Outcome A) → Frame view (lift r)
  unfolding lift
  Frame-lift r = record { at = λ w. refl }

  pub Frame-gets : (f : W → A) → Frame view (gets f)
  unfolding gets
  Frame-gets f = record { at = λ w. refl }

  pub Frame-attempt : (m : M W A) → Frame view m → Frame view (attempt m)
  unfolding attempt
  Frame-attempt m h = record { at = λ w. h.at w }

  pub Frame-if :
      (b : Bool) (m n : M W A) → Frame view m → Frame view n → Frame view (if b then m else n)
  Frame-if true m n hm hn = hm
  Frame-if false m n hm hn = hn

  pub FrameOnError-of_Frame : (m : M W A) → Frame view m → FrameOnError view m
  FrameOnError-of_Frame m h = record { at = λ w e x. h.at w }

  pub FrameOnError-return : (a : A) → FrameOnError view (return a)
  FrameOnError-return a = FrameOnError-of_Frame (return a) (Frame-return a)

  pub FrameOnError-fail : (e : Error) → FrameOnError view (fail {A = A} e)
  FrameOnError-fail e = FrameOnError-of_Frame (fail e) (Frame-fail e)

  pub FrameOnError-if :
      (b : Bool) (m n : M W A)
      → FrameOnError view m
      → FrameOnError view n
      → FrameOnError view (if b then m else n)
  FrameOnError-if true m n hm hn = hm
  FrameOnError-if false m n hm hn = hn

module _ {W A B : Type 0} where
  return-after :
      (r : Outcome A) (w : W) (b : B) (e : Error)
      → (after (r, w) (λ _. return b)).0 ≡ err e
      → (x : Error) × (r ≡ err x) × ((after (r, w) (λ _. return b)).1 ≡ w)
  unfolding return
  return-after (ok a) w b e h = cc
  return-after (err x) w b e h = (x, refl, refl)

module _ {W V A B : Type 0} {view : W → V} where
  Frame-after :
      (r : Outcome A) (w : W) (f : A → M W B)
      → ((a : A) → Frame view (f a))
      → view (after (r, w) f).1 ≡ view w
  Frame-after (ok a) w f hf = (hf a).at w
  Frame-after (err e) w f hf = refl

  pub Frame-bind :
      (m : M W A) (f : A → M W B)
      → Frame view m
      → ((a : A) → Frame view (f a))
      → Frame view (m >>= f)
  unfolding ◌>>=◌
  Frame-bind m f hm hf = record { at = λ w. let (r, w') = m w in Frame-after r w' f hf ∙ hm.at w }

  FrameOnError-after :
      (r : Outcome A) (w : W) (f : A → M W B) (e : Error)
      → ((a : A) → FrameOnError view (f a))
      → (after (r, w) f).0 ≡ err e
      → view (after (r, w) f).1 ≡ view w
  FrameOnError-after (ok a) w f e hf h = (hf a).at w e h
  FrameOnError-after (err x) w f e hf h = refl

  -- Only the last call may change the view, and only if it succeeds.
  pub FrameOnError-bind :
      (m : M W A) (f : A → M W B)
      → Frame view m
      → ((a : A) → FrameOnError view (f a))
      → FrameOnError view (m >>= f)
  unfolding ◌>>=◌
  FrameOnError-bind m f hm hf = record {
    at = λ w e h. let (r, w') = m w in FrameOnError-after r w' f e hf h ∙ hm.at w;
  }

  -- A return behind the last call cannot fail.
  pub FrameOnError-return_after :
      (m : M W A) (b : B) → FrameOnError view m → FrameOnError view (m >>= λ _. return b)
  unfolding ◌>>=◌
  FrameOnError-return_after m b hm = record {
    at = λ w e h.
        let (r, w') = m w in
        let (x, failed, same) = return-after r w' b e h in ap view same ∙ hm.at w x failed;
  }

pub ruleset frame_rules =
    (Frame-return, Frame-fail, Frame-lift, Frame-gets, Frame-attempt, Frame-if, Frame-bind)
