-- ===== src/Markup/Blocks.antt =====
-- The tokens inside of a transaction, `filterXML` of cli/export.go: they go to the encoder of its block,
-- and a document in it leaves the depth as it was.
use http_capture.Prelude.{
  ℕ, suc, ◌+◌, true, false, Bytes, List, [], ◌∷◌, ◌++◌, append_assoc, append-nil, some, ◌≡◌, refl,
  sym, ap, ◌∙◌, arith, Bool-cases, inl, inr,
}
use http_capture.Effects.{Outcome, ok, err}
use http_capture.Markup.{
  ExportFilter, Name, Attribute, Token, opening, closing, plain, Filtering, is_transaction, on_ok,
  next_depth, fall, settle, extend_block, step_in, filter_tokens,
}
use http_capture.Markup.Tree.{
  Node, Forest, leaf, element, nothing, also, node_tokens, tokens_of, put_all,
}

module _ {A B : Type 0} where
  pub on_ok-same :
      (r : Outcome A) (f g : A → Outcome B) → ((a : A) → f a ≡ g a) → on_ok r f ≡ on_ok r g
  unfolding on_ok
  on_ok-same (ok a) f g e = e a
  on_ok-same (err x) f g e = refl

  pub on_ok_assoc :
      {C : Type 0} (r : Outcome A) (f : A → Outcome B) (g : B → Outcome C)
      → on_ok (on_ok r f) g ≡ on_ok r (λ a. on_ok (f a) g)
  unfolding on_ok
  on_ok_assoc (ok a) f g = refl
  on_ok_assoc (err x) f g = refl

pub on_ok_id : {A : Type 0} (r : Outcome A) → on_ok r (λ a. ok a) ≡ r
unfolding on_ok
on_ok_id (ok a) = refl
on_ok_id (err x) = refl

-- Text in front of what a call writes, and calls one after the other.
module _ {S : Type 0} where
  abbrev in_front : Bytes → Outcome (Bytes × S) → Outcome (Bytes × S)
  in_front x r = on_ok r (λ o. ok (x ++ o.0, o.1))

  abbrev in_turn : Outcome (Bytes × S) → (S → Outcome (Bytes × S)) → Outcome (Bytes × S)
  in_turn r next = on_ok r (λ o. in_front o.0 (next o.1))

  in_front-in_front :
      (x y : Bytes) (r : Outcome (Bytes × S)) → in_front x (in_front y r) ≡ in_front (x ++ y) r
  unfolding on_ok
  in_front-in_front x y (ok o) = ap (λ z. ok (z, o.1)) (sym (append_assoc x y o.0))
  in_front-in_front x y (err e) = refl

  in_front-in_turn :
      (x : Bytes) (r : Outcome (Bytes × S)) (next : S → Outcome (Bytes × S))
      → in_front x (in_turn r next) ≡ in_turn (in_front x r) next
  unfolding on_ok
  in_front-in_turn x (ok o) next = in_front-in_front x o.0 (next o.1)
  in_front-in_turn x (err e) next = refl

pub sum_assoc : (a b c : ℕ) → a + b + c ≡ a + (b + c)
sum_assoc a b c = omega arith

pub sum_zero : (a : ℕ) → a + 0 ≡ a
sum_zero a = omega arith

pub zero_sum : (a : ℕ) → 0 + a ≡ a
zero_sum a = omega arith

pub sum_one : (a : ℕ) → a + 1 ≡ suc a
sum_one a = omega arith

module _ {S : Type 0} (fresh : S) (put : S → Token → Outcome (Bytes × S))
    (filter : ExportFilter) where
  pub filter-append :
      (f : Filtering S) (a b : List Token)
      → filter_tokens fresh put filter f (a ++ b)
        ≡ on_ok (filter_tokens fresh put filter f a) (λ g. filter_tokens fresh put filter g b)
  unfolding filter_tokens on_ok
  filter-append f [] b = refl
  filter-append f (token ∷ a) b =
      let first = step_in fresh put filter f f.block token in
      on_ok-same first _ _ (λ g. filter-append g a b) ∙ sym (on_ok_assoc first _ _)

  put-append :
      (s : S) (a b : List Token)
      → put_all fresh put filter s (a ++ b)
        ≡ on_ok
            (put_all fresh put filter s a)
            (λ o. on_ok (put_all fresh put filter o.1 b) (λ r. ok (o.0 ++ r.0, r.1)))
  unfolding put_all on_ok
  put-append s [] b = sym (on_ok_id (put_all fresh put filter s b))
  put-append s (token ∷ a) b =
      on_ok-same (put s token) _ _ (λ out.
        ap (in_front out.0) (put-append out.1 a b)
        ∙ in_front-in_turn out.0 (put_all fresh put filter out.1 a)
            (λ e. put_all fresh put filter e b))
      ∙ sym (on_ok_assoc (put s token) _ _)

  -- A block that has `suc d` transactions open.
  abbrev pub inside : Filtering S → List Attribute → ℕ → S → Bytes → Filtering S
  inside f attributes d e written = record f {
    block =
        some (record { attributes = attributes; depth = suc d; encoder = e; written = written });
  }

  -- Inside a block, tokens go to its encoder, and lead to `next` with what that has written.
  pub record Leads (d : ℕ) (next : Filtering S → List Attribute → S → Bytes → Filtering S)
      (tokens : List Token) : Type 0 where
    pub at :
        (f : Filtering S) (attributes : List Attribute) (e : S) (written : Bytes)
        → filter_tokens fresh put filter (inside f attributes d e written) tokens
          ≡ on_ok
              (put_all fresh put filter e tokens)
              (λ o. ok (next f attributes o.1 (written ++ o.0)))

  abbrev pub Moves : ℕ → ℕ → List Token → Type 0
  Moves d d' tokens = Leads d (λ f attributes e written. inside f attributes d' e written) tokens

  Moves-nil : (d : ℕ) → Moves d d []
  unfolding filter_tokens put_all on_ok
  Moves-nil d = record {
    at = λ f attributes e written.
        ap (λ w. ok (inside f attributes d e w)) (sym (append-nil written));
  }

  -- A token that is put into a block which stays open.
  moved_on :
      (f : Filtering S) (attributes : List Attribute) (s : S) (written : Bytes) (d d' : ℕ)
      (token : Token)
      → next_depth (suc d) token ≡ suc d'
      → step_in fresh put filter
          (inside f attributes d s written)
          (inside f attributes d s written).block
          token
        ≡ on_ok
            (put_all fresh put filter s (token ∷ []))
            (λ o. ok (inside f attributes d' o.1 (written ++ o.0)))
  unfolding put_all on_ok step_in extend_block settle
  moved_on f attributes s written d d' token e = rw (e) (
      on_ok-same (put s token) _ _
        (λ out. ap (λ w. ok (inside f attributes d' out.1 (written ++ w))) (sym (append-nil out.0)))
      ∙ sym (on_ok_assoc (put s token) _ _))

  Moves-one :
      (d d' : ℕ) (token : Token) → next_depth (suc d) token ≡ suc d' → Moves d d' (token ∷ [])
  unfolding filter_tokens put_all on_ok step_in extend_block settle
  Moves-one d d' token e = record {
    at = λ f attributes s written.
        on_ok_id (
          step_in fresh put filter (inside f attributes d s written)
            (inside f attributes d s written).block token)
        ∙ moved_on f attributes s written d d' token e;
  }

  pub Leads-append :
      (d d' : ℕ) (next : Filtering S → List Attribute → S → Bytes → Filtering S) (a b : List Token)
      → Moves d d' a
      → Leads d' next b
      → Leads d next (a ++ b)
  unfolding on_ok
  Leads-append d d' next a b ha hb = record {
    at = λ f attributes s written.
        filter-append (inside f attributes d s written) a b
        ∙ ap (λ r. on_ok r (λ g. filter_tokens fresh put filter g b)) (ha.at f attributes s written)
        ∙ on_ok_assoc (put_all fresh put filter s a) _ _
        ∙ on_ok-same (put_all fresh put filter s a) _ _ (λ o.
          hb.at f attributes o.1 (written ++ o.0)
          ∙ on_ok-same (put_all fresh put filter o.1 b) _ _
              (λ r. ap (λ w. ok (next f attributes r.1 w)) (append_assoc written o.0 r.0))
          ∙ sym (on_ok_assoc (put_all fresh put filter o.1 b) _ _))
        ∙ sym (on_ok_assoc (put_all fresh put filter s a) _ _)
        ∙ ap (λ r. on_ok r (λ o. ok (next f attributes o.1 (written ++ o.0))))
            (sym (put-append s a b));
  }

  Moves-append :
      (d d' d'' : ℕ) (a b : List Token) → Moves d d' a → Moves d' d'' b → Moves d d'' (a ++ b)
  Moves-append d d' d'' a b ha hb = Leads-append d d' _ a b ha hb

  opening-falls :
      (d : ℕ) (name : Name) (attributes : List Attribute)
      → is_transaction name ≡ true
      → next_depth (suc d) (opening name attributes) ≡ suc (suc d)
  unfolding next_depth
  opening-falls d name attributes e = simp e refl

  pub closing-falls :
      (d : ℕ) (name : Name) → is_transaction name ≡ true → next_depth (suc d) (closing name) ≡ d
  unfolding next_depth fall
  closing-falls d name e = simp e refl

  opening-stays :
      (d : ℕ) (name : Name) (attributes : List Attribute)
      → is_transaction name ≡ false
      → next_depth (suc d) (opening name attributes) ≡ suc d
  unfolding next_depth
  opening-stays d name attributes e = simp e refl

  closing-stays :
      (d : ℕ) (name : Name)
      → is_transaction name ≡ false
      → next_depth (suc d) (closing name) ≡ suc d
  unfolding next_depth
  closing-stays d name e = simp e refl

  -- An element around what keeps the depth keeps it too, whether it is a transaction or not.
  Moves-element :
      (d : ℕ) (name : Name) (attributes : List Attribute) (tokens : List Token)
      → ((n : ℕ) → Moves n n tokens)
      → Moves d d (opening name attributes ∷ (tokens ++ (closing name ∷ [])))
  Moves-element d name attributes tokens h = elim (Bool-cases (is_transaction name)) [
    | inl e ↦
        Moves-append d (suc d) d (opening name attributes ∷ []) _
          (Moves-one d (suc d) _ (opening-falls d name attributes e))
          (Moves-append (suc d) (suc d) d tokens _ (h (suc d))
            (Moves-one (suc d) d _ (closing-falls (suc d) name e)))
    | inr e ↦
        Moves-append d d d (opening name attributes ∷ []) _
          (Moves-one d d _ (opening-stays d name attributes e))
          (Moves-append d d d tokens _ (h d) (Moves-one d d _ (closing-stays d name e)))
  ]

  plain-stays : (d : ℕ) (s : Bytes) → next_depth (suc d) (plain s) ≡ suc d
  unfolding next_depth
  plain-stays d s = refl

  mutual
    unfolding tokens_of

    Moves-node : (node : Node) (d : ℕ) → Moves d d (node_tokens node)
    Moves-node (leaf s) d = Moves-one d d (plain s) (plain-stays d s)
    Moves-node (element name attributes children) d =
        Moves-element d name attributes (tokens_of children) (Moves-forest children)

    pub Moves-forest : (forest : Forest) (d : ℕ) → Moves d d (tokens_of forest)
    Moves-forest nothing d = Moves-nil d
    Moves-forest (also node forest) d =
        Moves-append d d d (node_tokens node) (tokens_of forest) (Moves-node node d)
          (Moves-forest forest d)
