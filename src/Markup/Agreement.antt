-- ===== src/Markup/Agreement.antt =====
-- The loop of `filterXML` in cli/export.go, which counts how deep it is, writes what the recursion on
-- the document tells.
use http_capture.Prelude.{
  ℕ, suc, ◌+◌, Bool, true, false, Bytes, List, [], ◌∷◌, ◌++◌, append_assoc, append-nil, none, ◌≡◌,
  refl, sym, ap, ◌∙◌, if◌then◌else◌, Bool-cases, inl, inr,
}
use http_capture.Effects.{Outcome, ok}
use http_capture.Markup.{
  ExportFilter, Name, Attribute, Token, opening, closing, plain, Filtering, is_transaction,
  transaction_matches, on_ok, copy_token, open_block, close_block, settle, extend_block,
  outside_token, step_in, filter_tokens, filter_stream, at_end,
}
use http_capture.Markup.Tree.{
  Node, Forest, leaf, element, nothing, also, node_tokens, tokens_of, Written, put_all,
  write_transaction, write_token, followed, write_node, write_forest,
}
use http_capture.Markup.Blocks.{
  on_ok-same, on_ok_assoc, on_ok_id, sum_assoc, sum_zero, sum_one, zero_sum, filter-append, inside,
  Leads, Moves, Leads-append, closing-falls, Moves-forest,
}

module _ {S : Type 0} (fresh : S) (put : S → Token → Outcome (Bytes × S))
    (filter : ExportFilter) where
  -- Outside of transactions, with what was written so far.
  abbrev outside : S → Bytes → ℕ → Filtering S
  outside s result kept = record { encoder = s; result = result; kept = kept; block = none }

  -- The loop on these tokens writes what the recursion tells.
  record Agrees (tokens : List Token) (write : S → Outcome (Written S)) : Type 0 where
    at :
        (s : S) (result : Bytes) (kept : ℕ)
        → filter_tokens fresh put filter (outside s result kept) tokens
          ≡ on_ok (write s) (λ w. ok (outside w.encoder (result ++ w.text) (kept + w.kept)))

  Agrees-append :
      (a b : List Token) (g h : S → Outcome (Written S))
      → Agrees a g
      → Agrees b h
      → Agrees (a ++ b) (λ s. on_ok (g s) (λ w. followed fresh put filter w h))
  unfolding followed on_ok
  Agrees-append a b g h ha hb = record {
    at = λ s result kept.
        filter-append fresh put filter (outside s result kept) a b
        ∙ ap (λ r. on_ok r (λ f. filter_tokens fresh put filter f b)) (ha.at s result kept)
        ∙ on_ok_assoc (g s) _ _
        ∙ on_ok-same (g s) _ _ (λ w.
          hb.at w.encoder (result ++ w.text) (kept + w.kept)
          ∙ on_ok-same (h w.encoder) _ _ (λ v.
            ap (λ x. ok (outside v.encoder x (kept + w.kept + v.kept)))
              (append_assoc result w.text v.text)
            ∙ ap (λ n. ok (outside v.encoder (result ++ (w.text ++ v.text)) n))
                (sum_assoc kept w.kept v.kept))
          ∙ sym (on_ok_assoc (h w.encoder) _ _))
        ∙ sym (on_ok_assoc (g s) _ _);
  }

  Agrees-copy :
      (token : Token)
      → ((f : Filtering S)
          → outside_token fresh put filter f token ≡ copy_token fresh put filter f token)
      → Agrees (token ∷ []) (λ s. write_token fresh put filter s token)
  unfolding filter_tokens step_in copy_token write_token on_ok
  Agrees-copy token same = record {
    at = λ s result kept.
        on_ok_id (outside_token fresh put filter (outside s result kept) token)
        ∙ same (outside s result kept)
        ∙ on_ok-same (put s token) _ _
            (λ out. ap (λ n. ok (outside out.1 (result ++ out.0) n)) (sym (sum_zero kept)))
        ∙ sym (on_ok_assoc (put s token) _ _);
  }

  -- The end of a transaction that no other holds: its block is kept or not.
  abbrev shut : Filtering S → List Attribute → S → Bytes → Filtering S
  shut f attributes e written =
      if transaction_matches filter attributes
      then record f { result = f.result ++ written; kept = suc f.kept; block = none }
      else record f { block = none }

  Leads-shut :
      (name : Name) → is_transaction name ≡ true → Leads fresh put filter 0 shut (closing name ∷ [])
  unfolding filter_tokens put_all on_ok step_in extend_block settle close_block
  Leads-shut name e = record {
    at = λ f attributes s written.
        on_ok_id (
          step_in fresh put filter (inside fresh put filter f attributes 0 s written)
            (inside fresh put filter f attributes 0 s written).block (closing name))
        ∙ rw (closing-falls fresh put filter 0 name e) (
            on_ok-same (put s (closing name)) _ _ (λ out.
              ap (λ w. ok (shut f attributes out.1 (written ++ w))) (sym (append-nil out.0)))
            ∙ sym (on_ok_assoc (put s (closing name)) _ _));
  }

  -- What the block of a transaction becomes.
  shut-written :
      (s : S) (result : Bytes) (kept : ℕ) (attributes : List Attribute) (e : S) (text : Bytes)
      (b : Bool)
      → transaction_matches filter attributes ≡ b
      → shut (outside s result kept) attributes e text ≡ (
          let w : Written S =
            if transaction_matches filter attributes
            then record { text = text; kept = 1; encoder = s }
            else record { text = []; kept = 0; encoder = s } in
          outside w.encoder (result ++ w.text) (kept + w.kept))
  shut-written s result kept attributes e text true h =
      rw (h) (ap (λ n. outside s (result ++ text) n) (sym (sum_one kept)))
  shut-written s result kept attributes e text false h = rw (h) (
      ap (λ r. outside s r kept) (sym (append-nil result))
      ∙ ap (λ n. outside s (result ++ []) n) (sym (sum_zero kept)))

  opened :
      (name : Name) (attributes : List Attribute) (f : Filtering S)
      → is_transaction name ≡ true
      → outside_token fresh put filter f (opening name attributes)
        ≡ open_block fresh put filter f name attributes
  unfolding outside_token
  opened name attributes f e = simp e refl

  Agrees-transaction :
      (name : Name) (attributes : List Attribute) (tokens : List Token)
      → is_transaction name ≡ true
      → Moves fresh put filter 0 0 tokens
      → Agrees (opening name attributes ∷ (tokens ++ (closing name ∷ []))) (λ s.
        write_transaction fresh put filter s attributes
          (opening name attributes ∷ (tokens ++ (closing name ∷ []))))
  unfolding filter_tokens step_in open_block write_transaction put_all on_ok
  Agrees-transaction name attributes tokens e h = record {
    at = λ s result kept.
        let rest = tokens ++ (closing name ∷ []) in
        let f = outside s result kept in
        let first = put fresh (opening name attributes) in
        ap (λ r. on_ok r (λ g. filter_tokens fresh put filter g rest)) (opened name attributes f e)
        ∙ on_ok_assoc first _ _
        ∙ on_ok-same first _ _ (λ out.
          (Leads-append fresh put filter 0 0 shut tokens (closing name ∷ []) h
              (Leads-shut name e)).at
            f attributes out.1 out.0
          ∙ on_ok-same (put_all fresh put filter out.1 rest) _ _ (λ o.
            ap (λ g. ok g) (shut-written s result kept attributes o.1 (out.0 ++ o.0) _ refl))
          ∙ sym (on_ok_assoc (put_all fresh put filter out.1 rest) _ _))
        ∙ sym (on_ok_assoc first _ _)
        ∙ sym (on_ok_assoc (put_all fresh put filter fresh (opening name attributes ∷ rest)) _ _);
  }

  copied-opening :
      (name : Name) (attributes : List Attribute) (f : Filtering S)
      → is_transaction name ≡ false
      → outside_token fresh put filter f (opening name attributes)
        ≡ copy_token fresh put filter f (opening name attributes)
  unfolding outside_token
  copied-opening name attributes f e = simp e refl

  copied-closing :
      (name : Name) (f : Filtering S)
      → outside_token fresh put filter f (closing name)
        ≡ copy_token fresh put filter f (closing name)
  unfolding outside_token
  copied-closing name f = refl

  copied-plain :
      (s : Bytes) (f : Filtering S)
      → outside_token fresh put filter f (plain s) ≡ copy_token fresh put filter f (plain s)
  unfolding outside_token
  copied-plain s f = refl

  Agrees-nothing : Agrees [] (λ s. ok (record { text = []; kept = 0; encoder = s }))
  unfolding filter_tokens on_ok
  Agrees-nothing = record {
    at = λ s result kept.
        ap (λ r. ok (outside s r kept)) (sym (append-nil result))
        ∙ ap (λ n. ok (outside s (result ++ []) n)) (sym (sum_zero kept));
  }

  -- An element that is no transaction.
  Agrees-element :
      (name : Name) (attributes : List Attribute) (children : Forest)
      → is_transaction name ≡ false
      → Agrees (tokens_of children) (λ s. write_forest fresh put filter s children)
      → Agrees
          (node_tokens (element name attributes children))
          (λ s. write_node fresh put filter s (element name attributes children))
  unfolding tokens_of write_node on_ok
  Agrees-element name attributes children e h = simp e (
      Agrees-append (opening name attributes ∷ tokens_of children) (closing name ∷ []) _ _
        (Agrees-append (opening name attributes ∷ []) (tokens_of children) _ _
          (Agrees-copy (opening name attributes) (λ f. copied-opening name attributes f e)) h)
        (Agrees-copy (closing name) (copied-closing name)))

  mutual
    unfolding tokens_of write_node

    Agrees-node :
        (node : Node) → Agrees (node_tokens node) (λ s. write_node fresh put filter s node)
    Agrees-node (leaf s) = Agrees-copy (plain s) (copied-plain s)
    Agrees-node (element name attributes children) = elim (Bool-cases (is_transaction name)) [
      | inl e ↦ simp e (
          Agrees-transaction name attributes (tokens_of children) e
            (Moves-forest fresh put filter children 0))
      | inr e ↦ Agrees-element name attributes children e (Agrees-forest children)
    ]

    Agrees-forest :
        (forest : Forest) → Agrees (tokens_of forest) (λ s. write_forest fresh put filter s forest)
    Agrees-forest nothing = Agrees-nothing
    Agrees-forest (also node forest) =
        Agrees-append (node_tokens node) (tokens_of forest) _ _ (Agrees-node node)
          (Agrees-forest forest)

  -- The filter of a whole document, read token by token with a count of the transactions that are
  -- open, gives what the recursion on the document gives, for every encoder: each transaction that
  -- no other holds is written whole or not at all, as its attributes match; all else is copied, and
  -- the first error of the encoder ends both.
  pub filter_stream-document :
      (document : Forest)
      → filter_stream fresh put filter (record { tokens = tokens_of document; failure = none })
        ≡ on_ok (write_forest fresh put filter fresh document) (λ w. ok (w.text, w.kept))
  unfolding filter_stream at_end on_ok
  filter_stream-document document =
      ap (λ r. on_ok r (at_end fresh put filter none)) ((Agrees-forest document).at fresh [] 0)
      ∙ on_ok_assoc (write_forest fresh put filter fresh document) _ _
      ∙ on_ok-same (write_forest fresh put filter fresh document) _ _
          (λ w. ap (λ n. ok (w.text, n)) (zero_sum w.kept))
