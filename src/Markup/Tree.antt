-- ===== src/Markup/Tree.antt =====
-- A recording as a document: elements that hold elements. What its filter should write is told by
-- recursion on the document, cli/export.go.
use http_capture.Prelude.{Bytes, List, [], ◌∷◌, ◌++◌, ℕ, ◌+◌, if◌then◌else◌}
use http_capture.Effects.{Outcome, ok}
use http_capture.Markup.{
  ExportFilter, Name, Attribute, Token, opening, closing, plain, is_transaction,
  transaction_matches, on_ok,
}

mutual
  pub data Node : Type 0 where
    leaf : Bytes → Node
    element : Name → List Attribute → Forest → Node

  pub data Forest : Type 0 where
    nothing : Forest
    also : Node → Forest → Forest

-- The tokens of a document.
unfoldable mutual
  pub node_tokens : Node → List Token
  node_tokens (leaf s) = plain s ∷ []
  node_tokens (element name attributes children) =
      opening name attributes ∷ (tokens_of children ++ (closing name ∷ []))

  pub tokens_of : Forest → List Token
  tokens_of nothing = []
  tokens_of (also node forest) = node_tokens node ++ tokens_of forest

-- What was written, how many transactions it has, and the encoder.
pub record Written (S : Type 0) : Type 0 where
  pub text : Bytes
  pub kept : ℕ
  pub encoder : S

module _ {S : Type 0} (fresh : S) (put : S → Token → Outcome (Bytes × S))
    (filter : ExportFilter) where
  -- The tokens of a list, one after the other.
  unfoldable pub put_all : S → List Token → Outcome (Bytes × S)
  put_all s [] = ok ([], s)
  put_all s (token ∷ tokens) =
      on_ok (put s token)
        (λ out. on_ok (put_all out.1 tokens) (λ rest. ok (out.0 ++ rest.0, rest.1)))

  -- A transaction is written whole, by an encoder of its own, or not at all.
  unfoldable pub write_transaction : S → List Attribute → List Token → Outcome (Written S)
  write_transaction s attributes tokens = on_ok (put_all fresh tokens) (λ out. ok (
      if transaction_matches filter attributes
      then record { text = out.0; kept = 1; encoder = s }
      else record { text = []; kept = 0; encoder = s }))

  unfoldable pub write_token : S → Token → Outcome (Written S)
  write_token s token =
      on_ok (put s token) (λ out. ok (record { text = out.0; kept = 0; encoder = out.1 }))

  unfoldable pub followed : Written S → (S → Outcome (Written S)) → Outcome (Written S)
  followed w rest =
      on_ok (rest w.encoder)
        (λ v. ok (record { text = w.text ++ v.text; kept = w.kept + v.kept; encoder = v.encoder }))

  unfoldable mutual
    unfolding write_token write_transaction followed

    pub write_node : S → Node → Outcome (Written S)
    write_node s (leaf text) = write_token s (plain text)
    write_node s (element name attributes children) =
        if is_transaction name
        then write_transaction s attributes (node_tokens (element name attributes children))
        else on_ok
            (on_ok (write_token s (opening name attributes))
              (λ w. followed w (λ e. write_forest e children)))
            (λ v. followed v (λ e. write_token e (closing name)))

    pub write_forest : S → Forest → Outcome (Written S)
    write_forest s nothing = ok (record { text = []; kept = 0; encoder = s })
    write_forest s (also node forest) =
        on_ok (write_node s node) (λ w. followed w (λ e. write_forest e forest))
