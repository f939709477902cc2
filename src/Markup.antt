-- ===== src/Markup.antt =====
-- The filter of a Charles recording in XML: `filterXML` and `transactionMatches` of cli/export.go,
-- over the tokens that encoding/xml reads and writes.
pub mod Tree
pub mod Blocks
pub mod Agreement
use http_capture.Prelude.{
  ℕ, zero, suc, Bool, true, false, not, ◌&&◌, ◌||◌, ℤ, pos, ltb_int, Bytes, codes, List, [], ◌∷◌,
  ◌++◌, Option, none, some, if◌then◌else◌, str_eq,
}
use http_capture.Errors.{Error, cut_off_block}
use http_capture.Effects.{Outcome, ok, err}
use http_capture.Numbers.{parse_int}
use http_capture.Captured.{client_address_matches}

pub record ExportFilter : Type 0 where
  pub from_ms : ℤ
  pub to_ms : ℤ
  pub client_ip : Bytes

-- `xml.Name` and `xml.Attr`.
pub record Name : Type 0 where
  pub space : Bytes
  pub local : Bytes

pub record Attribute : Type 0 where
  pub name : Name
  pub value : Bytes

pub data Token : Type 0 where
  opening : Name → List Attribute → Token
  closing : Name → Token
  -- text, comments, processing instructions and directives
  plain : Bytes → Token

-- What a decoder reads: tokens, and then the end or an error.
pub record Stream : Type 0 where
  pub tokens : List Token
  pub failure : Option Error

abbrev pub is_transaction : Name → Bool
is_transaction name = str_eq name.local (codes "transaction")

-- The attributes that are looked at: each is the last of its name.
pub record SeenAttributes : Type 0 where
  pub start_ms : ℤ
  pub client : Bytes

unfoldable pub seen_attributes : SeenAttributes → List Attribute → SeenAttributes
seen_attributes seen [] = seen
seen_attributes seen (attribute ∷ attributes) =
    seen_attributes
      (if str_eq attribute.name.local (codes "startTimeMillis")
        then record seen { start_ms = parse_int attribute.value }
        else if str_eq attribute.name.local (codes "clientAddress")
        then record seen { client = attribute.value }
        else seen)
      attributes

-- A time outside the limits of the filter; 0 is no limit.
abbrev pub is_outside : ExportFilter → ℤ → Bool
is_outside filter millis =
    (ltb_int (pos 0) filter.from_ms && ltb_int millis filter.from_ms)
    || (ltb_int (pos 0) filter.to_ms && ltb_int filter.to_ms millis)

unfoldable pub transaction_matches : ExportFilter → List Attribute → Bool
unfolding seen_attributes
transaction_matches filter attributes =
    let seen = seen_attributes (record { start_ms = pos 0; client = [] }) attributes in
    not (is_outside filter seen.start_ms)
    && (str_eq filter.client_ip [] || client_address_matches seen.client filter.client_ip)

-- What follows a result that is no error.
unfoldable pub on_ok {ℓ κ} : {A : Type ℓ} {B : Type κ} → Outcome A → (A → Outcome B) → Outcome B
on_ok (ok a) f = f a
on_ok (err e) f = err e

-- A block of tokens, from a transaction on, that is not complete yet: how many transactions are
-- open in it, and its own encoder with what that has written.
pub record Block (S : Type 0) : Type 0 where
  pub attributes : List Attribute
  pub depth : ℕ
  pub encoder : S
  pub written : Bytes

pub record Filtering (S : Type 0) : Type 0 where
  pub encoder : S
  pub result : Bytes
  pub kept : ℕ
  pub block : Option (Block S)

unfoldable pub fall : ℕ → ℕ
fall zero = zero
fall (suc n) = n

unfoldable pub next_depth : ℕ → Token → ℕ
unfolding fall
next_depth depth (opening name attributes) = if is_transaction name then suc depth else depth
next_depth depth (closing name) = if is_transaction name then fall depth else depth
next_depth depth (plain s) = depth

-- An encoder of encoding/xml: what it writes for a token, and how it goes on. It writes to a
-- buffer, so that flushing it cannot fail.
module _ {S : Type 0} (fresh : S) (put : S → Token → Outcome (Bytes × S))
    (filter : ExportFilter) where
  -- A token outside of transactions.
  unfoldable pub copy_token : Filtering S → Token → Outcome (Filtering S)
  copy_token f token =
      on_ok (put f.encoder token)
        (λ out. ok (record f { encoder = out.1; result = f.result ++ out.0 }))

  unfoldable pub open_block : Filtering S → Name → List Attribute → Outcome (Filtering S)
  open_block f name attributes = on_ok (put fresh (opening name attributes)) (λ out. ok (record f {
    block = some (record { attributes = attributes; depth = 1; encoder = out.1; written = out.0 });
  }))

  -- A complete block is kept if its transaction matches.
  unfoldable pub close_block : Filtering S → Block S → Filtering S
  close_block f block =
      if transaction_matches filter block.attributes
      then record f { result = f.result ++ block.written; kept = suc f.kept; block = none }
      else record f { block = none }

  unfoldable pub settle : Filtering S → Block S → ℕ → Filtering S
  unfolding close_block
  settle f block zero = close_block f block
  settle f block (suc n) = record f { block = some (record block { depth = suc n }) }

  unfoldable pub extend_block : Filtering S → Block S → Token → Outcome (Filtering S)
  unfolding settle
  extend_block f block token = on_ok (put block.encoder token) (λ out. ok (
      settle f (record block { encoder = out.1; written = block.written ++ out.0 })
        (next_depth block.depth token)))

  unfoldable pub outside_token : Filtering S → Token → Outcome (Filtering S)
  unfolding open_block copy_token
  outside_token f (opening name attributes) =
      if is_transaction name
      then open_block f name attributes
      else copy_token f (opening name attributes)
  outside_token f (closing name) = copy_token f (closing name)
  outside_token f (plain s) = copy_token f (plain s)

  unfoldable pub step_in : Filtering S → Option (Block S) → Token → Outcome (Filtering S)
  unfolding outside_token extend_block
  step_in f none token = outside_token f token
  step_in f (some block) token = extend_block f block token

  unfoldable pub filter_tokens : Filtering S → List Token → Outcome (Filtering S)
  unfolding step_in
  filter_tokens f [] = ok f
  filter_tokens f (token ∷ tokens) = on_ok (step_in f f.block token) (λ g. filter_tokens g tokens)

  -- The end of the tokens: inside a block it is an error too.
  unfoldable pub at_end : Option Error → Filtering S → Outcome (Bytes × ℕ)
  at_end (some e) f = err e
  at_end none f = elim f.block [ none ↦ ok (f.result, f.kept) | some block ↦ err cut_off_block ]

  abbrev pub at_start : S → Filtering S
  at_start s = record { encoder = s; result = []; kept = 0; block = none }

  -- The text of the output, and the number of transactions that it has.
  unfoldable pub filter_stream : Stream → Outcome (Bytes × ℕ)
  unfolding filter_tokens at_end
  filter_stream stream =
      on_ok (filter_tokens (at_start fresh) stream.tokens) (at_end stream.failure)
