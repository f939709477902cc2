-- ===== src/Examples/Recorded.antt =====
-- A recording with two transactions, as an example of the filter of `export`.
use http_capture.Prelude.{pos, codes, Bytes, List, [], ◌∷◌, none, ◌≡◌}
use http_capture.Effects.{Outcome, ok}
use http_capture.Markup.{
  ExportFilter, Name, Attribute, Token, opening, closing, plain, on_ok, filter_stream,
}
use http_capture.Markup.Tree.{Forest, leaf, element, nothing, also, tokens_of, write_forest}
use http_capture.Markup.Agreement.{filter_stream-document}

abbrev named : Bytes → Name
named local = record { space = []; local = local }

abbrev from_phone : Bytes → List Attribute
from_phone millis =
    record { name = named (codes "startTimeMillis"); value = millis }
    ∷ record { name = named (codes "clientAddress"); value = codes "/10.0.0.7:5000" }
    ∷ []

-- A transaction that holds another one, and one that is too late, in a session.
abbrev two_transactions : Forest
two_transactions =
    also
      (element (named (codes "session")) [] (
        also
          (element (named (codes "transaction")) (from_phone (codes "1500"))
            (also (element (named (codes "transaction")) [] nothing) nothing))
          (also (leaf (codes "x")) (
            also (element (named (codes "transaction")) (from_phone (codes "9000")) nothing)
              nothing))))
      nothing

abbrev of_phone : ExportFilter
of_phone = record { from_ms = pos 1000; to_ms = pos 2000; client_ip = codes "10.0.0.7" }

-- An encoder that writes a letter for a token, and keeps nothing.
abbrev letter : Unit {0} → Token → Outcome (Bytes × Unit {0})
letter s (opening name attributes) = ok (codes "<", tt)
letter s (closing name) = ok (codes ">", tt)
letter s (plain text) = ok (text, tt)

filter_stream-document_example :
    filter_stream tt letter of_phone
      (record { tokens = tokens_of two_transactions; failure = none })
    ≡ on_ok (write_forest tt letter of_phone tt two_transactions) (λ w. ok (w.text, w.kept))
filter_stream-document_example = filter_stream-document tt letter of_phone two_transactions
