-- ===== src/Control/Pairing.antt =====
-- The one download of the pairing bundle, `servePairing` of cli/control_server.go.
use http_capture.Prelude.{
  true, Bytes, List, [], ◌∷◌, Option, none, some, if◌then◌else◌, str_eq, ℕ, ◌+◌, ◌≤◌, ◌≡◌, refl, ap,
  ◌∙◌, arith,
}
use http_capture.Control.{PairingState}

pub data PairReply : Type 0 where
  not_found gone conflict no_content method_not_allowed : PairReply
  served : Bytes → PairReply

pub data Method : Type 0 where
  get post put other : Method

unfoldable pub pair_method : PairingState → Method → PairReply × PairingState
pair_method p get =
    if p.downloaded then (gone, p) else (served p.bundle, record p { downloaded = true })
pair_method p post = if p.downloaded then (no_content, record p { acked = true }) else (conflict, p)
pair_method p put = (method_not_allowed, p)
pair_method p other = (method_not_allowed, p)

unfoldable pub serve_pairing :
    Option PairingState → Bytes → Method → PairReply × Option PairingState
unfolding pair_method
serve_pairing none token method = (not_found, none)
serve_pairing (some p) token method =
    let (reply, next) = pair_method p method in
    if str_eq token p.token then (reply, some next) else (not_found, some p)

-- The requests of one service, one after the other.
unfoldable pub serve_all :
    Option PairingState → List (Bytes × Method) → List PairReply × Option PairingState
serve_all p [] = ([], p)
serve_all p ((token, method) ∷ requests) =
    let (reply, next) = serve_pairing p token method in
    let (replies, last) = serve_all next requests in (reply ∷ replies, last)

-- How often the bundle was handed out.
unfoldable pub downloads : List PairReply → ℕ
downloads [] = 0
downloads (served bundle ∷ replies) = 1 + downloads replies
downloads (not_found ∷ replies) = downloads replies
downloads (gone ∷ replies) = downloads replies
downloads (conflict ∷ replies) = downloads replies
downloads (no_content ∷ replies) = downloads replies
downloads (method_not_allowed ∷ replies) = downloads replies

-- The downloads that a state still allows.
abbrev allowance : Option PairingState → ℕ
allowance none = 0
allowance (some p) = if p.downloaded then 0 else 1

spent : PairReply → ℕ
spent r = downloads (r ∷ [])

serve_pairing-allowance :
    (p : Option PairingState) (token : Bytes) (method : Method)
    → spent (serve_pairing p token method).0 + allowance (serve_pairing p token method).1
      ≡ allowance p
unfolding serve_pairing spent downloads
serve_pairing-allowance none token method = refl
serve_pairing-allowance (some p) token get = ground arith
serve_pairing-allowance (some p) token post = ground arith
serve_pairing-allowance (some p) token put = ground arith
serve_pairing-allowance (some p) token other = ground arith

downloads-cons :
    (r : PairReply) (replies : List PairReply)
    → downloads (r ∷ replies) ≡ spent r + downloads replies
unfolding downloads spent
downloads-cons (served bundle) replies = refl
downloads-cons not_found replies = omega arith
downloads-cons gone replies = omega arith
downloads-cons conflict replies = omega arith
downloads-cons no_content replies = omega arith
downloads-cons method_not_allowed replies = omega arith

serve_all-allowance :
    (p : Option PairingState) (requests : List (Bytes × Method))
    → downloads (serve_all p requests).0 + allowance (serve_all p requests).1 ≡ allowance p
unfolding serve_all
serve_all-allowance p [] = unfold downloads in omega arith
serve_all-allowance p ((token, method) ∷ requests) =
    let next = (serve_pairing p token method).1 in
    omega (
      arith,
      serve_pairing-allowance p token method,
      serve_all-allowance next requests,
      downloads-cons (serve_pairing p token method).0 (serve_all next requests).0,
    )

allowance_le : (p : Option PairingState) → allowance p ≤ 1
allowance_le none = omega arith
allowance_le (some p) = ground arith

-- Whatever requests arrive, the bundle is handed out at most once, and not at all by a state that
-- has served it before.
pub serve_all-downloads :
    (p : Option PairingState) (requests : List (Bytes × Method))
    → (downloads (serve_all p requests).0 ≤ 1)
      × ((q : PairingState)
          → p ≡ some q
          → q.downloaded ≡ true
          → downloads (serve_all p requests).0 ≡ 0)
serve_all-downloads p requests = (
  omega (arith, serve_all-allowance p requests, allowance_le p),
  λ q e d. omega (arith, serve_all-allowance p requests, ap allowance e ∙ spent_before q d),
)
  where
    spent_before : (q : PairingState) → q.downloaded ≡ true → allowance (some q) ≡ 0
    spent_before q d = ground arith

-- A confirmation is recorded only after the bundle was served.
abbrev AckedAfterDownload : Option PairingState → Type 0
AckedAfterDownload none = Unit
AckedAfterDownload (some p) = p.acked ≡ true → p.downloaded ≡ true

serve_pairing-AckedAfterDownload :
    (p : Option PairingState) (token : Bytes) (method : Method)
    → AckedAfterDownload p
    → AckedAfterDownload (serve_pairing p token method).1
unfolding serve_pairing
serve_pairing-AckedAfterDownload none token method h = tt
serve_pairing-AckedAfterDownload (some p) token get h = ground arith
serve_pairing-AckedAfterDownload (some p) token post h = ground arith
serve_pairing-AckedAfterDownload (some p) token put h = ground arith
serve_pairing-AckedAfterDownload (some p) token other h = ground arith

-- If a confirmation is recorded only together with a download at first, so it is after every
-- sequence of requests to the pairing server.
serve_all-AckedAfterDownload :
    (p : Option PairingState) (requests : List (Bytes × Method))
    → AckedAfterDownload p
    → AckedAfterDownload (serve_all p requests).1
unfolding serve_all
serve_all-AckedAfterDownload p [] h = h
serve_all-AckedAfterDownload p ((token, method) ∷ requests) h =
    serve_all-AckedAfterDownload (serve_pairing p token method).1 requests
      (serve_pairing-AckedAfterDownload p token method h)
