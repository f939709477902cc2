-- ===== src/Handout.antt =====
-- The server of the command `pair`, cli/pairing_server.go, which hands the bundle out once. Requests
-- run at the same time: what they share is `downloaded` and the channel `acked`, and each handler
-- is a few atomic steps on them.
pub mod Once
use http_capture.Prelude.{
  ℕ, zero, suc, ◌+◌, ◌*◌, Bool, true, false, not, ◌&&◌, ◌||◌, ltb, ◌==◌, ℤ, Bytes, codes, List, [],
  ◌∷◌, ◌++◌, Option, none, some, if◌then◌else◌, str_eq, length, ◌≡◌,
}
use http_capture.Errors.{
  Error, Op, random_bytes, refused_by_system, bad_bundle_size, bad_pairing_host, pairing_expired,
  pairing_failed,
}
use http_capture.Effects.{Outcome, ok, err}
use http_capture.Numbers.{itoa}
use http_capture.Session.Manager.{join_host_port}
use http_capture.Control.Pairing.{Method, get, post, put, other}

-- The network and the system as `startPairingServer` finds them.
pub record Network : Type 0 where
  -- `net.ParseIP`: an IPv4 address that is not 0.0.0.0
  pub is_usable_ipv4 : Bytes → Bool
  -- `net.Listen`: the port that it listens on, or why it does not
  pub listen : Bytes → ℤ → Outcome ℤ
  -- 16 random bytes in base64, if there are any
  pub token : Option Bytes
  -- the text of a URL with this host and path
  pub url : Bytes → Bytes → Bytes

pub record PairingServer : Type 0 where
  pub path : Bytes
  pub url : Bytes
  pub bundle : Bytes

abbrev with_pairing_token : Network → Bytes → Bytes → ℤ → Option Bytes → Outcome PairingServer
with_pairing_token network host bundle port none = err (refused_by_system random_bytes)
with_pairing_token network host bundle port (some token) = ok (record {
  path = codes "/p/" ++ token;
  url = network.url (join_host_port host (itoa port)) (codes "/p/" ++ token);
  bundle = bundle;
})

unfoldable pub start_pairing_server : Network → Bytes → ℤ → Bytes → Outcome PairingServer
start_pairing_server network host port bundle =
    if str_eq bundle [] || ltb (64 * 1024) (length bundle)
    then err bad_bundle_size
    else if not (network.is_usable_ipv4 host)
    then err bad_pairing_host
    else elim (network.listen host port) [
      | err e ↦ err e
      | ok actual ↦ with_pairing_token network host bundle actual network.token
    ]

-- What the handlers share, and what has happened: how many have claimed the download, how many of
-- these still write the bundle, how many have written it, and how many posts were acknowledged.
pub record Shared : Type 0 where
  pub downloaded : Bool
  pub acked : Bool
  pub claimed : ℕ
  pub writing : ℕ
  pub delivered : ℕ
  pub acknowledged : ℕ

pub data HandoutAnswer : Type 0 where
  not_found gone conflict no_content not_allowed bundle_begins : HandoutAnswer

-- `downloaded.CompareAndSwap(false, true)`.
unfoldable pub claim : Shared → HandoutAnswer × Shared
claim s = if s.downloaded then (gone, s) else (
  bundle_begins,
  record s { downloaded = true; claimed = suc s.claimed; writing = suc s.writing },
)

unfoldable pub one_less : ℕ → ℕ
one_less zero = zero
one_less (suc n) = n

-- The end of `writer.Write`: after an error the bundle can be claimed again.
unfoldable pub finish_write : Bool → Shared → Shared
unfolding one_less
finish_write true s = record s { writing = one_less s.writing; delivered = suc s.delivered }
finish_write false s = record s { writing = one_less s.writing; downloaded = false }

-- A post is acknowledged once the download was claimed; the channel holds one signal.
unfoldable pub acknowledge : Shared → HandoutAnswer × Shared
acknowledge s =
    if s.downloaded
    then (no_content, record s { acked = true; acknowledged = suc s.acknowledged })
    else (conflict, s)

-- The first step of the handler, which is the only one but for the end of a write.
unfoldable pub handle : PairingServer → Bytes → Bytes → Method → Shared → HandoutAnswer × Shared
unfolding claim acknowledge
handle server path query method s =
    if not (str_eq path server.path) || not (str_eq query []) then (not_found, s) else elim method [
      | get ↦ claim s
      | post ↦ acknowledge s
      | put ↦ (not_allowed, s)
      | other ↦ (not_allowed, s)
    ]

-- Any handler may take the next step.
pub data Step (server : PairingServer) (s : Shared) : Shared → Type 0 where
  arrives :
      (path query : Bytes) (method : Method) → Step server s (handle server path query method s).1
  finishes : (fine : Bool) → ltb 0 s.writing ≡ true → Step server s (finish_write fine s)

pub data Reaches (server : PairingServer) (s : Shared) : Shared → Type 0 where
  here : Reaches server s s
  next : {t u : Shared} → Reaches server s t → Step server t u → Reaches server s u

abbrev pub untouched : Shared
untouched = record {
  downloaded = false;
  acked = false;
  claimed = 0;
  writing = 0;
  delivered = 0;
  acknowledged = 0;
}

-- What `Wait` hears first.
pub data Heard : Type 0 where
  acknowledgement time_over : Heard
  serving_failed : Error → Heard

unfoldable pub wait : Heard → Outcome (Unit {0})
wait acknowledgement = ok tt
wait time_over = err pairing_expired
wait (serving_failed e) = err (pairing_failed e)
