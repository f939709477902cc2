-- ===== src/Session/Charles.antt =====
-- The client of the control pages of Charles, cli/main.go: `newCharlesClient` and `get`. A request
-- is recorded in `charles_log` before its reply is looked at. Credentials are not modelled.
use http_capture.Prelude.{
  Bytes, codes, ◌∷◌, ◌++◌, Option, none, some, if◌then◌else◌, ltb, leb, ◌||◌, has_infix, to_lower,
  ℕ,
}
use http_capture.Errors.{charles_refused, bad_proxy_url}
use http_capture.Effects.{Outcome, ok, err, return, fail}
use http_capture.World.{Env, Run, Url}

unfoldable pub with_scheme : Bytes → Bytes
unfolding has_infix
with_scheme address =
    if has_infix address (codes "://") then address else codes "http://" ++ address

unfoldable pub parsed_address : Bytes → Option Url → Run Bytes
parsed_address address none = fail bad_proxy_url
parsed_address address (some url) = return address

abbrev charles_disabled : Bytes
charles_disabled = codes "web interface is disabled"

abbrev pub reply_of : Bytes → Option (ℕ × Bytes) → Outcome Bytes
reply_of path none = err (charles_refused path)
reply_of path (some (status, body)) =
    if ltb status 200 || leb 300 status
    then err (charles_refused path)
    else if has_infix (to_lower body) charles_disabled
    then err (charles_refused path)
    else ok body

module _ (env : Env) where
  -- A client is the address of its proxy.
  unfoldable pub new_charles_client : Bytes → Run Bytes
  new_charles_client address =
      parsed_address (with_scheme address) (env.parse_url (with_scheme address))

  unfoldable pub charles_get : Bytes → Bytes → Run Bytes
  charles_get client path w = (
    reply_of path (env.charles_reply client path),
    record w { charles_log = (client, path) ∷ w.charles_log },
  )
