-- ===== src/Rendezvous/Auth.antt =====
-- Bearer tokens of crates/ra-rendezvous/src/lib.rs. Of the request's headers the server reads two,
-- each the header's value where it is there and is visible ASCII.
use remote_access.Base.{
  Option, none, some, Text, lit, get, strip_prefix, trim, first_field, Result, ◌>>=◌, ok_or,
  require,
}
use remote_access.Proto.External.{Crypto}
use remote_access.Proto.Hashes.{ct_eq, token_fingerprint}
use remote_access.Rendezvous.State.{Store, ApiError, api_err, unauthorized, not_found, forbidden}

pub record Headers : Type 0 where
  pub authorization : Option Text
  pub x_forwarded_for : Option Text

trimmed : Option Text → Option Text
trimmed none = none
trimmed (some s) = some (trim s)

unfoldable pub bearer : Headers → Option Text
unfolding trimmed
bearer headers = elim headers.authorization [
  | none ↦ none
  | some v ↦ trimmed (strip_prefix v (lit "Bearer "))
]

unfoldable pub authorize : Crypto → Store → Text → Headers → Result ApiError (Unit {0})
authorize c store id headers = do
  token ← ok_or (bearer headers) (api_err unauthorized "missing bearer token")
  host ← ok_or (get id store.hosts) (api_err not_found "unknown host id")
  require (ct_eq host.token_fp (token_fingerprint c token)) (api_err forbidden "bad token")

-- `peer` is the IP address of the connection, as text.
unfoldable pub observed_ip : Headers → Option Text → Option Text
observed_ip headers peer = elim headers.x_forwarded_for [
  | some v ↦ some (trim (first_field b',' v))
  | none ↦ peer
]
