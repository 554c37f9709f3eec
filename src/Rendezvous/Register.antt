-- ===== src/Rendezvous/Register.antt =====
-- The handlers of crates/ra-rendezvous/src/lib.rs that keep a host registered: `register`,
-- `heartbeat` and `host_info`.
use remote_access.Base.{
  ℕ, zero, suc, ◌+◌, Bool, true, false, not, ◌&&◌, Option, none, some, List, [], ◌∷◌, Text, get,
  insert, contains_key, ltb, leb, ◌==◌, text_eq, if◌then◌else◌, is_empty, len, length, Result, ok,
  err, ◌>>=◌, ◌>>◌, ok_or, require,
}
use remote_access.Proto.External.{Crypto, Rng}
use remote_access.Proto.Types.{Endpoint, RegisterRequest, RegisterResponse, HostInfo}
use remote_access.Proto.Hashes.{ct_eq, token_fingerprint}
use remote_access.Proto.Ids.{is_valid_id, random_id}
use remote_access.Rendezvous.State.{
  HostRecord, Store, ApiError, api_err, bad_request, forbidden, not_found, panicked, Outcome,
  commit, runtime_of, put_runtime, heartbeat_secs, offline_after_secs, u64_max, duration_since,
  as_secs,
}
use remote_access.Rendezvous.Auth.{Headers, authorize, observed_ip}

unfoldable pub check_request : RegisterRequest → Result ApiError (Unit {0})
check_request req = do
  require (leb 32 (len req.token)) (api_err bad_request "token too short")
  require (not (is_empty req.name) && leb (len req.name) 64)
      (api_err bad_request "name must be 1..64 chars")
  require (leb (length req.endpoints) 16) (api_err bad_request "too many endpoints")

-- `loop { … }` over the random IDs from the i-th draw on; each takes `id_digits` draws. `none` means
-- that the fuel ran out.
unfoldable pub free_id : ℕ → Rng → ℕ → Store → Option Text
free_id zero rng i s = none
free_id (suc fuel) rng i s =
    let candidate = random_id rng i in
    elim (contains_key candidate s.hosts) [
      | false ↦ some candidate
      | true ↦ free_id fuel rng (i + 9) s
    ]

-- An ID that the request names must be well formed, and free or owned by the same token.
unfoldable pub claim_id : Text → Text → Store → Result ApiError Text
claim_id fp id s = do
  require (is_valid_id id) (api_err bad_request "malformed id")
  elim (get id s.hosts) [
    | none ↦ ok id
    | some existing ↦
        if ct_eq existing.token_fp fp
        then ok id
        else err (api_err forbidden "id is owned by a different token")
  ]

unfoldable pub choose_id : ℕ → Rng → RegisterRequest → Text → Store → Result ApiError Text
unfolding claim_id
choose_id fuel rng req fp s = elim req.id [
  | some id ↦ claim_id fp id s
  | none ↦ ok_or (free_id fuel rng 0 s) (api_err panicked "out of fuel")
]

abbrev pub host_record : RegisterRequest → Text → Text → ℕ → ℕ → HostRecord
host_record req id fp now unix = record {
  id = id;
  token_fp = fp;
  name = req.name;
  platform = req.platform;
  endpoints = req.endpoints;
  password_salt = req.password_salt;
  agent_version = req.agent_version;
  last_seen = some now;
  last_seen_unix = unix;
}

abbrev pub put_host : HostRecord → Store → Store
put_host h s = record s { hosts = insert h.id h s.hosts }

-- The host's record is written, and it has a runtime.
abbrev pub registered : HostRecord → Store → Store
registered h s = let s' = put_host h s in put_runtime h.id (runtime_of h.id s') s'

unfoldable pub register :
    Crypto
    → ℕ
    → Rng
    → ℕ
    → ℕ
    → Headers
    → Option Text
    → RegisterRequest
    → Store
    → Outcome RegisterResponse
register c fuel rng now unix headers peer req s = commit s do
  check_request req
  let fp = token_fingerprint c req.token
  id ← choose_id fuel rng req fp s
  ok (
    record { id = id; observed_addr = observed_ip headers peer; heartbeat_secs = heartbeat_secs },
    registered (host_record req id fp now unix) s,
  )

endpoint_eq : Endpoint → Endpoint → Bool
endpoint_eq a b = text_eq a.host b.host && a.port == b.port && text_eq a.kind b.kind

-- `==` on lists of endpoints
unfoldable pub endpoints_eq : List Endpoint → List Endpoint → Bool
unfolding endpoint_eq
endpoints_eq [] [] = true
endpoints_eq [] (b ∷ bs) = false
endpoints_eq (a ∷ as') [] = false
endpoints_eq (a ∷ as') (b ∷ bs) = endpoint_eq a b && endpoints_eq as' bs

-- The endpoints after a heartbeat, and whether they have changed.
unfoldable pub refresh_endpoints : Option (List Endpoint) → List Endpoint → List Endpoint × Bool
unfolding endpoints_eq
refresh_endpoints none old = (old, false)
refresh_endpoints (some eps) old =
    if leb (length eps) 16 && not (endpoints_eq old eps) then (eps, true) else (old, false)

-- The answer also says whether the handler goes on to `persist`.
-- The record after a heartbeat.
abbrev pub beaten : ℕ → ℕ → List Endpoint → HostRecord → HostRecord
beaten now unix eps host = record host {
  endpoints = eps;
  last_seen = some now;
  last_seen_unix = unix;
}

-- The answer also says whether the handler goes on to `persist`.
unfoldable pub heartbeat :
    Crypto
    → ℕ
    → ℕ
    → Headers
    → Option Text
    → Option (List Endpoint)
    → Text
    → Store
    → Outcome (RegisterResponse × Bool)
heartbeat c now unix headers peer body id s = commit s do
  authorize c s id headers
  host ← ok_or (get id s.hosts) (api_err panicked "authorized")
  let (eps, changed) = refresh_endpoints body host.endpoints
  ok (
    (
      record { id = id; observed_addr = observed_ip headers peer; heartbeat_secs = heartbeat_secs },
      changed,
    ),
    record s { hosts = insert id (beaten now unix eps host) s.hosts },
  )

unfoldable pub seconds_since : ℕ → Option ℕ → ℕ
seconds_since now none = u64_max
seconds_since now (some t) = as_secs (duration_since now t)

unfoldable pub host_info : ℕ → Text → Store → Result ApiError HostInfo
unfolding seconds_since
host_info now id s = do
  host ← ok_or (get id s.hosts) (api_err not_found "unknown host id")
  let last_seen_secs = seconds_since now host.last_seen
  ok (record {
    id = host.id;
    name = host.name;
    platform = host.platform;
    online = ltb last_seen_secs offline_after_secs;
    endpoints = host.endpoints;
    password_salt = host.password_salt;
    last_seen_secs = last_seen_secs;
  })
