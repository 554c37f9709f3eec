-- ===== src/Rendezvous/Cases.antt =====
-- What `register` and `heartbeat` of crates/ra-rendezvous/src/lib.rs leave behind, case by case.
use remote_access.Base.{ℕ, ◌≡◌, refl, Option, some, none, List, Text, Result, ok, err, get, insert}
use remote_access.Proto.External.{Crypto, Rng}
use remote_access.Proto.Types.{Endpoint, RegisterRequest}
use remote_access.Proto.Hashes.{token_fingerprint}
use remote_access.Rendezvous.State.{HostRecord, Store, ApiError}
use remote_access.Rendezvous.Auth.{Headers, authorize}
use remote_access.Rendezvous.Register.{
  register, heartbeat, check_request, choose_id, registered, host_record, beaten, refresh_endpoints,
}

module _ {ℓ} (P : Store → Type ℓ) (c : Crypto) where
  register_at :
      (fuel : ℕ) (rng : Rng) (now unix : ℕ) (headers : Headers) (peer : Option Text)
      (req : RegisterRequest) (s : Store) (r : Result ApiError (Unit {0}))
      (q : Result ApiError Text)
      → check_request req ≡ r
      → choose_id fuel rng req (token_fingerprint c req.token) s ≡ q
      → P s
      → ((id : Text)
          → check_request req ≡ ok tt
          → choose_id fuel rng req (token_fingerprint c req.token) s ≡ ok id
          → P (registered (host_record req id (token_fingerprint c req.token) now unix) s))
      → P (register c fuel rng now unix headers peer req s).1
  unfolding register
  register_at fuel rng now unix headers peer req s (err e) q er eq same wrote = rw er same
  register_at fuel rng now unix headers peer req s (ok u) (err e) er eq same wrote =
      rw (er, eq) same
  register_at fuel rng now unix headers peer req s (ok u) (ok id) er eq same wrote =
      rw (er, eq) (wrote id er eq)

  -- A registration leaves the store as it was, or writes the record of the chosen ID.
  pub register_cases :
      (fuel : ℕ) (rng : Rng) (now unix : ℕ) (headers : Headers) (peer : Option Text)
      (req : RegisterRequest) (s : Store)
      → P s
      → ((id : Text)
          → check_request req ≡ ok tt
          → choose_id fuel rng req (token_fingerprint c req.token) s ≡ ok id
          → P (registered (host_record req id (token_fingerprint c req.token) now unix) s))
      → P (register c fuel rng now unix headers peer req s).1
  register_cases fuel rng now unix headers peer req s =
      register_at fuel rng now unix headers peer req s _ _ refl refl

  heartbeat_at :
      (now unix : ℕ) (headers : Headers) (peer : Option Text) (body : Option (List Endpoint))
      (id : Text) (s : Store) (r : Result ApiError (Unit {0})) (o : Option HostRecord)
      → authorize c s id headers ≡ r
      → get id s.hosts ≡ o
      → P s
      → ((h : HostRecord)
          → get id s.hosts ≡ some h
          → P (record s {
            hosts = insert id (beaten now unix (refresh_endpoints body h.endpoints).0 h) s.hosts;
          }))
      → P (heartbeat c now unix headers peer body id s).1
  unfolding heartbeat
  heartbeat_at now unix headers peer body id s (err e) o er eo same wrote = rw er same
  heartbeat_at now unix headers peer body id s (ok u) none er eo same wrote = rw (er, eo) same
  heartbeat_at now unix headers peer body id s (ok u) (some h) er eo same wrote =
      rw (er, eo) (wrote h eo)

  -- A heartbeat leaves the store as it was, or refreshes the record of its host.
  pub heartbeat_cases :
      (now unix : ℕ) (headers : Headers) (peer : Option Text) (body : Option (List Endpoint))
      (id : Text) (s : Store)
      → P s
      → ((h : HostRecord)
          → get id s.hosts ≡ some h
          → P (record s {
            hosts = insert id (beaten now unix (refresh_endpoints body h.endpoints).0 h) s.hosts;
          }))
      → P (heartbeat c now unix headers peer body id s).1
  heartbeat_cases now unix headers peer body id s =
      heartbeat_at now unix headers peer body id s _ _ refl refl
