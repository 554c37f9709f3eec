-- ===== src/Rendezvous/Registry/History.antt =====
-- The host records of crates/ra-rendezvous/src/lib.rs after any history.
use remote_access.Base.{
  ℕ, ◌≤◌, ◌≡◌, ◌⊎◌, refl, sym, ◌∙◌, subst, Option, none, some, List, [], ◌∷◌, Text, Map, arith, get,
  insert, length, ok, inl, inr, Option-cases,
}
use remote_access.Proto.External.{Crypto, Rng}
use remote_access.Proto.Types.{RegisterRequest, Endpoint, PairResult, SubmitPairRequest}
use remote_access.Proto.Hashes.{token_fingerprint}
use remote_access.Rendezvous.State.{HostRecord, Store, empty_store, gc}
use remote_access.Rendezvous.Auth.{Headers}
use remote_access.Rendezvous.Register.{
  check_request, choose_id, refresh_endpoints, host_record, beaten,
}
use remote_access.Rendezvous.Cases.{register_cases, heartbeat_cases}
use remote_access.Rendezvous.Polling.{poll_requests_round, post_pair_result, touch}
use remote_access.Rendezvous.Pairing.{issue_challenge, submit_pair}
use remote_access.Rendezvous.System.{
  Event, registers, beats, polls, posts, collects, issues, submits, token_of, exec, run,
}
use remote_access.Rendezvous.Registry.Records.{
  IsRegistered, AllRegistered, SameOwners, Refreshed, registered-SameOwners,
  registered-AllRegistered, refreshed-SameOwners, refreshed-AllRegistered,
}

refresh_endpoints-few :
    (body : Option (List Endpoint)) (old : List Endpoint)
    → length old ≤ 16
    → length (refresh_endpoints body old).0 ≤ 16
unfolding refresh_endpoints
refresh_endpoints-few body old h = ground arith

beaten-Refreshed :
    (now unix : ℕ) (body : Option (List Endpoint)) (h : HostRecord)
    → Refreshed h (beaten now unix (refresh_endpoints body h.endpoints).0 h)
beaten-Refreshed now unix body h = record {
  same_id = refl;
  same_fp = refl;
  same_name = refl;
  bounded = refresh_endpoints-few body h.endpoints;
}

module _ (c : Crypto) where
  issue-hosts :
      (rng : Rng) (now : ℕ) (id : Text) (s : Store)
      → (issue_challenge c rng now id s).1.hosts ≡ s.hosts
  unfolding issue_challenge
  issue-hosts rng now id s = ground arith

  submit-hosts :
      (now_ttl now_seen now : ℕ) (id : Text) (req : SubmitPairRequest) (s : Store)
      → (submit_pair now_ttl now_seen now id req s).1.hosts ≡ s.hosts
  unfolding submit_pair
  submit-hosts now_ttl now_seen now id req s = ground arith

  post-hosts :
      (headers : Headers) (id : Text) (res : PairResult) (s : Store)
      → (post_pair_result c headers id res s).1.hosts ≡ s.hosts
  unfolding post_pair_result
  post-hosts headers id res s = ground arith

  -- A poll leaves the host records, or goes on from `touch`.
  poll-hosts :
      (deadline now unix later : ℕ) (headers : Headers) (id : Text) (s : Store)
      → ((poll_requests_round c deadline now unix later headers id s).1.hosts ≡ s.hosts)
        ⊎ ((poll_requests_round c deadline now unix later headers id s).1.hosts
            ≡ (touch now unix id s).hosts)
  unfolding poll_requests_round
  poll-hosts deadline now unix later headers id s = ground arith

  module _ {ℓ} (P : Map HostRecord → Type ℓ) (s : Store) (same : P s.hosts)
      (refreshed : (id : Text) (h h' : HostRecord)
        → get id s.hosts ≡ some h
        → Refreshed h h'
        → P (insert id h' s.hosts)) where
    touch_cases : (now unix : ℕ) (id : Text) → P (touch now unix id s).hosts
    unfolding touch
    touch_cases now unix id = elim (Option-cases (get id s.hosts)) [
      | inl absent ↦ rw (absent, touch) same
      | inr (h, found) ↦
          let stamped = record h { last_seen = some now; last_seen_unix = unix } in
          rw (found, touch)
            (refreshed id h stamped found
              (record { same_id = refl; same_fp = refl; same_name = refl; bounded = λ b. b }))
    ]

    -- An event that is no registration leaves the host records, or refreshes one.
    pub quiet_cases : (e : Event) → token_of e ≡ none → P (exec c e s).hosts
    unfolding exec gc
    quiet_cases (registers fuel rng now unix headers peer req) q = cc
    quiet_cases (beats now unix headers peer body id) q =
        heartbeat_cases (λ t. P t.hosts) c now unix headers peer body id s same
          (λ h found. refreshed id h _ found (beaten-Refreshed now unix body h))
    quiet_cases (polls deadline now unix later headers id) q =
        elim (poll-hosts deadline now unix later headers id s) [
          | inl e ↦ subst P (sym e) same
          | inr e ↦ subst P (sym e) (touch_cases now unix id)
        ]
    quiet_cases (posts headers id res) q = subst P (sym (post-hosts headers id res s)) same
    quiet_cases (collects now) q = same
    quiet_cases (issues rng now id) q = subst P (sym (issue-hosts rng now id s)) same
    quiet_cases (submits now_ttl now_seen now id req) q =
        subst P (sym (submit-hosts now_ttl now_seen now id req s)) same

    -- What an event does to the host records: nothing, a registration, or a refreshed record.
    pub exec_cases :
        ((fuel : ℕ) (rng : Rng) (now unix : ℕ) (req : RegisterRequest) (id : Text)
          → check_request req ≡ ok tt
          → choose_id fuel rng req (token_fingerprint c req.token) s ≡ ok id
          → P (insert id (host_record req id (token_fingerprint c req.token) now unix) s.hosts))
        → (e : Event) → P (exec c e s).hosts
    unfolding exec
    exec_cases registered (registers fuel rng now unix headers peer req) =
        register_cases (λ t. P t.hosts) c fuel rng now unix headers peer req s same
          (registered fuel rng now unix req)
    exec_cases registered (beats now unix headers peer body id) =
        quiet_cases (beats now unix headers peer body id) refl
    exec_cases registered (polls deadline now unix later headers id) =
        quiet_cases (polls deadline now unix later headers id) refl
    exec_cases registered (posts headers id res) = quiet_cases (posts headers id res) refl
    exec_cases registered (collects now) = quiet_cases (collects now) refl
    exec_cases registered (issues rng now id) = quiet_cases (issues rng now id) refl
    exec_cases registered (submits now_ttl now_seen now id req) =
        quiet_cases (submits now_ttl now_seen now id req) refl

  exec-SameOwners : (e : Event) (s : Store) → SameOwners s.hosts (exec c e s).hosts
  exec-SameOwners e s =
      exec_cases (SameOwners s.hosts) s (λ id h found. (h, found, refl))
        (refreshed-SameOwners s.hosts)
        (λ fuel rng now unix req. registered-SameOwners c fuel rng now unix req s) e

  exec-AllRegistered :
      (e : Event) (s : Store) → AllRegistered s.hosts → AllRegistered (exec c e s).hosts
  exec-AllRegistered e s all =
      exec_cases AllRegistered s all
        (λ id h h' found new. refreshed-AllRegistered s.hosts id h h' found new all)
        (λ fuel rng now unix req id checked chosen.
          registered-AllRegistered c fuel rng now unix req s id checked chosen all)
        e

  -- A registered ID stays registered, and it stays with the owner of the token that it has: no
  -- history of requests gives it to a token with another fingerprint.
  pub run-SameOwners : (es : List Event) (s : Store) → SameOwners s.hosts (run c es s).hosts
  unfolding run
  run-SameOwners [] s id h found = (h, found, refl)
  run-SameOwners (e ∷ es) s id h found =
      let (h₁, found₁, same₁) = exec-SameOwners e s id h found in
      let (h₂, found₂, same₂) = run-SameOwners es (exec c e s) id h₁ found₁ in
      (h₂, found₂, same₁ ∙ same₂)

  run-AllRegistered :
      (es : List Event) (s : Store) → AllRegistered s.hosts → AllRegistered (run c es s).hosts
  unfolding run
  run-AllRegistered [] s all = all
  run-AllRegistered (e ∷ es) s all = run-AllRegistered es (exec c e s) (exec-AllRegistered e s all)

  -- In any history from the empty store, every record carries its own valid ID, a name of at least
  -- one character and at most 64 bytes, and at most 16 endpoints.
  pub run-IsRegistered :
      (es : List Event) (id : Text) (h : HostRecord)
      → get id (run c es empty_store).hosts ≡ some h
      → IsRegistered id h
  unfolding get
  run-IsRegistered es = run-AllRegistered es empty_store (λ id h found. cc)
