-- ===== src/Rendezvous/Runtime.antt =====
-- What each critical section of crates/ra-rendezvous/src/lib.rs does to a host's queue and to its
-- challenge times.
use remote_access.Base.{
  ℕ, ◌<◌, length, ◌≡◌, refl, false, Option, List, [], ◌∷◌, ◌++◌, append-nil, Text, arith, get,
  get-insert, text_eq, text_eq_iff, text_eq_refl, contains_key, leb, if◌then◌else◌, ok, inl, inr,
  Bool-cases, Option-cases,
}
use remote_access.Proto.External.{Crypto, Rng}
use remote_access.Proto.Types.{
  Endpoint, RegisterRequest, PairRequest, PairResult, SubmitPairRequest,
}
use remote_access.Rendezvous.State.{
  Store, HostRuntime, challenges_per_minute, runtime_of, put_runtime,
}
use remote_access.Rendezvous.Auth.{Headers}
use remote_access.Rendezvous.Register.{register, heartbeat}
use remote_access.Rendezvous.Cases.{register_cases, heartbeat_cases}
use remote_access.Rendezvous.Polling.{poll_requests_round, post_pair_result, drain, touch, Round}
use remote_access.Rendezvous.Pairing.{issue_challenge, submit_pair, drop_old, pair_request}
use remote_access.Rendezvous.System.{
  pending_of, times_of, delivered_by, accepted_request, accepted_time,
}

pub runtime_of-put_runtime :
    (j id : Text) (rt : HostRuntime) (s : Store)
    → runtime_of id (put_runtime j rt s) ≡ (if text_eq j id then rt else runtime_of id s)
runtime_of-put_runtime j id rt s = ground (arith, get-insert j id rt s.runtime)

-- `entry(id).or_default()` alone changes no host's runtime.
pub runtime_of-entry :
    (j id : Text) (s : Store) → runtime_of id (put_runtime j (runtime_of j s) s) ≡ runtime_of id s
runtime_of-entry j id s =
    ground (arith, get-insert j id (runtime_of j s) s.runtime, text_eq_iff j id)

touch-runtime : (now unix : ℕ) (id : Text) (s : Store) → (touch now unix id s).runtime ≡ s.runtime
unfolding touch
touch-runtime now unix id s = ground arith

abbrev handed_out : Text → Text → Round (List PairRequest) → List PairRequest
handed_out id j r = if text_eq j id then delivered_by (ok r) else []

drain-pending :
    (id j : Text) (deadline later : ℕ) (s : Store)
    → handed_out id j (drain j deadline later s).0 ++ pending_of id (drain j deadline later s).1
      ≡ pending_of id s
unfolding drain
drain-pending id j deadline later s = ground (
  arith,
  runtime_of-put_runtime j id (record (runtime_of j s) { pending = [] }) s,
  runtime_of-entry j id s,
  text_eq_iff j id,
  append-nil (pending_of j s),
)

drain-times :
    (id j : Text) (deadline later : ℕ) (s : Store)
    → times_of id (drain j deadline later s).1 ≡ times_of id s
unfolding drain
drain-times id j deadline later s = ground (
  arith,
  runtime_of-put_runtime j id (record (runtime_of j s) { pending = [] }) s,
  runtime_of-entry j id s,
  text_eq_iff j id,
)

-- Issuing a challenge: the challenge times before and after, and the time that it adds.
pub data Issuing (now : ℕ) (before after added_times : List ℕ) : Type 0 where
  kept : after ≡ before → added_times ≡ [] → Issuing now before after added_times
  dropped : after ≡ drop_old now before → added_times ≡ [] → Issuing now before after added_times
  added :
      after ≡ drop_old now before ++ now ∷ []
      → added_times ≡ now ∷ []
      → length (drop_old now before) < challenges_per_minute
      → Issuing now before after added_times

module _ (c : Crypto) (id : Text) where
  pub register-runtime :
      (fuel : ℕ) (rng : Rng) (now unix : ℕ) (headers : Headers) (peer : Option Text)
      (req : RegisterRequest) (s : Store)
      → runtime_of id (register c fuel rng now unix headers peer req s).1 ≡ runtime_of id s
  register-runtime fuel rng now unix headers peer req s =
      register_cases (λ t. runtime_of id t ≡ runtime_of id s) c fuel rng now unix headers peer req s
        refl (λ j checked chosen. runtime_of-entry j id s)

  pub heartbeat-runtime :
      (now unix : ℕ) (headers : Headers) (peer : Option Text) (body : Option (List Endpoint))
      (j : Text) (s : Store)
      → runtime_of id (heartbeat c now unix headers peer body j s).1 ≡ runtime_of id s
  heartbeat-runtime now unix headers peer body j s =
      heartbeat_cases (λ t. runtime_of id t ≡ runtime_of id s) c now unix headers peer body j s refl
        (λ h found. refl)

  pub post-runtime :
      (headers : Headers) (j : Text) (res : PairResult) (s : Store)
      → runtime_of id (post_pair_result c headers j res s).1 ≡ runtime_of id s
  unfolding post_pair_result
  post-runtime headers j res s = ground arith

  -- A poll hands out the whole queue of its host, and changes no challenge times.
  pub poll-pending :
      (deadline now unix later : ℕ) (headers : Headers) (j : Text) (s : Store)
      → let r = poll_requests_round c deadline now unix later headers j s in
        (if text_eq j id then delivered_by r.0 else []) ++ pending_of id r.1 ≡ pending_of id s
  unfolding poll_requests_round
  poll-pending deadline now unix later headers j s =
      ground
        (arith, drain-pending id j deadline later (touch now unix j s), touch-runtime now unix j s)

  pub poll-times :
      (deadline now unix later : ℕ) (headers : Headers) (j : Text) (s : Store)
      → times_of id (poll_requests_round c deadline now unix later headers j s).1 ≡ times_of id s
  unfolding poll_requests_round
  poll-times deadline now unix later headers j s =
      ground
        (arith, drain-times id j deadline later (touch now unix j s), touch-runtime now unix j s)

  pub issue-pending :
      (rng : Rng) (now : ℕ) (j : Text) (s : Store)
      → pending_of id (issue_challenge c rng now j s).1 ≡ pending_of id s
  unfolding issue_challenge
  issue-pending rng now j s =
      let old = drop_old now (times_of j s) in
      ground (
        arith,
        text_eq_iff j id,
        runtime_of-put_runtime j id (record (runtime_of j s) { challenge_times = old }) s,
        runtime_of-put_runtime j id (record (runtime_of j s) { challenge_times = old ++ now ∷ [] })
            s,
      )

  pub issue_self :
      (rng : Rng) (now : ℕ) (s : Store)
      → Issuing now
          (times_of id s)
          (times_of id (issue_challenge c rng now id s).1)
          (accepted_time now (issue_challenge c rng now id s).0)
  unfolding issue_challenge
  issue_self rng now s =
      let old = drop_old now (times_of id s) in
      let put = λ (ts : List ℕ).
        runtime_of-put_runtime id id (record (runtime_of id s) { challenge_times = ts }) s in
      elim (Bool-cases (contains_key id s.hosts)) [
        | inr absent ↦ kept (ground arith) (ground arith)
        | inl present ↦ elim (Bool-cases (leb challenges_per_minute (length old))) [
          | inl full ↦ dropped (ground (arith, put old, text_eq_refl id)) (ground arith)
          | inr room ↦
              added (ground (arith, put (old ++ now ∷ []), text_eq_refl id)) (ground arith)
                (ground arith)
        ]
      ]

  pub issue_other :
      (rng : Rng) (now : ℕ) (j : Text) (s : Store)
      → text_eq j id ≡ false
      → times_of id (issue_challenge c rng now j s).1 ≡ times_of id s
  unfolding issue_challenge
  issue_other rng now j s h =
      let old = drop_old now (times_of j s) in
      ground (
        arith,
        runtime_of-put_runtime j id (record (runtime_of j s) { challenge_times = old }) s,
        runtime_of-put_runtime j id (record (runtime_of j s) { challenge_times = old ++ now ∷ [] })
            s,
      )

  -- An accepted request goes to the end of its host's queue; nothing else changes a queue.
  pub submit-pending :
      (now_ttl now_seen now : ℕ) (j : Text) (req : SubmitPairRequest) (s : Store)
      → let r = submit_pair now_ttl now_seen now j req s in
        pending_of id r.1
        ≡ pending_of id s
          ++ (if text_eq j id
              then accepted_request req (get req.request_id s.challenges) r.0
              else [])
  unfolding submit_pair
  submit-pending now_ttl now_seen now j req s =
      elim (Option-cases (get req.request_id s.challenges)) [
        | inl absent ↦ ground (arith, append-nil (pending_of id s))
        | inr (ch, found) ↦ ground (
          arith,
          append-nil (pending_of id s),
          text_eq_iff j id,
          get-insert j id
              (record (runtime_of j s) { pending = pending_of j s ++ pair_request ch req ∷ [] })
              s.runtime,
        )
      ]

  pub submit-times :
      (now_ttl now_seen now : ℕ) (j : Text) (req : SubmitPairRequest) (s : Store)
      → times_of id (submit_pair now_ttl now_seen now j req s).1 ≡ times_of id s
  unfolding submit_pair
  submit-times now_ttl now_seen now j req s =
      elim (Option-cases (get req.request_id s.challenges)) [
        | inl absent ↦ ground arith
        | inr (ch, found) ↦ ground (
          arith,
          text_eq_iff j id,
          get-insert j id
              (record (runtime_of j s) { pending = pending_of j s ++ pair_request ch req ∷ [] })
              s.runtime,
        )
      ]
