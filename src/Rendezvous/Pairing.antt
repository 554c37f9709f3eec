-- ===== src/Rendezvous/Pairing.antt =====
-- The client's side of a pair request in crates/ra-rendezvous/src/lib.rs: `challenge` and
-- `submit_pair`.
use remote_access.Base.{
  ℕ, Bool, false, not, ◌&&◌, Option, none, some, List, [], ◌∷◌, ◌++◌, Text, get, insert, remove,
  contains_key, is_empty, ltb, leb, ◌==◌, text_eq, if◌then◌else◌, len, length, Result, ok, err,
  ◌>>◌, require,
}
use remote_access.Proto.External.{Crypto, Rng}
use remote_access.Proto.Ids.{random_hex}
use remote_access.Proto.Types.{PairRequest, ChallengeResponse, SubmitPairRequest}
use remote_access.Rendezvous.State.{
  Challenge, Store, ApiError, api_err, bad_request, not_found, gone, too_many_requests,
  service_unavailable, Outcome, runtime_of, put_runtime, from_secs, duration_since, as_secs,
  offline_after_secs, challenge_ttl_secs, challenges_per_minute, gc,
}

-- `while front is older than a minute { pop_front }`
unfoldable pub drop_old : ℕ → List ℕ → List ℕ
drop_old now [] = []
drop_old now (t ∷ ts) =
    if ltb (from_secs 60) (duration_since now t) then drop_old now ts else t ∷ ts

-- The part of `challenge` under the lock. The two random strings are the draws 0 and 1.
unfoldable pub issue_challenge : Crypto → Rng → ℕ → Text → Store → Outcome ChallengeResponse
unfolding drop_old
issue_challenge c rng now id s =
    if not (contains_key id s.hosts)
    then (err (api_err not_found "unknown host id"), s)
    else let rt = runtime_of id s in
      let times = drop_old now rt.challenge_times in
      if leb challenges_per_minute (length times)
      then (
        err (api_err too_many_requests "too many pairing attempts, slow down"),
        put_runtime id (record rt { challenge_times = times }) s,
      )
      else let request_id = random_hex c rng 0 16 in
        let chal = random_hex c rng 1 32 in
        let s' = put_runtime id (record rt { challenge_times = times ++ now ∷ [] }) s in
        (
          ok (record { request_id = request_id; challenge = chal; ttl_secs = challenge_ttl_secs }),
          record s' {
            challenges =
                insert request_id (record { host_id = id; challenge = chal; created = now })
                  s'.challenges;
          },
        )

-- `gc` runs under a lock of its own, at the earlier clock `now_gc`.
unfoldable pub challenge : Crypto → Rng → ℕ → ℕ → Text → Store → Outcome ChallengeResponse
unfolding gc issue_challenge
challenge c rng now_gc now id s = issue_challenge c rng now id (gc now_gc s)

unfoldable pub check_submission : SubmitPairRequest → Result ApiError (Unit {0})
check_submission req = do
  require (not (is_empty req.device_name) && leb (len req.device_name) 64)
      (api_err bad_request "device_name must be 1..64 chars")
  require ((len req.response == 64) && leb (len req.sealed_pin) 256)
      (api_err bad_request "malformed response or sealed_pin")

-- `host.last_seen` is there and less than `offline_after_secs` old.
unfoldable pub is_online : ℕ → Text → Store → Bool
is_online now id s = elim (get id s.hosts) [
  | none ↦ false
  | some h ↦ elim h.last_seen [
    | none ↦ false
    | some t ↦ ltb (as_secs (duration_since now t)) offline_after_secs
  ]
]

-- The challenge is for this host, and has not expired; the host is there. The two clocks are the
-- readings of `ch.created.elapsed()` and `t.elapsed()`.
unfoldable pub check_challenge : ℕ → ℕ → Text → Challenge → Store → Result ApiError (Unit {0})
unfolding is_online
check_challenge now_ttl now_seen id ch s = do
  require (text_eq ch.host_id id) (api_err bad_request "challenge belongs to a different host")
  require (ltb (as_secs (duration_since now_ttl ch.created)) challenge_ttl_secs)
      (api_err gone "challenge expired")
  require (is_online now_seen id s) (api_err service_unavailable "host is offline")

abbrev pub pair_request : Challenge → SubmitPairRequest → PairRequest
pair_request ch req = record {
  request_id = req.request_id;
  challenge = ch.challenge;
  response = req.response;
  device_name = req.device_name;
  client_uid = req.client_uid;
  sealed_pin = req.sealed_pin;
  remember = req.remember;
}

-- The result slot is opened and the request is queued for the host.
unfoldable pub enqueue : ℕ → Text → Challenge → SubmitPairRequest → Store → Store
enqueue now id ch req s =
    let s' = record s {
      results = insert req.request_id (record { result = none; created = now }) s.results;
    } in
    let rt = runtime_of id s' in
    put_runtime id (record rt { pending = rt.pending ++ pair_request ch req ∷ [] }) s'

-- A challenge that was found is gone, whatever comes of the request.
unfoldable pub use_challenge :
    ℕ → ℕ → ℕ → Text → SubmitPairRequest → Option Challenge → Store → Outcome (Unit {0})
unfolding check_challenge enqueue
use_challenge now_ttl now_seen now id req none s =
    (err (api_err not_found "unknown or expired challenge"), s)
use_challenge now_ttl now_seen now id req (some ch) s =
    let s' = record s { challenges = remove req.request_id s.challenges } in
    elim (check_challenge now_ttl now_seen id ch s') [
      | err e ↦ (err e, s')
      | ok u ↦ (ok tt, enqueue now id ch req s')
    ]

unfoldable pub submit_pair : ℕ → ℕ → ℕ → Text → SubmitPairRequest → Store → Outcome (Unit {0})
unfolding check_submission use_challenge
submit_pair now_ttl now_seen now id req s = elim (check_submission req) [
  | err e ↦ (err e, s)
  | ok u ↦ use_challenge now_ttl now_seen now id req (get req.request_id s.challenges) s
]
