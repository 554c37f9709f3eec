-- ===== src/Rendezvous/System.antt =====
-- Histories of the server of crates/ra-rendezvous/src/lib.rs: its handlers' critical sections, one
-- after the other in any order.
use remote_access.Base.{
  ℕ, Option, none, some, List, [], ◌∷◌, ◌++◌, Text, text_eq, if◌then◌else◌, get, Result, ok, err,
}
use remote_access.Proto.External.{Crypto, Rng}
use remote_access.Proto.Types.{
  Endpoint, RegisterRequest, PairRequest, PairResult, ChallengeResponse, SubmitPairRequest,
}
use remote_access.Rendezvous.State.{Store, Challenge, ApiError, runtime_of, gc}
use remote_access.Rendezvous.Auth.{Headers}
use remote_access.Rendezvous.Register.{register, heartbeat}
use remote_access.Rendezvous.Polling.{Round, answer, sleep, poll_requests_round, post_pair_result}
use remote_access.Rendezvous.Pairing.{issue_challenge, submit_pair, pair_request}

-- A critical section with its arguments. `host_info` and `poll_pair_result` change nothing.
pub data Event : Type 0 where
  registers : ℕ → Rng → ℕ → ℕ → Headers → Option Text → RegisterRequest → Event
  beats : ℕ → ℕ → Headers → Option Text → Option (List Endpoint) → Text → Event
  polls : ℕ → ℕ → ℕ → ℕ → Headers → Text → Event
  posts : Headers → Text → PairResult → Event
  collects : ℕ → Event
  issues : Rng → ℕ → Text → Event
  submits : ℕ → ℕ → ℕ → Text → SubmitPairRequest → Event

-- The token with which an event may claim an ID: only a registration may.
abbrev pub token_of : Event → Option Text
token_of (registers fuel rng now unix headers peer req) = some req.token
token_of _ = none

unfoldable pub exec : Crypto → Event → Store → Store
exec c (registers fuel rng now unix headers peer req) s =
    (register c fuel rng now unix headers peer req s).1
exec c (beats now unix headers peer body id) s = (heartbeat c now unix headers peer body id s).1
exec c (polls deadline now unix later headers id) s =
    (poll_requests_round c deadline now unix later headers id s).1
exec c (posts headers id res) s = (post_pair_result c headers id res s).1
exec c (collects now) s = gc now s
exec c (issues rng now id) s = (issue_challenge c rng now id s).1
exec c (submits now_ttl now_seen now id req) s = (submit_pair now_ttl now_seen now id req s).1

unfoldable pub run : Crypto → List Event → Store → Store
run c [] s = s
run c (e ∷ es) s = run c es (exec c e s)

abbrev pub pending_of : Text → Store → List PairRequest
pending_of id s = (runtime_of id s).pending

abbrev pub times_of : Text → Store → List ℕ
times_of id s = (runtime_of id s).challenge_times

abbrev answered : Round (List PairRequest) → List PairRequest
answered (answer prs) = prs
answered (sleep d) = []

-- What a poll has handed out.
abbrev pub delivered_by : Result ApiError (Round (List PairRequest)) → List PairRequest
delivered_by (ok r) = answered r
delivered_by (err e) = []

abbrev pub accepted_request :
    SubmitPairRequest → Option Challenge → Result ApiError (Unit {0}) → List PairRequest
accepted_request req (some ch) (ok u) = pair_request ch req ∷ []
accepted_request req _ _ = []

abbrev pub accepted_time : ℕ → Result ApiError ChallengeResponse → List ℕ
accepted_time now (ok r) = now ∷ []
accepted_time now (err e) = []

-- The requests that an event hands to the agent of host `id`.
unfoldable pub delivered : Crypto → Text → Event → Store → List PairRequest
delivered c id (polls deadline now unix later headers j) s =
    if text_eq j id
    then delivered_by (poll_requests_round c deadline now unix later headers j s).0
    else []
delivered c id _ s = []

-- The requests that an event accepts for host `id`.
unfoldable pub queued : Crypto → Text → Event → Store → List PairRequest
queued c id (submits now_ttl now_seen now j req) s =
    if text_eq j id
    then accepted_request req (get req.request_id s.challenges)
        (submit_pair now_ttl now_seen now j req s).0
    else []
queued c id _ s = []

-- The clock at which an event issues a challenge for host `id`.
unfoldable pub issued : Crypto → Text → Event → Store → List ℕ
issued c id (issues rng now j) s =
    if text_eq j id then accepted_time now (issue_challenge c rng now j s).0 else []
issued c id _ s = []

-- The three of a whole history, oldest first.
unfoldable pub delivered_all : Crypto → Text → List Event → Store → List PairRequest
delivered_all c id [] s = []
delivered_all c id (e ∷ es) s = delivered c id e s ++ delivered_all c id es (exec c e s)

unfoldable pub queued_all : Crypto → Text → List Event → Store → List PairRequest
queued_all c id [] s = []
queued_all c id (e ∷ es) s = queued c id e s ++ queued_all c id es (exec c e s)

unfoldable pub issued_all : Crypto → Text → List Event → Store → List ℕ
issued_all c id [] s = []
issued_all c id (e ∷ es) s = issued c id e s ++ issued_all c id es (exec c e s)
