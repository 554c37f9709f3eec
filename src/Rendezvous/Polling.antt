-- ===== src/Rendezvous/Polling.antt =====
-- The long polls of crates/ra-rendezvous/src/lib.rs and the handler that answers a request:
-- `poll_pair_requests`, `poll_pair_result` and `post_pair_result`. A poll holds the lock for one
-- round at a time; while it sleeps, other handlers change the store.
use remote_access.Base.{
  ℕ, ◌+◌, min, Option, none, some, List, [], ◌∷◌, Text, get, insert, is_empty, ◌==◌, if◌then◌else◌,
  unwrap_or, Result, ok, err, ◌>>=◌, ◌>>◌, ok_or,
}
use remote_access.Proto.External.{Crypto}
use remote_access.Proto.Types.{PairRequest, PairResult}
use remote_access.Rendezvous.State.{
  Store, ApiError, api_err, not_found, Outcome, commit, runtime_of, put_runtime, from_secs,
  duration_since, max_long_poll_secs,
}
use remote_access.Rendezvous.Auth.{Headers, authorize}

-- What a round of a poll comes to: an answer, or another round after a sleep of so long at most.
pub data Round (A : Type 0) : Type 0 where
  answer : A → Round A
  sleep : ℕ → Round A

-- `Instant::now() + wait`, for the query's `wait` in seconds
abbrev pub deadline_of : ℕ → Option ℕ → ℕ
deadline_of now wait = now + from_secs (min (unwrap_or wait 0) max_long_poll_secs)

-- What a round answers that found nothing: `later` is the clock after the lock is given back.
unfoldable pub round_end : {A : Type 0} → A → ℕ → ℕ → Round A
round_end empty deadline later =
    let remaining = duration_since deadline later in
    if remaining == 0 then answer empty else sleep remaining

-- `if let Some(h) = hosts.get_mut(id) { … }`
unfoldable pub touch : ℕ → ℕ → Text → Store → Store
touch now unix id s = elim (get id s.hosts) [
  | none ↦ s
  | some h ↦ record s {
    hosts = insert id (record h { last_seen = some now; last_seen_unix = unix }) s.hosts;
  }
]

-- `pending.drain(..)` where there is something, and the round's end where there is not.
unfoldable pub drain : Text → ℕ → ℕ → Store → Round (List PairRequest) × Store
unfolding round_end
drain id deadline later s =
    let rt = runtime_of id s in
    if is_empty rt.pending
    then (round_end [] deadline later, put_runtime id rt s)
    else (answer rt.pending, put_runtime id (record rt { pending = [] }) s)

unfoldable pub poll_requests_round :
    Crypto → ℕ → ℕ → ℕ → ℕ → Headers → Text → Store → Outcome (Round (List PairRequest))
unfolding touch drain
poll_requests_round c deadline now unix later headers id s =
    commit s do authorize c s id headers; ok (drain id deadline later (touch now unix id s))

-- What a poll meets: what the other handlers did to the store before the round, the time from its start
-- to its look at the deadline, when the sleep after it is notified, if it is, and how much later than it
-- should the poll wakes up.
pub record Wake : Type 0 where
  pub others : Store → Store
  pub unix : ℕ
  pub work : ℕ
  pub notified : Option ℕ
  pub late : ℕ

-- `timeout(remaining, notify.notified())`: how long it takes
abbrev pub slept : ℕ → Wake → ℕ
slept remaining w = elim w.notified [ none ↦ remaining | some d ↦ min d remaining ] + w.late

abbrev pub sleep_of : {A : Type 0} → Result ApiError (Round A) → ℕ
sleep_of (ok (sleep d)) = d
sleep_of _ = 0

-- The loop of both polls from a clock on, with the clock when it ends; a round is given the two clocks.
-- `none` is a poll that still sleeps after the last wake.
unfoldable pub long_poll :
    {A : Type 0}
    → (ℕ → ℕ → ℕ → Store → Outcome (Round A))
    → ℕ
    → List Wake
    → Store
    → Option (Outcome A × ℕ)
long_poll round now [] s = none
long_poll round now (w ∷ ws) s =
    let later = now + w.work in
    let r = round w.unix now later (w.others s) in
    let rest = long_poll round (later + slept (sleep_of r.0) w) ws r.1 in
    elim r.0 [
      | err e ↦ some ((err e, r.1), later)
      | ok (answer a) ↦ some ((ok a, r.1), later)
      | ok (sleep d) ↦ rest
    ]

abbrev pub requests_rounds :
    Crypto → ℕ → Headers → Text → ℕ → ℕ → ℕ → Store → Outcome (Round (List PairRequest))
requests_rounds c deadline headers id unix now later s =
    poll_requests_round c deadline now unix later headers id s

-- `start` is the clock when the request arrives, `wait` its query.
unfoldable pub poll_pair_requests :
    Crypto
    → ℕ
    → Option ℕ
    → Headers
    → Text
    → List Wake
    → Store
    → Option (Outcome (List PairRequest) × ℕ)
unfolding long_poll poll_requests_round
poll_pair_requests c start wait headers id ws s =
    long_poll (requests_rounds c (deadline_of start wait) headers id) start ws s

-- It checks that the poster owns the host `id`, and not that the request was for that host.
unfoldable pub post_pair_result : Crypto → Headers → Text → PairResult → Store → Outcome (Unit {0})
post_pair_result c headers id res s = commit s do
  authorize c s id headers
  slot ← ok_or (get res.request_id s.results) (api_err not_found "unknown request id")
  ok (
    tt,
    record s { results = insert res.request_id (record slot { result = some res }) s.results },
  )

unfoldable pub poll_result_round :
    ℕ → ℕ → Text → Store → Result ApiError (Round (Option PairResult))
unfolding round_end
poll_result_round deadline later request_id s = do
  slot ← ok_or (get request_id s.results) (api_err not_found "unknown request id")
  elim slot.result [ some r ↦ ok (answer (some r)) | none ↦ ok (round_end none deadline later) ]

abbrev pub result_rounds : ℕ → Text → ℕ → ℕ → ℕ → Store → Outcome (Round (Option PairResult))
result_rounds deadline request_id unix now later s =
    (poll_result_round deadline later request_id s, s)

unfoldable pub poll_pair_result :
    ℕ → Option ℕ → Text → List Wake → Store → Option (Outcome (Option PairResult) × ℕ)
unfolding long_poll poll_result_round
poll_pair_result start wait request_id ws s =
    long_poll (result_rounds (deadline_of start wait) request_id) start ws s
