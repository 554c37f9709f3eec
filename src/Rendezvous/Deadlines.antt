-- ===== src/Rendezvous/Deadlines.antt =====
-- The long polls of crates/ra-rendezvous/src/lib.rs come to an end in time.
use remote_access.Base.{
  ℕ, ◌+◌, ◌*◌, ◌-◌, ◌||◌, ◌≤◌, ◌<◌, ◌≡◌, refl, min, not, is_some, unwrap_or, Bool, true, false,
  Option, none, some, List, [], ◌∷◌, All, Text, arith, Result, ok, err, Bool-cases, inl, inr,
  is_empty, ◌==◌, maybe, get,
}
use remote_access.Proto.External.{Crypto}
use remote_access.Rendezvous.State.{Store, ApiError, Outcome, ResultSlot, runtime_of}
use remote_access.Proto.Types.{PairResult}
use remote_access.Rendezvous.Auth.{Headers, authorize}
use remote_access.Rendezvous.Polling.{
  Round, answer, sleep, Wake, slept, sleep_of, deadline_of, round_end, drain, touch,
  poll_requests_round, poll_result_round, long_poll, requests_rounds, result_rounds,
  poll_pair_requests, poll_pair_result,
}

-- A round that goes on sleeps until the deadline, which is still to come.
abbrev IsTimed : {A : Type 0} → ℕ → ℕ → Result ApiError (Round A) → Type 0
IsTimed deadline later (ok (sleep d)) = (later < deadline) × (later + d ≡ deadline)
IsTimed deadline later _ = Unit

round_end-IsTimed :
    {A : Type 0} (a : A) (deadline later : ℕ)
    → IsTimed deadline later (ok (round_end a deadline later))
unfolding round_end
round_end-IsTimed a deadline later = elim (Bool-cases ((deadline - later) == 0)) [
  | inl e ↦ rw e tt
  | inr e ↦ rw e (ground arith, ground arith)
]

drain-IsTimed :
    (id : Text) (deadline later : ℕ) (s : Store)
    → IsTimed deadline later (ok (drain id deadline later s).0)
unfolding drain
drain-IsTimed id deadline later s = elim (Bool-cases (is_empty (runtime_of id s).pending)) [
  | inl e ↦ rw e (round_end-IsTimed [] deadline later)
  | inr e ↦ rw e tt
]

requests_at :
    (c : Crypto) (deadline : ℕ) (headers : Headers) (id : Text) (unix now later : ℕ) (s : Store)
    (r : Result ApiError (Unit {0}))
    → authorize c s id headers ≡ r
    → IsTimed deadline later (requests_rounds c deadline headers id unix now later s).0
unfolding poll_requests_round
requests_at c deadline headers id unix now later s (err e) eo = rw (eo, poll_requests_round) tt
requests_at c deadline headers id unix now later s (ok u) eo =
    rw (eo, poll_requests_round) (drain-IsTimed id deadline later (touch now unix id s))

requests-IsTimed :
    (c : Crypto) (deadline : ℕ) (headers : Headers) (id : Text) (unix now later : ℕ) (s : Store)
    → IsTimed deadline later (requests_rounds c deadline headers id unix now later s).0
requests-IsTimed c deadline headers id unix now later s =
    requests_at c deadline headers id unix now later s _ refl

slot_at :
    (deadline : ℕ) (request_id : Text) (later : ℕ) (s : Store) (o : Option ResultSlot)
    → get request_id s.results ≡ o
    → IsTimed deadline later (poll_result_round deadline later request_id s)
unfolding poll_result_round
slot_at deadline request_id later s none eo = rw (eo, poll_result_round) tt
slot_at deadline request_id later s (some slot) eo =
    rw (eo, poll_result_round)
      (maybe (λ (r : Result ApiError (Round (Option PairResult))). IsTimed deadline later r)
        slot.result (round_end-IsTimed none deadline later) (λ r. tt))

result-IsTimed :
    (deadline : ℕ) (request_id : Text) (unix now later : ℕ) (s : Store)
    → IsTimed deadline later (result_rounds deadline request_id unix now later s).0
result-IsTimed deadline request_id unix now later s =
    slot_at deadline request_id later s (get request_id s.results) refl

-- Some wake is not notified, and another one follows.
unfoldable pub has_quiet : List Wake → Bool
has_quiet [] = false
has_quiet (w ∷ []) = false
has_quiet (w ∷ v ∷ ws) = not (is_some w.notified) || has_quiet (v ∷ ws)

-- No round takes longer than `slack`, and no wake is later by more.
abbrev pub IsPrompt : ℕ → Wake → Type 0
IsPrompt slack w = (w.work ≤ slack) × (w.late ≤ slack)

-- The poll has answered, at that clock at the latest.
abbrev pub AnswersBy : {A : Type 0} → ℕ → Option (Outcome A × ℕ) → Type 0
AnswersBy {A} limit o = (out : Outcome A) × (t : ℕ) × (o ≡ some (out, t)) × (t ≤ limit)

module _ {A : Type 0} (round : ℕ → ℕ → ℕ → Store → Outcome (Round A)) (deadline slack : ℕ)
    (timed : (unix now later : ℕ) (s : Store)
      → IsTimed deadline later (round unix now later s).0) where
  timed_sleep :
      (later d : ℕ) (r : Result ApiError (Round A))
      → r ≡ ok (sleep d)
      → IsTimed deadline later r
      → (later < deadline) × (later + sleep_of r ≡ deadline)
  timed_sleep later d (err e) q t = cc
  timed_sleep later d (ok (answer a)) q t = cc
  timed_sleep later d (ok (sleep d')) q t = t

  answered_at :
      (w : Wake) (ws : List Wake) (now : ℕ) (s : Store) (r : Result ApiError (Round A))
      → (round w.unix now (now + w.work) (w.others s)).0 ≡ r
      → now + w.work ≤ deadline + 2 * slack
      → ((d : ℕ)
          → (round w.unix now (now + w.work) (w.others s)).0 ≡ ok (sleep d)
          → AnswersBy (deadline + 2 * slack) (
              long_poll round
                (now + w.work + slept (sleep_of (round w.unix now (now + w.work) (w.others s)).0) w)
                ws
                (round w.unix now (now + w.work) (w.others s)).1))
      → AnswersBy (deadline + 2 * slack) (long_poll round now (w ∷ ws) s)
  unfolding long_poll
  answered_at w ws now s (err e) eo h go = rw (eo, long_poll) (_, _, refl, h)
  answered_at w ws now s (ok (answer a)) eo h go = rw (eo, long_poll) (_, _, refl, h)
  answered_at w ws now s (ok (sleep d)) eo h go = rw (eo, long_poll) (go d eo)

  -- The end of a sleep
  next_start :
      (w : Wake) (now d : ℕ)
      → IsPrompt slack w
      → now + w.work < deadline
      → now + w.work + d ≡ deadline
      → now + w.work + slept d w ≤ deadline + slack
  next_start w now d p h e =
      maybe (λ (k : ℕ). now + w.work + (k + w.late) ≤ deadline + slack) w.notified
        (omega (arith, p.1)) (λ k. omega (arith, p.1))

  quiet_start :
      (w : Wake) (now d : ℕ)
      → is_some w.notified ≡ false
      → now + w.work + d ≡ deadline
      → deadline ≤ now + w.work + slept d w
  quiet_start w now d q e = ground arith

  -- From the deadline on, the next round answers.
  last_round :
      (w : Wake) (ws : List Wake) (now : ℕ) (s : Store)
      → IsPrompt slack w
      → deadline ≤ now
      → now ≤ deadline + slack
      → AnswersBy (deadline + 2 * slack) (long_poll round now (w ∷ ws) s)
  last_round w ws now s p past h = answered_at w ws now s _ refl (omega (arith, p.0, h)) (λ d e.
      let t = timed_sleep (now + w.work) d _ e (timed w.unix now (now + w.work) (w.others s)) in
      absurd (omega (arith, t.0, past)))

  long_poll-AnswersBy :
      (ws : List Wake) (now : ℕ) (s : Store)
      → has_quiet ws ≡ true
      → All (IsPrompt slack) ws
      → now ≤ deadline + slack
      → AnswersBy (deadline + 2 * slack) (long_poll round now ws s)
  unfolding has_quiet
  long_poll-AnswersBy [] now s q p h = cc
  long_poll-AnswersBy (w ∷ []) now s q p h = cc
  long_poll-AnswersBy (w ∷ v ∷ ws) now s q p h =
      answered_at w (v ∷ ws) now s _ refl (omega (arith, p.0.0, h)) (λ d e.
        let r = round w.unix now (now + w.work) (w.others s) in
        let t = timed_sleep (now + w.work) d r.0 e (timed w.unix now (now + w.work) (w.others s)) in
        let later = now + w.work + slept (sleep_of r.0) w in
        let soon = next_start w now (sleep_of r.0) p.0 t.0 t.1 in
        elim (Bool-cases (is_some w.notified)) [
          | inr quiet ↦
              last_round v ws later r.1 p.1.0 (quiet_start w now (sleep_of r.0) quiet t.1) soon
          | inl ring ↦ long_poll-AnswersBy (v ∷ ws) later r.1 (ground (arith, q, ring)) p.1 soon
        ])

-- Both long polls answer, however often they are notified, if they are not notified in one of their
-- sleeps and a round follows. They do so at the latest when the time that was asked for has passed, of
-- which 30 seconds count at most, and twice the slack, which bounds the time of a round and how late a
-- poll wakes up.
pub polls-AnswersBy :
    (c : Crypto) (start : ℕ) (wait : Option ℕ) (headers : Headers) (id request_id : Text)
    (slack : ℕ) (ws : List Wake) (s : Store)
    → has_quiet ws ≡ true
    → All (IsPrompt slack) ws
    → AnswersBy
        (start + min (unwrap_or wait 0) 30 * 1000000000 + 2 * slack)
        (poll_pair_requests c start wait headers id ws s)
      × AnswersBy
          (start + min (unwrap_or wait 0) 30 * 1000000000 + 2 * slack)
          (poll_pair_result start wait request_id ws s)
unfolding poll_pair_requests poll_pair_result
polls-AnswersBy c start wait headers id request_id slack ws s q p = (
  long_poll-AnswersBy (requests_rounds c (deadline_of start wait) headers id)
      (deadline_of start wait) slack (requests-IsTimed c (deadline_of start wait) headers id) ws
      start s q p (omega arith),
  long_poll-AnswersBy (result_rounds (deadline_of start wait) request_id) (deadline_of start wait)
      slack (result-IsTimed (deadline_of start wait) request_id) ws start s q p (omega arith),
)
