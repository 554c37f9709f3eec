-- ===== src/Host/Agent.antt =====
-- `Agent` of crates/ra-host/src/agent.rs: what becomes of a pairing request. Apollo is the interface
-- of crates/ra-host/src/apollo.rs, over a state of its own.
use remote_access.Base.{
  ℕ, zero, suc, ◌+◌, ◌-◌, ◌^◌, Bool, true, false, not, ◌||◌, ltb, leb, min, max, Option, none, some,
  List, [], ◌∷◌, Text, lit, text_eq, is_empty, find, Result, ok, err, if◌then◌else◌,
}
use remote_access.Proto.External.{Crypto}
use remote_access.Proto.Types.{PairRequest, PairResult, paired, rejected, failed, RegisterResponse}
use remote_access.Proto.Hashes.{ct_eq, challenge_response}
use remote_access.Proto.Pins.{derive, open_pin}
use remote_access.Host.Config.{Config}
use remote_access.Host.Apollos.{ApolloClient}
use remote_access.Host.Names.{sanitize_name}

-- Apollo's operations; an error is its message.
pub record Apollo (S : Type 0) : Type 0 where
  pub list_clients : S → Result Text (List ApolloClient) × S
  pub submit_pin : Text → Text → S → Result Text Bool × S
  pub update_client : ApolloClient → S → Result Text (Unit {0}) × S

abbrev pub wrong_password : Text
wrong_password = lit "wrong password"

-- The clocks of a round in milliseconds: at the test of the deadline, at that of `due`, and after a
-- delivery.
pub record Tick : Type 0 where
  pub now : ℕ
  pub now_due : ℕ
  pub delivered_at : ℕ

abbrev pub wait_limit : ℕ
wait_limit = 90000 + 60000

abbrev pub timed_out : ℕ → Text
timed_out zero = lit "timed out waiting for the client's pairing request to reach Apollo"
timed_out (suc n) = lit "client never completed pairing with Apollo (wrong PIN or aborted)"

abbrev pub is_due : ℕ → Option ℕ → Bool
is_due now none = true
is_due now (some t) = leb 5000 (now - t)

abbrev pub is_known : Text → List ApolloClient → Bool
is_known uuid [] = false
is_known uuid (c ∷ cs) = text_eq c.uuid uuid || is_known uuid cs

module _ (c : Crypto) where
  -- The password is checked and the PIN is opened; `none` is a wrong password.
  unfoldable pub checked_pin : Text → PairRequest → Option Text
  checked_pin h1 pr =
      if ct_eq pr.response (challenge_response c h1 pr.challenge)
      then elim (open_pin c (derive c h1 pr.challenge) pr.sealed_pin) [
        | ok pin ↦ some pin
        | err e ↦ none
      ]
      else none

  -- `failures` after `handle_pair`: a right response resets them.
  unfoldable pub failures_after : Text → PairRequest → ℕ → ℕ
  failures_after h1 pr failures =
      if ct_eq pr.response (challenge_response c h1 pr.challenge) then 0 else failures

module _ (c : Crypto) (alnum : ℕ → Bool) {S : Type 0} (apollo : Apollo S) where
  -- The part of a round after the delivery: a client that was not there before ends the wait.
  unfoldable pub new_client : ℕ → List ApolloClient → S → Result Text (Option ApolloClient) × S
  new_client zero before a = (ok none, a)
  new_client (suc n) before a =
      let listed = apollo.list_clients a in
      elim listed.0 [
        | err e ↦ (err e, listed.1)
        | ok cs ↦ (ok (find (λ x. not (is_known x.uuid before)) cs), listed.1)
      ]

  unfoldable pub deliver : Tick → Text → Text → ℕ → Option ℕ → S → Result Text (ℕ × Option ℕ) × S
  deliver t pin name delivered last a = elim (is_due t.now_due last) [
    | false ↦ (ok (delivered, last), a)
    | true ↦
        let sent = apollo.submit_pin pin name a in
        elim sent.0 [
          | err e ↦ (err e, sent.1)
          | ok b ↦
              (ok (if b then (suc delivered, some t.delivered_at) else (delivered, last)), sent.1)
        ]
  ]

  -- The loop, over the rounds to come; `none` is a wait that goes on after the last one.
  unfoldable pub wait_client :
      List Tick
      → ℕ
      → Text
      → Text
      → List ApolloClient
      → ℕ
      → Option ℕ
      → S
      → Option (Result Text ApolloClient) × S
  unfolding new_client deliver
  wait_client [] started pin name before delivered last a = (none, a)
  wait_client (t ∷ ts) started pin name before delivered last a =
      if ltb wait_limit (t.now - started)
      then (some (err (timed_out delivered)), a)
      else let d = deliver t pin name delivered last a in
        elim d.0 [
          | err e ↦ (some (err e), d.1)
          | ok counts ↦
              let n = new_client counts.0 before d.1 in
              elim n.0 [
                | err e ↦ (some (err e), n.1)
                | ok found ↦ elim found [
                  | some x ↦ (some (ok x), n.1)
                  | none ↦ wait_client ts started pin name before counts.0 counts.1 n.1
                ]
              ]
        ]

  abbrev pub updated : Config → Text → ApolloClient → ApolloClient
  updated cfg name x = record x {
    perm = cfg.client_permissions;
    name = if is_empty x.name then name else x.name;
  }

  unfoldable pub finish_pair : Config → Text → ApolloClient → S → Result Text (Unit {0}) × S
  finish_pair cfg name x a = apollo.update_client (updated cfg name x) a

  -- The pairing itself, once the password was accepted
  unfoldable pub pair_with_apollo :
      Config → List Tick → ℕ → Text → Text → S → Option (Result Text (Unit {0})) × S
  unfolding wait_client finish_pair
  pair_with_apollo cfg ts started pin name a =
      let listed = apollo.list_clients a in
      elim listed.0 [
        | err e ↦ (some (err e), listed.1)
        | ok before ↦
            let w = wait_client ts started pin name before 0 none listed.1 in
            elim w.0 [
              | none ↦ (none, w.1)
              | some r ↦ elim r [
                | err e ↦ (some (err e), w.1)
                | ok x ↦ let u = finish_pair cfg name x w.1 in (some u.0, u.1)
              ]
            ]
      ]

  -- `none` in the place of the result is a wait that goes on.
  unfoldable pub handle_pair :
      Config → Text → List Tick → ℕ → PairRequest → S → Option (Result Text (Unit {0})) × S
  unfolding pair_with_apollo
  handle_pair cfg h1 ts started pr a = elim (checked_pin c h1 pr) [
    | none ↦ (some (err wrong_password), a)
    | some pin ↦ pair_with_apollo cfg ts started pin (sanitize_name alnum pr.device_name) a
  ]

-- Seconds to wait after that many wrong passwords
unfoldable pub backoff : ℕ → ℕ
backoff failures = min (2 ^ min failures 6) 60

-- What the agent posts, the failures that it then counts, and the seconds that it waits before.
unfoldable pub answer_request : PairRequest → ℕ → Result Text (Unit {0}) → PairResult × ℕ × ℕ
unfolding backoff
answer_request pr failures (ok u) =
    (record { request_id = pr.request_id; status = paired; message = none }, failures, 0)
answer_request pr failures (err e) =
    if text_eq e wrong_password
    then (
      record { request_id = pr.request_id; status = rejected; message = some wrong_password },
      suc failures,
      backoff (suc failures),
    )
    else (record { request_id = pr.request_id; status = failed; message = some e }, failures, 0)

-- One request of the loop of `run`: what is posted, the failures and the seconds of the wait; `none` is
-- a request that is still being handled.
unfoldable pub serve_request :
    Crypto
    → (ℕ → Bool)
    → {S : Type 0} → Apollo S
    → Config
    → Text
    → List Tick
    → ℕ
    → PairRequest
    → ℕ
    → S
    → Option (PairResult × ℕ × ℕ) × S
unfolding handle_pair answer_request failures_after
serve_request c alnum apollo cfg h1 ts started pr failures a =
    let r = handle_pair c alnum apollo cfg h1 ts started pr a in
    elim r.0 [
      | none ↦ (none, r.1)
      | some res ↦ (some (answer_request pr (failures_after c h1 pr failures) res), r.1)
    ]

-- `clamp(10, 300)`
unfoldable pub heartbeat_interval : RegisterResponse → ℕ
heartbeat_interval r = min (max r.heartbeat_secs 10) 300
