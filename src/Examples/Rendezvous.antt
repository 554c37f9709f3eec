-- ===== src/Examples/Rendezvous.antt =====
-- crates/ra-rendezvous/src/lib.rs at concrete inputs.
use remote_access.Base.{
  ◌≡◌, ◌≤◌, ◌↔◌, ℕ, refl, true, some, none, List, [], ◌∷◌, ◌++◌, Text, lit, arith, bytes, length,
  get, insert, text_eq, ok, trim, is_whitespace, strip_prefix,
}
use remote_access.Proto.Types.{RegisterRequest, SubmitPairRequest, PairResult, paired}
use remote_access.Proto.Hashes.{ct_eq, token_fingerprint}
use remote_access.Proto.Ids.{is_valid_id, random_id}
use remote_access.Rendezvous.State.{
  HostRecord, Challenge, ResultSlot, Store, empty_store, Json, SavedHost, done, persist, load,
  challenges_per_minute,
}
use remote_access.Rendezvous.Auth.{Headers, authorize, bearer}
use remote_access.Rendezvous.Register.{free_id, register, check_request, choose_id}
use remote_access.Rendezvous.Polling.{
  Wake, answer, poll_pair_requests, poll_pair_result, poll_result_round, post_pair_result,
}
use remote_access.Rendezvous.Pairing.{submit_pair, check_submission}
use remote_access.Rendezvous.System.{
  Event, registers, polls, issues, run, exec, pending_of, delivered_all, queued_all, issued_all,
}
use remote_access.Rendezvous.Delivery.{delivered-queued}
use remote_access.Rendezvous.RateLimit.{issued-rate, within_minute, last_issue}
use remote_access.Rendezvous.Registry.FreeId.{free_id-first, IsFirstFree, draw}
use remote_access.Rendezvous.Registry.Records.{IsRegistered, SameOwners}
use remote_access.Rendezvous.Registry.History.{run-SameOwners, run-IsRegistered}
use remote_access.Rendezvous.Challenges.{
  IsAcceptable, IsQueued, submit_pair-IsQueued, submit_pair_iff, submit_pair-uses,
}
use remote_access.Rendezvous.Results.{poll-post, post_pair_result-any}
use remote_access.Rendezvous.Deadlines.{AnswersBy, has_quiet, polls-AnswersBy}
use remote_access.Rendezvous.Persistence.{restored, load-persist-run}
use remote_access.Examples.Crypto.{copy_crypto, counting_rng, copy_hash, to_hex}

abbrev token : Text
token = lit "0123456789abcdef0123456789abcdef"

abbrev host_id : Text
host_id = lit "123456789"

abbrev owner : Headers
owner = record {
  authorization = some (lit "Bearer 0123456789abcdef0123456789abcdef");
  x_forwarded_for = none;
}

abbrev registration : RegisterRequest
registration = record {
  id = some host_id;
  token = token;
  name = lit "PC";
  platform = lit "linux";
  endpoints = [];
  password_salt = lit "salt";
  agent_version = lit "0.1.0";
}

abbrev pub history : List Event
history =
    registers 1 counting_rng 5 0 owner none registration
    ∷ issues counting_rng 6 host_id
    ∷ polls 0 7 0 8 owner host_id
    ∷ issues counting_rng 9 host_id
    ∷ []

delivered-queued_example :
    delivered_all copy_crypto host_id history empty_store
      ++ pending_of host_id (run copy_crypto history empty_store)
    ≡ queued_all copy_crypto host_id history empty_store
delivered-queued_example = delivered-queued copy_crypto host_id history

issued-rate_example :
    length
      (within_minute (last_issue 0 history) (issued_all copy_crypto host_id history empty_store))
    ≤ challenges_per_minute
issued-rate_example = issued-rate copy_crypto host_id history (omega arith)

run-SameOwners_example : SameOwners empty_store.hosts (run copy_crypto history empty_store).hosts
run-SameOwners_example = run-SameOwners copy_crypto history empty_store

-- A file holds the list itself.
abbrev toy_json : Json
toy_json = record {
  Contents = List SavedHost;
  to_string_pretty = λ hs. some hs;
  from_str = λ hs. some hs;
  from_str-to_string_pretty = λ hs. (hs, refl, refl);
}

load-persist-run_example :
    get host_id
      (load toy_json
        (persist toy_json done (run copy_crypto history empty_store) (some none))).hosts
    ≡ restored (get host_id (run copy_crypto history empty_store).hosts) none
load-persist-run_example = load-persist-run copy_crypto toy_json history none host_id

free_id-first_example :
    (n : ℕ) × (free_id 3 counting_rng 0 empty_store ≡ some (random_id counting_rng (draw 0 n)))
    × IsFirstFree counting_rng 0 n empty_store
unfolding get
free_id-first_example = free_id-first 2 3 counting_rng empty_store (omega arith) refl

abbrev host : HostRecord
host = record {
  id = host_id;
  token_fp = token_fingerprint copy_crypto token;
  name = lit "PC";
  platform = lit "linux";
  endpoints = [];
  password_salt = lit "salt";
  agent_version = lit "0.1.0";
  last_seen = some 5;
  last_seen_unix = 0;
}

abbrev open_challenge : Challenge
open_challenge = record { host_id = host_id; challenge = lit "c"; created = 6 }

abbrev open_slot : ResultSlot
open_slot = record { result = none; created = 6 }

abbrev other_id : Text
other_id = lit "987654321"

abbrev store : Store
store = record {
  hosts = (host_id, host) ∷ (other_id, record host { id = other_id }) ∷ [];
  runtime = [];
  challenges = (lit "r1", open_challenge) ∷ [];
  results = (lit "r0", open_slot) ∷ [];
}

abbrev submission : SubmitPairRequest
submission = record {
  request_id = lit "r1";
  response = lit "0000000000000000000000000000000000000000000000000000000000000000";
  device_name = lit "Laptop";
  client_uid = none;
  sealed_pin = lit "00";
  remember = true;
}

abbrev registers_only : List Event
registers_only = registers 1 counting_rng 5 0 owner none registration ∷ []

host-found : get host_id (run copy_crypto registers_only empty_store).hosts ≡ some host
unfolding run exec register check_request choose_id is_valid_id token_fingerprint bytes get insert
    text_eq copy_hash to_hex
host-found = refl

run-IsRegistered_example : IsRegistered host_id host
run-IsRegistered_example = run-IsRegistered copy_crypto registers_only host_id host host-found

submission-checked : check_submission submission ≡ ok tt
unfolding check_submission bytes
submission-checked = refl

acceptable : IsAcceptable 7 8 host_id submission open_challenge store
unfolding get text_eq
acceptable = record {
  found = refl;
  for_host = refl;
  fresh = omega arith;
  host = host;
  registered = refl;
  seen = 5;
  last_seen = refl;
  online = omega arith;
}

submit_pair-IsQueued_example :
    IsQueued 9 host_id submission open_challenge store
      (submit_pair 7 8 9 host_id submission store).1
submit_pair-IsQueued_example =
    submit_pair-IsQueued 7 8 9 host_id submission store open_challenge submission-checked acceptable

submit_pair_iff_example :
    ((submit_pair 7 8 9 host_id submission store).0 ≡ ok tt)
    ↔ ((ch : Challenge) × IsAcceptable 7 8 host_id submission ch store)
submit_pair_iff_example = submit_pair_iff 7 8 9 host_id submission store submission-checked

submit_pair-uses_example :
    get (lit "r1") (submit_pair 7 8 9 host_id submission store).1.challenges ≡ none
submit_pair-uses_example = submit_pair-uses 7 8 9 host_id submission store submission-checked

abbrev result : PairResult
result = record { request_id = lit "r0"; status = paired; message = none }

owner-authorized : authorize copy_crypto store host_id owner ≡ ok tt
unfolding authorize bearer strip_prefix trim is_whitespace get text_eq ct_eq token_fingerprint bytes
    copy_hash to_hex
owner-authorized = refl

posted : (post_pair_result copy_crypto owner host_id result store).0 ≡ ok tt
unfolding post_pair_result authorize bearer strip_prefix trim is_whitespace get text_eq ct_eq
    token_fingerprint bytes copy_hash to_hex
posted = refl

poll-post_example :
    poll_result_round 10 9 (lit "r0") (post_pair_result copy_crypto owner host_id result store).1
    ≡ ok (answer (some result))
poll-post_example = poll-post copy_crypto owner host_id result store 10 9 posted

other-authorized :
    authorize copy_crypto (submit_pair 7 8 9 host_id submission store).1 other_id owner ≡ ok tt
unfolding submit_pair authorize bearer strip_prefix trim is_whitespace get text_eq ct_eq
    token_fingerprint bytes copy_hash to_hex
other-authorized = refl

-- The request was for another host.
post_pair_result-any_example :
    poll_result_round 10 9
      (lit "r1")
      (post_pair_result copy_crypto owner other_id
        (record result { request_id = lit "r1" })
        (submit_pair 7 8 9 host_id submission store).1).1
    ≡ ok (answer (some (record result { request_id = lit "r1" })))
post_pair_result-any_example =
    post_pair_result-any copy_crypto 7 8 9 host_id submission store
      (submit_pair_iff_example.1 (open_challenge, acceptable)) owner other_id
      (record result { request_id = lit "r1" }) refl other-authorized 10 9

-- A sleep that is notified, a quiet one, and the last round
abbrev rung : Wake
rung = record { others = λ s. s; unix = 0; work = 2; notified = some 7; late = 1 }

abbrev quiet : Wake
quiet = record { others = λ s. s; unix = 0; work = 2; notified = none; late = 1 }

polls-AnswersBy_example :
    AnswersBy 25000000026
      (poll_pair_requests copy_crypto 6 (some 25) owner host_id (rung ∷ quiet ∷ rung ∷ []) store)
    × AnswersBy 25000000026
        (poll_pair_result 6 (some 25) (lit "r0") (rung ∷ quiet ∷ rung ∷ []) store)
unfolding has_quiet
polls-AnswersBy_example =
    polls-AnswersBy copy_crypto 6 (some 25) owner host_id (lit "r0") 10 (rung ∷ quiet ∷ rung ∷ [])
      store refl
      ((omega arith, omega arith), ((omega arith, omega arith), ((omega arith, omega arith), tt)))
