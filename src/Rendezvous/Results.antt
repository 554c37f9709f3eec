-- ===== src/Rendezvous/Results.antt =====
-- How a result reaches the client in crates/ra-rendezvous/src/lib.rs.
use remote_access.Base.{
  ℕ, ◌≡◌, none, ap, sym, ◌∙◌, some, Text, arith, get, get-insert, text_eq_refl, ok, inl, inr,
  Option-cases,
}
use remote_access.Proto.External.{Crypto}
use remote_access.Proto.Types.{PairResult, SubmitPairRequest}
use remote_access.Rendezvous.State.{ResultSlot, Store}
use remote_access.Rendezvous.Auth.{Headers, authorize}
use remote_access.Rendezvous.Pairing.{submit_pair}
use remote_access.Rendezvous.Polling.{answer, poll_result_round, post_pair_result}

posted_at :
    (c : Crypto) (headers : Headers) (id : Text) (res : PairResult) (s : Store) (slot : ResultSlot)
    → authorize c s id headers ≡ ok tt
    → get res.request_id s.results ≡ some slot
    → (post_pair_result c headers id res s).0 ≡ ok tt
unfolding post_pair_result
posted_at c headers id res s slot allowed there = ground arith

-- An accepted request has an open slot.
submit_pair-slot :
    (now_ttl now_seen now : ℕ) (id : Text) (req : SubmitPairRequest) (s : Store)
    → (submit_pair now_ttl now_seen now id req s).0 ≡ ok tt
    → get req.request_id (submit_pair now_ttl now_seen now id req s).1.results
      ≡ some (record { result = none; created = now })
unfolding submit_pair
submit_pair-slot now_ttl now_seen now id req s accepted = ground (
  arith,
  get-insert req.request_id req.request_id (record { result = none; created = now }) s.results,
  text_eq_refl req.request_id,
)

-- A result that a host has posted is what the client's next poll answers, whichever host posted it.
pub poll-post :
    (c : Crypto) (headers : Headers) (id : Text) (res : PairResult) (s : Store) (deadline later : ℕ)
    → (post_pair_result c headers id res s).0 ≡ ok tt
    → poll_result_round deadline later res.request_id (post_pair_result c headers id res s).1
      ≡ ok (answer (some res))
unfolding post_pair_result poll_result_round
poll-post c headers id res s deadline later h = elim (Option-cases (get res.request_id s.results)) [
  | inl absent ↦ absurd (ground arith)
  | inr (slot, there) ↦ ground (
    arith,
    get-insert res.request_id res.request_id (record slot { result = some res }) s.results,
    text_eq_refl res.request_id,
  )
]

-- The result of a request can come from any owner of an ID: after a request for host `id` was accepted,
-- whoever is authorized for some ID `other` posts its result, and that is what the client is answered.
pub post_pair_result-any :
    (c : Crypto) (now_ttl now_seen now : ℕ) (id : Text) (req : SubmitPairRequest) (s : Store)
    → (submit_pair now_ttl now_seen now id req s).0 ≡ ok tt
    → (headers : Headers) (other : Text) (res : PairResult) → res.request_id ≡ req.request_id
    → authorize c (submit_pair now_ttl now_seen now id req s).1 other headers ≡ ok tt
    → (deadline later : ℕ)
    → poll_result_round deadline later req.request_id
        (post_pair_result c headers other res (submit_pair now_ttl now_seen now id req s).1).1
      ≡ ok (answer (some res))
post_pair_result-any c now_ttl now_seen now id req s accepted headers other res same allowed
      deadline later =
    let t = (submit_pair now_ttl now_seen now id req s).1 in
    let there =
      ap (λ r. get r t.results) same ∙ submit_pair-slot now_ttl now_seen now id req s accepted in
    ap (λ r. poll_result_round deadline later r (post_pair_result c headers other res t).1)
      (sym same)
    ∙ poll-post c headers other res t deadline later
        (posted_at c headers other res t (record { result = none; created = now }) allowed there)
