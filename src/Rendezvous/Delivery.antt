-- ===== src/Rendezvous/Delivery.antt =====
-- Pair requests on their way from `submit_pair` to `poll_pair_requests` of
-- crates/ra-rendezvous/src/lib.rs, over any history.
use remote_access.Base.{
  arith, ◌≡◌, sym, ap, ◌∙◌, List, [], ◌∷◌, ◌++◌, append-nil, append_assoc, Text, get,
}
use remote_access.Proto.External.{Crypto}
use remote_access.Rendezvous.State.{Store, empty_store, gc}
use remote_access.Rendezvous.Runtime.{
  register-runtime, heartbeat-runtime, post-runtime, poll-pending, issue-pending, submit-pending,
}
use remote_access.Rendezvous.System.{
  Event, registers, beats, polls, posts, collects, issues, submits, exec, run, pending_of,
  delivered, queued, delivered_all, queued_all,
}

module _ (c : Crypto) (id : Text) where
  -- What an event hands out and what it leaves queued is what was queued and what it accepts.
  exec-pending :
      (e : Event) (s : Store)
      → delivered c id e s ++ pending_of id (exec c e s) ≡ pending_of id s ++ queued c id e s
  unfolding exec delivered queued
  exec-pending (registers fuel rng now unix headers peer req) s = ground (
    arith,
    register-runtime c id fuel rng now unix headers peer req s,
    append-nil (pending_of id s),
  )
  exec-pending (beats now unix headers peer body j) s =
      ground
        (arith, heartbeat-runtime c id now unix headers peer body j s, append-nil (pending_of id s))
  exec-pending (polls deadline now unix later headers j) s =
      poll-pending c id deadline now unix later headers j s ∙ sym (append-nil (pending_of id s))
  exec-pending (posts headers j res) s =
      ground (arith, post-runtime c id headers j res s, append-nil (pending_of id s))
  exec-pending (collects now) s = unfold gc in sym (append-nil (pending_of id s))
  exec-pending (issues rng now j) s =
      ground (arith, issue-pending c id rng now j s, append-nil (pending_of id s))
  exec-pending (submits now_ttl now_seen now j req) s =
      submit-pending c id now_ttl now_seen now j req s

  run-pending :
      (es : List Event) (s : Store)
      → delivered_all c id es s ++ pending_of id (run c es s)
        ≡ pending_of id s ++ queued_all c id es s
  unfolding run delivered_all queued_all
  run-pending [] s = sym (append-nil (pending_of id s))
  run-pending (e ∷ es) s =
      append_assoc (delivered c id e s) (delivered_all c id es (exec c e s)) _
      ∙ ap (◌++◌ (delivered c id e s)) (run-pending es (exec c e s))
      ∙ sym (append_assoc (delivered c id e s) (pending_of id (exec c e s)) _)
      ∙ ap (λ l. l ++ queued_all c id es (exec c e s)) (exec-pending e s)
      ∙ append_assoc (pending_of id s) (queued c id e s) _

  -- In any history from the empty store, the requests that the host's polls have handed out,
  -- followed by those still queued, are the accepted ones: each once, in order.
  pub delivered-queued :
      (es : List Event)
      → delivered_all c id es empty_store ++ pending_of id (run c es empty_store)
        ≡ queued_all c id es empty_store
  unfolding get
  delivered-queued es = run-pending es empty_store
