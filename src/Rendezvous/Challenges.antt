-- ===== src/Rendezvous/Challenges.antt =====
-- When `submit_pair` of crates/ra-rendezvous/src/lib.rs accepts a request, and what becomes of the
-- challenge.
use remote_access.Base.{
  ℕ, ◌<◌, ◌≡◌, ◌↔◌, true, none, some, Text, arith, get, remove, get-remove, text_eq_sound,
  text_eq_complete, text_eq_refl, [], ◌∷◌, ◌++◌, refl, text_eq, text_eq_iff, get-insert,
  if◌then◌else◌, ok, inl, inr, Option-cases,
}
use remote_access.Proto.Types.{SubmitPairRequest}
use remote_access.Rendezvous.State.{
  HostRecord, Challenge, Store, as_secs, duration_since, runtime_of, challenge_ttl_secs,
  offline_after_secs,
}
use remote_access.Rendezvous.System.{pending_of, times_of}
use remote_access.Rendezvous.Pairing.{
  submit_pair, check_submission, is_online, enqueue, pair_request,
}

-- What the server asks of a request for host `id`, besides its lengths.
pub record IsAcceptable (now_ttl now_seen : ℕ) (id : Text) (req : SubmitPairRequest)
    (ch : Challenge) (s : Store) : Type 0 where
  pub found : get req.request_id s.challenges ≡ some ch
  pub for_host : ch.host_id ≡ id
  pub fresh : as_secs (duration_since now_ttl ch.created) < challenge_ttl_secs
  pub host : HostRecord
  pub registered : get id s.hosts ≡ some host
  pub seen : ℕ
  pub last_seen : host.last_seen ≡ some seen
  pub online : as_secs (duration_since now_seen seen) < offline_after_secs

abbrev pub without_challenge : SubmitPairRequest → Store → Store
without_challenge req s = record s { challenges = remove req.request_id s.challenges }

-- The store `t` is `s` with the request queued for host `id`.
pub record IsQueued (now : ℕ) (id : Text) (req : SubmitPairRequest) (ch : Challenge) (s t : Store)
    : Type 0 where
  pub queue :
      (j : Text)
      → pending_of j t ≡ (
          if text_eq id j
          then pending_of id s
            ++ record {
              request_id = req.request_id;
              challenge = ch.challenge;
              response = req.response;
              device_name = req.device_name;
              client_uid = req.client_uid;
              sealed_pin = req.sealed_pin;
              remember = req.remember;
            }
              ∷ []
          else pending_of j s)
  pub times : (j : Text) → times_of j t ≡ times_of j s
  pub slots :
      (r : Text)
      → get r t.results ≡ (
          if text_eq req.request_id r
          then some (record { result = none; created = now })
          else get r s.results)
  pub open_challenges :
      (r : Text)
      → get r t.challenges ≡ (if text_eq req.request_id r then none else get r s.challenges)
  pub same_hosts : t.hosts ≡ s.hosts

queued_at :
    (now : ℕ) (id : Text) (req : SubmitPairRequest) (ch : Challenge) (s : Store) (j : Text)
    → pending_of j (enqueue now id ch req (without_challenge req s))
      ≡ (if text_eq id j then pending_of id s ++ pair_request ch req ∷ [] else pending_of j s)
unfolding enqueue
queued_at now id req ch s j =
    let rt = record (runtime_of id s) { pending = pending_of id s ++ pair_request ch req ∷ [] } in
    ground (arith, get-insert id j rt s.runtime)

times_at :
    (now : ℕ) (id : Text) (req : SubmitPairRequest) (ch : Challenge) (s : Store) (j : Text)
    → times_of j (enqueue now id ch req (without_challenge req s)) ≡ times_of j s
unfolding enqueue
times_at now id req ch s j =
    let rt = record (runtime_of id s) { pending = pending_of id s ++ pair_request ch req ∷ [] } in
    ground (arith, get-insert id j rt s.runtime, text_eq_iff id j)

enqueue-IsQueued :
    (now : ℕ) (id : Text) (req : SubmitPairRequest) (ch : Challenge) (s : Store)
    → IsQueued now id req ch s (enqueue now id ch req (without_challenge req s))
unfolding enqueue
enqueue-IsQueued now id req ch s = record {
  queue = λ j. queued_at now id req ch s j;
  times = λ j. times_at now id req ch s j;
  slots = λ r. get-insert req.request_id r (record { result = none; created = now }) s.results;
  open_challenges = λ r. get-remove req.request_id r s.challenges;
  same_hosts = refl;
}

is_online-seen :
    (now : ℕ) (id : Text) (s : Store)
    → is_online now id s ≡ true
    → (h : HostRecord) × (t : ℕ) × (get id s.hosts ≡ some h)
      × (h.last_seen ≡ some t)
      × (as_secs (duration_since now t) < offline_after_secs)
unfolding is_online
is_online-seen now id s e = elim (Option-cases (get id s.hosts)) [
  | inl absent ↦ absurd (ground arith)
  | inr (h, found) ↦ elim (Option-cases h.last_seen) [
    | inl never ↦ absurd (ground arith)
    | inr (t, at) ↦ (h, t, found, at, ground arith)
  ]
]

module _ (now_ttl now_seen now : ℕ) (id : Text) (req : SubmitPairRequest) (s : Store) where
  submit_pair-enqueues :
      (ch : Challenge)
      → check_submission req ≡ ok tt
      → IsAcceptable now_ttl now_seen id req ch s
      → submit_pair now_ttl now_seen now id req s
        ≡ (ok tt, enqueue now id ch req (without_challenge req s))
  unfolding submit_pair
  submit_pair-enqueues ch checked a = ground (arith, text_eq_complete ch.host_id id)

  -- A request that passes the check of its lengths and is acceptable under a challenge is the last in
  -- the queue of its host, and of no other; it has an open result slot, its challenge is used up, and
  -- hosts, times of challenges, other challenges and other results are as they were.
  pub submit_pair-IsQueued :
      (ch : Challenge)
      → check_submission req ≡ ok tt
      → IsAcceptable now_ttl now_seen id req ch s
      → IsQueued now id req ch s (submit_pair now_ttl now_seen now id req s).1
  submit_pair-IsQueued ch checked a =
      rw (submit_pair-enqueues ch checked a) (enqueue-IsQueued now id req ch s)

  submit_pair-IsAcceptable :
      (submit_pair now_ttl now_seen now id req s).0 ≡ ok tt
      → (ch : Challenge) × IsAcceptable now_ttl now_seen id req ch s
  unfolding submit_pair
  submit_pair-IsAcceptable e = elim (Option-cases (get req.request_id s.challenges)) [
    | inl absent ↦ absurd (ground arith)
    | inr (ch, found) ↦
        let (h, t, there, at, recent) =
          is_online-seen now_seen id (without_challenge req s) (ground arith) in
        (
          ch,
          record {
            found = found;
            for_host = text_eq_sound ch.host_id id (ground arith);
            fresh = ground arith;
            host = h;
            registered = there;
            seen = t;
            last_seen = at;
            online = recent;
          },
        )
  ]

  -- A request that passes the check of its lengths is accepted exactly when some challenge makes it
  -- acceptable: one that is known, was issued for this host less than 120 seconds ago, while the
  -- host was seen less than 90 seconds ago.
  pub submit_pair_iff :
      check_submission req ≡ ok tt
      → ((submit_pair now_ttl now_seen now id req s).0 ≡ ok tt)
        ↔ ((ch : Challenge) × IsAcceptable now_ttl now_seen id req ch s)
  submit_pair_iff checked =
      (submit_pair-IsAcceptable, λ (ch, a). rw (submit_pair-enqueues ch checked a))

  -- A challenge serves for one request: once a request with admissible lengths names it, it is
  -- gone, whether the request is accepted or refused.
  pub submit_pair-uses :
      check_submission req ≡ ok tt
      → get req.request_id (submit_pair now_ttl now_seen now id req s).1.challenges ≡ none
  unfolding submit_pair
  submit_pair-uses checked = elim (Option-cases (get req.request_id s.challenges)) [
    | inl absent ↦ ground arith
    | inr (ch, found) ↦
        ground (
          arith,
          get-remove req.request_id req.request_id s.challenges,
          text_eq_refl req.request_id,
        )
  ]
