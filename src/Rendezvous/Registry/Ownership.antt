-- ===== src/Rendezvous/Registry/Ownership.antt =====
-- The registry of crates/ra-rendezvous/src/lib.rs as an abstract machine: who owns which ID.
use remote_access.Base.{
  ℕ, ◌≡◌, refl, sym, ap, ◌∙◌, subst, fun_ext, ◌⊎◌, inl, inr, Bool-cases, Option, none, some, List,
  [], ◌∷◌, Text, Bytes, Map, bytes, text_eq, get, insert, get-insert, map, text_eq_sound, ok,
  if◌then◌else◌,
}
use remote_access.Proto.External.{Crypto, Rng}
use remote_access.Proto.Types.{RegisterRequest}
use remote_access.Proto.Hashes.{token_fingerprint, ct_eq-bytes}
use remote_access.Rendezvous.State.{HostRecord, Store}
use remote_access.Rendezvous.Register.{register, choose_id, host_record}
use remote_access.Rendezvous.System.{
  Event, registers, beats, polls, posts, collects, issues, submits, token_of, exec, run,
}
use remote_access.Rendezvous.Registry.FreeId.{choose_id-owner}
use remote_access.Rendezvous.Registry.History.{quiet_cases}
use remote_access.Rendezvous.Registry.Records.{Refreshed}
use remote_access.Rendezvous.Auth.{Headers}
use remote_access.Rendezvous.Cases.{register_cases}

-- The owner of an ID is the fingerprint of a token.
abbrev pub Owners : Type 0
Owners = Text → Option Bytes

abbrev pub fp_of : Option HostRecord → Option Bytes
fp_of none = none
fp_of (some h) = some (bytes h.token_fp)

-- What the store says of the owners, whatever else it holds
abbrev pub owners_of : Map HostRecord → Owners
owners_of m id = fp_of (get id m)

abbrev pub owned_by : Text → Bytes → Owners → Owners
owned_by id fp o j = if text_eq id j then some fp else o j

-- One step of the machine. An input with a fingerprint may claim an ID that is free, or its own, and may
-- be refused; no other input changes an owner, and none frees an ID or passes it on.
pub data Claims : Option Bytes → Owners → Owners → Type 0 where
  keeps : {o : Owners} → Claims none o o
  refuses : {o : Owners} (fp : Bytes) → Claims (some fp) o o
  claims :
      {o : Owners} (id : Text) (fp : Bytes)
      → (o id ≡ none) ⊎ (o id ≡ some fp)
      → Claims (some fp) o (owned_by id fp o)

-- A run of the machine over a list of inputs, one step for each
pub data Accepts : List (Option Bytes) → Owners → Owners → Type 0 where
  at_rest : {o : Owners} → Accepts [] o o
  step :
      {i : Option Bytes} {is : List (Option Bytes)} {o o' o'' : Owners}
      → Claims i o o'
      → Accepts is o' o''
      → Accepts (i ∷ is) o o''

owners_at :
    (id j : Text) (h : HostRecord) (m : Map HostRecord)
    → fp_of (get j (insert id h m)) ≡ owned_by id (bytes h.token_fp) (owners_of m) j
owners_at id j h m = elim (Bool-cases (text_eq id j)) [
  | inl e ↦ rw (get-insert id j h m, e) refl
  | inr e ↦ rw (get-insert id j h m, e) refl
]

-- Writing a record is a claim of its ID.
owners_of-insert :
    (id : Text) (h : HostRecord) (m : Map HostRecord)
    → owners_of (insert id h m) ≡ owned_by id (bytes h.token_fp) (owners_of m)
owners_of-insert id h m = fun_ext (λ j. owners_at id j h m)

module _ (c : Crypto) where
  -- The fingerprint of the token with which an event may claim an ID
  abbrev pub claimant : Option Text → Option Bytes
  claimant none = none
  claimant (some token) = some (bytes (token_fingerprint c token))

  owners-Refreshed :
      (m : Map HostRecord) (id : Text) (h h' : HostRecord)
      → get id m ≡ some h
      → Refreshed h h'
      → owners_of m ≡ owners_of (insert id h' m)
  owners-Refreshed m id h h' found new = fun_ext (λ j. elim (Bool-cases (text_eq id j)) [
    | inl e ↦
        rw (get-insert id j h' m, e)
          (ap (λ i. fp_of (get i m)) (sym (text_eq_sound id j e))
            ∙ ap fp_of found
            ∙ ap (λ t. some (bytes t)) (sym new.same_fp))
    | inr e ↦ rw (get-insert id j h' m, e) refl
  ])

  insert-Claims :
      (id : Text) (h : HostRecord) (m : Map HostRecord)
      → (owners_of m id ≡ none) ⊎ (owners_of m id ≡ some (bytes h.token_fp))
      → Claims (some (bytes h.token_fp)) (owners_of m) (owners_of (insert id h m))
  insert-Claims id h m free =
      subst (Claims (some (bytes h.token_fp)) (owners_of m)) (sym (owners_of-insert id h m))
        (claims id (bytes h.token_fp) free)

  registered-Claims :
      (fuel : ℕ) (rng : Rng) (now unix : ℕ) (req : RegisterRequest) (s : Store) (id : Text)
      → choose_id fuel rng req (token_fingerprint c req.token) s ≡ ok id
      → (o : Option HostRecord) → get id s.hosts ≡ o
      → (owners_of s.hosts id ≡ none)
        ⊎ (owners_of s.hosts id ≡ some (bytes (token_fingerprint c req.token)))
  registered-Claims fuel rng now unix req s id chosen none e = inl (ap fp_of e)
  registered-Claims fuel rng now unix req s id chosen (some h) e =
      let same =
        (ct_eq-bytes h.token_fp (token_fingerprint c req.token)).0
          (choose_id-owner fuel rng req (token_fingerprint c req.token) s id h chosen e) in
      inr (ap fp_of e ∙ ap some same)

  quiet-Claims :
      (e : Event) (s : Store)
      → token_of e ≡ none
      → Claims none (owners_of s.hosts) (owners_of (exec c e s).hosts)
  quiet-Claims e s q =
      subst (Claims none (owners_of s.hosts))
        (quiet_cases c (λ m. owners_of s.hosts ≡ owners_of m) s refl (owners-Refreshed s.hosts) e q)
        keeps

  register-Claims :
      (fuel : ℕ) (rng : Rng) (now unix : ℕ) (headers : Headers) (peer : Option Text)
      (req : RegisterRequest) (s : Store)
      → Claims
          (claimant (some req.token))
          (owners_of s.hosts)
          (owners_of (register c fuel rng now unix headers peer req s).1.hosts)
  register-Claims fuel rng now unix headers peer req s =
      register_cases
        (λ t. Claims (claimant (some req.token)) (owners_of s.hosts) (owners_of t.hosts)) c fuel rng
        now unix headers peer req s (refuses (bytes (token_fingerprint c req.token)))
        (λ id checked chosen.
          insert-Claims id (host_record req id (token_fingerprint c req.token) now unix) s.hosts
            (registered-Claims fuel rng now unix req s id chosen (get id s.hosts) refl))

  exec-Claims :
      (e : Event) (s : Store)
      → Claims (claimant (token_of e)) (owners_of s.hosts) (owners_of (exec c e s).hosts)
  unfolding exec
  exec-Claims (registers fuel rng now unix headers peer req) s =
      register-Claims fuel rng now unix headers peer req s
  exec-Claims (beats now unix headers peer body id) s =
      quiet-Claims (beats now unix headers peer body id) s refl
  exec-Claims (polls deadline now unix later headers id) s =
      quiet-Claims (polls deadline now unix later headers id) s refl
  exec-Claims (posts headers id res) s = quiet-Claims (posts headers id res) s refl
  exec-Claims (collects now) s = quiet-Claims (collects now) s refl
  exec-Claims (issues rng now id) s = quiet-Claims (issues rng now id) s refl
  exec-Claims (submits now_ttl now_seen now id req) s =
      quiet-Claims (submits now_ttl now_seen now id req) s refl

  -- The server refines the machine event by event: each critical section makes exactly one step of it, a
  -- registration with the fingerprint of its token, which claims a free ID or one of its own or is
  -- refused, and any other with no change of an owner.
  pub run-Accepts :
      (es : List Event) (s : Store)
      → Accepts
          (map (λ e. claimant (token_of e)) es)
          (owners_of s.hosts)
          (owners_of (run c es s).hosts)
  unfolding run
  run-Accepts [] s = at_rest
  run-Accepts (e ∷ es) s = step (exec-Claims e s) (run-Accepts es (exec c e s))
