-- ===== src/Fakehost/Sessions.antt =====
-- crates/ra-fakehost/src/main.rs: who is paired, after any requests.
use remote_access.Base.{
  ℕ, ◌≡◌, refl, sym, ap, ◌∙◌, true, false, Bool-cases, inl, inr, ◌⊎◌, Option, none, some, List, [],
  ◌∷◌, ◌++◌, map, append-nil, append_assoc, Text, lit, text_eq, is_some, unwrap_or, get, insert,
  get-insert, All, Result, ok, err, ◌>>=◌, arith,
}
use remote_access.Gamestream.External.{Libraries}
use remote_access.Gamestream.Errors.{Error}
use remote_access.Gamestream.Simulated.{FakeHost, handle_query}
use remote_access.Fakehost.{
  Headers, Object, Inner, get_str, as_str, param, pair, pair_resumed, api_pin, clients_update,
  update_fields, update_first, updatable, has_uuid, new_client, Value,
}

abbrev pub uuids : List Object → List (Option Text)
uuids cs = map (get_str (lit "uuid")) cs

set_other :
    (k j : Text) (c : Object) (o : Option Value)
    → text_eq j k ≡ false
    → get k (elim o as (λ x. Object) [ none ↦ c | some val ↦ insert j val c ]) ≡ get k c
set_other k j c none n = refl
set_other k j c (some val) n = get-insert j k val c ∙ rw n refl

update_fields-get :
    (k : Text) (ks : List Text) (v c : Object)
    → All (λ j. text_eq j k ≡ false) ks
    → get k (update_fields ks v c) ≡ get k c
unfolding update_fields
update_fields-get k [] v c h = refl
update_fields-get k (j ∷ ks) v c h =
    update_fields-get k ks v
      (elim (get j v) as (λ x. Object) [ none ↦ c | some val ↦ insert j val c ]) h.1
    ∙ set_other k j c (get j v) h.0

no_uuid : All (λ j. text_eq j (lit "uuid") ≡ false) updatable
unfolding text_eq
no_uuid = (refl, (refl, (refl, (refl, (refl, (refl, tt))))))

KeepsUuids : List Object → Option (List Object) → Type 0
KeepsUuids cs none = Unit
KeepsUuids cs (some cs') = uuids cs' ≡ uuids cs

passed_on :
    (c : Object) (cs : List Object) (o : Option (List Object))
    → KeepsUuids cs o
    → KeepsUuids
        (c ∷ cs)
        (elim o as (λ x. Option (List Object)) [ none ↦ none | some cs' ↦ some (c ∷ cs') ])
unfolding KeepsUuids
passed_on c cs none h = tt
passed_on c cs (some cs') h = ap (λ r. get_str (lit "uuid") c ∷ r) h

update_first-KeepsUuids :
    (uuid : Text) (v : Object) (cs : List Object) → KeepsUuids cs (update_first uuid v cs)
unfolding update_first KeepsUuids
update_first-KeepsUuids uuid v [] = tt
update_first-KeepsUuids uuid v (c ∷ cs) = elim (Bool-cases (has_uuid uuid c)) [
  | inl e ↦
      rw e (ap (λ o. as_str o ∷ uuids cs) (update_fields-get (lit "uuid") updatable v c no_uuid))
  | inr e ↦ rw e (passed_on c cs (update_first uuid v cs) (update_first-KeepsUuids uuid v cs))
]

new_client-uuid : (name uuid : Text) → get_str (lit "uuid") (new_client name uuid) ≡ some uuid
unfolding get text_eq
new_client-uuid name uuid = refl

uuids-push :
    (cs : List Object) (name uuid : Text)
    → uuids (cs ++ (new_client name uuid ∷ [])) ≡ uuids cs ++ (some uuid ∷ [])
uuids-push [] name uuid = ap (λ o. o ∷ []) (new_client-uuid name uuid)
uuids-push (c ∷ cs) name uuid = ap (λ r. get_str (lit "uuid") c ∷ r) (uuids-push cs name uuid)

module _ (l : Libraries) where
  -- What changes the state of the stand-in: a query with the number of its waiter and a fresh UUID, the
  -- end of a wait, and two requests of the web API.
  pub data Request : Type 0 where
    queried : ℕ → Text → Text → Headers → Request
    resumed : Text → Option (Text × Text) → Request
    pin_posted client_updated : Headers → Object → Request

  unfoldable pub serve : Inner l → Request → Result Error (Inner l)
  serve s (queried waiter uuid q h) = do r ← pair l waiter uuid s q h; ok r.1
  serve s (resumed q o) = do r ← pair_resumed l q o s; ok r.1
  serve s (pin_posted h v) = ok (api_pin l h v s).1
  serve s (client_updated h v) = ok (clients_update l h v s).1

  unfoldable pub serve_all : List Request → Inner l → Result Error (Inner l)
  unfolding serve
  serve_all [] s = ok s
  serve_all (r ∷ rs) s = do s' ← serve s r; serve_all rs s'

  -- The UUIDs of the clients that some of these requests enrol, in their order
  pub data Enrols : List Request → List Text → Type 0 where
    enrols_none : Enrols [] []
    passes : {r : Request} {rs : List Request} {us : List Text} → Enrols rs us → Enrols (r ∷ rs) us
    enrols :
        {waiter : ℕ} {uuid q : Text} {h : Headers} {rs : List Request} {us : List Text}
        → is_some (param q (lit "clientpairingsecret")) ≡ true
        → Enrols rs us
        → Enrols (queried waiter uuid q h ∷ rs) (uuid ∷ us)

  -- What one request does to the clients
  StepEnrols : Inner l → Request → Result Error (Inner l) → Type 0
  StepEnrols s r (err e) = Unit
  StepEnrols s (queried waiter uuid q h) (ok s') =
      (uuids s'.clients ≡ uuids s.clients)
      ⊎ ((is_some (param q (lit "clientpairingsecret")) ≡ true)
          × (uuids s'.clients ≡ uuids s.clients ++ (some uuid ∷ [])))
  StepEnrols s (resumed q o) (ok s') = uuids s'.clients ≡ uuids s.clients
  StepEnrols s (pin_posted h v) (ok s') = uuids s'.clients ≡ uuids s.clients
  StepEnrols s (client_updated h v) (ok s') = uuids s'.clients ≡ uuids s.clients

  queried_at :
      (s : Inner l) (waiter : ℕ) (uuid q : Text) (h : Headers)
      (o : Result Error (Text × FakeHost l))
      → handle_query l s.host q h.https ≡ o
      → StepEnrols s (queried waiter uuid q h) (serve s (queried waiter uuid q h))
  unfolding serve StepEnrols pair
  queried_at s waiter uuid q h (err e) eo = ground arith
  queried_at s waiter uuid q h (ok r) eo =
      let u = uuids-push s.clients (unwrap_or s.pending_name (lit "Unnamed")) uuid in ground arith

  resumed_keeps :
      (s : Inner l) (q : Text) (o : Option (Text × Text))
      → StepEnrols s (resumed q o) (serve s (resumed q o))
  unfolding serve StepEnrols pair_resumed
  resumed_keeps s q none = refl
  resumed_keeps s q (some (pin, name)) = ground arith

  updated_at :
      (s : Inner l) (h : Headers) (v : Object) (o : Option (List Object))
      → update_first (unwrap_or (get_str (lit "uuid") v) (lit "")) v s.clients ≡ o
      → KeepsUuids s.clients o
      → StepEnrols s (client_updated h v) (serve s (client_updated h v))
  unfolding serve StepEnrols clients_update KeepsUuids
  updated_at s h v none eo k = ground arith
  updated_at s h v (some cs) eo k = ground arith

  serve-StepEnrols : (s : Inner l) (r : Request) → StepEnrols s r (serve s r)
  unfolding serve StepEnrols api_pin
  serve-StepEnrols s (queried waiter uuid q h) = queried_at s waiter uuid q h _ refl
  serve-StepEnrols s (resumed q o) = resumed_keeps s q o
  serve-StepEnrols s (pin_posted h v) = ground arith
  serve-StepEnrols s (client_updated h v) =
      let uuid = unwrap_or (get_str (lit "uuid") v) (lit "") in
      updated_at s h v (update_first uuid v s.clients) refl
        (update_first-KeepsUuids uuid v s.clients)

  -- The requests so far have enrolled clients of the UUIDs drawn for them, and changed no other UUID.
  abbrev pub AllEnrol : Inner l → List Request → Result Error (Inner l) → Type 0
  AllEnrol s rs (err e) = Unit
  AllEnrol s rs (ok s') =
      (us : List Text) × Enrols rs us × (uuids s'.clients ≡ uuids s.clients ++ map some us)

  skipped :
      (s s1 : Inner l) (r : Request) (rs : List Request) (o : Result Error (Inner l))
      → uuids s1.clients ≡ uuids s.clients
      → AllEnrol s1 rs o
      → AllEnrol s (r ∷ rs) o
  skipped s s1 r rs (err e) same h = tt
  skipped s s1 r rs (ok s') same h = (h.0, passes h.1, h.2 ∙ ap (λ x. x ++ map some h.0) same)

  enrolled :
      (s s1 : Inner l) (waiter : ℕ) (uuid q : Text) (h : Headers) (rs : List Request)
      (o : Result Error (Inner l))
      → is_some (param q (lit "clientpairingsecret")) ≡ true
      → uuids s1.clients ≡ uuids s.clients ++ (some uuid ∷ [])
      → AllEnrol s1 rs o
      → AllEnrol s (queried waiter uuid q h ∷ rs) o
  enrolled s s1 waiter uuid q h rs (err e) asked grown t = tt
  enrolled s s1 waiter uuid q h rs (ok s') asked grown t = (
    uuid ∷ t.0,
    enrols asked t.1,
    t.2
        ∙ ap (λ x. x ++ map some t.0) grown
        ∙ append_assoc (uuids s.clients) (some uuid ∷ []) (map some t.0),
  )

  step_then :
      (s s1 : Inner l) (r : Request) (rs : List Request) (o : Result Error (Inner l))
      → StepEnrols s r (ok s1)
      → AllEnrol s1 rs o
      → AllEnrol s (r ∷ rs) o
  unfolding StepEnrols
  step_then s s1 (queried waiter uuid q h) rs o (inl same) t =
      skipped s s1 (queried waiter uuid q h) rs o same t
  step_then s s1 (queried waiter uuid q h) rs o (inr grown) t =
      enrolled s s1 waiter uuid q h rs o grown.0 grown.1 t
  step_then s s1 (resumed q w) rs o same t = skipped s s1 (resumed q w) rs o same t
  step_then s s1 (pin_posted h v) rs o same t = skipped s s1 (pin_posted h v) rs o same t
  step_then s s1 (client_updated h v) rs o same t = skipped s s1 (client_updated h v) rs o same t

  serve_all_at :
      (s : Inner l) (r : Request) (rs : List Request) (o : Result Error (Inner l))
      → serve s r ≡ o
      → StepEnrols s r o
      → ((s1 : Inner l) → AllEnrol s1 rs (serve_all rs s1))
      → AllEnrol s (r ∷ rs) (serve_all (r ∷ rs) s)
  unfolding serve_all
  serve_all_at s r rs (err e) eo h t = rw (eo, serve_all) tt
  serve_all_at s r rs (ok s1) eo h t =
      rw (eo, serve_all) (step_then s s1 r rs (serve_all rs s1) h (t s1))

  -- After any requests, in any order, that do not stop the stand-in, the UUIDs of its clients are those
  -- that it had, followed by the fresh UUIDs of some of the queries that carried a pairing secret, in
  -- their order: no update and no PIN adds, drops or renames a client.
  pub serve_all-AllEnrol : (rs : List Request) (s : Inner l) → AllEnrol s rs (serve_all rs s)
  unfolding serve_all
  serve_all-AllEnrol [] s = ([], enrols_none, sym (append-nil (uuids s.clients)))
  serve_all-AllEnrol (r ∷ rs) s =
      serve_all_at s r rs (serve s r) refl (serve-StepEnrols s r) (λ s1. serve_all-AllEnrol rs s1)
