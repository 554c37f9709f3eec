-- ===== src/Client/Flows/Native.antt =====
-- Native pairing in crates/ra-client/src/session.rs, where the host's result is there first.
use remote_access.Base.{
  ℕ, suc, ◌≡◌, refl, Bool, true, not, ◌&&◌, leb, ltb, Option, none, some, List, [], Bool-cases,
  false, inl, inr, if◌then◌else◌, ◌∷◌, ◌++◌, Text, lit, Result, ok, err,
}
use remote_access.Proto.External.{Crypto, Rng}
use remote_access.Proto.Types.{PairResult, SubmitPairRequest, ChallengeResponse}
use remote_access.Proto.Pins.{CryptoError}
use remote_access.Proto.Ids.{random_pin}
use remote_access.Gamestream.Apps.{App}
use remote_access.Client.Resolve.{Resolved}
use remote_access.Client.Session.{rendezvous_path, h1_for, submit_request}
use remote_access.Client.Flows.{
  Happening, polled, presented, ClientWorld, Session, await_result, concluded, submit_and_wait,
  pairing_started, Paired, pair_with, resolve_host,
}
use remote_access.Client.Flows.Certificates.{keep_pairing, pair_native}

-- The wait for the result ends, or goes on after all that happens, without the end of the pairing itself
-- among the happenings until then.
abbrev pub IsResultEarly : {A : Type 0} → List (Happening A) → Type 0
IsResultEarly [] = Unit
IsResultEarly (presented r ∷ hs) = ⊥
IsResultEarly (polled (err e) late ∷ hs) = Unit
IsResultEarly (polled (ok (some r)) late ∷ hs) = Unit
IsResultEarly (polled (ok none) true ∷ hs) = Unit
IsResultEarly (polled (ok none) false ∷ hs) = IsResultEarly hs

-- The pairing itself had not ended.
abbrev Unended : {A R : Type 0} → Option (R × Option (Result Text A)) → Type 0
Unended none = Unit
Unended (some (r, ended)) = ended ≡ none

await_result-Unended :
    {A : Type 0} (hs : List (Happening A)) → IsResultEarly hs → Unended (await_result hs none)
unfolding await_result
await_result-Unended [] h = tt
await_result-Unended (presented r ∷ hs) h = absurd h
await_result-Unended (polled (err e) late ∷ hs) h = refl
await_result-Unended (polled (ok (some r)) late ∷ hs) h = refl
await_result-Unended (polled (ok none) true ∷ hs) h = refl
await_result-Unended (polled (ok none) false ∷ hs) h = await_result-Unended hs h

-- The pairing is lost: there is no list of apps, and nothing is remembered.
abbrev pub IsLost : Session → Option (Result Text (List App)) × Session → Type 0
IsLost x (none, x') = x' ≡ x
IsLost x (some (err e), x') = x' ≡ x
IsLost x (some (ok apps), x') = ⊥

module _ (c : Crypto) (rng : Rng) {W : Type 0} (w : ClientWorld W) where
  concluded_at :
      {A : Type 0} (hs : List (Happening A)) (s : W)
      (o : Option (Result Text PairResult × Option (Result Text A)))
      → await_result hs none ≡ o
      → Unended o
      → Unended (concluded c rng w hs s).0
  unfolding concluded
  concluded_at hs s none eo h = rw (eo, concluded) tt
  concluded_at hs s (some (err e, ended)) eo h = rw (eo, concluded) h
  concluded_at hs s (some (ok r, ended)) eo h = rw (eo, concluded) h

module _ (c : Crypto) (rng : Rng) {W : Type 0} (w : ClientWorld W) where
  -- What happens in a run of `submit_and_wait`, of `pair_with` and of `pair_native` while it waits;
  -- nothing, where it does not come to the wait.
  unfoldable pub submit_happenings :
      {A : Type 0}
      → Session
      → Text
      → Text
      → SubmitPairRequest
      → Text
      → (Text → Text → W → List (Happening A) × W)
      → W
      → List (Happening A)
  submit_happenings x id request_id req pin presents s =
      let sent = w.post_pair (rendezvous_path x.cfg (lit "/hosts/" ++ (id ++ lit "/pair"))) req s in
      elim sent.0 [
        | err e ↦ []
        | ok answer ↦
            if not (leb 200 answer.0 && ltb answer.0 300)
            then []
            else (presents (rendezvous_path x.cfg (lit "/pair/" ++ (request_id ++ lit "?wait=20")))
                pin (w.on_event pairing_started sent.1)).0
      ]

  unfoldable pub pair_happenings :
      {A : Type 0}
      → Session
      → ℕ
      → Text
      → Text
      → Bool
      → (Text → Text → W → List (Happening A) × W)
      → W
      → List (Happening A)
  unfolding submit_request submit_happenings
  pair_happenings x i id h1 remember presents s =
      let ch =
        w.post_challenge (rendezvous_path x.cfg (lit "/hosts/" ++ (id ++ lit "/challenge"))) s in
      elim ch.0 [
        | err e ↦ []
        | ok challenge ↦
            elim (submit_request c rng (suc i) x.cfg x.unique_id h1 challenge (random_pin rng i)
              remember) [
                | err e ↦ []
                | ok req ↦
                    submit_happenings x id challenge.request_id req (random_pin rng i) presents ch.1
              ]
      ]

  unfoldable pub native_happenings : Session → ℕ → Text → Option Text → W → List (Happening Text)
  unfolding resolve_host pair_happenings h1_for
  native_happenings x i id password s =
      let found = resolve_host c rng w x id s in
      elim found.0 [
        | err e ↦ []
        | ok resolved ↦
            elim (h1_for c x.cfg x.interactive id resolved.info.password_salt password
              (w.typed (lit "Password for " ++ (id ++ lit ": ")) found.1)) [
                | err e ↦ []
                | ok h1 ↦
                    pair_happenings x i id h1 true (λ url pin. w.native_pairs resolved.addr url pin)
                      found.1
              ]
      ]

  concluded-Unended :
      {A : Type 0} (hs : List (Happening A)) (s : W)
      → IsResultEarly hs
      → Unended (concluded c rng w hs s).0
  concluded-Unended hs s h = concluded_at c rng w hs s _ refl (await_result-Unended hs h)

  submit_at :
      {A : Type 0} (x : Session) (id request_id : Text) (req : SubmitPairRequest) (pin : Text)
      (presents : Text → Text → W → List (Happening A) × W) (s : W)
      (r : Result Text (ℕ × Option Text))
      → (w.post_pair (rendezvous_path x.cfg (lit "/hosts/" ++ (id ++ lit "/pair"))) req s).0 ≡ r
      → IsResultEarly (submit_happenings x id request_id req pin presents s)
      → Unended (submit_and_wait c rng w x id request_id req pin presents s).0
  unfolding submit_and_wait submit_happenings
  submit_at x id request_id req pin presents s (err e) eo h = rw (eo, submit_and_wait) refl
  submit_at x id request_id req pin presents s (ok answer) eo h =
      let sent = w.post_pair (rendezvous_path x.cfg (lit "/hosts/" ++ (id ++ lit "/pair"))) req s in
      let url = rendezvous_path x.cfg (lit "/pair/" ++ (request_id ++ lit "?wait=20")) in
      let hs = presents url pin (w.on_event pairing_started sent.1) in
      elim (Bool-cases (not (leb 200 answer.0 && ltb answer.0 300))) [
        | inl e ↦ rw (eo, submit_and_wait, e) refl
        | inr e ↦
            rw (eo, submit_and_wait, e)
              (concluded-Unended hs.0 hs.1 (rw (eo, submit_happenings, e) at h))
      ]

  submitted_at :
      {A : Type 0} (x : Session) (i : ℕ) (id h1 : Text) (remember : Bool)
      (presents : Text → Text → W → List (Happening A) × W) (s : W) (challenge : ChallengeResponse)
      (r : Result CryptoError SubmitPairRequest)
      → (w.post_challenge (rendezvous_path x.cfg (lit "/hosts/" ++ (id ++ lit "/challenge"))) s).0
        ≡ ok challenge
      → submit_request c rng (suc i) x.cfg x.unique_id h1 challenge (random_pin rng i) remember ≡ r
      → IsResultEarly (pair_happenings x i id h1 remember presents s)
      → Unended (pair_with c rng w x i id h1 remember presents s).0
  unfolding pair_with pair_happenings
  submitted_at x i id h1 remember presents s challenge (err e) ec eo h = rw (ec, pair_with, eo) refl
  submitted_at x i id h1 remember presents s challenge (ok req) ec eo h =
      let ch =
        w.post_challenge (rendezvous_path x.cfg (lit "/hosts/" ++ (id ++ lit "/challenge"))) s in
      rw (ec, pair_with, eo)
        (submit_at x id challenge.request_id req (random_pin rng i) presents ch.1 _ refl
          (rw (ec, pair_happenings, eo) at h))

  pair_with_at :
      {A : Type 0} (x : Session) (i : ℕ) (id h1 : Text) (remember : Bool)
      (presents : Text → Text → W → List (Happening A) × W) (s : W)
      (r : Result Text ChallengeResponse)
      → (w.post_challenge (rendezvous_path x.cfg (lit "/hosts/" ++ (id ++ lit "/challenge"))) s).0
        ≡ r
      → IsResultEarly (pair_happenings x i id h1 remember presents s)
      → Unended (pair_with c rng w x i id h1 remember presents s).0
  unfolding pair_with
  pair_with_at x i id h1 remember presents s (err e) ec h = rw (ec, pair_with) refl
  pair_with_at x i id h1 remember presents s (ok challenge) ec h =
      submitted_at x i id h1 remember presents s challenge _ ec refl h

  abbrev Lost : Session → Option (Result Text (List App)) × Session × W → Type 0
  Lost x r = IsLost x (r.0, r.1)

  keep_pairing-IsLost :
      (x : Session) (id : Text) (resolved : Resolved) (h1 : Text) (p : Paired c rng w Text)
      → Unended p.0
      → Lost x (keep_pairing c rng w x id resolved h1 p)
  unfolding keep_pairing
  keep_pairing-IsLost x id resolved h1 (none, s) h = refl
  keep_pairing-IsLost x id resolved h1 (some (err e, ended), s) h = refl
  keep_pairing-IsLost x id resolved h1 (some (ok u, ended), s) h = rw h refl

  paired_at :
      (x : Session) (i : ℕ) (id : Text) (password : Option Text) (s : W) (resolved : Resolved)
      (r : Result Text Text)
      → (resolve_host c rng w x id s).0 ≡ ok resolved
      → h1_for c x.cfg x.interactive id resolved.info.password_salt password
          (w.typed (lit "Password for " ++ (id ++ lit ": ")) (resolve_host c rng w x id s).1)
        ≡ r
      → IsResultEarly (native_happenings x i id password s)
      → Lost x (pair_native c rng w x i id password s)
  unfolding pair_native native_happenings
  paired_at x i id password s resolved (err e) ef eo h = rw (ef, pair_native, eo) refl
  paired_at x i id password s resolved (ok h1) ef eo h =
      let found = resolve_host c rng w x id s in
      rw (ef, pair_native, eo)
        (keep_pairing-IsLost x id resolved h1 _ (
          pair_with_at x i id h1 true (λ url pin. w.native_pairs resolved.addr url pin) found.1 _
            refl (rw (ef, native_happenings, eo) at h)))

  found_at :
      (x : Session) (i : ℕ) (id : Text) (password : Option Text) (s : W) (r : Result Text Resolved)
      → (resolve_host c rng w x id s).0 ≡ r
      → IsResultEarly (native_happenings x i id password s)
      → Lost x (pair_native c rng w x i id password s)
  unfolding pair_native
  found_at x i id password s (err e) ef h = rw (ef, pair_native) refl
  found_at x i id password s (ok resolved) ef h = paired_at x i id password s resolved _ ef refl h

  -- Where the native handshake has not ended by the time that the wait for the host's result ends, after
  -- any number of empty polls, the pairing is lost: `pair_native` ends with an error, also when that
  -- result says that the host has paired, or waits, and nothing is remembered.
  pub pair_native-IsLost :
      (x : Session) (i : ℕ) (id : Text) (password : Option Text) (s : W)
      → IsResultEarly (native_happenings x i id password s)
      → IsLost x
          ((pair_native c rng w x i id password s).0, (pair_native c rng w x i id password s).1)
  pair_native-IsLost x i id password s h = found_at x i id password s _ refl h
