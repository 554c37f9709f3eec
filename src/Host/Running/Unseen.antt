-- ===== src/Host/Running/Unseen.antt =====
-- What no operation of Apollo changes, no request that crates/ra-host/src/agent.rs handles changes.
use remote_access.Base.{
  ℕ, zero, suc, ◌-◌, ◌≡◌, refl, ◌∙◌, Bool, either, maybe, whichever, Bool-cases, inl, inr, Option,
  none, List, [], ◌∷◌, Text, ltb, Result,
}
use remote_access.Proto.External.{Crypto}
use remote_access.Proto.Types.{PairRequest, PairResult}
use remote_access.Host.Config.{Config}
use remote_access.Host.Apollos.{ApolloClient}
use remote_access.Host.Names.{sanitize_name}
use remote_access.Host.Agent.{
  Apollo, Tick, checked_pin, serve_request, handle_pair, new_client, deliver, is_due, wait_limit,
  wait_client, finish_pair, updated, pair_with_apollo,
}

-- The operations of Apollo leave `f` as it is.
pub record IsUnseen {S B : Type 0} (apollo : Apollo S) (f : S → B) : Type 0 where
  pub listing : (s : S) → f (apollo.list_clients s).1 ≡ f s
  pub submitting : (pin name : Text) (s : S) → f (apollo.submit_pin pin name s).1 ≡ f s
  pub updating : (x : ApolloClient) (s : S) → f (apollo.update_client x s).1 ≡ f s

module _ (c : Crypto) (alnum : ℕ → Bool) {S B : Type 0} (apollo : Apollo S) (f : S → B)
    (u : IsUnseen apollo f) where
  abbrev Same : {A : Type 0} → S → A × S → Type 0
  Same a r = f r.1 ≡ f a

  new_client-Same :
      (n : ℕ) (before : List ApolloClient) (a : S) → Same a (new_client c alnum apollo n before a)
  unfolding new_client
  new_client-Same zero before a = refl
  new_client-Same (suc n) before a =
      either (λ (r : Result Text (Option ApolloClient) × S). Same a r) (apollo.list_clients a).0
        (λ e. u.listing a) (λ cs. u.listing a)

  deliver-Same :
      (t : Tick) (pin name : Text) (delivered : ℕ) (last : Option ℕ) (a : S)
      → Same a (deliver c alnum apollo t pin name delivered last a)
  unfolding deliver
  deliver-Same t pin name delivered last a = elim (Bool-cases (is_due t.now_due last)) [
    | inr e ↦ rw (e, deliver) refl
    | inl e ↦
        rw (e, deliver)
          (either (λ (r : Result Text (ℕ × Option ℕ) × S). Same a r)
            (apollo.submit_pin pin name a).0 (λ e. u.submitting pin name a)
            (λ b. u.submitting pin name a))
  ]

  wait_client-Same :
      (ts : List Tick) (started : ℕ) (pin name : Text) (before : List ApolloClient) (delivered : ℕ)
      (last : Option ℕ) (a : S)
      → Same a (wait_client c alnum apollo ts started pin name before delivered last a)
  unfolding wait_client
  wait_client-Same [] started pin name before delivered last a = refl
  wait_client-Same (t ∷ ts) started pin name before delivered last a =
      let P : Option (Result Text ApolloClient) × S → Type 0 = λ r. Same a r in
      let d = deliver c alnum apollo t pin name delivered last a in
      let h = deliver-Same t pin name delivered last a in
      whichever P (ltb wait_limit (t.now - started)) refl (
        either P d.0 (λ e. h)
          (λ counts.
            let n = new_client c alnum apollo counts.0 before d.1 in
            let k = new_client-Same counts.0 before d.1 ∙ h in
            either P n.0 (λ e. k)
              (λ found.
                maybe P found
                  (wait_client-Same ts started pin name before counts.0 counts.1 n.1 ∙ k)
                  (λ x. k))))

  pair_with_apollo-Same :
      (cfg : Config) (ts : List Tick) (started : ℕ) (pin name : Text) (a : S)
      → Same a (pair_with_apollo c alnum apollo cfg ts started pin name a)
  unfolding pair_with_apollo finish_pair
  pair_with_apollo-Same cfg ts started pin name a =
      let P : Option (Result Text (Unit {0})) × S → Type 0 = λ r. Same a r in
      let listed = apollo.list_clients a in
      either P listed.0 (λ e. u.listing a)
        (λ before.
          let w = wait_client c alnum apollo ts started pin name before 0 none listed.1 in
          let h = wait_client-Same ts started pin name before 0 none listed.1 ∙ u.listing a in
          maybe P w.0 h (λ r.
            either P r (λ e. h) (λ x. u.updating (updated c alnum apollo cfg name x) w.1 ∙ h)))

  handle_pair-Same :
      (cfg : Config) (h1 : Text) (ts : List Tick) (started : ℕ) (pr : PairRequest) (a : S)
      → Same a (handle_pair c alnum apollo cfg h1 ts started pr a)
  unfolding handle_pair
  handle_pair-Same cfg h1 ts started pr a =
      let P : Option (Result Text (Unit {0})) × S → Type 0 = λ r. Same a r in
      maybe P (checked_pin c h1 pr) refl
        (λ pin. pair_with_apollo-Same cfg ts started pin (sanitize_name alnum pr.device_name) a)

  pub serve_request-Same :
      (cfg : Config) (h1 : Text) (ts : List Tick) (started : ℕ) (pr : PairRequest) (failures : ℕ)
      (a : S)
      → Same a (serve_request c alnum apollo cfg h1 ts started pr failures a)
  unfolding serve_request
  serve_request-Same cfg h1 ts started pr failures a =
      let P : Option (PairResult × ℕ × ℕ) × S → Type 0 = λ r. Same a r in
      let r = handle_pair c alnum apollo cfg h1 ts started pr a in
      let h = handle_pair-Same cfg h1 ts started pr a in maybe P r.0 h (λ res. h)
