-- ===== src/Host/Running/Refused.antt =====
-- What the agent of crates/ra-host/src/agent.rs does with requests that do not know the password.
use remote_access.Base.{
  ℕ, zero, suc, ◌+◌, ◌≤◌, ◌≡◌, ◌∙◌, ap, refl, Bool, false, Bool-cases, inl, inr, Option, none, some,
  List, [], ◌∷◌, Text, length, All, IsString, text_eq_refl, arith, Result, err,
}
use remote_access.Proto.External.{Crypto}
use remote_access.Proto.Types.{PairRequest, PairResult, rejected}
use remote_access.Proto.Hashes.{ct_eq, ct_eq_iff, challenge_response}
use remote_access.Host.Config.{Config}
use remote_access.Host.Checks.{challenge_response-IsString}
use remote_access.Host.Requests.{backoff-bounds}
use remote_access.Host.Agent.{
  checked_pin, failures_after, wrong_password, serve_request, answer_request, handle_pair, backoff,
}
use remote_access.Host.Running.{pause, World, serve_requests}

-- A request whose response is not the one that the password hash `h1` makes of its challenge
pub record IsWrong (c : Crypto) (h1 : Text) (pr : PairRequest) : Type 0 where
  pub string : IsString pr.response
  pub wrong : ¬ (pr.response ≡ challenge_response c h1 pr.challenge)

abbrev pub rejection : PairRequest → PairResult
rejection pr = record {
  request_id = pr.request_id;
  status = rejected;
  message = some wrong_password;
}

-- From 2 to 60 seconds
abbrev pub IsBackoff : ℕ → Type 0
IsBackoff n = (2 ≤ n) × (n ≤ 60)

module _ (c : Crypto) (alnum : ℕ → Bool) (platform version : Text) {W : Type 0} (w : World W) where
  -- Each of the requests is rejected after its wait, and nothing else is done.
  abbrev pub rejecting : Text → Text → List PairRequest → List ℕ → W → W
  rejecting id token [] waits s = s
  rejecting id token (pr ∷ prs) [] s = s
  rejecting id token (pr ∷ prs) (n ∷ waits) s =
      rejecting id token prs waits (w.post_result id token (rejection pr) (w.sleep n s))

  unequal :
      (h1 : Text) (pr : PairRequest)
      → IsWrong c h1 pr
      → ct_eq pr.response (challenge_response c h1 pr.challenge) ≡ false
  unequal h1 pr h = elim (Bool-cases (ct_eq pr.response (challenge_response c h1 pr.challenge))) [
    | inr e ↦ e
    | inl e ↦
        absurd
          (h.wrong ((ct_eq_iff _ _ h.string (challenge_response-IsString c h1 pr.challenge)).0 e))
  ]

  wrong_refused : (h1 : Text) (pr : PairRequest) → IsWrong c h1 pr → checked_pin c h1 pr ≡ none
  unfolding checked_pin
  wrong_refused h1 pr h = rw (unequal h1 pr h, checked_pin) refl

  wrong_counted :
      (h1 : Text) (pr : PairRequest) (n : ℕ) → IsWrong c h1 pr → failures_after c h1 pr n ≡ n
  unfolding failures_after
  wrong_counted h1 pr n h = rw (unequal h1 pr h, failures_after) refl

  handled_wrong :
      (cfg : Config) (h1 : Text) (pr : PairRequest) (s : W)
      → IsWrong c h1 pr
      → handle_pair c alnum w.apollo cfg h1 (w.wait_ticks s) (w.now s) pr s
        ≡ (some (err wrong_password), s)
  unfolding handle_pair
  handled_wrong cfg h1 pr s h = rw (wrong_refused h1 pr h, handle_pair) refl

  -- One of them
  served_wrong :
      (cfg : Config) (h1 : Text) (pr : PairRequest) (failures : ℕ) (s : W)
      → IsWrong c h1 pr
      → serve_request c alnum w.apollo cfg h1 (w.wait_ticks s) (w.now s) pr failures s
        ≡ (some (rejection pr, suc failures, backoff (suc failures)), s)
  unfolding serve_request answer_request
  served_wrong cfg h1 pr failures s h =
      ap
        (λ (r : Option (Result Text (Unit {0})) × W).
          elim r.0 as (λ x. Option (PairResult × ℕ × ℕ) × W) [
            | none ↦ (none, r.1)
            | some res ↦ (some (answer_request pr (failures_after c h1 pr failures) res), r.1)
          ])
        (handled_wrong cfg h1 pr s h)
      ∙ rw (wrong_counted h1 pr failures h, text_eq_refl wrong_password, answer_request) refl

  pause-sleep : (n : ℕ) (s : W) → IsBackoff n → pause c alnum platform version w n s ≡ w.sleep n s
  pause-sleep zero s h = absurd (omega (arith, h.0))
  pause-sleep (suc n) s h = refl

  step_wrong :
      (cfg : Config) (h1 id : Text) (pr : PairRequest) (prs : List PairRequest) (failures : ℕ)
      (s : W)
      → IsWrong c h1 pr
      → serve_requests c alnum platform version w cfg h1 id (pr ∷ prs) failures s
        ≡ serve_requests c alnum platform version w cfg h1 id prs
            (suc failures)
            (w.post_result id cfg.token (rejection pr) (w.sleep (backoff (suc failures)) s))
  unfolding serve_requests
  step_wrong cfg h1 id pr prs failures s h =
      ap
        (λ (r : Option (PairResult × ℕ × ℕ) × W). elim r.0 as (λ x. Option ℕ × W) [
          | none ↦ (none, r.1)
          | some answer ↦
              serve_requests c alnum platform version w cfg h1 id prs answer.1 (
                w.post_result id cfg.token answer.0 (pause c alnum platform version w answer.2 r.1))
        ])
        (served_wrong cfg h1 pr failures s h)
      ∙ ap
          (λ t.
            serve_requests c alnum platform version w cfg h1 id prs (suc failures)
              (w.post_result id cfg.token (rejection pr) t))
          (pause-sleep (backoff (suc failures)) s (backoff-bounds failures))

  -- A batch of requests that do not know the password: each of them is rejected and counted, after a wait
  -- of 2 to 60 seconds for each, and apart from these sleeps and posts, nothing happens: Apollo is not
  -- asked.
  pub serve_requests-rejects :
      (cfg : Config) (h1 id : Text) (prs : List PairRequest) (failures : ℕ) (s : W)
      → All (IsWrong c h1) prs
      → (waits : List ℕ) × (length waits ≡ length prs)
        × All IsBackoff waits
        × (serve_requests c alnum platform version w cfg h1 id prs failures s
            ≡ (some (failures + length prs), rejecting id cfg.token prs waits s))
  unfolding serve_requests
  serve_requests-rejects cfg h1 id [] failures s h =
      ([], refl, tt, ap (λ n. (some n, s)) (omega arith))
  serve_requests-rejects cfg h1 id (pr ∷ prs) failures s h =
      let n = backoff (suc failures) in
      let s' = w.post_result id cfg.token (rejection pr) (w.sleep n s) in
      let (waits, same, bounded, e) = serve_requests-rejects cfg h1 id prs (suc failures) s' h.1 in
      (
        n ∷ waits,
        omega (arith, same),
        (backoff-bounds failures, bounded),
        step_wrong cfg h1 id pr prs failures s h.0
            ∙ e
            ∙ ap (λ k. (some k, rejecting id cfg.token prs waits s')) (omega arith),
      )
