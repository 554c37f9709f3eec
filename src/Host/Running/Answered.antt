-- ===== src/Host/Running/Answered.antt =====
-- What the loop of crates/ra-host/src/agent.rs answers, told by the calls that it makes of the world.
use remote_access.Base.{
  ℕ, ◌+◌, ◌*◌, ◌≤◌, ◌≡◌, Bool, Option, none, some, List, [], ◌∷◌, ◌++◌, map, Text, length,
}
use remote_access.Proto.External.{Crypto}
use remote_access.Proto.Types.{PairRequest, PairResult}
use remote_access.Host.Config.{Config}
use remote_access.Host.Running.Unseen.{IsUnseen}
use remote_access.Host.Running.{pause, World}

-- What is seen of the world: the results that were posted, and the seconds that were slept. A post and a
-- sleep are seen, and no call of Apollo is either of them.
pub record Observer {W : Type 0} (w : World W) : Type 0 where
  pub posts : W → List PairResult
  pub slept : W → ℕ
  pub posts-post_result :
      (id token : Text) (r : PairResult) (s : W)
      → posts (w.post_result id token r s) ≡ posts s ++ r ∷ []
  pub slept-post_result :
      (id token : Text) (r : PairResult) (s : W) → slept (w.post_result id token r s) ≡ slept s
  pub posts-sleep : (n : ℕ) (s : W) → posts (w.sleep n s) ≡ posts s
  pub slept-sleep : (n : ℕ) (s : W) → slept (w.sleep n s) ≡ slept s + n
  pub posts-apollo : IsUnseen w.apollo posts
  pub slept-apollo : IsUnseen w.apollo slept

-- The answer to one request
OneAnswer : PairRequest → Option (PairResult × ℕ × ℕ) → Type 0
OneAnswer pr none = Unit
OneAnswer pr (some (res, failures, wait)) = (res.request_id ≡ pr.request_id) × (wait ≤ 60)

module _ (c : Crypto) (alnum : ℕ → Bool) (platform version : Text) {W : Type 0} (w : World W)
    (o : Observer w) where
  -- From `s` to the outcome one result was posted for each request, in their order, and nothing else,
  -- and at most 60 seconds were slept for each.
  abbrev pub Answers : List PairRequest → W → Option ℕ × W → Type 0
  Answers prs s (none, t) = Unit
  Answers prs s (some failures, t) =
      (rs : List PairResult) × (o.posts t ≡ o.posts s ++ rs)
      × (map (λ r. r.request_id) rs ≡ map (λ pr. pr.request_id) prs)
      × (o.slept t ≤ o.slept s + 60 * length prs)

  abbrev after_pause : ℕ → W → W
  after_pause n s = pause c alnum platform version w n s
