-- ===== src/Gamestream/Pairing/Phases.antt =====
-- The order of the phases of crates/ra-gamestream/src/pairing.rs.
use remote_access.Base.{
  ℕ, zero, suc, ◌≤◌, ◌<◌, ◌≡◌, refl, ◌==◌, none, some, Text, length, Result, ok, err, arith,
}
use remote_access.Gamestream.External.{Libraries}
use remote_access.Gamestream.Errors.{Error}
use remote_access.Gamestream.Replies.{Root, parse_root}
use remote_access.Gamestream.Blocks.{aes_ecb_encrypt}
use remote_access.Gamestream.Pairing.{
  Pairing, Next, next, next_phase0, next_phase1, next_phase2, next_phase3, next_phase4, by_phase,
  client_challenge, challenge_resp, pairing_secret,
}

module _ (l : Libraries) where
  -- What a call of `next` does to the phase.
  abbrev pub Advances : Pairing l → Next l → Type 0
  Advances p (ok (some s), p') =
      (p.phase < 4) × (p'.phase ≡ suc p.phase) × (s.https ≡ (p.phase == 3))
  Advances p (ok none, p') = (4 ≤ p.phase) × (p'.phase ≡ 5)
  Advances p (err e, p') = p'.phase ≡ p.phase

  phase0 :
      (p : Pairing l) (root : Root l)
      → length p.rand_challenge ≡ 16
      → p.phase ≡ 0
      → Advances p (next_phase0 l p root)
  unfolding next_phase0 client_challenge aes_ecb_encrypt
  phase0 p root h e = ground arith

  phase1 : (p : Pairing l) (root : Root l) → p.phase ≡ 1 → Advances p (next_phase1 l p root)
  unfolding next_phase1 challenge_resp
  phase1 p root e = ground arith

  phase2 : (p : Pairing l) (root : Root l) → p.phase ≡ 2 → Advances p (next_phase2 l p root)
  unfolding next_phase2 pairing_secret
  phase2 p root e = ground arith

  phase3 : (p : Pairing l) (root : Root l) → p.phase ≡ 3 → Advances p (next_phase3 l p root)
  unfolding next_phase3
  phase3 p root e = ground arith

  phase4 : (p : Pairing l) (root : Root l) → 4 ≤ p.phase → Advances p (next_phase4 l p root)
  unfolding next_phase4
  phase4 p root e = ground arith

  by_phase-Advances :
      (n : ℕ) (p : Pairing l) (root : Root l)
      → length p.rand_challenge ≡ 16
      → p.phase ≡ n
      → Advances p (by_phase l n p root)
  by_phase-Advances zero p root h e = phase0 p root h e
  by_phase-Advances (suc zero) p root h e = phase1 p root e
  by_phase-Advances (suc (suc zero)) p root h e = phase2 p root e
  by_phase-Advances (suc (suc (suc zero))) p root h e = phase3 p root e
  by_phase-Advances (suc (suc (suc (suc n)))) p root h e = phase4 p root (omega arith)

  next_at {ℓ} :
      (P : Next l → Type ℓ) (p : Pairing l) (body : Text) (r : Result Error (Root l))
      → parse_root l body ≡ r
      → ((e : Error) → P (err e, p))
      → ((root : Root l) → P (by_phase l p.phase p root))
      → P (next l p body)
  unfolding next
  next_at P p body (err e) er failed went = rw (er, next) (failed e)
  next_at P p body (ok root) er failed went = rw (er, next) (went root)

  -- A reply is refused as no `<root>` of status 200, or is looked at as the phase wants.
  pub next_cases {ℓ} :
      (P : Next l → Type ℓ) (p : Pairing l) (body : Text)
      → ((e : Error) → P (err e, p))
      → ((root : Root l) → P (by_phase l p.phase p root))
      → P (next l p body)
  next_cases P p body = next_at P p body _ refl

  -- With a challenge of 16 bytes, `next` either goes on to the next phase with a step that is over
  -- HTTPS exactly in phase 3, or completes in phase 4 or later, or fails and leaves the phase.
  pub next-Advances :
      (p : Pairing l) (body : Text) → length p.rand_challenge ≡ 16 → Advances p (next l p body)
  next-Advances p body h =
      next_cases (Advances p) p body (λ _. refl) (λ root. by_phase-Advances p.phase p root h refl)

  abbrev SameRand : Pairing l → Next l → Type 0
  SameRand p n = n.1.rand_challenge ≡ p.rand_challenge

  by_phase-rand : (n : ℕ) (p : Pairing l) (root : Root l) → SameRand p (by_phase l n p root)
  unfolding next_phase0 next_phase1 next_phase2 next_phase3 next_phase4
  by_phase-rand zero p root = ground arith
  by_phase-rand (suc zero) p root = ground arith
  by_phase-rand (suc (suc zero)) p root = ground arith
  by_phase-rand (suc (suc (suc zero))) p root = ground arith
  by_phase-rand (suc (suc (suc (suc n)))) p root = ground arith

  -- The client's challenge stays what it was.
  pub next-rand : (p : Pairing l) (body : Text) → SameRand p (next l p body)
  next-rand p body = next_cases (SameRand p) p body (λ _. refl) (by_phase-rand p.phase p)
