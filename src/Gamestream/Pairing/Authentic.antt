-- ===== src/Gamestream/Pairing/Authentic.antt =====
-- What a completed handshake of crates/ra-gamestream/src/pairing.rs has checked of the host.
use remote_access.Base.{
  ℕ, zero, suc, ◌≤◌, ◌≡◌, refl, true, Option, none, some, List, [], ◌∷◌, lit, trim, Text, Bytes,
  take, drop, text_eq_sound, Result, ok, err, arith, Bool-cases, inl, inr,
}
use remote_access.Gamestream.External.{Libraries}
use remote_access.Gamestream.Errors.{Error}
use remote_access.Gamestream.Replies.{Root, required}
use remote_access.Gamestream.Blocks.{sha256, cert_public_key, cert_signature, verify_sha256}
use remote_access.Gamestream.Pairing.{
  Pairing, Step, next, next_phase0, next_phase1, next_phase2, next_phase3, next_phase4, by_phase,
  pairing_secret, check_secret, is_paired, is_complete, with_random, OtpAuth,
}
use remote_access.Gamestream.Transport.{Identity}
use remote_access.Gamestream.Pairing.Phases.{next_cases}

module _ (l : Libraries) where
  -- The host has shown a secret signed with the key of this certificate, and its answer to the
  -- client's challenge is the hash of the challenge, the certificate's signature and that secret.
  pub record IsProven (challenge response : Bytes) (pem : Text) : Type 0 where
    pub secret : Bytes
    pub signature : Bytes
    pub cert_signed : Bytes
    pub public_key : l.PublicKey
    pub has_key : cert_public_key l pem ≡ ok public_key
    pub is_signed : verify_sha256 l public_key secret signature ≡ true
    pub has_signature : cert_signature l pem ≡ ok cert_signed
    pub is_answered : sha256 l (challenge ∷ cert_signed ∷ secret ∷ []) ≡ response

  check_at :
      (p : Pairing l) (pem : Text) (secret : Bytes) (rk : Result Error l.PublicKey)
      (rs : Result Error Bytes)
      → cert_public_key l pem ≡ rk
      → cert_signature l pem ≡ rs
      → check_secret l p pem secret ≡ ok tt
      → IsProven p.rand_challenge p.server_response pem
  unfolding check_secret
  check_at p pem secret (err e) rs ek es h = ground arith
  check_at p pem secret (ok pk) (err e) ek es h = ground arith
  check_at p pem secret (ok pk) (ok sig) ek es h = record {
    secret = take 16 secret;
    signature = drop 16 secret;
    cert_signed = sig;
    public_key = pk;
    has_key = ek;
    is_signed = ground arith;
    has_signature = es;
    is_answered = text_eq_sound _ _ (ground arith);
  }

  check_secret-IsProven :
      (p : Pairing l) (pem : Text) (secret : Bytes)
      → check_secret l p pem secret ≡ ok tt
      → IsProven p.rand_challenge p.server_response pem
  check_secret-IsProven p pem secret h = check_at p pem secret _ _ refl refl h

  -- The certificate that is kept is proven.
  abbrev pub IsAuthentic : Pairing l → Type 0
  IsAuthentic p =
      (pem : Text) × (p.server_cert_pem ≡ some pem)
      × IsProven p.rand_challenge p.server_response pem

  -- From phase 3 on
  abbrev pub IsGuarded : Pairing l → Type 0
  IsGuarded p = 3 ≤ p.phase → IsAuthentic p

  -- A checked secret and the certificate that it was checked with
  abbrev Accepted : Pairing l → Type 0
  Accepted p =
      (pem : Text) × (secret : Bytes) × (p.server_cert_pem ≡ some pem)
      × (check_secret l p pem secret ≡ ok tt)

  proof_from_text :
      (p : Pairing l) (root : Root l) (s : Step) (t : Text) (o : Option Bytes) (q : Option Text)
      → required l root (lit "pairingsecret") ≡ ok t
      → l.crypto.hex_decode (trim t) ≡ o
      → p.server_cert_pem ≡ q
      → pairing_secret l p root ≡ ok s
      → Accepted p
  unfolding pairing_secret
  proof_from_text p root s t none q et eo eq h = absurd (ground arith)
  proof_from_text p root s t (some b) none et eo eq h = absurd (ground arith)
  proof_from_text p root s t (some b) (some pem) et eo eq h = (pem, b, eq, ground arith)

  proof_from_reply :
      (p : Pairing l) (root : Root l) (s : Step) (r : Result Error Text)
      → required l root (lit "pairingsecret") ≡ r
      → pairing_secret l p root ≡ ok s
      → Accepted p
  unfolding pairing_secret
  proof_from_reply p root s (err e) er h = absurd (ground arith)
  proof_from_reply p root s (ok t) er h = proof_from_text p root s t _ _ er refl refl h

  authentic_at :
      (p : Pairing l) (root : Root l) (r : Result Error Step)
      → pairing_secret l p root ≡ r
      → p.phase ≡ 2
      → IsGuarded (next_phase2 l p root).1
  unfolding next_phase2
  authentic_at p root (err e) er h = rw (er, next_phase2) λ t. absurd (omega arith)
  authentic_at p root (ok s) er h =
      rw (er, next_phase2)
        λ t.
          let a = proof_from_reply p root s _ refl er in
          (a.0, a.2, check_secret-IsProven p a.0 a.1 a.3)

  absurd_early : (p : Pairing l) → p.phase ≤ 2 → IsGuarded p
  absurd_early p h = λ t. absurd (omega arith)

  early0 : (p : Pairing l) (root : Root l) → p.phase ≡ 0 → IsGuarded (next_phase0 l p root).1
  unfolding next_phase0
  early0 p root e = absurd_early (next_phase0 l p root).1 (ground arith)

  early1 : (p : Pairing l) (root : Root l) → p.phase ≡ 1 → IsGuarded (next_phase1 l p root).1
  unfolding next_phase1
  early1 p root e = absurd_early (next_phase1 l p root).1 (ground arith)

  late : (p : Pairing l) (n : ℕ) → IsAuthentic p → IsGuarded (record p { phase = n })
  late p n a = λ t. a

  late3 :
      (p : Pairing l) (root : Root l)
      → p.phase ≡ 3
      → IsGuarded p
      → IsGuarded (next_phase3 l p root).1
  unfolding next_phase3
  late3 p root e g = elim (Bool-cases (is_paired l root)) [
    | inl h ↦ rw (h, next_phase3) (late p 4 (g (omega arith)))
    | inr h ↦ rw (h, next_phase3) g
  ]

  late4 :
      (p : Pairing l) (root : Root l)
      → 4 ≤ p.phase
      → IsGuarded p
      → IsGuarded (next_phase4 l p root).1
  unfolding next_phase4
  late4 p root e g = elim (Bool-cases (is_paired l root)) [
    | inl h ↦ rw (h, next_phase4) (late p 5 (g (omega arith)))
    | inr h ↦ rw (h, next_phase4) g
  ]

  by_phase-IsGuarded :
      (n : ℕ) (p : Pairing l) (root : Root l)
      → p.phase ≡ n
      → IsGuarded p
      → IsGuarded (by_phase l n p root).1
  by_phase-IsGuarded zero p root e g = early0 p root e
  by_phase-IsGuarded (suc zero) p root e g = early1 p root e
  by_phase-IsGuarded (suc (suc zero)) p root e g = authentic_at p root _ refl e
  by_phase-IsGuarded (suc (suc (suc zero))) p root e g = late3 p root e g
  by_phase-IsGuarded (suc (suc (suc (suc n)))) p root e g = late4 p root (omega arith) g

  pub next-IsGuarded : (p : Pairing l) (body : Text) → IsGuarded p → IsGuarded (next l p body).1
  next-IsGuarded p body g =
      next_cases l (λ n. IsGuarded n.1) p body (λ _. g)
        (λ root. by_phase-IsGuarded p.phase p root refl g)

  -- The state after these replies, whether they were refused or not
  abbrev pub feed : Pairing l → List Text → Pairing l
  feed p [] = p
  feed p (b ∷ bs) = feed (next l p b).1 bs

  feed-IsGuarded : (p : Pairing l) (bs : List Text) → IsGuarded p → IsGuarded (feed p bs)
  feed-IsGuarded p [] g = g
  feed-IsGuarded p (b ∷ bs) g = feed-IsGuarded (next l p b).1 bs (next-IsGuarded p b g)

  -- Whatever replies a fresh handshake was fed, if it is complete then the certificate that it keeps
  -- is one for which the sender showed a secret signed with its key, and whose answer to the client's
  -- challenge is the hash of the challenge, the certificate's signature and that secret.
  pub feed-IsAuthentic :
      (id : Identity l) (pin : Text) (otp : Option OtpAuth) (salt challenge secret : Bytes)
      (replies : List Text)
      → is_complete l (feed (with_random l id pin otp salt challenge secret) replies) ≡ true
      → IsAuthentic (feed (with_random l id pin otp salt challenge secret) replies)
  unfolding is_complete with_random
  feed-IsAuthentic id pin otp salt challenge secret replies h =
      feed-IsGuarded _ replies (λ t. absurd (omega arith)) (ground arith)
