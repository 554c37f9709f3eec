-- ===== src/Gamestream/Pairing/Closing.antt =====
-- How `pair` of crates/ra-gamestream/src/pairing.rs ends.
use remote_access.Base.{
  ℕ, zero, suc, ◌+◌, ◌≤◌, ◌≡◌, refl, ◌∙◌, true, false, ◌==◌, Option, none, some, ◌∷◌, Text, Bytes,
  lit, Bool-cases, ap, ltb, inl, inr, length, Result, ok, err, arith,
}
use remote_access.Proto.External.{Rng}
use remote_access.Gamestream.External.{Libraries}
use remote_access.Gamestream.Errors.{Error}
use remote_access.Gamestream.Replies.{Root}
use remote_access.Gamestream.Blocks.{pem_to_der}
use remote_access.Gamestream.Transport.{
  HostAddr, Identity, GsHttp, Request, Log, get_http, get_https, unpair, server_info_http,
}
use remote_access.Gamestream.Pairing.{
  Pairing, OtpAuth, Step, Next, next, next_phase0, next_phase1, next_phase2, next_phase3,
  next_phase4, by_phase, server_cert, start, with_random,
}
use remote_access.Gamestream.Pairing.Phases.{next_cases, next-Advances, next-rand, Advances}
use remote_access.Gamestream.Pairing.Driver.{
  PairOutcome, new_pairing, send_step, give_up, outcome, pair_loop, pair_host,
}
use remote_access.Gamestream.ServerInfos.{ServerInfo, major_version}

module _ (l : Libraries) where
  by_phase-cert :
      (n : ℕ) (p : Pairing l) (root : Root l)
      → 1 ≤ n
      → (by_phase l n p root).1.server_cert_pem ≡ p.server_cert_pem
  unfolding next_phase1 next_phase2 next_phase3 next_phase4
  by_phase-cert zero p root h = absurd (omega arith)
  by_phase-cert (suc zero) p root h = ground arith
  by_phase-cert (suc (suc zero)) p root h = ground arith
  by_phase-cert (suc (suc (suc zero))) p root h = ground arith
  by_phase-cert (suc (suc (suc (suc n)))) p root h = ground arith

  -- Once there is a certificate, it stays.
  next-cert :
      (p : Pairing l) (body : Text)
      → 1 ≤ p.phase
      → (next l p body).1.server_cert_pem ≡ p.server_cert_pem
  next-cert p body h =
      next_cases l (λ n. n.1.server_cert_pem ≡ p.server_cert_pem) p body (λ _. refl)
        (λ root. by_phase-cert p.phase p root h)

  -- There is a certificate from phase 1 on.
  abbrev HasCert : Pairing l → Type 0
  HasCert p = 1 ≤ p.phase → (pem : Text) × (p.server_cert_pem ≡ some pem)

  first_cert :
      (p : Pairing l) (root : Root l) (r : Result Error Text)
      → server_cert l root ≡ r
      → HasCert p
      → HasCert (next_phase0 l p root).1
  unfolding next_phase0
  first_cert p root (err e) er g = rw (er, next_phase0) g
  first_cert p root (ok pem) er g = rw (er, next_phase0) λ t. (pem, refl)

  by_phase-HasCert :
      (n : ℕ) (p : Pairing l) (root : Root l)
      → p.phase ≡ n
      → HasCert p
      → HasCert (by_phase l n p root).1
  by_phase-HasCert zero p root e g = first_cert p root _ refl g
  by_phase-HasCert (suc n) p root e g =
      let c = g (omega arith) in λ t. (c.0, by_phase-cert (suc n) p root (omega arith) ∙ c.1)

  next-HasCert : (p : Pairing l) (body : Text) → HasCert p → HasCert (next l p body).1
  next-HasCert p body g =
      next_cases l (λ n. HasCert n.1) p body (λ _. g)
        (λ root. by_phase-HasCert p.phase p root refl g)

  -- A step is sent in its phase: over HTTPS exactly in phase 4.
  record IsReady (p : Pairing l) (s : Step) : Type 0 where
    sized : length p.rand_challenge ≡ 16
    secure : s.https ≡ (p.phase == 4)
    in_order : p.phase ≤ 4
    has_cert : HasCert p

  -- The latest request asks for this.
  abbrev EndsWith : Log → Text → Option Bytes → Type 0
  EndsWith log command pinned =
      (r : Request) × (rest : Log) × (log ≡ r ∷ rest) × (r.command ≡ command) × (r.pinned ≡ pinned)

  -- After an error the last request asks the host to forget the client. Without one, it was the last
  -- step, over a connection that pins the certificate of the outcome.
  abbrev pub Closes : Result Error PairOutcome × Log → Type 0
  Closes (err e, log) = EndsWith log (lit "unpair") none
  Closes (ok o, log) =
      (der : Bytes) × (pem_to_der l o.server_cert_pem ≡ ok der)
      × EndsWith log (lit "pair") (some der)

  give_up-Closes :
      (h : GsHttp l) (addr : HostAddr) (e : Error) (log : Log) → Closes (give_up l h addr e log)
  unfolding give_up unpair get_http
  give_up-Closes h addr e log = (_, log, refl, refl, refl)

  -- An answer over HTTPS came from a connection that pins the certificate.
  abbrev IsPinned : Text → Result Error Text × Log → Type 0
  IsPinned pem (err e, log) = Unit
  IsPinned pem (ok body, log) =
      (der : Bytes) × (pem_to_der l pem ≡ ok der) × EndsWith log (lit "pair") (some der)

  answer-IsPinned :
      (pem : Text) (der : Bytes) (r : Request) (log : Log) (a : Result Error Text)
      → pem_to_der l pem ≡ ok der
      → r.command ≡ lit "pair"
      → r.pinned ≡ some der
      → IsPinned pem (a, r ∷ log)
  answer-IsPinned pem der r log (err e) ed ec ep = tt
  answer-IsPinned pem der r log (ok body) ed ec ep = (der, ed, (r, log, refl, ec, ep))

  get_https_at :
      (h : GsHttp l) (addr : HostAddr) (pem args : Text) (log : Log) (r : Result Error Bytes)
      → pem_to_der l pem ≡ r
      → IsPinned pem (get_https l h addr pem (lit "pair") args log)
  unfolding get_https
  get_https_at h addr pem args log (err e) er = rw (er, get_https) tt
  get_https_at h addr pem args log (ok der) er =
      rw (er, get_https) (answer-IsPinned pem der _ log _ er refl refl)

  get_https-IsPinned :
      (h : GsHttp l) (addr : HostAddr) (pem args : Text) (log : Log)
      → IsPinned pem (get_https l h addr pem (lit "pair") args log)
  get_https-IsPinned h addr pem args log = get_https_at h addr pem args log _ refl

  -- What is known of the request that was sent for a step in phase 4 or later.
  abbrev Sends : Pairing l → Step → Option (Result Error Text × Log) → Type 0
  Sends p s none = ⊥
  Sends p s (some sent) =
      s.https ≡ true → (pem : Text) × (p.server_cert_pem ≡ some pem) × IsPinned pem sent

  send_step-Sends :
      (h : GsHttp l) (addr : HostAddr) (p : Pairing l) (s : Step) (timeout : Option ℕ) (log : Log)
      → IsReady p s
      → Sends p s (send_step l h addr p s timeout log)
  unfolding send_step
  send_step-Sends h addr p s timeout log ready = elim (Bool-cases s.https) [
    | inl e ↦
        let c = ready.has_cert (ground (arith, ready.secure)) in
        rw (e, c.1, send_step) λ t. (c.0, refl, get_https-IsPinned h addr c.0 s.args log)
    | inr e ↦ rw (e, send_step) λ t. absurd (ground arith)
  ]

  outcome-Closes :
      (p : Pairing l) (pem body : Text) (log : Log)
      → p.server_cert_pem ≡ some pem
      → IsPinned pem (ok body, log)
      → Closes (outcome l p log)
  unfolding outcome
  outcome-Closes p pem body log e pinned = rw (e, outcome) pinned

  -- The loop closes on this fuel.
  abbrev Looping : ℕ → GsHttp l → HostAddr → Type 0
  Looping fuel h addr =
      (p : Pairing l) (s : Step) (timeout : Option ℕ) (log : Log)
      → IsReady p s
      → 5 ≤ p.phase + fuel
      → Closes (pair_loop l fuel h addr p s timeout log)

  module _ (fuel : ℕ) (h : GsHttp l) (addr : HostAddr) (ih : Looping fuel h addr) where
    -- One round, given what the request and `next` came to.
    reply_at :
        (p : Pairing l) (s : Step) (timeout : Option ℕ) (log log' : Log) (body : Text) (n : Next l)
        → IsReady p s
        → 5 ≤ p.phase + suc fuel
        → send_step l h addr p s timeout log ≡ some (ok body, log')
        → next l p body ≡ n
        → Advances l p n
        → n.1.rand_challenge ≡ p.rand_challenge
        → HasCert n.1
        → (1 ≤ p.phase → n.1.server_cert_pem ≡ p.server_cert_pem)
        → Sends p s (some (ok body, log'))
        → Closes (pair_loop l (suc fuel) h addr p s timeout log)
    unfolding pair_loop
    reply_at p s timeout log log' body (err e, p') ready enough es en adv same cert keeps sends =
        rw (es, en, pair_loop) (give_up-Closes h addr e log')
    reply_at p s timeout log log' body (ok none, p') ready enough es en adv same cert keeps sends =
        let sent = sends (ground (arith, ready.secure, ready.in_order, adv.0)) in
        rw (es, en, pair_loop)
          (rw en
            (outcome-Closes p' sent.0 body log' (keeps (omega (arith, adv.0)) ∙ sent.1) sent.2))
    reply_at p s timeout log log' body (ok (some s'), p') ready enough es en adv same cert keeps
          sends =
        rw (es, en, pair_loop)
          (rw en (
            ih p' s' (some 5) log'
              (record {
                sized = ap length same ∙ ready.sized;
                secure = ground (arith, adv.1, adv.2);
                in_order = omega (arith, adv.0, adv.1);
                has_cert = cert;
              })
              (omega (arith, adv.1))))

    sent_at :
        (p : Pairing l) (s : Step) (timeout : Option ℕ) (log : Log)
        (o : Option (Result Error Text × Log))
        → IsReady p s
        → 5 ≤ p.phase + suc fuel
        → send_step l h addr p s timeout log ≡ o
        → Sends p s o
        → Closes (pair_loop l (suc fuel) h addr p s timeout log)
    unfolding pair_loop
    sent_at p s timeout log none ready enough es sends = absurd sends
    sent_at p s timeout log (some (err e, log')) ready enough es sends =
        rw (es, pair_loop) (give_up-Closes h addr e log')
    sent_at p s timeout log (some (ok body, log')) ready enough es sends =
        reply_at p s timeout log log' body _ ready enough es refl
          (next-Advances l p body ready.sized) (next-rand l p body)
          (next-HasCert p body ready.has_cert) (next-cert p body) sends

  -- Enough fuel: a round for every phase that is left.
  pair_loop-Closes : (fuel : ℕ) (h : GsHttp l) (addr : HostAddr) → Looping fuel h addr
  pair_loop-Closes zero h addr p s timeout log ready enough = absurd (omega (arith, ready.in_order))
  pair_loop-Closes (suc fuel) h addr p s timeout log ready enough =
      sent_at fuel h addr (pair_loop-Closes fuel h addr) p s timeout log _ ready enough refl
        (send_step-Sends h addr p s timeout log ready)

  start-IsReady :
      (rng : Rng) (id : Identity l) (pin : Text) (otp : Option OtpAuth)
      → IsReady (new_pairing l rng id pin otp) (start l (new_pairing l rng id pin otp))
  unfolding new_pairing with_random start
  start-IsReady rng id pin otp = record {
    sized = rng.fill_bytes_length 1 16;
    secure = refl;
    in_order = omega arith;
    has_cert = λ t. absurd (omega arith);
  }

  -- Of a host that reports version 7 or later: with fuel for 5 rounds, the pairing either ends with a
  -- certificate, its last request having been sent over HTTPS with this certificate pinned, or ends
  -- with an error, its last request having been one to unpair.
  pub pair_host-Closes :
      (fuel : ℕ) (h : GsHttp l) (rng : Rng) (addr : HostAddr) (pin : Text) (otp : Option OtpAuth)
      (timeout : Option ℕ) (log : Log) (i : ServerInfo) (log' : Log)
      → 5 ≤ fuel
      → server_info_http l h addr log ≡ (ok i, log')
      → 7 ≤ major_version i
      → Closes (pair_host l fuel h rng addr pin otp timeout log)
  unfolding pair_host
  pair_host-Closes fuel h rng addr pin otp timeout log i log' enough ei hv =
      let new : ltb (major_version i) 7 ≡ false = ground arith in
      rw (ei, pair_host, new)
        (rw ei (
          pair_loop-Closes fuel h addr _ _ timeout log' (start-IsReady rng h.identity pin otp)
            (omega arith)))
