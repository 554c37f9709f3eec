-- ===== src/Gamestream/Simulated/Completes.antt =====
-- crates/ra-gamestream/src/testing.rs: the whole handshake of the client of
-- crates/ra-gamestream/src/pairing.rs with the simulated host.
use remote_access.Base.{
  ℕ, suc, ◌-◌, ◌≤◌, ◌≡◌, refl, sym, subst, ◌∙◌, true, Option, none, some, [], ◌∷◌, ◌++◌, Text,
  Bytes, lit, bytes, from_utf8-bytes, bytes-IsByte, All, All-append, IsByte, IsHex, text_eq, length,
  length-append, length-take, Result, ok, err, arith,
}
use remote_access.Gamestream.External.{Libraries, root_xml}
use remote_access.Gamestream.Errors.{Error}
use remote_access.Gamestream.Blocks.{sha256, derive_aes_key}
use remote_access.Gamestream.Ciphers.{Encrypted, encrypted}
use remote_access.Gamestream.Transport.{Identity}
use remote_access.Gamestream.Pairing.{
  Pairing, with_random, is_complete, OtpAuth, Step, start, next, last_step, plain_step, salt_hex,
  otpauth,
}
use remote_access.Gamestream.Simulated.{FakeHost, pin_of, handle, run_with}
use remote_access.Gamestream.Simulated.Queries.{
  handle_challenge_step, handle_response_step, handle_secret_step,
}
use remote_access.Gamestream.Simulated.Bodies.{
  paired-ArePlain, reads, IsBlock, IsCertificate, carrying, hash_size, hash_bytes, Reads-bytes,
}
use remote_access.Gamestream.Simulated.Answers.{
  joined_host, handle-start, answer_challenge, answer_response, answer_secret,
}
use remote_access.Gamestream.Simulated.Readings.{
  next_read, paired_root, server_cert_read, challenge_answer_read, pairing_secret_read, phase0_read,
  phase1_read, phase2_read, phase3_read, phase4_read,
}

module _ (l : Libraries) where
  run_on :
      (k : ℕ) (h h' : FakeHost l) (p p' : Pairing l) (s s' : Step) (body : Text)
      → handle l h s ≡ ok (body, h')
      → next l p body ≡ (ok (some s'), p')
      → run_with l (suc k) h p s ≡ run_with l k h' p' s'
  unfolding run_with
  run_on k h h' p p' s s' body eh en = rw (eh, run_with, en, en) refl

  run_end :
      (k : ℕ) (h h' : FakeHost l) (p p' : Pairing l) (s : Step) (body : Text)
      → handle l h s ≡ ok (body, h')
      → next l p body ≡ (ok none, p')
      → run_with l (suc k) h p s ≡ ok p'
  unfolding run_with
  run_end k h h' p p' s body eh en = rw (eh, run_with, en, en) refl

  key_size : (salt : Bytes) (pin : Text) → length (derive_aes_key l salt pin) ≡ 16
  unfolding derive_aes_key
  key_size salt pin =
      let parts = salt ∷ bytes pin ∷ [] in
      omega (arith, length-take 16 (sha256 l parts), hash_size l parts)

  module _ (h : FakeHost l) (p : Pairing l) (host_sig client_sig : Bytes)
      (host_cert : IsCertificate l h.cert_pem h.key host_sig)
      (client_cert : IsCertificate l p.identity.cert_pem p.identity.key client_sig)
      (salt : IsBlock p.salt) (challenge : IsBlock p.rand_challenge)
      (secret : IsBlock p.client_secret) (host_secret : IsBlock h.server_secret)
      (host_challenge : IsBlock h.server_challenge)
      (agree : pin_of l h (salt_hex l p) (otpauth l p) ≡ ok p.pin) (begins : p.phase ≡ 0)
      (keyed : p.aes_key ≡ derive_aes_key l p.salt p.pin) where
    abbrev aes : Bytes
    aes = derive_aes_key l p.salt p.pin

    abbrev h1 : FakeHost l
    h1 = joined_host l h p

    abbrev p1 : Pairing l
    p1 = record p { server_cert_pem = some h.cert_pem; phase = 1 }

    e1 : Encrypted l aes p.rand_challenge 0
    e1 = encrypted l aes p.rand_challenge 0 (key_size p.salt p.pin) challenge.0 challenge.1

    abbrev hash : Bytes
    hash = sha256 l ((p.rand_challenge ++ (host_sig ++ h.server_secret)) ∷ [])

    abbrev answer : Bytes
    answer = hash ++ h.server_challenge

    answer_size : length answer ≡ 48
    answer_size = omega (
      arith,
      length-append hash h.server_challenge,
      hash_size l ((p.rand_challenge ++ (host_sig ++ h.server_secret)) ∷ []),
      host_challenge.0,
    )

    e2 : Encrypted l aes answer 2
    e2 = encrypted l aes answer 2 (key_size p.salt p.pin) answer_size (
        All-append IsByte hash h.server_challenge
          (hash_bytes l ((p.rand_challenge ++ (host_sig ++ h.server_secret)) ∷ []))
          host_challenge.1)

    abbrev p2 : Pairing l
    p2 = record p1 { server_response = hash; phase = 2 }

    abbrev hash' : Bytes
    hash' = sha256 l ((h.server_challenge ++ (client_sig ++ p.client_secret)) ∷ [])

    e3 : Encrypted l aes hash' 1
    e3 =
        encrypted l aes hash' 1 (key_size p.salt p.pin)
          (hash_size l ((h.server_challenge ++ (client_sig ++ p.client_secret)) ∷ []))
          (hash_bytes l ((h.server_challenge ++ (client_sig ++ p.client_secret)) ∷ []))

    abbrev h2 : FakeHost l
    h2 = record h1 { client_hash = hash' }

    abbrev body0 : Text
    body0 = carrying l (lit "plaincert") (bytes h.cert_pem)

    abbrev s1 : Step
    s1 = plain_step (lit "clientchallenge=" ++ l.crypto.hex_encode e1.out)

    went0 : next l p body0 ≡ (ok (some s1), p1)
    unfolding text_eq
    went0 =
        let r =
          Reads-bytes l (lit "plaincert") (bytes h.cert_pem) refl (omega arith)
            (bytes-IsByte h.cert_pem host_cert.written) host_cert.nonempty in
        let c =
          server_cert_read l p r.root (bytes h.cert_pem) host_cert.nonempty
            (bytes-IsByte h.cert_pem host_cert.written) (r.contents (lit "paired")) h.cert_pem
            (r.contents (lit "plaincert")) (from_utf8-bytes h.cert_pem host_cert.written) in
        next_read l p body0 _ r 0 begins
        ∙ phase0_read l p r.root h.cert_pem e1.out c (rw keyed e1.encrypts)

    abbrev body1 : Text
    body1 = carrying l (lit "challengeresponse") e2.out

    abbrev s2 : Step
    s2 = plain_step (lit "serverchallengeresp=" ++ l.crypto.hex_encode e3.out)

    hashed_secret : All IsByte answer
    hashed_secret =
        All-append IsByte hash h.server_challenge
          (hash_bytes l ((p.rand_challenge ++ (host_sig ++ h.server_secret)) ∷ [])) host_challenge.1

    went1 : next l p1 body1 ≡ (ok (some s2), p2)
    unfolding text_eq
    went1 =
        let r =
          Reads-bytes l (lit "challengeresponse") e2.out refl (omega arith) e2.are_bytes
            (omega (arith, e2.size)) in
        let c =
          challenge_answer_read l p1 r.root e2.out (omega (arith, e2.size)) e2.are_bytes
            (r.contents (lit "paired")) answer (r.contents (lit "challengeresponse"))
            (rw keyed e2.decrypts) answer_size in
        next_read l p1 body1 _ r 1 refl
        ∙ phase1_read l p1 r.root hash h.server_challenge e3.out client_sig c
            (hash_size l ((p.rand_challenge ++ (host_sig ++ h.server_secret)) ∷ []))
            host_challenge.0 client_cert.signed (rw keyed e3.encrypts)

    abbrev told : Bytes
    told = h.server_secret ++ l.sign h.key h.server_secret

    abbrev body2 : Text
    body2 = carrying l (lit "pairingsecret") told

    abbrev s3 : Step
    s3 = plain_step (
        lit "clientpairingsecret="
        ++ l.crypto.hex_encode (p.client_secret ++ l.sign p.identity.key p.client_secret))

    went2 : next l p2 body2 ≡ (ok (some s3), record p2 { phase = 3 })
    unfolding text_eq
    went2 =
        let r =
          Reads-bytes l (lit "pairingsecret") told refl (omega arith)
            (All-append IsByte h.server_secret (l.sign h.key h.server_secret) host_secret.1
              (l.sign_bytes h.key h.server_secret))
            (omega (
              arith,
              length-append h.server_secret (l.sign h.key h.server_secret),
              host_secret.0,
            )) in
        next_read l p2 body2 _ r 2 refl
        ∙ phase2_read l p2 r.root s3 (
            pairing_secret_read l p2 h.cert_pem h.key host_sig h.server_secret host_cert host_secret
              refl refl r.root (r.contents (lit "paired")) (r.contents (lit "pairingsecret")))

    abbrev body3 : Text
    body3 = root_xml ((lit "paired", lit "1") ∷ [])

    went3 :
        next l (record p2 { phase = 3 }) body3 ≡ (ok (some (last_step l)), record p2 { phase = 4 })
    unfolding text_eq
    went3 =
        let r = reads l ((lit "paired", lit "1") ∷ []) paired-ArePlain in
        next_read l (record p2 { phase = 3 }) body3 _ r 3 refl
        ∙ phase3_read l (record p2 { phase = 3 }) r.root
            (paired_root l r.root (r.contents (lit "paired")))

    went4 : next l (record p2 { phase = 4 }) body3 ≡ (ok none, record p2 { phase = 5 })
    unfolding text_eq
    went4 =
        let r = reads l ((lit "paired", lit "1") ∷ []) paired-ArePlain in
        next_read l (record p2 { phase = 4 }) body3 _ r 4 refl
        ∙ phase4_read l (record p2 { phase = 4 }) r.root
            (paired_root l r.root (r.contents (lit "paired")))

    hex_encode-IsHex : (b : Bytes) → All IsByte b → IsHex (l.crypto.hex_encode b)
    hex_encode-IsHex b y = l.crypto.hex_encode_digits b y

    handled1 : handle l h1 s1 ≡ ok (body1, h1)
    handled1 =
        handle_challenge_step l h1 (l.crypto.hex_encode e1.out)
          (hex_encode-IsHex e1.out e1.are_bytes)
        ∙ answer_challenge l h1 aes e1.out e1.are_bytes refl p.rand_challenge host_sig e2.out
            e1.decrypts host_cert.signed e2.encrypts

    handled2 : handle l h1 s2 ≡ ok (body2, h2)
    handled2 =
        handle_response_step l h1 (l.crypto.hex_encode e3.out)
          (hex_encode-IsHex e3.out e3.are_bytes)
        ∙ answer_response l h1 aes e3.out e3.are_bytes refl hash' e3.decrypts

    handled3 : handle l h2 s3 ≡ ok (body3, h2)
    handled3 =
        handle_secret_step l h2
          (l.crypto.hex_encode (p.client_secret ++ l.sign p.identity.key p.client_secret))
          (hex_encode-IsHex (p.client_secret ++ l.sign p.identity.key p.client_secret) (
            All-append IsByte p.client_secret (l.sign p.identity.key p.client_secret) secret.1
              (l.sign_bytes p.identity.key p.client_secret)))
        ∙ answer_secret l h2 p.identity.cert_pem p.identity.key client_sig p.client_secret
            client_cert secret refl refl

    handled4 : handle l h2 (last_step l) ≡ ok (body3, h2)
    unfolding handle
    handled4 = refl

    ran :
        (k : ℕ)
        → run_with l (suc (suc (suc (suc (suc k))))) h p (start l p) ≡ ok (record p2 { phase = 5 })
    ran k =
        run_on (suc (suc (suc (suc k)))) h h1 p p1 (start l p) s1 body0
          (handle-start l h p client_sig salt client_cert agree) went0
        ∙ run_on (suc (suc (suc k))) h1 h1 p1 p2 s1 s2 body1 handled1 went1
        ∙ run_on (suc (suc k)) h1 h2 p2 (record p2 { phase = 3 }) s2 s3 body2 handled2 went2
        ∙ run_on (suc k) h2 h2 (record p2 { phase = 3 }) (record p2 { phase = 4 }) s3 (last_step l)
            body3 handled3 went3
        ∙ run_end k h2 h2 (record p2 { phase = 4 }) (record p2 { phase = 5 }) (last_step l) body3
            handled4 went4

    pub ran_all : (n : ℕ) → 5 ≤ n → run_with l n h p (start l p) ≡ ok (record p2 { phase = 5 })
    ran_all n enough =
        let e : suc (suc (suc (suc (suc (n - 5))))) ≡ n = omega arith in
        subst (λ f. run_with l f h p (start l p) ≡ ok (record p2 { phase = 5 })) e (ran (n - 5))

  -- How the handshake of a client with a host should end
  abbrev pub Pairs : FakeHost l → Result Error (Pairing l) → Type 0
  Pairs h (ok q) = (is_complete l q ≡ true) × (q.server_cert_pem ≡ some h.cert_pem)
  Pairs h (err e) = ⊥

  -- The handshake of a client, whose random bytes are blocks of 16 and whose PIN is the one that the
  -- host takes, with the simulated host ends in at most five steps: the client is complete and holds
  -- the certificate of the host. Both certificates are made for the keys of their owners.
  pub run_with-Pairs :
      (h : FakeHost l) (identity : Identity l) (pin : Text) (otp : Option OtpAuth)
      (salt challenge secret host_sig client_sig : Bytes) (fuel : ℕ)
      → 5 ≤ fuel
      → IsCertificate l h.cert_pem h.key host_sig
      → IsCertificate l identity.cert_pem identity.key client_sig
      → IsBlock salt
      → IsBlock challenge
      → IsBlock secret
      → IsBlock h.server_secret
      → IsBlock h.server_challenge
      → pin_of l h
          (l.crypto.hex_encode salt)
          (otpauth l (with_random l identity pin otp salt challenge secret))
        ≡ ok pin
      → Pairs h (
          run_with l fuel h
            (with_random l identity pin otp salt challenge secret)
            (start l (with_random l identity pin otp salt challenge secret)))
  unfolding with_random is_complete
  run_with-Pairs h identity pin otp salt challenge secret host_sig client_sig fuel enough hc cc s c
        t hs hch agree =
      let p = with_random l identity pin otp salt challenge secret in
      subst (Pairs h)
        (sym (ran_all h p host_sig client_sig hc cc s c t hs hch agree refl refl fuel enough))
        (refl, refl)
