-- ===== src/Gamestream/Simulated/Readings.antt =====
-- What crates/ra-gamestream/src/pairing.rs makes of the answers of crates/ra-gamestream/src/testing.rs.
use remote_access.Base.{
  ℕ, ◌≤◌, ◌≡◌, refl, subst, ◌∙◌, ap, true, false, ltb, none, some, List, [], ◌∷◌, ◌++◌,
  append_assoc, append-nil, Text, Bytes, lit, from_utf8, All, All-append, IsByte, trim-hex, trim,
  is_whitespace, text_eq, text_eq_refl, is_empty, length, length-append, take, drop, ok, arith,
}
use remote_access.Gamestream.External.{Libraries}
use remote_access.Gamestream.Replies.{Root, child, required}
use remote_access.Gamestream.Blocks.{
  sha256, aes_ecb_encrypt, aes_ecb_decrypt, cert_signature, sign_sha256, verify_sha256,
}
use remote_access.Gamestream.Ciphers.{take_whole, drop_whole}
use remote_access.Gamestream.Pairing.{
  Pairing, Step, is_paired, by_phase, challenge_answer, challenge_resp, check_secret,
  pairing_secret, next, next_phase0, next_phase1, next_phase2, next_phase3, next_phase4, last_step,
  server_cert, client_challenge, plain_step,
}
use remote_access.Gamestream.Simulated.Bodies.{Reads, IsBlock, IsCertificate, hashed, hex_size}

module _ (l : Libraries) where
  -- A reply that is read is judged by the phase.
  pub next_read :
      (p : Pairing l) (body : Text) (es : List (Text × Text)) (r : Reads l body es) (n : ℕ)
      → p.phase ≡ n
      → next l p body ≡ by_phase l n p r.root
  unfolding next
  next_read p body es r n z = rw (r.parses, next, z) refl

  pub paired_root :
      (root : Root l) → child l root (lit "paired") ≡ some (lit "1") → is_paired l root ≡ true
  unfolding trim is_whitespace text_eq
  paired_root root e = rw (e, is_paired) refl

  module _ (p : Pairing l) (root : Root l) (b : Bytes) (some_bytes : 1 ≤ length b)
      (are_bytes : All IsByte b) (paired : child l root (lit "paired") ≡ some (lit "1")) where
    trimmed : trim (l.crypto.hex_encode b) ≡ l.crypto.hex_encode b
    trimmed = trim-hex (l.crypto.hex_encode b) (l.crypto.hex_encode_digits b are_bytes)

    full : is_empty (l.crypto.hex_encode b) ≡ false
    full = let n = hex_size l b some_bytes in ground arith

    pub server_cert_read :
        (pem : Text)
        → child l root (lit "plaincert") ≡ some (l.crypto.hex_encode b)
        → from_utf8 b ≡ some pem
        → server_cert l root ≡ ok pem
    unfolding server_cert
    server_cert_read pem e u =
        rw (paired_root root paired, e, trimmed, full, l.crypto.hex_decode-encode b are_bytes, u)
          refl

    pub challenge_answer_read :
        (dec : Bytes)
        → child l root (lit "challengeresponse") ≡ some (l.crypto.hex_encode b)
        → aes_ecb_decrypt l p.aes_key b ≡ ok dec
        → length dec ≡ 48
        → challenge_answer l p root ≡ ok dec
    unfolding challenge_answer required
    challenge_answer_read dec e d n =
        rw (paired_root root paired, e, trimmed, l.crypto.hex_decode-encode b are_bytes, d, n) refl

  module _ (p : Pairing l) (pem : Text) (key : l.PrivateKey) (sig secret : Bytes)
      (server : IsCertificate l pem key sig) (block : IsBlock secret)
      (holds : p.server_cert_pem ≡ some pem)
      (answered : p.server_response ≡ sha256 l ((p.rand_challenge ++ (sig ++ secret)) ∷ [])) where
    -- The host's secret and the signature on it
    abbrev told : Bytes
    told = secret ++ l.sign key secret

    secret_checked : check_secret l p pem told ≡ ok tt
    unfolding check_secret verify_sha256
    secret_checked =
        rw
          (
            take_whole 16 secret (l.sign key secret) block.0,
            drop_whole 16 secret (l.sign key secret) block.0,
            server.keyed,
            server.signed,
            l.verify-sign key secret,
            hashed l p.rand_challenge sig secret,
            answered,
            text_eq_refl (sha256 l ((p.rand_challenge ++ (sig ++ secret)) ∷ [])),
          )
          refl

    pub pairing_secret_read :
        (root : Root l)
        → child l root (lit "paired") ≡ some (lit "1")
        → child l root (lit "pairingsecret") ≡ some (l.crypto.hex_encode told)
        → pairing_secret l p root
          ≡ ok (
              plain_step (
                lit "clientpairingsecret="
                ++ l.crypto.hex_encode (p.client_secret ++ l.sign p.identity.key p.client_secret)))
    unfolding pairing_secret required sign_sha256
    pairing_secret_read root paired e =
        let y : All IsByte told =
          All-append IsByte secret (l.sign key secret) block.1 (l.sign_bytes key secret) in
        let n : 17 ≤ length told =
          omega (arith, length-append secret (l.sign key secret), l.sign_nonempty key secret) in
        let t : trim (l.crypto.hex_encode told) ≡ l.crypto.hex_encode told =
          trim-hex (l.crypto.hex_encode told) (l.crypto.hex_encode_digits told y) in
        let long : ltb 16 (length told) ≡ true = ground arith in
        rw
          (
            paired_root root paired,
            e,
            t,
            l.crypto.hex_decode-encode told y,
            long,
            holds,
            secret_checked,
          )
          refl

  module _ (p : Pairing l) (root : Root l) where
    pub phase0_read :
        (pem : Text) (enc : Bytes)
        → server_cert l root ≡ ok pem
        → aes_ecb_encrypt l p.aes_key p.rand_challenge ≡ ok enc
        → by_phase l 0 p root ≡ (
          ok (some (plain_step (lit "clientchallenge=" ++ l.crypto.hex_encode enc))),
          record p { server_cert_pem = some pem; phase = 1 },
        )
    unfolding next_phase0 client_challenge
    phase0_read pem enc c e = rw (c, next_phase0, e) refl

    phase1_parts :
        (dec hash challenge : Bytes) (step : Step)
        → challenge_answer l p root ≡ ok dec
        → take 32 dec ≡ hash
        → take 16 (drop 32 dec) ≡ challenge
        → challenge_resp l (record p { server_response = take 32 dec }) challenge ≡ ok step
        → by_phase l 1 p root ≡ (ok (some step), record p { server_response = hash; phase = 2 })
    unfolding next_phase1
    phase1_parts dec hash challenge step c th tc r = rw (c, next_phase1, tc, r, th) refl

    pub phase1_read :
        (hash challenge enc sig : Bytes)
        → challenge_answer l p root ≡ ok (hash ++ challenge)
        → length hash ≡ 32
        → length challenge ≡ 16
        → cert_signature l p.identity.cert_pem ≡ ok sig
        → aes_ecb_encrypt l p.aes_key (sha256 l ((challenge ++ (sig ++ p.client_secret)) ∷ []))
          ≡ ok enc
        → by_phase l 1 p root ≡ (
          ok (some (plain_step (lit "serverchallengeresp=" ++ l.crypto.hex_encode enc))),
          record p { server_response = hash; phase = 2 },
        )
    unfolding challenge_resp
    phase1_read hash challenge enc sig c nh nc s e =
        let dh : drop 32 (hash ++ challenge) ≡ challenge = drop_whole 32 hash challenge nh in
        let tc : take 16 challenge ≡ challenge =
          subst (λ b. take 16 b ≡ challenge) (append-nil challenge)
            (take_whole 16 challenge [] nc) in
        phase1_parts (hash ++ challenge) hash challenge
          (plain_step (lit "serverchallengeresp=" ++ l.crypto.hex_encode enc)) c
          (take_whole 32 hash challenge nh) (ap (take 16) dh ∙ tc)
          (rw (s, append_assoc challenge sig p.client_secret, e) refl)

    pub phase2_read :
        (s : Step)
        → pairing_secret l p root ≡ ok s
        → by_phase l 2 p root ≡ (ok (some s), record p { phase = 3 })
    unfolding next_phase2
    phase2_read s e = rw (e, next_phase2) refl

    pub phase3_read :
        is_paired l root ≡ true
        → by_phase l 3 p root ≡ (ok (some (last_step l)), record p { phase = 4 })
    unfolding next_phase3
    phase3_read e = rw (e, next_phase3) refl

    pub phase4_read :
        is_paired l root ≡ true → by_phase l 4 p root ≡ (ok none, record p { phase = 5 })
    unfolding next_phase4
    phase4_read e = rw (e, next_phase4) refl
