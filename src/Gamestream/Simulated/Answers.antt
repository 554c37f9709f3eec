-- ===== src/Gamestream/Simulated/Answers.antt =====
-- The answers of crates/ra-gamestream/src/testing.rs to the queries of a client with the right PIN.
use remote_access.Base.{
  ◌≡◌, refl, subst, true, false, leb, some, List, [], ◌∷◌, ◌++◌, append-nil, Text, Bytes, lit,
  bytes, from_utf8-bytes, bytes-IsByte, All, All-append, IsByte, text_eq, text_eq_refl, length,
  length-append, take, ok, arith,
}
use remote_access.Gamestream.External.{Libraries, root_xml}
use remote_access.Gamestream.Blocks.{
  sha256, derive_aes_key, aes_ecb_encrypt, aes_ecb_decrypt, cert_signature, sign_sha256,
  verify_sha256,
}
use remote_access.Gamestream.Ciphers.{take_whole, drop_whole}
use remote_access.Gamestream.Pairing.{Pairing, Step, start, salt_hex, otpauth}
use remote_access.Gamestream.Simulated.{
  FakeHost, param, is_param, pin_of, handle, handle_cert, handle_challenge, handle_response,
  handle_secret,
}
use remote_access.Gamestream.Simulated.Queries.{CertParams, start_params}
use remote_access.Gamestream.Simulated.Bodies.{IsBlock, IsCertificate, carrying, hashed, hash_size}

module _ (l : Libraries) where
  -- The host once it has this client's certificate
  abbrev pub joined_host : FakeHost l → Pairing l → FakeHost l
  joined_host h p = record h {
    client_cert_pem = some p.identity.cert_pem;
    aes_key = some (derive_aes_key l p.salt p.pin);
  }

  module _ (h : FakeHost l) (p : Pairing l) (client_sig : Bytes) (salted : IsBlock p.salt)
      (client : IsCertificate l p.identity.cert_pem p.identity.key client_sig)
      (agree : pin_of l h (salt_hex l p) (otpauth l p) ≡ ok p.pin) where
    take_salt : take 16 p.salt ≡ p.salt
    take_salt =
        subst (λ b. take 16 b ≡ p.salt) (append-nil p.salt) (take_whole 16 p.salt [] salted.0)

    asked :
        (args : Text)
        → param args (lit "phrase") ≡ some (lit "getservercert")
        → is_param args (lit "phrase") (lit "getservercert") ≡ true
    unfolding is_param text_eq
    asked args e = rw (e, is_param) refl

    answer_cert :
        (args : Text)
        → CertParams
            (salt_hex l p)
            (l.crypto.hex_encode (bytes p.identity.cert_pem))
            args
            (otpauth l p)
        → handle_cert l h args
          ≡ ok (carrying l (lit "plaincert") (bytes h.cert_pem), joined_host h p)
    unfolding handle_cert
    answer_cert args q =
        rw
          (
            q.has_salt,
            q.has_cert,
            q.has_otp,
            l.crypto.hex_decode-encode p.salt salted.1,
            l.crypto.hex_decode-encode (bytes p.identity.cert_pem)
                (bytes-IsByte p.identity.cert_pem client.written),
            salted.0,
            from_utf8-bytes p.identity.cert_pem client.written,
            agree,
            take_salt,
          )
          refl

    handle_first :
        (s : Step)
        → s.https ≡ false
        → CertParams
            (salt_hex l p)
            (l.crypto.hex_encode (bytes p.identity.cert_pem))
            s.args
            (otpauth l p)
        → handle l h s ≡ ok (carrying l (lit "plaincert") (bytes h.cert_pem), joined_host h p)
    unfolding handle
    handle_first s http q = rw (http, asked s.args q.asks) (answer_cert s.args q)

    start_http : (start l p).https ≡ false
    unfolding start
    start_http = refl

    pub handle-start :
        handle l h (start l p)
        ≡ ok (carrying l (lit "plaincert") (bytes h.cert_pem), joined_host h p)
    handle-start = handle_first (start l p) start_http (start_params l p salted.1 client.written)

  module _ (h : FakeHost l) (aes b : Bytes) (y : All IsByte b) (ready : h.aes_key ≡ some aes) where
    pub answer_challenge :
        (challenge sig enc : Bytes)
        → aes_ecb_decrypt l aes b ≡ ok challenge
        → cert_signature l h.cert_pem ≡ ok sig
        → aes_ecb_encrypt l aes
            (sha256 l ((challenge ++ (sig ++ h.server_secret)) ∷ []) ++ h.server_challenge)
          ≡ ok enc
        → handle_challenge l h (l.crypto.hex_encode b)
          ≡ ok (carrying l (lit "challengeresponse") enc, h)
    unfolding handle_challenge
    answer_challenge challenge sig enc d s e =
        rw (ready, l.crypto.hex_decode-encode b y, d, s, e) refl

    pub answer_response :
        (hash : Bytes)
        → aes_ecb_decrypt l aes b ≡ ok hash
        → handle_response l h (l.crypto.hex_encode b)
          ≡ ok (
            carrying l (lit "pairingsecret") (h.server_secret ++ l.sign h.key h.server_secret),
            record h { client_hash = hash },
          )
    unfolding handle_response sign_sha256
    answer_response hash d = rw (ready, l.crypto.hex_decode-encode b y, d) refl

  module _ (h : FakeHost l) (pem : Text) (key : l.PrivateKey) (sig secret : Bytes)
      (client : IsCertificate l pem key sig) (block : IsBlock secret)
      (holds : h.client_cert_pem ≡ some pem)
      (answered : h.client_hash ≡ sha256 l ((h.server_challenge ++ (sig ++ secret)) ∷ [])) where
    pub take_hash : (parts : List Bytes) → take 32 (sha256 l parts) ≡ sha256 l parts
    take_hash parts =
        subst (λ b. take 32 b ≡ sha256 l parts) (append-nil (sha256 l parts))
          (take_whole 32 (sha256 l parts) [] (hash_size l parts))

    pub answer_secret :
        handle_secret l h (l.crypto.hex_encode (secret ++ l.sign key secret))
        ≡ ok (root_xml ((lit "paired", lit "1") ∷ []), h)
    unfolding handle_secret verify_sha256
    answer_secret =
        let y : All IsByte (secret ++ l.sign key secret) =
          All-append IsByte secret (l.sign key secret) block.1 (l.sign_bytes key secret) in
        let long : leb 16 (length (secret ++ l.sign key secret)) ≡ true =
          ground (arith, length-append secret (l.sign key secret)) in
        let m = (h.server_challenge ++ (sig ++ secret)) ∷ [] in
        rw
          (
            l.crypto.hex_decode-encode (secret ++ l.sign key secret) y,
            long,
            holds,
            client.signed,
            client.keyed,
            answered,
            hash_size l m,
            take_whole 16 secret (l.sign key secret) block.0,
            drop_whole 16 secret (l.sign key secret) block.0,
            hashed l h.server_challenge sig secret,
            take_hash m,
            text_eq_refl (sha256 l m),
            l.verify-sign key secret,
          )
          refl
