-- ===== src/Gamestream/Simulated.antt =====
-- crates/ra-gamestream/src/testing.rs: the host's side of the pairing handshake. A panic of a failed
-- `unwrap` or `expect` is the error `panicked`, and leaves no state.
use remote_access.Base.{
  ℕ, zero, suc, Bool, true, false, ◌&&◌, ltb, leb, Option, none, some, List, [], ◌∷◌, ◌++◌, Text,
  Bytes, lit, bytes, from_utf8, split, strip_prefix, text_eq, take, drop, length, if◌then◌else◌,
  Result, ok, err, ◌>>=◌, ◌>>◌, ok_or, require, map_err,
}
use remote_access.Gamestream.External.{Libraries}
use remote_access.Gamestream.Errors.{Error, panicked}
use remote_access.Gamestream.Blocks.{
  sha256, derive_aes_key, aes_ecb_encrypt, aes_ecb_decrypt, cert_signature, cert_public_key,
  sign_sha256, verify_sha256,
}
use remote_access.Gamestream.Pairing.{Pairing, Step, start, next}
pub mod Queries
pub mod Bodies
pub mod Answers
pub mod Readings
pub mod Completes

pub record FakeHost (l : Libraries) : Type 0 where
  pub key : l.PrivateKey
  pub cert_pem : Text
  pub pin : Text
  pub aes_key : Option Bytes
  pub server_secret : Bytes
  pub server_challenge : Bytes
  pub client_cert_pem : Option Text
  pub client_hash : Bytes
  pub otp : Option (Text × Text)

-- `args.split('&').find_map(|kv| kv.strip_prefix(…))`
abbrev pub find_stripped : Text → List Text → Option Text
find_stripped p [] = none
find_stripped p (kv ∷ kvs) = elim (strip_prefix kv p) [
  | some v ↦ some v
  | none ↦ find_stripped p kvs
]

unfoldable pub param : Text → Text → Option Text
param args key = find_stripped (key ++ lit "=") (split b'&' args)

unfoldable pub is_param : Text → Text → Text → Bool
unfolding param
is_param args key v = elim (param args key) [ none ↦ false | some w ↦ text_eq w v ]

abbrev pub sixteen_threes : Bytes
sixteen_threes = 3 ∷ 3 ∷ 3 ∷ 3 ∷ 3 ∷ 3 ∷ 3 ∷ 3 ∷ 3 ∷ 3 ∷ 3 ∷ 3 ∷ 3 ∷ 3 ∷ 3 ∷ 3 ∷ []

abbrev pub sixteen_fours : Bytes
sixteen_fours = 4 ∷ 4 ∷ 4 ∷ 4 ∷ 4 ∷ 4 ∷ 4 ∷ 4 ∷ 4 ∷ 4 ∷ 4 ∷ 4 ∷ 4 ∷ 4 ∷ 4 ∷ 4 ∷ []

abbrev pub paired_xml : Text → Text
paired_xml rest = lit "<root status_code=\"200\"><paired>1</paired>" ++ rest

module _ (l : Libraries) where
  -- The key and the certificate that is made for it come from other crates.
  unfoldable pub new_fake_host : l.PrivateKey → Text → Text → FakeHost l
  new_fake_host key cert_pem pin = record {
    key = key;
    cert_pem = cert_pem;
    pin = pin;
    aes_key = none;
    server_secret = sixteen_threes;
    server_challenge = sixteen_fours;
    client_cert_pem = none;
    client_hash = [];
    otp = none;
  }

  -- A reply and the host after it
  abbrev pub Handled : Type 0
  Handled = Result Error (Text × FakeHost l)

  abbrev pub unwrapped : {A : Type 0} → Result Error A → Result Error A
  unwrapped r = map_err (λ e. panicked) r

  abbrev pub unhex : Text → Result Error Bytes
  unhex s = ok_or (l.crypto.hex_decode s) panicked

  -- The PIN that a right `otpauth` stands for; a wrong one gives a PIN of no use.
  unfoldable pub pin_of : FakeHost l → Text → Option Text → Result Error Text
  pin_of h salt_hex none = ok h.pin
  pin_of h salt_hex (some given) = do
    otp ← ok_or h.otp panicked
    let expect = l.hex_encode_upper (sha256 l (bytes otp.0 ∷ bytes salt_hex ∷ bytes otp.1 ∷ []))
    ok (if text_eq expect given then otp.0 else lit "9999")

  unfoldable pub handle_cert : FakeHost l → Text → Handled
  unfolding param pin_of
  handle_cert h a = do
    salt_hex ← ok_or (param a (lit "salt")) panicked
    salt ← unhex salt_hex
    require (leb 16 (length salt)) panicked
    cert_hex ← ok_or (param a (lit "clientcert")) panicked
    raw ← unhex cert_hex
    client_pem ← ok_or (from_utf8 raw) panicked
    pin ← pin_of h salt_hex (param a (lit "otpauth"))
    ok (
      paired_xml (
          lit "<plaincert>"
          ++ (l.crypto.hex_encode (bytes h.cert_pem) ++ lit "</plaincert></root>")),
      record h {
        client_cert_pem = some client_pem;
        aes_key = some (derive_aes_key l (take 16 salt) pin);
      },
    )

  unfoldable pub handle_challenge : FakeHost l → Text → Handled
  handle_challenge h cc = do
    key ← ok_or h.aes_key panicked
    raw ← unhex cc
    dec ← unwrapped (aes_ecb_decrypt l key raw)
    sig ← unwrapped (cert_signature l h.cert_pem)
    let out = sha256 l ((dec ++ (sig ++ h.server_secret)) ∷ []) ++ h.server_challenge
    enc ← unwrapped (aes_ecb_encrypt l key out)
    ok (
      paired_xml (
          lit "<challengeresponse>"
          ++ (l.crypto.hex_encode enc ++ lit "</challengeresponse></root>")),
      h,
    )

  unfoldable pub handle_response : FakeHost l → Text → Handled
  handle_response h sr = do
    key ← ok_or h.aes_key panicked
    raw ← unhex sr
    hash ← unwrapped (aes_ecb_decrypt l key raw)
    ok (
      paired_xml (
          lit "<pairingsecret>"
          ++ (l.crypto.hex_encode (h.server_secret ++ sign_sha256 l h.key h.server_secret)
              ++ lit "</pairingsecret></root>")),
      record h { client_hash = hash },
    )

  unfoldable pub handle_secret : FakeHost l → Text → Handled
  handle_secret h cps = do
    raw ← unhex cps
    require (leb 16 (length raw)) panicked
    client_pem ← ok_or h.client_cert_pem panicked
    client_sig ← unwrapped (cert_signature l client_pem)
    require (leb 32 (length h.client_hash)) panicked
    pk ← unwrapped (cert_public_key l client_pem)
    let expect = sha256 l (h.server_challenge ∷ client_sig ∷ take 16 raw ∷ [])
    let hash_ok = text_eq expect (take 32 h.client_hash)
    let sig_ok = verify_sha256 l pk (take 16 raw) (drop 16 raw)
    ok (
      lit "<root status_code=\"200\"><paired>"
          ++ ((if hash_ok && sig_ok then lit "1" else lit "0") ++ lit "</paired></root>"),
      h,
    )

  -- The steps after the first one, by the parameter that they carry
  unfoldable pub handle_later : FakeHost l → Text → Handled
  unfolding handle_challenge handle_response handle_secret
  handle_later h a = elim (param a (lit "clientchallenge")) [
    | some cc ↦ handle_challenge h cc
    | none ↦ elim (param a (lit "serverchallengeresp")) [
      | some sr ↦ handle_response h sr
      | none ↦ elim (param a (lit "clientpairingsecret")) [
        | some cps ↦ handle_secret h cps
        | none ↦ err panicked
      ]
    ]
  ]

  unfoldable pub handle : FakeHost l → Step → Handled
  unfolding is_param handle_cert handle_later
  handle h step =
      if step.https
      then ok (paired_xml (lit "</root>"), h)
      else if is_param step.args (lit "phrase") (lit "getservercert")
      then handle_cert h step.args
      else handle_later h step.args

  unfoldable pub handle_query : FakeHost l → Text → Bool → Handled
  unfolding handle
  handle_query h query https = handle h (record { args = query; https = https })

  -- The client's handshake with this host, as the tests of pairing.rs run it; on fuel
  unfoldable pub run_with : ℕ → FakeHost l → Pairing l → Step → Result Error (Pairing l)
  unfolding handle
  run_with zero h p step = err panicked
  run_with (suc fuel) h p step = elim (handle h step) [
    | err e ↦ err e
    | ok reply ↦
        let n = next l p reply.0 in
        elim n.0 [
          | err e ↦ err e
          | ok o ↦ elim o [ none ↦ ok n.1 | some step' ↦ run_with fuel reply.1 n.1 step' ]
        ]
  ]
