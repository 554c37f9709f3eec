-- ===== src/Gamestream/Pairing.antt =====
-- crates/ra-gamestream/src/pairing.rs: the client's side of the pairing handshake.
use remote_access.Base.{
  ℕ, zero, suc, Bool, true, false, not, ◌==◌, leb, ltb, Option, none, some, List, [], ◌∷◌, ◌++◌,
  Text, Bytes, lit, bytes, from_utf8, trim, text_eq, is_empty, length, take, drop, decimal,
  unwrap_or, if◌then◌else◌, Result, ok, err, ◌>>=◌, ◌>>◌, ok_or, require,
}
use remote_access.Gamestream.External.{Libraries}
use remote_access.Gamestream.Errors.{
  Error, PairError, not_paired, already_in_progress, wrong_pin, bad_server_signature, malformed,
  hex, pair, panicked,
}
use remote_access.Gamestream.Replies.{Root, parse_root, child, required}
use remote_access.Gamestream.Blocks.{
  sha256, derive_aes_key, aes_ecb_encrypt, aes_ecb_decrypt, cert_signature, cert_public_key,
  sign_sha256, verify_sha256,
}
use remote_access.Gamestream.Transport.{Identity}
pub mod Phases
pub mod Authentic
pub mod Driver
pub mod Closing

pub record OtpAuth : Type 0 where
  pub pin : Text
  pub passphrase : Text

pub record Step : Type 0 where
  pub args : Text
  pub https : Bool

pub record Pairing (l : Libraries) : Type 0 where
  pub identity : Identity l
  pub pin : Text
  pub salt : Bytes
  pub aes_key : Bytes
  pub rand_challenge : Bytes
  pub client_secret : Bytes
  pub server_cert_pem : Option Text
  pub server_response : Bytes
  pub phase : ℕ
  pub otp : Option OtpAuth

-- `Err(e.into())`
abbrev pub refuse : PairError → Error
refuse e = pair e

abbrev pub plain_step : Text → Step
plain_step rest = record { args = lit "devicename=roth&updateState=1&" ++ rest; https = false }

module _ (l : Libraries) where
  unfoldable pub with_random :
      Identity l → Text → Option OtpAuth → Bytes → Bytes → Bytes → Pairing l
  with_random identity pin otp salt rand_challenge client_secret = record {
    identity = identity;
    pin = pin;
    salt = salt;
    aes_key = derive_aes_key l salt pin;
    rand_challenge = rand_challenge;
    client_secret = client_secret;
    server_cert_pem = none;
    server_response = [];
    phase = 0;
    otp = otp;
  }

  abbrev pub salt_hex : Pairing l → Text
  salt_hex p = l.crypto.hex_encode p.salt

  unfoldable pub otpauth : Pairing l → Option Text
  otpauth p = elim p.otp [
    | none ↦ none
    | some o ↦
        some (
          l.hex_encode_upper
            (sha256 l (bytes o.pin ∷ bytes (salt_hex p) ∷ bytes o.passphrase ∷ [])))
  ]

  abbrev pub otp_argument : Option Text → Text
  otp_argument none = lit ""
  otp_argument (some o) = lit "&otpauth=" ++ o

  unfoldable pub start : Pairing l → Step
  unfolding otpauth
  start p = plain_step (
      lit "phrase=getservercert&salt="
      ++ (salt_hex p
          ++ (lit "&clientcert="
              ++ (l.crypto.hex_encode (bytes p.identity.cert_pem) ++ otp_argument (otpauth p)))))

  abbrev pub is_paired : Root l → Bool
  is_paired root = elim (child l root (lit "paired")) [
    | none ↦ false
    | some s ↦ text_eq (trim s) (lit "1")
  ]

  abbrev pub decoded : Text → Result Error Bytes
  decoded s = ok_or (l.crypto.hex_decode s) hex

  -- Phase 0: the certificate of the host
  unfoldable pub server_cert : Root l → Result Error Text
  server_cert root = do
    require (is_paired root) (refuse not_paired)
    let plaincert = trim (unwrap_or (child l root (lit "plaincert")) (lit ""))
    require (not (is_empty plaincert)) (refuse already_in_progress)
    raw ← decoded plaincert
    ok_or (from_utf8 raw) (refuse (malformed (lit "plaincert utf8")))

  unfoldable pub client_challenge : Pairing l → Result Error Step
  client_challenge p = do
    enc ← aes_ecb_encrypt l p.aes_key p.rand_challenge
    ok (plain_step (lit "clientchallenge=" ++ l.crypto.hex_encode enc))

  -- Phase 1: the host's answer to the challenge, and the host's own challenge
  unfoldable pub challenge_answer : Pairing l → Root l → Result Error Bytes
  challenge_answer p root = do
    require (is_paired root) (refuse not_paired)
    s ← required l root (lit "challengeresponse")
    enc ← decoded (trim s)
    dec ← aes_ecb_decrypt l p.aes_key enc
    require (leb 48 (length dec)) (
        refuse (
          malformed
            (lit "challengeresponse is " ++ decimal (length dec) ++ lit " bytes, expected >= 48")))
    ok dec

  unfoldable pub challenge_resp : Pairing l → Bytes → Result Error Step
  challenge_resp p server_challenge = do
    our_sig ← cert_signature l p.identity.cert_pem
    let hash = sha256 l ((server_challenge ++ our_sig ++ p.client_secret) ∷ [])
    enc ← aes_ecb_encrypt l p.aes_key hash
    ok (plain_step (lit "serverchallengeresp=" ++ l.crypto.hex_encode enc))

  -- Phase 2: the host's secret, signed with the key of its certificate; the hash of the answer must
  -- have been made with it, and with the right PIN.
  unfoldable pub check_secret : Pairing l → Text → Bytes → Result Error (Unit {0})
  check_secret p pem secret = do
    pk ← cert_public_key l pem
    require (verify_sha256 l pk (take 16 secret) (drop 16 secret)) (refuse bad_server_signature)
    cert_sig ← cert_signature l pem
    require
        (text_eq (sha256 l (p.rand_challenge ∷ cert_sig ∷ take 16 secret ∷ [])) p.server_response)
        (refuse wrong_pin)

  unfoldable pub pairing_secret : Pairing l → Root l → Result Error Step
  unfolding check_secret
  pairing_secret p root = do
    require (is_paired root) (refuse not_paired)
    s ← required l root (lit "pairingsecret")
    secret ← decoded (trim s)
    require (ltb 16 (length secret)) (refuse (malformed (lit "pairingsecret too short")))
    pem ← ok_or p.server_cert_pem panicked
    check_secret p pem secret
    ok (
        plain_step (
          lit "clientpairingsecret="
          ++ l.crypto.hex_encode (p.client_secret ++ sign_sha256 l p.identity.key p.client_secret)))

  abbrev pub last_step : Step
  last_step = record {
    args = lit "devicename=roth&updateState=1&phrase=pairchallenge";
    https = true;
  }

  -- What comes next, and the state; `none` is the end of the handshake.
  abbrev pub Next : Type 0
  Next = Result Error (Option Step) × Pairing l

  abbrev pub going_on : Result Error Step → Result Error (Option Step)
  going_on (ok s) = ok (some s)
  going_on (err e) = err e

  unfoldable pub next_phase0 : Pairing l → Root l → Next
  unfolding server_cert client_challenge
  next_phase0 p root = elim (server_cert root) [
    | err e ↦ (err e, p)
    | ok pem ↦
        let p' = record p { server_cert_pem = some pem; phase = 1 } in
        (going_on (client_challenge p'), p')
  ]

  -- The host's answer is kept also where what follows fails.
  unfoldable pub next_phase1 : Pairing l → Root l → Next
  unfolding challenge_answer challenge_resp
  next_phase1 p root = elim (challenge_answer p root) [
    | err e ↦ (err e, p)
    | ok dec ↦
        let p' = record p { server_response = take 32 dec } in
        elim (challenge_resp p' (take 16 (drop 32 dec))) [
          | err e ↦ (err e, p')
          | ok s ↦ (ok (some s), record p' { phase = 2 })
        ]
  ]

  unfoldable pub next_phase2 : Pairing l → Root l → Next
  unfolding pairing_secret
  next_phase2 p root = elim (pairing_secret p root) [
    | err e ↦ (err e, p)
    | ok s ↦ (ok (some s), record p { phase = 3 })
  ]

  -- The last two phases only look at `paired`.
  unfoldable pub next_phase3 : Pairing l → Root l → Next
  next_phase3 p root =
      if is_paired root
      then (ok (some last_step), record p { phase = 4 })
      else (err (refuse not_paired), p)

  unfoldable pub next_phase4 : Pairing l → Root l → Next
  next_phase4 p root =
      if is_paired root then (ok none, record p { phase = 5 }) else (err (refuse not_paired), p)

  abbrev pub by_phase : ℕ → Pairing l → Root l → Next
  by_phase zero p root = next_phase0 p root
  by_phase (suc zero) p root = next_phase1 p root
  by_phase (suc (suc zero)) p root = next_phase2 p root
  by_phase (suc (suc (suc zero))) p root = next_phase3 p root
  by_phase (suc (suc (suc (suc n)))) p root = next_phase4 p root

  unfoldable pub next : Pairing l → Text → Next
  next p body = elim (parse_root l body) [ err e ↦ (err e, p) | ok root ↦ by_phase p.phase p root ]

  unfoldable pub is_complete : Pairing l → Bool
  is_complete p = p.phase == 5
