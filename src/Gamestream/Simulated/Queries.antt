-- ===== src/Gamestream/Simulated/Queries.antt =====
-- The parameters of the queries that crates/ra-gamestream/src/pairing.rs sends, as
-- crates/ra-gamestream/src/testing.rs reads them.
use remote_access.Base.{
  ◌≡◌, refl, subst, IsByte, IsString, bytes-IsByte, ◌∙◌, ap, sym, false, ◌==◌, Option, none, some,
  List, [], ◌∷◌, ◌++◌, append-nil, Text, lit, bytes, All, All-append, Lacks, IsHex, hex-Lacks,
  Lacks-lit, split, split-append, split_whole, strip_prefix,
}
use remote_access.Proto.Hashes.{concat}
use remote_access.Gamestream.External.{Libraries}
use remote_access.Gamestream.Blocks.{sha256}
use remote_access.Gamestream.Pairing.{Pairing, OtpAuth, start, otpauth, plain_step, salt_hex}
use remote_access.Gamestream.Simulated.{
  FakeHost, param, is_param, find_stripped, handle, handle_later, handle_challenge, handle_response,
  handle_secret,
}

-- Parts with `&` between them
abbrev pub joined : List Text → Text
joined [] = []
joined (x ∷ []) = x
joined (x ∷ y ∷ ys) = x ++ b'&' ∷ joined (y ∷ ys)

abbrev AreParts : List Text → Type 0
AreParts [] = ⊥
AreParts (x ∷ []) = Lacks b'&' x
AreParts (x ∷ y ∷ ys) = Lacks b'&' x × AreParts (y ∷ ys)

split-joined : (xs : List Text) → AreParts xs → split b'&' (joined xs) ≡ xs
split-joined [] h = absurd h
split-joined (x ∷ []) h = split_whole b'&' x h
split-joined (x ∷ y ∷ ys) h =
    split-append b'&' x (joined (y ∷ ys)) h.0 ∙ ap (λ r. x ∷ r) (split-joined (y ∷ ys) h.1)

param-joined :
    (xs : List Text) (key : Text)
    → AreParts xs
    → param (joined xs) key ≡ find_stripped (key ++ lit "=") xs
unfolding param
param-joined xs key h = ap (find_stripped (key ++ lit "=")) (split-joined xs h)

with_key : (key v : Text) → Lacks b'&' key → IsHex v → Lacks b'&' (key ++ v)
with_key key v k h = All-append (λ x. (x == b'&') ≡ false) key v k (hex-Lacks v h)

-- The query of a later step: one parameter after the two that every query has
abbrev one_part : Text → Text → List Text
one_part key v = lit "devicename=roth" ∷ lit "updateState=1" ∷ (key ++ v) ∷ []

one_part-AreParts : (key v : Text) → Lacks b'&' key → IsHex v → AreParts (one_part key v)
one_part-AreParts key v k h = (
  Lacks-lit b'&' (lit "devicename=roth") refl,
  (Lacks-lit b'&' (lit "updateState=1") refl, with_key key v k h),
)

module _ (l : Libraries) (h : FakeHost l) (v : Text) (hex : IsHex v) where
  pub handle_challenge_step :
      handle l h (plain_step (lit "clientchallenge=" ++ v)) ≡ handle_challenge l h v
  unfolding handle handle_later is_param strip_prefix split
  handle_challenge_step =
      let p = λ (key : Text). param-joined (one_part (lit "clientchallenge=") v) key (
        one_part-AreParts (lit "clientchallenge=") v (Lacks-lit b'&' (lit "clientchallenge=") refl)
          hex) in
      rw (p (lit "phrase"), p (lit "clientchallenge")) refl

  pub handle_response_step :
      handle l h (plain_step (lit "serverchallengeresp=" ++ v)) ≡ handle_response l h v
  unfolding handle handle_later is_param strip_prefix split
  handle_response_step =
      let p = λ (key : Text). param-joined (one_part (lit "serverchallengeresp=") v) key (
        one_part-AreParts (lit "serverchallengeresp=") v
          (Lacks-lit b'&' (lit "serverchallengeresp=") refl) hex) in
      rw (p (lit "phrase"), p (lit "clientchallenge"), p (lit "serverchallengeresp")) refl

  pub handle_secret_step :
      handle l h (plain_step (lit "clientpairingsecret=" ++ v)) ≡ handle_secret l h v
  unfolding handle handle_later is_param strip_prefix split
  handle_secret_step =
      let p = λ (key : Text). param-joined (one_part (lit "clientpairingsecret=") v) key (
        one_part-AreParts (lit "clientpairingsecret=") v
          (Lacks-lit b'&' (lit "clientpairingsecret=") refl) hex) in
      rw
        (
          p (lit "phrase"),
          p (lit "clientchallenge"),
          p (lit "serverchallengeresp"),
          p (lit "clientpairingsecret"),
        )
        refl

abbrev otp_parts : Option Text → List Text
otp_parts none = []
otp_parts (some o) = (lit "otpauth=" ++ o) ∷ []

abbrev pub IsHexOption : Option Text → Type 0
IsHexOption none = Unit
IsHexOption (some o) = IsHex o

abbrev cert_parts : Text → Text → Option Text → List Text
cert_parts salt cert otp =
    lit "devicename=roth"
    ∷ lit "updateState=1"
    ∷ lit "phrase=getservercert"
    ∷ (lit "salt=" ++ salt)
    ∷ (lit "clientcert=" ++ cert)
    ∷ otp_parts otp

-- What the host reads of the first query
pub record CertParams (salt cert args : Text) (otp : Option Text) : Type 0 where
  pub asks : param args (lit "phrase") ≡ some (lit "getservercert")
  pub has_salt : param args (lit "salt") ≡ some salt
  pub has_cert : param args (lit "clientcert") ≡ some cert
  pub has_otp : param args (lit "otpauth") ≡ otp

module _ (salt cert : Text) (hs : IsHex salt) (hc : IsHex cert) where
  last_parts :
      (o : Option Text) → IsHexOption o → AreParts ((lit "clientcert=" ++ cert) ∷ otp_parts o)
  last_parts none h = with_key (lit "clientcert=") cert (Lacks-lit b'&' (lit "clientcert=") refl) hc
  last_parts (some o) h = (
    with_key (lit "clientcert=") cert (Lacks-lit b'&' (lit "clientcert=") refl) hc,
    with_key (lit "otpauth=") o (Lacks-lit b'&' (lit "otpauth=") refl) h,
  )

  cert_parts-AreParts : (o : Option Text) → IsHexOption o → AreParts (cert_parts salt cert o)
  cert_parts-AreParts o h = (
    Lacks-lit b'&' (lit "devicename=roth") refl,
    (
      Lacks-lit b'&' (lit "updateState=1") refl,
      (
        Lacks-lit b'&' (lit "phrase=getservercert") refl,
        (with_key (lit "salt=") salt (Lacks-lit b'&' (lit "salt=") refl) hs, last_parts o h),
      ),
    ),
  )

  cert_params :
      (o : Option Text) → IsHexOption o → CertParams salt cert (joined (cert_parts salt cert o)) o
  unfolding strip_prefix
  cert_params none h =
      let p =
        λ (key : Text). param-joined (cert_parts salt cert none) key (cert_parts-AreParts none h) in
      record {
        asks = p (lit "phrase");
        has_salt = p (lit "salt");
        has_cert = p (lit "clientcert");
        has_otp = p (lit "otpauth");
      }
  cert_params (some o) h =
      let p = λ (key : Text).
        param-joined (cert_parts salt cert (some o)) key (cert_parts-AreParts (some o) h) in
      record {
        asks = p (lit "phrase");
        has_salt = p (lit "salt");
        has_cert = p (lit "clientcert");
        has_otp = p (lit "otpauth");
      }

module _ (l : Libraries) (p : Pairing l) where
  abbrev pub cert_text : Text
  cert_text = l.crypto.hex_encode (bytes p.identity.cert_pem)

  start_at :
      (o : Option Text)
      → otpauth l p ≡ o
      → (start l p).args ≡ joined (cert_parts (salt_hex l p) cert_text o)
  unfolding start
  start_at none e = rw (e, append-nil cert_text) refl
  start_at (some o) e = rw e refl

  otpauth_at : (o : Option OtpAuth) → p.otp ≡ o → IsHexOption (otpauth l p)
  unfolding otpauth sha256
  otpauth_at none e = rw e tt
  otpauth_at (some o) e =
      let m = concat (bytes o.pin ∷ bytes (salt_hex l p) ∷ bytes o.passphrase ∷ []) in
      rw e (l.hex_encode_upper_digits (l.crypto.sha256 m) (l.crypto.sha256_bytes m))

  otpauth-IsHex : IsHexOption (otpauth l p)
  otpauth-IsHex = otpauth_at p.otp refl

  -- The first query, of a salt of bytes and a certificate in Rust's strings
  pub start_params :
      All IsByte p.salt
      → IsString p.identity.cert_pem
      → CertParams (salt_hex l p) cert_text (start l p).args (otpauth l p)
  start_params hs hc =
      subst (λ args. CertParams (salt_hex l p) cert_text args (otpauth l p))
        (sym (start_at (otpauth l p) refl))
        (cert_params (salt_hex l p) cert_text (l.crypto.hex_encode_digits p.salt hs)
          (l.crypto.hex_encode_digits (bytes p.identity.cert_pem)
            (bytes-IsByte p.identity.cert_pem hc))
          (otpauth l p) otpauth-IsHex)
