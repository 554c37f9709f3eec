-- ===== src/Proto/Pins.antt =====
-- `PairSecret` of crates/ra-proto/src/lib.rs: sealing and opening the PIN.
use remote_access.Base.{
  ℕ, ◌+◌, ◌≡◌, true, false, some, [], ◌∷◌, ◌++◌, Text, Bytes, arith, leb, length, length-append,
  take, drop, take-append, drop-append, bytes, from_utf8, from_utf8-bytes, All, All-append, IsByte,
  bytes_ascii, digits-ascii, ascii-IsString, bytes-IsByte, lit, Result, ok, err, ◌>>=◌, ◌>>◌, ok_or,
  require,
}
use remote_access.Proto.External.{Crypto, Rng}
use remote_access.Proto.Hashes.{sha256_parts}
use remote_access.Proto.Ids.{is_valid_pin, is_valid_pin_iff}

pub data CryptoError : Type 0 where
  hex too_short decrypt bad_pin : CryptoError

pub record PairSecret : Type 0 where
  pub key : Bytes

module _ (c : Crypto) where
  unfoldable pub derive : Text → Text → PairSecret
  unfolding sha256_parts
  derive h1_hex challenge = record {
    key = sha256_parts c (lit "ra-pair-v1" ∷ bytes h1_hex ∷ bytes challenge ∷ []);
  }

  -- The nonce is the i-th draw.
  unfoldable pub seal_pin : Rng → ℕ → PairSecret → Text → Result CryptoError Text
  seal_pin rng i secret pin = do
    require (is_valid_pin pin) bad_pin
    let nonce = rng.fill_bytes i 12
    ct ← ok_or (c.aead_encrypt secret.key nonce (bytes pin)) decrypt
    ok (c.hex_encode (nonce ++ ct))

  unfoldable pub open_pin : PairSecret → Text → Result CryptoError Text
  open_pin secret sealed_hex = do
    raw ← ok_or (c.hex_decode sealed_hex) hex
    require (leb (12 + 16) (length raw)) too_short
    pt ← ok_or (c.aead_decrypt secret.key (take 12 raw) (drop 12 raw)) decrypt
    pin ← ok_or (from_utf8 pt) decrypt
    require (is_valid_pin pin) bad_pin
    ok pin

  pub derive-length : (h1 ch : Text) → length (derive h1 ch).key ≡ 32
  unfolding derive
  derive-length h1 ch = c.sha256_length _

  -- Opening returns valid PINs only.
  pub open_pin-valid :
      (s : PairSecret) (sealed pin : Text) → open_pin s sealed ≡ ok pin → is_valid_pin pin ≡ true
  unfolding open_pin
  open_pin-valid s sealed pin h = ground arith

  -- Sealing refuses everything but a PIN.
  pub seal_pin-bad :
      (rng : Rng) (i : ℕ) (s : PairSecret) (pin : Text)
      → is_valid_pin pin ≡ false
      → seal_pin rng i s pin ≡ err bad_pin
  unfolding seal_pin
  seal_pin-bad rng i s pin h = rw h

  open_raw :
      (s : PairSecret) (nonce ct : Bytes) (pin : Text)
      → length nonce ≡ 12
      → length ct ≡ length (bytes pin) + 16
      → All IsByte (nonce ++ ct)
      → c.aead_decrypt s.key nonce ct ≡ some (bytes pin)
      → from_utf8 (bytes pin) ≡ some pin
      → is_valid_pin pin ≡ true
      → open_pin s (c.hex_encode (nonce ++ ct)) ≡ ok pin
  unfolding open_pin
  open_raw s nonce ct pin hn hc hb hd hu hv =
      let long : leb 28 (length (nonce ++ ct)) ≡ true = ground (arith, length-append nonce ct) in
      let left : take 12 (nonce ++ ct) ≡ nonce = rw (← hn) (take-append nonce ct) in
      let right : drop 12 (nonce ++ ct) ≡ ct = rw (← hn) (drop-append nonce ct) in
      rw (c.hex_decode-encode (nonce ++ ct) hb, long, left, right, hd, hu, hv)

  -- A sealed PIN is opened again under the same key, whatever the nonce.
  pub open_pin-seal_pin :
      (rng : Rng) (i : ℕ) (s : PairSecret) (pin : Text)
      → length s.key ≡ 32
      → is_valid_pin pin ≡ true
      → (sealed : Text) × (seal_pin rng i s pin ≡ ok sealed) × (open_pin s sealed ≡ ok pin)
  unfolding seal_pin
  open_pin-seal_pin rng i s pin hk hv =
      let (four, digits) = (is_valid_pin_iff pin).0 hv in
      let small = digits-ascii pin digits in
      let string = ascii-IsString pin small in
      let nonce = rng.fill_bytes i 12 in
      let same = bytes_ascii pin small in
      let (ct, sealed, opened, long, fits) =
        c.aead_accepts s.key nonce (bytes pin) hk (rng.fill_bytes_length i 12)
          (bytes-IsByte pin string) (rw same (omega arith)) in
      (
        c.hex_encode (nonce ++ ct),
        rw (hv, sealed),
        open_raw s nonce ct pin (rng.fill_bytes_length i 12) long
            (All-append IsByte nonce ct (rng.fill_bytes_bytes i 12) fits) opened
            (from_utf8-bytes pin string) hv,
      )
