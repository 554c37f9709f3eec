-- ===== src/Proto/External.antt =====
-- What crates/ra-proto/src/lib.rs takes from other crates: `sha2`, `hex`, `chacha20poly1305` and
-- `rand`, each as operations with the documented behaviour that the code relies on.
use remote_access.Base.{
  ℕ, ◌+◌, ◌*◌, ◌≤◌, ◌<◌, ◌≡◌, Option, some, Text, Bytes, IsByte, All, length, IsHex,
}

pub record Crypto : Type 0 where
  -- `Sha256::digest`
  pub sha256 : Bytes → Bytes
  pub sha256_length : (b : Bytes) → length (sha256 b) ≡ 32
  pub sha256_bytes : (b : Bytes) → All IsByte (sha256 b)
  -- `hex::encode`, `hex::decode`
  pub hex_encode : Bytes → Text
  pub hex_decode : Text → Option Bytes
  pub hex_decode-encode : (b : Bytes) → All IsByte b → hex_decode (hex_encode b) ≡ some b
  pub hex_encode_length : (b : Bytes) → length (hex_encode b) ≡ 2 * length b
  pub hex_encode_ascii : (b : Bytes) → All IsByte b → All (λ c. c < 0x80) (hex_encode b)
  pub hex_encode_digits : (b : Bytes) → All IsByte b → IsHex (hex_encode b)
  -- `ChaCha20Poly1305::encrypt` and `decrypt`: the key, the nonce, the message
  pub aead_encrypt : Bytes → Bytes → Bytes → Option Bytes
  pub aead_decrypt : Bytes → Bytes → Bytes → Option Bytes
  pub aead_accepts :
      (k n p : Bytes)
      → length k ≡ 32
      → length n ≡ 12
      → All IsByte p
      → length p ≤ 64
      → (c : Bytes) × (aead_encrypt k n p ≡ some c)
        × (aead_decrypt k n c ≡ some p)
        × (length c ≡ length p + 16)
        × All IsByte c

-- `rand::thread_rng()`: the value of the i-th draw.
pub record Rng : Type 0 where
  -- `gen_range(lo..hi)`
  pub gen_range : ℕ → ℕ → ℕ → ℕ
  pub gen_range_ge : (i lo hi : ℕ) → lo < hi → lo ≤ gen_range i lo hi
  pub gen_range_lt : (i lo hi : ℕ) → lo < hi → gen_range i lo hi < hi
  -- `fill_bytes` on a buffer of n bytes
  pub fill_bytes : ℕ → ℕ → Bytes
  pub fill_bytes_length : (i n : ℕ) → length (fill_bytes i n) ≡ n
  pub fill_bytes_bytes : (i n : ℕ) → All IsByte (fill_bytes i n)
