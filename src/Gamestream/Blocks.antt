-- ===== src/Gamestream/Blocks.antt =====
-- crates/ra-gamestream/src/crypto.rs: AES-128-ECB without padding, SHA-256, and certificates.
use remote_access.Base.{
  ℕ, zero, suc, ◌/◌, ◌%◌, Bool, not, ◌&&◌, ◌==◌, List, [], ◌∷◌, ◌++◌, Text, Bytes, lit, bytes, take,
  drop, length, is_empty, decimal, Result, ok, err, ◌>>=◌, ◌>>◌, require, map_err,
}
use remote_access.Proto.Hashes.{concat}
use remote_access.Gamestream.External.{Libraries}
use remote_access.Gamestream.Errors.{Error, crypto, io}

abbrev bad_length : ℕ → Error
bad_length n = crypto (lit "AES-ECB input length " ++ decimal n ++ lit " is not a multiple of 16")

unfoldable pub check_block_len : Bytes → Result Error (Unit {0})
check_block_len input =
    require (not (is_empty input) && (length input % 16 == 0)) (bad_length (length input))

-- `chunks_exact_mut(16)`: f on each whole block; the first argument is the number of blocks.
unfoldable pub on_chunks : ℕ → (Bytes → Bytes) → Bytes → Bytes
on_chunks zero f input = []
on_chunks (suc n) f input = f (take 16 input) ++ on_chunks n f (drop 16 input)

module _ (l : Libraries) where
  unfoldable pub sha256 : List Bytes → Bytes
  sha256 parts = l.crypto.sha256 (concat parts)

  unfoldable pub derive_aes_key : Bytes → Text → Bytes
  unfolding sha256
  derive_aes_key salt pin = take 16 (sha256 (salt ∷ bytes pin ∷ []))

  unfoldable pub aes_ecb_encrypt : Bytes → Bytes → Result Error Bytes
  unfolding check_block_len on_chunks
  aes_ecb_encrypt key input = do
    check_block_len input
    ok (on_chunks (length input / 16) (l.encrypt_block key) input)

  unfoldable pub aes_ecb_decrypt : Bytes → Bytes → Result Error Bytes
  unfolding check_block_len on_chunks
  aes_ecb_decrypt key input = do
    check_block_len input
    ok (on_chunks (length input / 16) (l.decrypt_block key) input)

  -- The first certificate of a PEM text
  unfoldable pub pem_to_der : Text → Result Error Bytes
  pem_to_der pem = do
    certs ← map_err io (l.pem_certs pem)
    elim certs [ [] ↦ err (crypto (lit "no certificate found in PEM")) | d ∷ ds ↦ ok d ]

  abbrev parsed : Text → Result Error l.X509
  parsed pem = do
    der ← pem_to_der pem
    map_err (λ e. crypto (lit "x509 parse: " ++ e)) (l.parse_x509 der)

  unfoldable pub cert_signature : Text → Result Error Bytes
  unfolding pem_to_der
  cert_signature pem = do cert ← parsed pem; ok (l.signature_value cert)

  unfoldable pub cert_public_key : Text → Result Error l.PublicKey
  unfolding pem_to_der
  cert_public_key pem = do
    cert ← parsed pem
    map_err (λ e. crypto (lit "rsa pubkey: " ++ e)) (l.from_pkcs1_der (l.subject_public_key cert))

  unfoldable pub sign_sha256 : l.PrivateKey → Bytes → Bytes
  sign_sha256 key msg = l.sign key msg

  unfoldable pub verify_sha256 : l.PublicKey → Bytes → Bytes → Bool
  verify_sha256 key msg sig = l.verify key msg sig
