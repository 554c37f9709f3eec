-- ===== src/Gamestream/Ciphers.antt =====
-- The block cipher of crates/ra-gamestream/src/crypto.rs: decryption undoes encryption.
use remote_access.Base.{
  ℕ, zero, suc, ◌*◌, ◌/◌, ◌%◌, ◌≡◌, refl, ap, true, ◌==◌, [], ◌∷◌, ◌++◌, Bytes, take, drop, length,
  length-append, length-take, length-drop, take-append, drop-append, All, All-append, All-take,
  IsByte, arith, ok,
}
use remote_access.Gamestream.External.{Libraries}
use remote_access.Gamestream.Blocks.{check_block_len, on_chunks, aes_ecb_encrypt, aes_ecb_decrypt}

All-drop : (n : ℕ) (b : Bytes) → All IsByte b → All IsByte (drop n b)
All-drop zero b h = h
All-drop (suc n) [] h = tt
All-drop (suc n) (x ∷ xs) h = All-drop n xs h.1

pub take_then_drop : (n : ℕ) (b : Bytes) → take n b ++ drop n b ≡ b
take_then_drop zero b = refl
take_then_drop (suc n) [] = refl
take_then_drop (suc n) (x ∷ xs) = ap (λ r. x ∷ r) (take_then_drop n xs)

pub take_whole : (n : ℕ) (a b : Bytes) → length a ≡ n → take n (a ++ b) ≡ a
take_whole n a b h = rw (← h) (take-append a b)

pub drop_whole : (n : ℕ) (a b : Bytes) → length a ≡ n → drop n (a ++ b) ≡ b
drop_whole n a b h = rw (← h) (drop-append a b)

module _ (f g : Bytes → Bytes) (f_length : (b : Bytes) → length (f b) ≡ 16) where
  on_chunks-length : (n : ℕ) (b : Bytes) → length (on_chunks n f b) ≡ 16 * n
  unfolding on_chunks
  on_chunks-length zero b = omega arith
  on_chunks-length (suc n) b = omega (
    arith,
    length-append (f (take 16 b)) (on_chunks n f (drop 16 b)),
    f_length (take 16 b),
    on_chunks-length n (drop 16 b),
  )

  on_chunks_undone :
      (undo : (b : Bytes) → length b ≡ 16 → All IsByte b → g (f b) ≡ b) (n : ℕ) (b : Bytes)
      → length b ≡ 16 * n
      → All IsByte b
      → on_chunks n g (on_chunks n f b) ≡ b
  unfolding on_chunks
  on_chunks_undone undo zero [] h y = refl
  on_chunks_undone undo zero (x ∷ xs) h y = absurd (omega arith)
  on_chunks_undone undo (suc n) b h y =
      let e = f (take 16 b) in
      let rest = on_chunks n f (drop 16 b) in
      let left : take 16 (e ++ rest) ≡ e = take_whole 16 e rest (f_length (take 16 b)) in
      let right : drop 16 (e ++ rest) ≡ rest = drop_whole 16 e rest (f_length (take 16 b)) in
      let whole : length (take 16 b) ≡ 16 = omega (arith, length-take 16 b) in
      let tail : length (drop 16 b) ≡ 16 * n = omega (arith, length-drop 16 b) in
      rw
        (
          left,
          right,
          undo (take 16 b) whole (All-take IsByte 16 b y),
          on_chunks_undone undo n (drop 16 b) tail (All-drop 16 b y),
        )
        (take_then_drop 16 b)

fits : (b : Bytes) (n : ℕ) → length b ≡ 16 * suc n → check_block_len b ≡ ok tt
unfolding check_block_len
fits [] n h = absurd (omega arith)
fits (x ∷ xs) n h = let whole : (length (x ∷ xs) % 16 == 0) ≡ true = ground arith in rw whole refl

on_chunks-IsByte :
    (f : Bytes → Bytes) (h : (b : Bytes) → All IsByte (f b)) (n : ℕ) (b : Bytes)
    → All IsByte (on_chunks n f b)
unfolding on_chunks
on_chunks-IsByte f h zero b = tt
on_chunks-IsByte f h (suc n) b =
    All-append IsByte (f (take 16 b)) (on_chunks n f (drop 16 b)) (h (take 16 b))
      (on_chunks-IsByte f h n (drop 16 b))

module _ (l : Libraries) where
  -- An encrypted input, and what decrypts to it
  pub record Encrypted (key input : Bytes) (n : ℕ) : Type 0 where
    pub out : Bytes
    pub encrypts : aes_ecb_encrypt l key input ≡ ok out
    pub decrypts : aes_ecb_decrypt l key out ≡ ok input
    pub size : length out ≡ 16 * suc n
    pub are_bytes : All IsByte out

  pub encrypted :
      (key input : Bytes) (n : ℕ)
      → length key ≡ 16
      → length input ≡ 16 * suc n
      → All IsByte input
      → Encrypted key input n
  unfolding aes_ecb_encrypt aes_ecb_decrypt
  encrypted key input n hk hi y =
      let out = on_chunks (suc n) (l.encrypt_block key) input in
      let size =
        on_chunks-length (l.encrypt_block key) (l.decrypt_block key) (l.encrypt_block_length key)
          (suc n) input in
      let blocks : length input / 16 ≡ suc n = omega arith in
      let blocks' : length out / 16 ≡ suc n = omega (arith, size) in
      record {
        out = out;
        encrypts = rw (fits input n hi, blocks) refl;
        decrypts =
            rw
              (
                fits out n size,
                blocks',
                on_chunks_undone (l.encrypt_block key) (l.decrypt_block key)
                    (l.encrypt_block_length key)
                    (λ b hb by. l.decrypt_block-encrypt_block key b hk hb by) (suc n) input hi y,
              )
              refl;
        size = size;
        are_bytes =
            on_chunks-IsByte (l.encrypt_block key) (l.encrypt_block_bytes key) (suc n) input;
      }

  -- An input of one or more whole blocks is encrypted, and decrypted to itself under the same key.
  pub aes_ecb_decrypt-aes_ecb_encrypt :
      (key input : Bytes) (n : ℕ)
      → length key ≡ 16
      → length input ≡ 16 * suc n
      → All IsByte input
      → (out : Bytes) × (aes_ecb_encrypt l key input ≡ ok out)
        × (aes_ecb_decrypt l key out ≡ ok input)
  aes_ecb_decrypt-aes_ecb_encrypt key input n hk hi y =
      let e = encrypted key input n hk hi y in (e.out, e.encrypts, e.decrypts)
