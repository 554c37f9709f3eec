-- ===== src/Proto/Hashes.antt =====
-- The hashes of crates/ra-proto/src/lib.rs and their comparison.
use remote_access.Base.{
  ℕ, ◌<◌, ◌≡◌, refl, ◌↔◌, Bool, true, false, List, [], ◌∷◌, ◌++◌, Text, Bytes, All, IsString, bytes,
  len, length, arith, ◌==◌, if◌then◌else◌, bit_or, bit_xor, bit_xor-eq-zero, bit_or-eq-zero,
  zero-bit_or, bytes-injective, ascii-IsString, bytes_ascii,
}
use remote_access.Proto.External.{Crypto}

-- `h.update(p)` for each part: the hash of the parts one after the other.
abbrev pub concat : List Bytes → Bytes
concat [] = []
concat (p ∷ ps) = p ++ concat ps

unfoldable pub sha256_parts : Crypto → List Bytes → Bytes
sha256_parts c parts = c.sha256 (concat parts)

-- `h1`
unfoldable pub password_h1 : Crypto → Text → Text → Text
unfolding sha256_parts
password_h1 c password salt = c.hex_encode (sha256_parts c (bytes password ∷ bytes salt ∷ []))

-- `h2`
unfoldable pub challenge_response : Crypto → Text → Text → Text
unfolding sha256_parts
challenge_response c h1_hex challenge =
    c.hex_encode (sha256_parts c (bytes h1_hex ∷ bytes challenge ∷ []))

unfoldable pub token_fingerprint : Crypto → Text → Text
unfolding sha256_parts
token_fingerprint c token = c.hex_encode (sha256_parts c (bytes token ∷ []))

-- `a.bytes().zip(b.bytes()).fold(acc, |acc, (x, y)| acc | (x ^ y))`
unfoldable pub fold_differences : ℕ → Bytes → Bytes → ℕ
fold_differences acc [] ys = acc
fold_differences acc (x ∷ xs) [] = acc
fold_differences acc (x ∷ xs) (y ∷ ys) = fold_differences (bit_or acc (bit_xor x y)) xs ys

unfoldable pub ct_eq : Text → Text → Bool
unfolding fold_differences
ct_eq a b = if len a == len b then fold_differences 0 (bytes a) (bytes b) == 0 else false

fold_differences-acc : (acc : ℕ) (xs ys : Bytes) → fold_differences acc xs ys ≡ 0 → acc ≡ 0
unfolding fold_differences
fold_differences-acc acc [] ys h = h
fold_differences-acc acc (x ∷ xs) [] h = h
fold_differences-acc acc (x ∷ xs) (y ∷ ys) h =
    (bit_or-eq-zero acc (bit_xor x y) (fold_differences-acc (bit_or acc (bit_xor x y)) xs ys h)).0

fold_differences_sound :
    (acc : ℕ) (xs ys : Bytes) → length xs ≡ length ys → fold_differences acc xs ys ≡ 0 → xs ≡ ys
unfolding fold_differences
fold_differences_sound acc [] [] e h = refl
fold_differences_sound acc [] (y ∷ ys) e h = absurd (omega arith)
fold_differences_sound acc (x ∷ xs) [] e h = absurd (omega arith)
fold_differences_sound acc (x ∷ xs) (y ∷ ys) e h =
    let parts =
      bit_or-eq-zero acc (bit_xor x y) (fold_differences-acc (bit_or acc (bit_xor x y)) xs ys h) in
    let head = (bit_xor-eq-zero x y).0 parts.1 in
    let rest = fold_differences_sound (bit_or acc (bit_xor x y)) xs ys (omega arith) h in
    cc (head, rest)

fold_differences_self : (xs : Bytes) → fold_differences 0 xs xs ≡ 0
unfolding fold_differences
fold_differences_self [] = refl
fold_differences_self (x ∷ xs) =
    rw ((bit_xor-eq-zero x x).1 refl, zero-bit_or 0) (fold_differences_self xs)

-- The comparison by accumulated differences holds exactly of strings with the same bytes.
pub ct_eq-bytes : (a b : Text) → (ct_eq a b ≡ true) ↔ (bytes a ≡ bytes b)
unfolding ct_eq
ct_eq-bytes a b = (
  λ h. fold_differences_sound 0 (bytes a) (bytes b) (ground arith) (ground arith),
  λ e. rw e (ground (arith, fold_differences_self (bytes b))),
)

-- The comparison by accumulated differences decides equality of strings.
pub ct_eq_iff : (a b : Text) → IsString a → IsString b → (ct_eq a b ≡ true) ↔ (a ≡ b)
ct_eq_iff a b ha hb =
    (λ h. bytes-injective a b ha hb ((ct_eq-bytes a b).0 h), λ e. (ct_eq-bytes a b).1 (rw e))

module _ (c : Crypto) where
  hex_sha256-ascii : (b : Bytes) → All (λ x. x < 0x80) (c.hex_encode (c.sha256 b))
  hex_sha256-ascii b = c.hex_encode_ascii (c.sha256 b) (c.sha256_bytes b)

  hex_sha256-length : (b : Bytes) → length (c.hex_encode (c.sha256 b)) ≡ 64
  hex_sha256-length b = omega (arith, c.hex_encode_length (c.sha256 b), c.sha256_length b)

  pub token_fingerprint-IsString : (t : Text) → IsString (token_fingerprint c t)
  unfolding token_fingerprint
  token_fingerprint-IsString t = ascii-IsString _ (hex_sha256-ascii _)

  pub challenge_response-IsString : (h1 ch : Text) → IsString (challenge_response c h1 ch)
  unfolding challenge_response
  challenge_response-IsString h1 ch = ascii-IsString _ (hex_sha256-ascii _)

  -- A response has the 64 bytes that the rendezvous server asks for.
  pub len-challenge_response : (h1 ch : Text) → len (challenge_response c h1 ch) ≡ 64
  unfolding challenge_response
  len-challenge_response h1 ch = rw (bytes_ascii _ (hex_sha256-ascii _)) (hex_sha256-length _)
