-- ===== src/Examples/Crypto.antt =====
-- Concrete functions that meet what the code relies on of the crates that it uses. The hash copies
-- the start of its input, and the cipher appends a tag.
use remote_access.Base.{
  ℕ, zero, suc, ◌+◌, ◌-◌, ◌*◌, ◌/◌, ◌%◌, ◌≤◌, ◌<◌, ◌≡◌, refl, Option, none, some, [], ◌∷◌, ◌++◌,
  Bytes, Text, IsByte, IsHex, All, All-append, All-take, length, length-append, length-take, take,
  take-append, arith, ltb, leb, if◌then◌else◌, ◌&&◌, ap,
}
use remote_access.Proto.External.{Crypto, Rng}

unfoldable pub zero_bytes : ℕ → Bytes
zero_bytes zero = []
zero_bytes (suc n) = 0 ∷ zero_bytes n

pub length-zero_bytes : (n : ℕ) → length (zero_bytes n) ≡ n
unfolding zero_bytes
length-zero_bytes zero = refl
length-zero_bytes (suc n) = omega (arith, length-zero_bytes n)

pub zero_bytes-IsByte : (n : ℕ) → All IsByte (zero_bytes n)
unfolding zero_bytes
zero_bytes-IsByte zero = tt
zero_bytes-IsByte (suc n) = (omega arith, zero_bytes-IsByte n)

unfoldable pub low_bytes : Bytes → Bytes
low_bytes [] = []
low_bytes (b ∷ bs) = b % 256 ∷ low_bytes bs

pub low_bytes-IsByte : (b : Bytes) → All IsByte (low_bytes b)
unfolding low_bytes
low_bytes-IsByte [] = tt
low_bytes-IsByte (b ∷ bs) = (omega arith, low_bytes-IsByte bs)

unfoldable pub copy_hash : Bytes → Bytes
unfolding low_bytes zero_bytes
copy_hash b = take 32 (low_bytes b ++ zero_bytes 32)

pub copy_hash-length : (b : Bytes) → length (copy_hash b) ≡ 32
unfolding copy_hash
copy_hash-length b = omega (
  arith,
  length-take 32 (low_bytes b ++ zero_bytes 32),
  length-append (low_bytes b) (zero_bytes 32),
  length-zero_bytes 32,
)

pub copy_hash-IsByte : (b : Bytes) → All IsByte (copy_hash b)
unfolding copy_hash
copy_hash-IsByte b =
    All-take IsByte 32 (low_bytes b ++ zero_bytes 32)
      (All-append IsByte (low_bytes b) (zero_bytes 32) (low_bytes-IsByte b) (zero_bytes-IsByte 32))

unfoldable pub hex_digit : ℕ → ℕ
hex_digit n = if ltb n 10 then b'0' + n else b'a' + (n - 10)

unfoldable pub digit_value : ℕ → Option ℕ
digit_value c =
    if leb b'0' c && leb c b'9'
    then some (c - b'0')
    else if leb b'a' c && leb c b'f'
    then some (c - b'a' + 10)
    else none

unfoldable pub to_hex : Bytes → Text
unfolding hex_digit
to_hex [] = []
to_hex (b ∷ bs) = hex_digit (b / 16) ∷ hex_digit (b % 16) ∷ to_hex bs

unfoldable pub join_byte : Option ℕ → Option ℕ → Option Bytes → Option Bytes
join_byte (some hi) (some lo) (some bs) = some ((hi * 16 + lo) ∷ bs)
join_byte _ _ _ = none

unfoldable pub of_hex : Text → Option Bytes
unfolding digit_value join_byte
of_hex [] = some []
of_hex (h ∷ []) = none
of_hex (h ∷ l ∷ cs) = join_byte (digit_value h) (digit_value l) (of_hex cs)

pub of_hex-to_hex : (b : Bytes) → All IsByte b → of_hex (to_hex b) ≡ some b
unfolding of_hex to_hex
of_hex-to_hex [] h = refl
of_hex-to_hex (b ∷ bs) h = ground (arith, of_hex-to_hex bs h.1)

pub to_hex-length : (b : Bytes) → length (to_hex b) ≡ 2 * length b
unfolding to_hex
to_hex-length [] = omega arith
to_hex-length (b ∷ bs) = omega (arith, to_hex-length bs)

pub to_hex-ascii : (b : Bytes) → All IsByte b → All (λ c. c < 0x80) (to_hex b)
unfolding to_hex
to_hex-ascii [] h = tt
to_hex-ascii (b ∷ bs) h = (ground arith, (ground arith, to_hex-ascii bs h.1))

pub to_hex-IsHex : (b : Bytes) → All IsByte b → IsHex (to_hex b)
unfolding to_hex
to_hex-IsHex [] h = tt
to_hex-IsHex (b ∷ bs) h = (ground arith, (ground arith, to_hex-IsHex bs h.1))

unfoldable pub tag : Bytes → Bytes
unfolding zero_bytes
tag p = p ++ zero_bytes 16

unfoldable pub untag : Bytes → Bytes
untag c = take (length c - 16) c

untag-tag : (p : Bytes) → untag (tag p) ≡ p
unfolding untag tag
untag-tag p =
    let long : length (p ++ zero_bytes 16) - 16 ≡ length p =
      omega (arith, length-append p (zero_bytes 16)) in
    rw long (take-append p (zero_bytes 16))

pub tag_accepts :
    (k n p : Bytes)
    → length k ≡ 32
    → length n ≡ 12
    → All IsByte p
    → length p ≤ 64
    → (c : Bytes) × (◌≡◌ {A = Option Bytes} (some (tag p)) (some c))
      × (◌≡◌ {A = Option Bytes} (some (untag c)) (some p))
      × (length c ≡ length p + 16)
      × All IsByte c
tag_accepts k n p hk hn hp hl =
    let long : length (tag p) ≡ length p + 16 =
      unfold tag in omega (arith, length-append p (zero_bytes 16), length-zero_bytes 16) in
    (
      tag p,
      refl,
      ap (λ (b : Bytes). some b) (untag-tag p),
      long,
      unfold tag in All-append IsByte p (zero_bytes 16) hp (zero_bytes-IsByte 16),
    )

-- The crates' operations.
abbrev pub copy_crypto : Crypto
copy_crypto = record {
  sha256 = copy_hash;
  sha256_length = copy_hash-length;
  sha256_bytes = copy_hash-IsByte;
  hex_encode = to_hex;
  hex_decode = of_hex;
  hex_decode-encode = of_hex-to_hex;
  hex_encode_length = to_hex-length;
  hex_encode_ascii = to_hex-ascii;
  hex_encode_digits = to_hex-IsHex;
  aead_encrypt = λ k n p. some (tag p);
  aead_decrypt = λ k n c. some (untag c);
  aead_accepts = tag_accepts;
}

unfoldable pub counting : ℕ → ℕ → ℕ → ℕ
counting i lo hi = lo + i % (hi - lo)

pub counting_ge : (i lo hi : ℕ) → lo < hi → lo ≤ counting i lo hi
unfolding counting
counting_ge i lo hi h = omega arith

pub counting_lt : (i lo hi : ℕ) → lo < hi → counting i lo hi < hi
unfolding counting
counting_lt i lo hi h = grind arith

-- A generator whose i-th draw is `i`, brought into the range.
abbrev pub counting_rng : Rng
counting_rng = record {
  gen_range = counting;
  gen_range_ge = counting_ge;
  gen_range_lt = counting_lt;
  fill_bytes = λ i n. zero_bytes n;
  fill_bytes_length = λ i n. length-zero_bytes n;
  fill_bytes_bytes = λ i n. zero_bytes-IsByte n;
}
