-- ===== src/Proto/Ids.antt =====
-- Host IDs and PINs of crates/ra-proto/src/lib.rs: validation and random generation.
use remote_access.Base.{
  ℕ, zero, suc, ◌+◌, ◌-◌, ◌≡◌, refl, ◌↔◌, Bool, true, false, not, ◌&&◌, [], ◌∷◌, ◌++◌, Text, Bytes,
  arith, ◌==◌, all, length, len, bytes, utf8_char, bytes-cons, bytes_ascii, digits-ascii,
  is_ascii_digit, IsDigits, starts_with_char, decimal, pad_decimal, decimal_digit,
  pad_decimal-IsDigits, length-pad_decimal, lit,
}
use remote_access.Proto.External.{Crypto, Rng}
use remote_access.Proto.Types.{id_digits}

unfoldable pub is_valid_id : Text → Bool
is_valid_id id =
    (len id == id_digits) && all is_ascii_digit (bytes id) && not (starts_with_char id b'0')

unfoldable pub is_valid_pin : Text → Bool
is_valid_pin pin = (len pin == 4) && all is_ascii_digit (bytes pin)

-- `n` characters, each from one draw.
random_digits : Rng → ℕ → ℕ → Text
random_digits rng i zero = []
random_digits rng i (suc n) = (b'0' + rng.gen_range i 0 10) ∷ random_digits rng (i + 1) n

-- The draws start at the i-th.
unfoldable pub random_id : Rng → ℕ → Text
unfolding random_digits
random_id rng i = decimal (rng.gen_range i 1 10) ++ random_digits rng (i + 1) (id_digits - 1)

unfoldable pub random_pin : Rng → ℕ → Text
random_pin rng i = pad_decimal 4 (rng.gen_range i 0 10000)

abbrev salt_chars : Text
salt_chars = lit "ABCDEFGHIJKLMNOPQRSTUVWXYZabcdefghijklmnopqrstuvwxyz0123456789"

abbrev pub nth_char : Text → ℕ → ℕ
nth_char [] i = 0
nth_char (c ∷ cs) zero = c
nth_char (c ∷ cs) (suc i) = nth_char cs i

unfoldable pub random_chars : Text → Rng → ℕ → ℕ → Text
random_chars chars rng i zero = []
random_chars chars rng i (suc n) =
    nth_char chars (rng.gen_range i 0 (length chars)) ∷ random_chars chars rng (i + 1) n

unfoldable pub random_salt : Rng → ℕ → ℕ → Text
unfolding random_chars
random_salt rng i n = random_chars salt_chars rng i n

unfoldable pub random_hex : Crypto → Rng → ℕ → ℕ → Text
random_hex c rng i n = c.hex_encode (rng.fill_bytes i n)

-- A character of more than one byte starts with a byte that is no digit.
utf8_char_digits :
    (c : ℕ) (rest : Bytes)
    → all is_ascii_digit (utf8_char c ++ rest) ≡ true
    → (is_ascii_digit c ≡ true) × (all is_ascii_digit rest ≡ true)
unfolding utf8_char
utf8_char_digits c rest h = (ground arith, ground arith)

all_digits→IsDigits : (s : Text) → all is_ascii_digit (bytes s) ≡ true → IsDigits s
all_digits→IsDigits [] h = tt
all_digits→IsDigits (c ∷ cs) h =
    let parts = utf8_char_digits c (bytes cs) (rw (bytes-cons c cs) at h) in
    (parts.0, all_digits→IsDigits cs parts.1)

IsDigits→all : (s : Text) → IsDigits s → all is_ascii_digit s ≡ true
IsDigits→all [] h = refl
IsDigits→all (c ∷ cs) h = rw (h.0, IsDigits→all cs h.1)

-- For digits, bytes and characters are the same.
IsDigits-bytes : (s : Text) → IsDigits s → bytes s ≡ s
IsDigits-bytes s h = bytes_ascii s (digits-ascii s h)

-- An ID is accepted exactly when it has nine characters, all ASCII digits, the first one not `0`.
pub is_valid_id_iff :
    (id : Text)
    → (is_valid_id id ≡ true) ↔ ((length id ≡ 9) × IsDigits id × (starts_with_char id b'0' ≡ false))
unfolding is_valid_id
is_valid_id_iff id = (
  λ h.
      let digits : IsDigits id = all_digits→IsDigits id (ground arith) in
      let h' = rw (IsDigits-bytes id digits) at h in (ground arith, digits, ground arith),
  λ t. rw (IsDigits-bytes id t.1, IsDigits→all id t.1, t.0, t.2),
)

-- A PIN is accepted exactly when it is four ASCII digits.
pub is_valid_pin_iff : (pin : Text) → (is_valid_pin pin ≡ true) ↔ ((length pin ≡ 4) × IsDigits pin)
unfolding is_valid_pin
is_valid_pin_iff pin = (
  λ h.
      let digits : IsDigits pin = all_digits→IsDigits pin (ground arith) in
      let h' = rw (IsDigits-bytes pin digits) at h in (ground arith, digits),
  λ t. rw (IsDigits-bytes pin t.1, IsDigits→all pin t.1, t.0),
)

module _ (rng : Rng) where
  random_digits-IsDigits : (i n : ℕ) → IsDigits (random_digits rng i n)
  unfolding random_digits
  random_digits-IsDigits i zero = tt
  random_digits-IsDigits i (suc n) =
      (ground (arith, rng.gen_range_lt i 0 10 (omega arith)), random_digits-IsDigits (i + 1) n)

  length-random_digits : (i n : ℕ) → length (random_digits rng i n) ≡ n
  unfolding random_digits
  length-random_digits i zero = refl
  length-random_digits i (suc n) = omega (arith, length-random_digits (i + 1) n)

  -- Every random ID is a valid one.
  pub random_id-valid : (i : ℕ) → is_valid_id (random_id rng i) ≡ true
  unfolding random_id
  random_id-valid i =
      let d = rng.gen_range i 1 10 in
      let lo = rng.gen_range_ge i 1 10 (omega arith) in
      let hi = rng.gen_range_lt i 1 10 (omega arith) in
      (is_valid_id_iff (random_id rng i)).1 (
        rw (decimal_digit d hi) (
          omega (arith, length-random_digits (i + 1) 8),
          (ground arith, random_digits-IsDigits (i + 1) 8),
          ground arith,
        ))

  -- Every random PIN is a valid one.
  random_pin-valid : (i : ℕ) → is_valid_pin (random_pin rng i) ≡ true
  unfolding random_pin
  random_pin-valid i = (is_valid_pin_iff (random_pin rng i)).1 (
      (
        length-pad_decimal 3 (rng.gen_range i 0 10000) (rng.gen_range_lt i 0 10000 (omega arith)),
        pad_decimal-IsDigits 4 (rng.gen_range i 0 10000),
      ))
