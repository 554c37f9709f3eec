-- ===== src/Examples/Proto.antt =====
-- crates/ra-proto/src/lib.rs at concrete inputs.
use remote_access.Base.{
  ◌≡◌, refl, ◌↔◌, true, false, some, none, [], ◌∷◌, Text, lit, arith, bytes, length, IsDigits,
  starts_with_char, ok, from_utf8, decimal, pad_decimal, is_whitespace, trim,
}
use remote_access.Proto.Hashes.{ct_eq, ct_eq_iff}
use remote_access.Proto.Ids.{
  is_valid_id, is_valid_pin, random_id, random_pin, is_valid_id_iff, random_id-valid,
}
use remote_access.Proto.Pins.{
  PairSecret, derive, derive-length, seal_pin, open_pin, open_pin-seal_pin, open_pin-valid,
}
use remote_access.Examples.Crypto.{copy_crypto, counting_rng, counting}

ct_eq_iff_example : (ct_eq (lit "a1") (lit "a2") ≡ true) ↔ (◌≡◌ {A = Text} (lit "a1") (lit "a2"))
ct_eq_iff_example = ct_eq_iff (lit "a1") (lit "a2") (omega arith) (omega arith)

is_valid_id_iff_example : (is_valid_id (lit "123456789") ≡ true) ↔ (
    (length (lit "123456789") ≡ 9)
    × IsDigits (lit "123456789")
    × (starts_with_char (lit "123456789") b'0' ≡ false))
is_valid_id_iff_example = is_valid_id_iff (lit "123456789")

leading_zero : is_valid_id (lit "012345678") ≡ false
unfolding is_valid_id bytes
leading_zero = refl

random_id-valid_example : is_valid_id (random_id counting_rng 3) ≡ true
random_id-valid_example = random_id-valid counting_rng 3

random_pin-pads : random_pin counting_rng 42 ≡ lit "0042"
unfolding random_pin pad_decimal counting
random_pin-pads = refl

abbrev secret : PairSecret
secret = derive copy_crypto (lit "h1") (lit "challenge")

pin-valid : is_valid_pin (lit "0042") ≡ true
unfolding is_valid_pin bytes
pin-valid = refl

open_pin-seal_pin_example :
    (sealed : Text) × (seal_pin copy_crypto counting_rng 0 secret (lit "0042") ≡ ok sealed)
    × (open_pin copy_crypto secret sealed ≡ ok (lit "0042"))
open_pin-seal_pin_example =
    open_pin-seal_pin copy_crypto counting_rng 0 secret (lit "0042")
      (derive-length copy_crypto (lit "h1") (lit "challenge")) pin-valid

open_pin-valid_example : is_valid_pin (lit "0042") ≡ true
open_pin-valid_example =
    open_pin-valid copy_crypto secret open_pin-seal_pin_example.0 (lit "0042")
      open_pin-seal_pin_example.2

-- A scalar value of each length, and an overlong form.
utf8_decodes :
    from_utf8 (0x41 ∷ 0xC3 ∷ 0xA9 ∷ 0xE2 ∷ 0x82 ∷ 0xAC ∷ 0xF0 ∷ 0x9F ∷ 0x98 ∷ 0x80 ∷ [])
    ≡ some (0x41 ∷ 0xE9 ∷ 0x20AC ∷ 0x1F600 ∷ [])
unfolding from_utf8
utf8_decodes = refl

utf8_overlong : from_utf8 (0xC0 ∷ 0x80 ∷ []) ≡ none
unfolding from_utf8
utf8_overlong = refl

decimal_digits : decimal 4702 ≡ lit "4702"
unfolding decimal
decimal_digits = refl

trim_both : trim (lit "  a b ") ≡ lit "a b"
unfolding trim is_whitespace
trim_both = refl
