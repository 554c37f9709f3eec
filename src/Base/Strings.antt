-- ===== src/Base/Strings.antt =====
-- Rust's `String`: the list of its Unicode scalar values, with the operations of the standard
-- library that the program uses. `len` and `bytes` are in Utf8.
use Prim.Native.Nat.{◌^◌, ◌≤◌, ◌<◌, ℕ, zero, suc, ◌+◌, ◌-◌, ◌*◌, ◌/◌, ◌%◌}
use Prim.Native.Char.{code}
use Prim.Native.String.{String}
use mathlib.Core.Path.{◌≡◌, refl}
use mathlib.Core.Logic.{◌↔◌}
use mathlib.Core.Bool.{Bool, true, false, ◌&&◌, ◌||◌}
use mathlib.Core.List.{List, [], ◌∷◌, ◌++◌, reverse}
use mathlib.Core.Option.{Option, none, some}
use native.Mathlib.Omega.{arith}
use native.Mathlib.Nat.{pow-suc}
use remote_access.Base.Tests.{ltb, leb, ◌==◌, if◌then◌else◌}
use remote_access.Base.Lists.{length, length-append, All, All-append}

abbrev pub Text : Type 0
Text = List ℕ

-- A string literal of the source.
abbrev pub lit : String → Text
lit String.[] = []
lit (String.◌∷◌ c s) = code c ∷ lit s

-- `==` on strings.
unfoldable pub text_eq : Text → Text → Bool
text_eq [] [] = true
text_eq [] (y ∷ ys) = false
text_eq (x ∷ xs) [] = false
text_eq (x ∷ xs) (y ∷ ys) = x == y && text_eq xs ys

pub text_eq_refl : (a : Text) → text_eq a a ≡ true
unfolding text_eq
text_eq_refl [] = refl
text_eq_refl (x ∷ xs) = ground (arith, text_eq_refl xs)

pub text_eq_sound : (a b : Text) → text_eq a b ≡ true → a ≡ b
unfolding text_eq
text_eq_sound [] [] h = refl
text_eq_sound [] (y ∷ ys) h = cc
text_eq_sound (x ∷ xs) [] h = cc
text_eq_sound (x ∷ xs) (y ∷ ys) h = ground (arith, text_eq_sound xs ys)

pub text_eq_complete : (a b : Text) → a ≡ b → text_eq a b ≡ true
text_eq_complete a b e = rw e (text_eq_refl b)

pub text_eq_iff : (a b : Text) → (text_eq a b ≡ true) ↔ (a ≡ b)
text_eq_iff a b = (text_eq_sound a b, text_eq_complete a b)

-- `u8::is_ascii_digit`, `char::is_ascii_digit`
abbrev pub is_ascii_digit : ℕ → Bool
is_ascii_digit c = leb b'0' c && leb c b'9'

-- `char::is_whitespace`, the property White_Space of Unicode
unfoldable pub is_whitespace : ℕ → Bool
is_whitespace c =
    leb 9 c && leb c 13
    || c == 32
    || c == 0x85
    || c == 0xA0
    || c == 0x1680
    || leb 0x2000 c && leb c 0x200A
    || c == 0x2028
    || c == 0x2029
    || c == 0x202F
    || c == 0x205F
    || c == 0x3000

unfoldable pub trim_start : Text → Text
trim_start [] = []
trim_start (c ∷ cs) = if is_whitespace c then trim_start cs else c ∷ cs

-- `str::trim`
unfoldable pub trim : Text → Text
unfolding trim_start
trim s = reverse (trim_start (reverse (trim_start s)))

-- `str::starts_with` with a character
abbrev pub starts_with_char : Text → ℕ → Bool
starts_with_char [] c = false
starts_with_char (x ∷ xs) c = x == c

-- `str::strip_prefix`
unfoldable pub strip_prefix : Text → Text → Option Text
strip_prefix s [] = some s
strip_prefix [] (p ∷ ps) = none
strip_prefix (x ∷ xs) (p ∷ ps) = if x == p then strip_prefix xs ps else none

abbrev pub starts_with : Text → Text → Bool
starts_with s p = elim (strip_prefix s p) [ none ↦ false | some r ↦ true ]

-- `str::ends_with`
abbrev pub ends_with : Text → Text → Bool
ends_with s p = starts_with (reverse s) (reverse p)

-- `s.split(c).next()`
unfoldable pub first_field : ℕ → Text → Text
first_field c [] = []
first_field c (x ∷ xs) = if x == c then [] else x ∷ first_field c xs

-- `s.split(c)`
unfoldable pub split_onto : ℕ → Text → Text → List Text
split_onto c acc [] = reverse acc ∷ []
split_onto c acc (x ∷ xs) = elim (x == c) [
  | true ↦ reverse acc ∷ split_onto c [] xs
  | false ↦ split_onto c (x ∷ acc) xs
]

unfoldable pub split : ℕ → Text → List Text
unfolding split_onto
split c s = split_onto c [] s

drop_chars : ℕ → Text → Text
drop_chars c [] = []
drop_chars c (x ∷ xs) = if x == c then drop_chars c xs else x ∷ xs

-- `str::trim_end_matches` with a character
unfoldable pub trim_end_matches : Text → ℕ → Text
unfolding drop_chars
trim_end_matches s c = reverse (drop_chars c (reverse s))

-- `str::contains` with a character
unfoldable pub contains_char : Text → ℕ → Bool
contains_char [] c = false
contains_char (x ∷ xs) c = x == c || contains_char xs c

-- Decimal digits of a number, `format!("{n}")`; the first argument is fuel.
decimal_onto : ℕ → ℕ → Text → Text
decimal_onto zero n acc = acc
decimal_onto (suc f) n acc = elim (ltb n 10) [
  | true ↦ (b'0' + n) ∷ acc
  | false ↦ decimal_onto f (n / 10) ((b'0' + n % 10) ∷ acc)
]

unfoldable pub decimal : ℕ → Text
unfolding decimal_onto
decimal n = decimal_onto (suc n) n []

abbrev pub zeros : ℕ → Text
zeros zero = []
zeros (suc n) = b'0' ∷ zeros n

-- `format!("{:0w$}", n)`
unfoldable pub pad_decimal : ℕ → ℕ → Text
unfolding decimal
pad_decimal w n = zeros (w - length (decimal n)) ++ decimal n

parse_digits : ℕ → Text → Option ℕ
parse_digits acc [] = some acc
parse_digits acc (c ∷ cs) =
    if is_ascii_digit c then parse_digits (acc * 10 + (c - b'0')) cs else none

strip_plus : Text → Text
strip_plus [] = []
strip_plus (c ∷ cs) = if c == b'+' then cs else c ∷ cs

digits_or_none : ℕ → Text → Option ℕ
digits_or_none limit [] = none
digits_or_none limit (c ∷ cs) = elim (parse_digits 0 (c ∷ cs)) [
  | none ↦ none
  | some n ↦ if ltb n limit then some n else none
]

-- `str::parse` into an unsigned integer below `limit`: an optional `+`, then digits.
unfoldable pub parse_unsigned : ℕ → Text → Option ℕ
unfolding digits_or_none strip_plus parse_digits
parse_unsigned limit s = digits_or_none limit (strip_plus s)

abbrev pub IsDigits : Text → Type 0
IsDigits = All (λ c. is_ascii_digit c ≡ true)

decimal_onto-IsDigits : (f n : ℕ) (acc : Text) → IsDigits acc → IsDigits (decimal_onto f n acc)
unfolding decimal_onto
decimal_onto-IsDigits zero n acc h = h
decimal_onto-IsDigits (suc f) n acc h =
    ground (arith, decimal_onto-IsDigits f (n / 10) ((b'0' + n % 10) ∷ acc))

pub decimal-IsDigits : (n : ℕ) → IsDigits (decimal n)
unfolding decimal
decimal-IsDigits n = decimal_onto-IsDigits (suc n) n [] tt

zeros-IsDigits : (n : ℕ) → IsDigits (zeros n)
zeros-IsDigits zero = tt
zeros-IsDigits (suc n) = (refl, zeros-IsDigits n)

pub decimal_digit : (d : ℕ) → d < 10 → decimal d ≡ (b'0' + d) ∷ []
unfolding decimal
decimal_digit d h = ground arith

length-decimal_onto :
    (k f n : ℕ) (acc : Text) → n < 10 ^ suc k → length (decimal_onto f n acc) ≤ suc k + length acc
unfolding decimal_onto
length-decimal_onto k zero n acc h = omega arith
length-decimal_onto zero (suc f) n acc h = ground arith
length-decimal_onto (suc k) (suc f) n acc h =
    ground (arith, pow-suc 10 (suc k), length-decimal_onto k f (n / 10) ((b'0' + n % 10) ∷ acc))

pub pad_decimal-IsDigits : (w n : ℕ) → IsDigits (pad_decimal w n)
unfolding pad_decimal
pad_decimal-IsDigits w n =
    All-append (λ c. is_ascii_digit c ≡ true) (zeros (w - length (decimal n))) (decimal n)
      (zeros-IsDigits _) (decimal-IsDigits n)

length-zeros : (n : ℕ) → length (zeros n) ≡ n
length-zeros zero = refl
length-zeros (suc n) = omega (arith, length-zeros n)

decimal_short : (k n : ℕ) → n < 10 ^ suc k → length (decimal n) ≤ suc k
decimal_short k n h = unfold decimal in omega (arith, length-decimal_onto k (suc n) n [] h)

pub length-pad_decimal : (k n : ℕ) → n < 10 ^ suc k → length (pad_decimal (suc k) n) ≡ suc k
length-pad_decimal k n h =
    unfold pad_decimal in
    omega (
      arith,
      length-append (zeros (suc k - length (decimal n))) (decimal n),
      length-zeros (suc k - length (decimal n)),
      decimal_short k n h,
    )

-- `str::contains` with a string
abbrev pub contains : Text → Text → Bool
contains [] p = starts_with [] p
contains (x ∷ xs) p = starts_with (x ∷ xs) p || contains xs p
