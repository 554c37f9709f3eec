-- ===== src/Base/Utf8.antt =====
-- UTF-8: the bytes of a `String` (`as_bytes`, `bytes`, `len`) and `String::from_utf8`.
use Prim.Native.Nat.{ℕ, zero, suc, ◌+◌, ◌-◌, ◌*◌, ◌/◌, ◌%◌, ◌≤◌, ◌<◌}
use mathlib.Core.Path.{◌≡◌, refl}
use mathlib.Core.Logic.{◌⊎◌, inl}
use mathlib.Core.Bool.{Bool, ◌&&◌, ◌||◌}
use mathlib.Core.List.{List, [], ◌∷◌, ◌++◌}
use mathlib.Core.Option.{Option, none, some}
use native.Mathlib.Omega.{arith}
use remote_access.Base.Tests.{ltb, leb, if◌then◌else◌}
use remote_access.Base.Lists.{length, length-append, All, All-append}
use remote_access.Base.Strings.{Text, IsDigits}

abbrev pub Bytes : Type 0
Bytes = List ℕ

abbrev pub IsByte : ℕ → Type 0
IsByte b = b < 256

-- The bytes of one scalar value.
unfoldable pub utf8_char : ℕ → Bytes
utf8_char c =
    if ltb c 0x80
    then c ∷ []
    else if ltb c 0x800
    then (0xC0 + c / 64) ∷ (0x80 + c % 64) ∷ []
    else if ltb c 0x10000
    then (0xE0 + c / 4096) ∷ (0x80 + c / 64 % 64) ∷ (0x80 + c % 64) ∷ []
    else (0xF0 + c / 262144) ∷ (0x80 + c / 4096 % 64) ∷ (0x80 + c / 64 % 64) ∷ (0x80 + c % 64) ∷ []

-- `str::as_bytes`, `str::bytes`
unfoldable pub bytes : Text → Bytes
unfolding utf8_char
bytes [] = []
bytes (c ∷ cs) = utf8_char c ++ bytes cs

-- `str::len`, which counts bytes
abbrev pub len : Text → ℕ
len s = length (bytes s)

is_continuation : ℕ → Bool
is_continuation b = leb 0x80 b && ltb b 0xC0

two_bytes : ℕ → Bytes → Option (ℕ × Bytes)
two_bytes a (b ∷ r) = if is_continuation b then some ((a - 0xC0) * 64 + (b - 0x80), r) else none
two_bytes a _ = none

three_bytes : ℕ → Bytes → Option (ℕ × Bytes)
three_bytes a (b ∷ c ∷ r) =
    let v = (a - 0xE0) * 4096 + (b - 0x80) * 64 + (c - 0x80) in
    if is_continuation b && is_continuation c && leb 0x800 v && (ltb v 0xD800 || leb 0xE000 v)
    then some (v, r)
    else none
three_bytes a _ = none

four_bytes : ℕ → Bytes → Option (ℕ × Bytes)
four_bytes a (b ∷ c ∷ d ∷ r) =
    let v = (a - 0xF0) * 262144 + (b - 0x80) * 4096 + (c - 0x80) * 64 + (d - 0x80) in
    if is_continuation b
      && is_continuation c
      && is_continuation d
      && leb 0x10000 v
      && ltb v 0x110000
    then some (v, r)
    else none
four_bytes a _ = none

-- One scalar value and the bytes after it; `none` on an invalid sequence.
decode_char : Bytes → Option (ℕ × Bytes)
unfolding two_bytes three_bytes four_bytes is_continuation
decode_char [] = none
decode_char (a ∷ bs) =
    if ltb a 0x80
    then some (a, bs)
    else if ltb a 0xC2
    then none
    else if ltb a 0xE0
    then two_bytes a bs
    else if ltb a 0xF0
    then three_bytes a bs
    else if ltb a 0xF5
    then four_bytes a bs
    else none

push_char : ℕ → Option Text → Option Text
push_char c none = none
push_char c (some s) = some (c ∷ s)

-- Each scalar value takes a byte at least, so the number of bytes is enough fuel.
from_utf8_onto : ℕ → Bytes → Option Text
unfolding push_char
from_utf8_onto f [] = some []
from_utf8_onto zero (b ∷ bs) = none
from_utf8_onto (suc f) (b ∷ bs) = elim (decode_char (b ∷ bs)) [
  | none ↦ none
  | some (c, rest) ↦ push_char c (from_utf8_onto f rest)
]

-- `String::from_utf8`
unfoldable pub from_utf8 : Bytes → Option Text
unfolding from_utf8_onto decode_char
from_utf8 bs = from_utf8_onto (length bs) bs

-- A Unicode scalar value, which every `char` of Rust is.
abbrev pub IsScalar : ℕ → Type 0
IsScalar c = (c < 0xD800) ⊎ ((0xE000 ≤ c) × (c < 0x110000))

abbrev pub IsString : Text → Type 0
IsString = All IsScalar

decode_char-utf8_char :
    (c : ℕ) (rest : Bytes) → IsScalar c → decode_char (utf8_char c ++ rest) ≡ some (c, rest)
unfolding decode_char utf8_char
decode_char-utf8_char c rest h = ground arith

-- One round of the loop.
from_utf8_onto_step :
    (f : ℕ) (bs : Bytes) (c : ℕ) (rest : Bytes)
    → decode_char bs ≡ some (c, rest)
    → from_utf8_onto (suc f) bs ≡ push_char c (from_utf8_onto f rest)
unfolding from_utf8_onto decode_char
from_utf8_onto_step f [] c rest h = cc
from_utf8_onto_step f (b ∷ bs) c rest h = rw (h, from_utf8_onto)

length-utf8_char : (c : ℕ) → 1 ≤ length (utf8_char c)
unfolding utf8_char
length-utf8_char c = ground arith

pub bytes-cons : (c : ℕ) (cs : Text) → bytes (c ∷ cs) ≡ utf8_char c ++ bytes cs
unfolding bytes
bytes-cons c cs = refl

length-bytes-cons : (c : ℕ) (cs : Text) → suc (length (bytes cs)) ≤ length (bytes (c ∷ cs))
length-bytes-cons c cs =
    rw (bytes-cons c cs) (omega (arith, length-append (utf8_char c) (bytes cs), length-utf8_char c))

from_utf8_onto-bytes :
    (f : ℕ) (s : Text) → IsString s → length (bytes s) ≤ f → from_utf8_onto f (bytes s) ≡ some s
unfolding push_char
from_utf8_onto-bytes zero [] h le = unfold from_utf8_onto bytes in refl
from_utf8_onto-bytes (suc f) [] h le = unfold from_utf8_onto bytes in refl
from_utf8_onto-bytes zero (c ∷ cs) h le = absurd (omega (arith, length-bytes-cons c cs))
from_utf8_onto-bytes (suc f) (c ∷ cs) h le = rw (
  bytes-cons c cs,
  from_utf8_onto_step f (utf8_char c ++ bytes cs) c (bytes cs)
      (decode_char-utf8_char c (bytes cs) h.0),
  from_utf8_onto-bytes f cs h.1 (omega (arith, length-bytes-cons c cs)),
)

pub from_utf8-bytes : (s : Text) → IsString s → from_utf8 (bytes s) ≡ some s
unfolding from_utf8
from_utf8-bytes s h = from_utf8_onto-bytes (length (bytes s)) s h (omega arith)

-- Strings with the same bytes are the same.
pub bytes-injective : (s t : Text) → IsString s → IsString t → bytes s ≡ bytes t → s ≡ t
bytes-injective s t hs ht e = cc (from_utf8-bytes s hs, from_utf8-bytes t ht)

utf8_char-IsByte : (c : ℕ) → IsScalar c → All IsByte (utf8_char c)
unfolding utf8_char
utf8_char-IsByte c h = ground arith

pub bytes-IsByte : (s : Text) → IsString s → All IsByte (bytes s)
unfolding bytes
bytes-IsByte [] h = tt
bytes-IsByte (c ∷ cs) h =
    All-append IsByte (utf8_char c) (bytes cs) (utf8_char-IsByte c h.0) (bytes-IsByte cs h.1)

-- ASCII text is its own bytes.
pub bytes_ascii : (s : Text) → All (λ c. c < 0x80) s → bytes s ≡ s
unfolding bytes
bytes_ascii [] h = refl
bytes_ascii (c ∷ cs) h = ground (arith, bytes_ascii cs h.1)

pub digits-ascii : (s : Text) → IsDigits s → All (λ c. c < 0x80) s
digits-ascii [] h = tt
digits-ascii (c ∷ cs) h = (ground arith, digits-ascii cs h.1)

pub ascii-IsString : (s : Text) → All (λ c. c < 0x80) s → IsString s
ascii-IsString [] h = tt
ascii-IsString (c ∷ cs) h = (inl (omega arith), ascii-IsString cs h.1)
