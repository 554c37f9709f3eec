-- ===== src/Base/Parts.antt =====
-- Facts on `split`, `strip_prefix` and `trim` of texts.
use Prim.Native.Nat.{ℕ}
use mathlib.Core.Path.{◌≡◌, refl, sym, subst, ap, ◌∙◌}
use mathlib.Core.Bool.{Bool, true, false, not, ◌&&◌, ◌||◌}
use mathlib.Core.List.{
  [], ◌∷◌, ◌++◌, reverse, reverse-cons, reverse-reverse, append_assoc, append-nil,
}
use mathlib.Core.Option.{some}
use native.Mathlib.Omega.{arith}
use mathlib.Core.Logic.{inl, inr}
use remote_access.Base.Tests.{Bool-cases, ◌==◌, leb}
use remote_access.Base.Lists.{all, All, All-append}
use remote_access.Base.Strings.{
  Text, is_whitespace, trim_start, trim, split_onto, split, strip_prefix,
}

-- `char::is_ascii_hexdigit`, of either case
abbrev pub is_hex_digit : ℕ → Bool
is_hex_digit c = leb b'0' c && leb c b'9' || leb b'a' c && leb c b'f' || leb b'A' c && leb c b'F'

abbrev pub IsHex : Text → Type 0
IsHex = All (λ c. is_hex_digit c ≡ true)

-- A character that is no part of the text
abbrev pub Lacks : ℕ → Text → Type 0
Lacks c = All (λ x. (x == c) ≡ false)

-- By evaluation, for a literal
pub Lacks-lit : (c : ℕ) (s : Text) → all (λ x. not (x == c)) s ≡ true → Lacks c s
Lacks-lit c [] h = tt
Lacks-lit c (x ∷ xs) h = elim (Bool-cases (x == c)) [
  | inl e ↦ absurd (ground arith)
  | inr e ↦ (e, Lacks-lit c xs (ground arith))
]

reverse_onto : (x : ℕ) (acc xs : Text) → reverse (x ∷ acc) ++ xs ≡ reverse acc ++ x ∷ xs
reverse_onto x acc xs = simp (reverse-cons, append_assoc)

same : (c : ℕ) → (c == c) ≡ true
same c = ground arith

module _ (c : ℕ) where
  split_onto_rest :
      (acc v rest : Text)
      → Lacks c v
      → split_onto c acc (v ++ c ∷ rest) ≡ (reverse acc ++ v) ∷ split c rest
  unfolding split split_onto
  split_onto_rest acc [] rest h = rw (same c, split_onto, append-nil (reverse acc)) refl
  split_onto_rest acc (x ∷ xs) rest h =
      rw (h.0, split_onto)
        (split_onto_rest (x ∷ acc) xs rest h.1 ∙ ap (λ s. s ∷ split c rest) (reverse_onto x acc xs))

  split_onto_end : (acc v : Text) → Lacks c v → split_onto c acc v ≡ (reverse acc ++ v) ∷ []
  unfolding split_onto
  split_onto_end acc [] h = ap (λ s. s ∷ []) (rw (append-nil (reverse acc)) refl)
  split_onto_end acc (x ∷ xs) h =
      rw (h.0, split_onto)
        (split_onto_end (x ∷ acc) xs h.1 ∙ ap (λ s. s ∷ []) (reverse_onto x acc xs))

  -- A part without the separator ends at the first one, or at the end.
  pub split-append : (v rest : Text) → Lacks c v → split c (v ++ c ∷ rest) ≡ v ∷ split c rest
  unfolding split
  split-append v rest h = split_onto_rest [] v rest h

  pub split_whole : (v : Text) → Lacks c v → split c v ≡ v ∷ []
  unfolding split
  split_whole v h = split_onto_end [] v h

pub strip_prefix-append : (p s : Text) → strip_prefix (p ++ s) p ≡ some s
unfolding strip_prefix
strip_prefix-append [] s = refl
strip_prefix-append (x ∷ p) s = rw (same x) (strip_prefix-append p s)

abbrev IsSolid : Text → Type 0
IsSolid = All (λ c. is_whitespace c ≡ false)

IsSolid-reverse : (s : Text) → IsSolid s → IsSolid (reverse s)
IsSolid-reverse [] h = tt
IsSolid-reverse (c ∷ cs) h = subst IsSolid (sym (reverse-cons c cs)) (
    All-append (λ x. is_whitespace x ≡ false) (reverse cs) (c ∷ []) (IsSolid-reverse cs h.1)
      (h.0, tt))

trim_start-solid : (s : Text) → IsSolid s → trim_start s ≡ s
unfolding trim_start
trim_start-solid [] h = refl
trim_start-solid (c ∷ cs) h = rw (h.0) refl

trim-solid : (s : Text) → IsSolid s → trim s ≡ s
unfolding trim
trim-solid s h =
    rw (trim_start-solid s h, trim_start-solid (reverse s) (IsSolid-reverse s h))
      (reverse-reverse s)

-- What holds of every hexadecimal digit holds of a hexadecimal text.
hex_to :
    (P : ℕ → Bool)
    → ((c : ℕ) → is_hex_digit c ≡ true → P c ≡ false)
    → (s : Text) → IsHex s
    → All (λ c. P c ≡ false) s
hex_to P f [] h = tt
hex_to P f (c ∷ cs) h = (f c h.0, hex_to P f cs h.1)

hex_solid : (c : ℕ) → is_hex_digit c ≡ true → is_whitespace c ≡ false
unfolding is_whitespace
hex_solid c h = ground arith

pub trim-hex : (s : Text) → IsHex s → trim s ≡ s
trim-hex s h = trim-solid s (hex_to is_whitespace hex_solid s h)

hex_plain : (c : ℕ) → is_hex_digit c ≡ true → (c == b'&') ≡ false
hex_plain c h = ground arith

pub hex-Lacks : (s : Text) → IsHex s → Lacks b'&' s
hex-Lacks = hex_to (λ c. c == b'&') hex_plain
