-- ===== src/Base/Ints.antt =====
-- Signed integers, as `str::parse` reads them.
use Prim.Native.Nat.{ℕ, zero, suc, ◌^◌}
use mathlib.Core.Bool.{Bool, false}
use mathlib.Core.Option.{Option, none, some}
use mathlib.Core.List.{[], ◌∷◌}
use remote_access.Base.Tests.{◌==◌, if◌then◌else◌}
use remote_access.Base.Strings.{Text, is_ascii_digit, parse_unsigned}

pub data ℤ : Type 0 where
  pos : ℕ → ℤ
  negsuc : ℕ → ℤ

abbrev pub negated : ℕ → ℤ
negated zero = pos 0
negated (suc n) = negsuc n

-- A sign is read once: what follows `-` starts with a digit.
abbrev pub parse_negative : ℕ → Text → Option ℤ
parse_negative limit [] = none
parse_negative limit (c ∷ cs) =
    if is_ascii_digit c
    then elim (parse_unsigned (suc limit) (c ∷ cs)) [ none ↦ none | some n ↦ some (negated n) ]
    else none

abbrev pub parse_positive : ℕ → Text → Option ℤ
parse_positive limit s = elim (parse_unsigned limit s) [ none ↦ none | some n ↦ some (pos n) ]

abbrev pub parse_signed : ℕ → Text → Option ℤ
parse_signed limit [] = none
parse_signed limit (c ∷ cs) =
    if c == b'-' then parse_negative limit cs else parse_positive limit (c ∷ cs)

-- `str::parse::<i32>`
unfoldable pub parse_i32 : Text → Option ℤ
parse_i32 s = parse_signed (2 ^ 31) s

-- `n == m` for a constant m ≥ 0
abbrev pub is_pos : ℕ → ℤ → Bool
is_pos m (pos n) = n == m
is_pos m (negsuc n) = false
