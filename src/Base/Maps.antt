-- ===== src/Base/Maps.antt =====
-- `HashMap<String, V>`: an association list in which an entry hides the later ones of its key.
-- No operation of the program depends on the order of the entries.
use mathlib.Core.Path.{◌≡◌, refl}
use mathlib.Core.Bool.{Bool}
use mathlib.Core.List.{List, [], ◌∷◌}
use mathlib.Core.Option.{Option, none, some}
use native.Mathlib.Omega.{arith}
use remote_access.Base.Tests.{if◌then◌else◌, is_some}
use remote_access.Base.Strings.{Text, text_eq, text_eq_iff}

abbrev pub Map {ℓ} : Type ℓ → Type ℓ
Map V = List (Text × V)

-- `Option::filter`
abbrev pub keep_if {ℓ} : {A : Type ℓ} → (A → Bool) → Option A → Option A
keep_if p none = none
keep_if p (some a) = if p a then some a else none

module _ {ℓ} {V : Type ℓ} where
  unfoldable pub get : Text → Map V → Option V
  get k [] = none
  get k ((j, v) ∷ m) = if text_eq j k then some v else get k m

  unfoldable pub remove : Text → Map V → Map V
  remove k [] = []
  remove k ((j, v) ∷ m) = let rest = remove k m in if text_eq j k then rest else (j, v) ∷ rest

  unfoldable pub insert : Text → V → Map V → Map V
  unfolding remove
  insert k v m = (k, v) ∷ remove k m

  -- `retain(|_, v| p(v))`
  unfoldable pub retain : (V → Bool) → Map V → Map V
  unfolding remove
  retain p [] = []
  retain p ((j, v) ∷ m) = let rest = retain p m in if p v then (j, v) ∷ rest else remove j rest

  -- `values().cloned().collect()`
  unfoldable pub values : Map V → List V
  values [] = []
  values ((j, v) ∷ m) = v ∷ values m

  abbrev pub contains_key : Text → Map V → Bool
  contains_key k m = is_some (get k m)

  pub get-remove :
      (k j : Text) (m : Map V) → get j (remove k m) ≡ (if text_eq k j then none else get j m)
  unfolding get remove
  get-remove k j [] = ground arith
  get-remove k j ((i, v) ∷ m) =
      ground (arith, get-remove k j m, text_eq_iff i k, text_eq_iff i j, text_eq_iff k j)

  pub get-insert :
      (k j : Text) (v : V) (m : Map V)
      → get j (insert k v m) ≡ (if text_eq k j then some v else get j m)
  unfolding get insert
  get-insert k j v m = ground (arith, get-remove k j m)

  pub get-retain : (p : V → Bool) (j : Text) (m : Map V) → get j (retain p m) ≡ keep_if p (get j m)
  unfolding get retain
  get-retain p j [] = refl
  get-retain p j ((i, v) ∷ m) =
      ground (arith, get-retain p j m, get-remove i j (retain p m), text_eq_iff i j)

pub ruleset map_laws = (get-remove, get-insert, get-retain)
