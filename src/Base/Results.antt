-- ===== src/Base/Results.antt =====
-- Rust's `Result`, with `?` as the bind of a `do` block.
use mathlib.Core.Bool.{Bool, true, false}
use mathlib.Core.Option.{Option, none, some}
use remote_access.Base.Tests.{if◌then◌else◌}

pub data Result {ℓ κ} (E : Type ℓ) (A : Type κ) : Type (ℓ ⊔ κ) where
  ok : A → Result E A
  err : E → Result E A

-- `map_err`
abbrev pub map_err {ℓ κ μ} :
    {E : Type ℓ} {F : Type κ} {A : Type μ} → (E → F) → Result E A → Result F A
map_err _ (ok a) = ok a
map_err f (err e) = err (f e)

-- `ok_or_else`
abbrev pub ok_or {ℓ κ} : {E : Type ℓ} {A : Type κ} → Option A → E → Result E A
ok_or none e = err e
ok_or (some a) _ = ok a

-- `if !test { return Err(e) }`
abbrev pub require {ℓ} : {E : Type ℓ} → Bool → E → Result E (Unit {0})
require true _ = ok tt
require false e = err e

infixl 5 ◌>>=◌ ◌>>◌
-- `?`, then the rest of the function
abbrev pub ◌>>=◌ {ℓ κ μ} :
    {E : Type ℓ} {A : Type κ} {B : Type μ} → Result E A → (A → Result E B) → Result E B
(ok value) >>= rest = rest value
(err error) >>= _ = err error

abbrev pub ◌>>◌ {ℓ κ} : {E : Type ℓ} {B : Type κ} → Result E (Unit {0}) → Result E B → Result E B
first >> rest = first >>= λ _. rest

-- What holds of both branches holds of the choice.
pub either {ℓ κ μ ν} :
    {E : Type ℓ} {A : Type κ} {B : Type μ} (P : B → Type ν) (r : Result E A) {f : E → B} {g : A → B}
    → ((e : E) → P (f e))
    → ((a : A) → P (g a))
    → P (elim r as (λ x. B) [ err e ↦ f e | ok a ↦ g a ])
either P (err e) hf hg = hf e
either P (ok a) hf hg = hg a

pub maybe {κ μ ν} :
    {A : Type κ} {B : Type μ} (P : B → Type ν) (o : Option A) {b : B} {g : A → B}
    → P b
    → ((a : A) → P (g a))
    → P (elim o as (λ x. B) [ none ↦ b | some a ↦ g a ])
maybe P none hb hg = hb
maybe P (some a) hb hg = hg a

pub whichever {μ ν} :
    {B : Type μ} (P : B → Type ν) (b : Bool) {x y : B} → P x → P y → P (if b then x else y)
whichever P true hx hy = hx
whichever P false hx hy = hy
