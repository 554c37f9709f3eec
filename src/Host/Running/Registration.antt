-- ===== src/Host/Running/Registration.antt =====
-- What `register` of crates/ra-host/src/agent.rs makes of the configuration.
use remote_access.Base.{
  ℕ, ◌≡◌, refl, subst, sym, ap, Bool, true, false, Bool-cases, inl, inr, Option, none, some,
  is_some, ◌⊎◌, Text, text_eq_sound, Result, ok, err,
}
use remote_access.Proto.External.{Crypto}
use remote_access.Proto.Types.{RegisterResponse}
use remote_access.Host.Config.{Config}
use remote_access.Host.Running.{register_request, World, is_id, keep_id, advertise, register}

-- The two configurations are the same but for the ID.
abbrev pub SameButId : Config → Config → Type 0
SameButId cfg cfg' = record cfg { id = none } ≡ record cfg' { id = none }

-- What a registration makes of the configuration: only the ID may be new, and it is the one that the
-- server gave.
abbrev pub Registers : Config → Result Text RegisterResponse → Config → Type 0
Registers cfg (err e) cfg' =
    SameButId cfg cfg' × ((is_some cfg.id ≡ false) ⊎ (is_some cfg'.id ≡ true))
Registers cfg (ok resp) cfg' = SameButId cfg cfg' × (cfg'.id ≡ some resp.id)

no_worse : (o : Option Text) → (is_some o ≡ false) ⊎ (is_some o ≡ true)
no_worse none = inl refl
no_worse (some i) = inr refl

module _ (c : Crypto) (alnum : ℕ → Bool) (platform version : Text) {W : Type 0} (w : World W) where
  known : (o : Option Text) (id : Text) → is_id o id ≡ true → o ≡ some id
  known none id e = cc
  known (some i) id e = ap some (text_eq_sound i id e)

  kept :
      (cfg : Config) (resp : RegisterResponse) (s : W)
      → SameButId cfg (keep_id c alnum platform version w cfg resp s).1
        × ((keep_id c alnum platform version w cfg resp s).1.id ≡ some resp.id)
  kept cfg resp s = elim (Bool-cases (is_id cfg.id resp.id)) [
    | inl e ↦ rw e (refl, known cfg.id resp.id e)
    | inr e ↦ rw e (refl, refl)
  ]

  -- The end of `register`, for what became of the file
  registered :
      (cfg cfg' : Config) (resp : RegisterResponse) (saved : Result Text (Unit {0})) (s s' : W)
      → SameButId cfg cfg'
      → cfg'.id ≡ some resp.id
      → (let r = elim saved as (λ x. Result Text RegisterResponse × Config × W) [
        | err e ↦ (err e, cfg', s)
        | ok u ↦ (ok resp, cfg', s')
      ] in
          Registers cfg r.0 r.1)
  registered cfg cfg' resp (err e) s s' same i = (same, inr (rw i refl))
  registered cfg cfg' resp (ok u) s s' same i = (same, i)

  registered_as :
      (cfg : Config) (s : W) (resp : RegisterResponse)
      → (w.post_register (register_request c alnum platform version w cfg s) s).0 ≡ ok resp
      → register c alnum platform version w cfg s ≡ (
          let s1 = (w.post_register (register_request c alnum platform version w cfg s) s).1 in
          let k = keep_id c alnum platform version w cfg resp s1 in
          elim k.0 as (λ x. Result Text RegisterResponse × Config × W) [
            | err e ↦ (err e, k.1, k.2)
            | ok u ↦ (ok resp, k.1, advertise c alnum platform version w k.1 resp k.2)
          ])
  unfolding register
  registered_as cfg s resp eo = rw (eo, register) refl

  register_at :
      (cfg : Config) (s : W) (o : Result Text RegisterResponse)
      → (w.post_register (register_request c alnum platform version w cfg s) s).0 ≡ o
      → Registers cfg
          (register c alnum platform version w cfg s).0
          (register c alnum platform version w cfg s).1
  unfolding register
  register_at cfg s (err e) eo = rw (eo, register) (refl, no_worse cfg.id)
  register_at cfg s (ok resp) eo =
      let s1 = (w.post_register (register_request c alnum platform version w cfg s) s).1 in
      let k = keep_id c alnum platform version w cfg resp s1 in
      let both = kept cfg resp s1 in
      subst (λ r. Registers cfg r.0 r.1) (sym (registered_as cfg s resp eo))
        (registered cfg k.1 resp k.0 k.2 (advertise c alnum platform version w k.1 resp k.2) both.0
          both.1)

  pub register-Registers :
      (cfg : Config) (s : W)
      → Registers cfg
          (register c alnum platform version w cfg s).0
          (register c alnum platform version w cfg s).1
  register-Registers cfg s = register_at cfg s _ refl
