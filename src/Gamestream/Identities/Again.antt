-- ===== src/Gamestream/Identities/Again.antt =====
-- `Identity::load_or_create` of crates/ra-gamestream/src/identity.rs, called again on the same directory.
use remote_access.Base.{
  ℕ, true, trim-hex, inl, inr, Bool-cases, Text, trim, ok, ◌≡◌, refl, arith, text_eq,
}
use remote_access.Proto.External.{Rng}
use remote_access.Gamestream.External.{Libraries}
use remote_access.Gamestream.Transport.{Identity}
use remote_access.Gamestream.Identities.{
  KeyTool, Files, Writes, cert_file, key_file, uid_file, save, load_identity, generate,
  create_identity, load_or_create, random_unique_id, has_identity,
}
use remote_access.Gamestream.Identities.Saved.{load_identity-save, save-saved, get-saved}

module _ (l : Libraries) (tool : KeyTool l) where
  generate-keyed :
      (now : ℕ) (rng : Rng) (i : ℕ) (id : Identity l)
      → generate l tool now rng i ≡ ok id
      → (tool.to_pkcs8_pem id.key ≡ ok id.key_pem) × (id.unique_id ≡ random_unique_id l tool rng i)
  unfolding generate
  generate-keyed now rng i id e = ground (arith, e)

  create_identity-saves :
      (writes : Writes) (now : ℕ) (rng : Rng) (i : ℕ) (dir : Text) (fs fs' : Files)
      (id : Identity l)
      → create_identity l tool writes now rng i dir fs ≡ (ok id, fs')
      → (generate l tool now rng i ≡ ok id) × (save l tool writes dir id fs ≡ (ok tt, fs'))
  unfolding create_identity
  create_identity-saves writes now rng i dir fs fs' id e = ground (arith, e)

  has_identity-save :
      (writes : Writes) (dir : Text) (id : Identity l) (fs fs' : Files)
      → save l tool writes dir id fs ≡ (ok tt, fs')
      → has_identity l tool dir fs' ≡ true
  unfolding text_eq
  has_identity-save writes dir id fs fs' done =
      rw
        (
          save-saved l tool writes dir id fs fs' done,
          get-saved l tool dir cert_file id fs,
          get-saved l tool dir key_file id fs,
          get-saved l tool dir uid_file id fs,
        )
        refl

  unique_id-trimmed :
      (rng : Rng) (i : ℕ) → trim (random_unique_id l tool rng i) ≡ random_unique_id l tool rng i
  unfolding random_unique_id
  unique_id-trimmed rng i =
      trim-hex (l.crypto.hex_encode (rng.fill_bytes i 8))
        (l.crypto.hex_encode_digits (rng.fill_bytes i 8) (rng.fill_bytes_bytes i 8))

  -- What there is after a call that succeeds: the identity, in the files
  Kept : Text → Identity l → Files → Type 0
  Kept dir id fs = (has_identity l tool dir fs ≡ true) × (load_identity l tool dir fs ≡ ok id)

  create_identity-Kept :
      ((k : l.PrivateKey) (pem : Text)
        → tool.to_pkcs8_pem k ≡ ok pem
        → tool.from_pkcs8_pem pem ≡ ok k)
      → (writes : Writes) (now : ℕ) (rng : Rng) (i : ℕ) (dir : Text) (fs fs' : Files)
        (id : Identity l)
      → create_identity l tool writes now rng i dir fs ≡ (ok id, fs')
      → Kept dir id fs'
  unfolding Kept
  create_identity-Kept reads writes now rng i dir fs fs' id e =
      let (made, saved) = create_identity-saves writes now rng i dir fs fs' id e in
      let (keyed, drawn) = generate-keyed now rng i id made in
      let trimmed : trim id.unique_id ≡ id.unique_id = rw drawn (unique_id-trimmed rng i) in
      (
        has_identity-save writes dir id fs fs' saved,
        load_identity-save l tool writes dir id fs fs' (reads id.key id.key_pem keyed) trimmed
            saved,
      )

  load_or_create-Kept :
      ((k : l.PrivateKey) (pem : Text)
        → tool.to_pkcs8_pem k ≡ ok pem
        → tool.from_pkcs8_pem pem ≡ ok k)
      → (writes : Writes) (now : ℕ) (rng : Rng) (i : ℕ) (dir : Text) (fs fs' : Files)
        (id : Identity l)
      → load_or_create l tool writes now rng i dir fs ≡ (ok id, fs')
      → Kept dir id fs'
  unfolding load_or_create Kept
  load_or_create-Kept reads writes now rng i dir fs fs' id e =
      elim (Bool-cases (has_identity l tool dir fs)) [
        | inl there ↦ ground (arith, there, e)
        | inr absent ↦
            create_identity-Kept reads writes now rng i dir fs fs' id (ground (arith, absent, e))
      ]

  -- Where a private key is read from its own PEM text, `load_or_create` that succeeded answers the
  -- same identity when it is called again, whatever the clock and the draws, and leaves the files.
  pub load_or_create-again :
      ((k : l.PrivateKey) (pem : Text)
        → tool.to_pkcs8_pem k ≡ ok pem
        → tool.from_pkcs8_pem pem ≡ ok k)
      → (writes : Writes) (now : ℕ) (rng : Rng) (i : ℕ) (dir : Text) (fs fs' : Files)
        (id : Identity l)
      → load_or_create l tool writes now rng i dir fs ≡ (ok id, fs')
      → (writes' : Writes) (later : ℕ) (rng' : Rng) (j : ℕ)
      → load_or_create l tool writes' later rng' j dir fs' ≡ (ok id, fs')
  unfolding load_or_create Kept
  load_or_create-again reads writes now rng i dir fs fs' id e writes' later rng' j =
      let (there, loaded) = load_or_create-Kept reads writes now rng i dir fs fs' id e in
      rw (there, loaded) refl
