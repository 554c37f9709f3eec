-- ===== src/Gamestream/Identities.antt =====
-- crates/ra-gamestream/src/identity.rs: the identity of a client, and the files that it is kept in.
use remote_access.Base.{
  ℕ, Bool, true, false, ◌&&◌, Option, none, some, Text, lit, ◌++◌, bytes, trim, Map, get, insert,
  contains_key, unwrap_or, if◌then◌else◌, Result, ok, err, ◌>>=◌, map_err, ◌+◌, ◌-◌, ◌*◌,
}
use remote_access.Proto.External.{Rng}
use remote_access.Gamestream.External.{Libraries}
use remote_access.Gamestream.Errors.{Error, identity, io}
use remote_access.Gamestream.Transport.{Identity}
pub mod Saved
pub mod Again

abbrev day_secs : ℕ
day_secs = 86400

-- What `self_signed_cert` sets of the parameters of a certificate; the times are in seconds.
pub record CertParams : Type 0 where
  pub common_name : Text
  pub not_before : ℕ
  pub not_after : ℕ

-- Keys and certificates as `rsa` and `rcgen` make them; an error is its message.
pub record KeyTool (l : Libraries) : Type 1 where
  pub KeyPair : Type 0
  pub new_key : ℕ → Result Text l.PrivateKey
  pub to_pkcs8_pem : l.PrivateKey → Result Text Text
  pub from_pkcs8_pem : Text → Result Text l.PrivateKey
  pub from_pkcs1_pem : Text → Result Text l.PrivateKey
  pub key_pair_of : Text → Result Text KeyPair
  pub new_params : Result Text (Unit {0})
  pub self_signed : KeyPair → CertParams → Result Text Text

-- The files by their paths
abbrev pub Files : Type 0
Files = Map Text

abbrev pub cert_file : Text
cert_file = lit "client.crt"

abbrev pub key_file : Text
key_file = lit "client.key"

abbrev pub uid_file : Text
uid_file = lit "uniqueid"

-- `dir.join(name)`
abbrev pub in_dir : Text → Text → Text
in_dir dir name = dir ++ (lit "/" ++ name)

-- What may be written: the error, where the file or the directory cannot be
abbrev pub Writes : Type 0
Writes = Text → Option Text

unfoldable pub read_file : Text → Files → Result Error Text
unfolding get
read_file path fs = elim (get path fs) [
  | none ↦ err (io (lit "No such file or directory"))
  | some s ↦ ok s
]

module _ (l : Libraries) (tool : KeyTool l) where
  unfoldable pub random_unique_id : Rng → ℕ → Text
  random_unique_id rng i = l.crypto.hex_encode (rng.fill_bytes i 8)

  -- From a day before now to twenty years after
  unfoldable pub self_signed_cert : ℕ → Text → Text → Result Error Text
  self_signed_cert now key_pem common_name = do
    kp ← map_err (λ e. identity (lit "rcgen key: " ++ e)) (tool.key_pair_of key_pem)
    params ← map_err (λ e. identity (lit "rcgen params: " ++ e)) tool.new_params
    map_err (λ e. identity (lit "rcgen sign: " ++ e))
        (tool.self_signed kp (record {
          common_name = common_name;
          not_before = now - day_secs;
          not_after = now + day_secs * (365 * 20);
        }))

  -- The i-th draw is the unique ID; the key takes its own randomness.
  unfoldable pub generate : ℕ → Rng → ℕ → Result Error (Identity l)
  unfolding random_unique_id self_signed_cert
  generate now rng i = do
    key ← map_err identity (tool.new_key i)
    key_pem ← map_err identity (tool.to_pkcs8_pem key)
    cert_pem ← self_signed_cert now key_pem (lit "NVIDIA GameStream Client")
    ok (record {
      unique_id = random_unique_id rng i;
      cert_pem = cert_pem;
      key_pem = key_pem;
      key = key;
    })

  -- PKCS#8, or else PKCS#1
  abbrev pub private_key_of : Text → Result Text l.PrivateKey
  private_key_of pem = elim (tool.from_pkcs8_pem pem) [
    | ok k ↦ ok k
    | err e ↦ tool.from_pkcs1_pem pem
  ]

  unfoldable pub from_pem : Text → Text → Text → Result Error (Identity l)
  from_pem unique_id cert_pem key_pem = do
    key ← map_err (λ e. identity (lit "private key: " ++ e)) (private_key_of key_pem)
    ok (record { unique_id = unique_id; cert_pem = cert_pem; key_pem = key_pem; key = key })

  -- The files that were written stay where a later one fails; the mode of the key's file is left out.
  unfoldable pub save : Writes → Text → Identity l → Files → Result Error (Unit {0}) × Files
  unfolding insert
  save writes dir id fs = elim (writes dir) [
    | some e ↦ (err (io e), fs)
    | none ↦ elim (writes (in_dir dir cert_file)) [
      | some e ↦ (err (io e), fs)
      | none ↦
          let fs1 = insert (in_dir dir cert_file) id.cert_pem fs in
          elim (writes (in_dir dir key_file)) [
            | some e ↦ (err (io e), fs1)
            | none ↦
                let fs2 = insert (in_dir dir key_file) id.key_pem fs1 in
                elim (writes (in_dir dir uid_file)) [
                  | some e ↦ (err (io e), fs2)
                  | none ↦ (ok tt, insert (in_dir dir uid_file) id.unique_id fs2)
                ]
          ]
    ]
  ]

  abbrev pub has_identity : Text → Files → Bool
  has_identity dir fs =
      contains_key (in_dir dir cert_file) fs
      && (contains_key (in_dir dir key_file) fs && contains_key (in_dir dir uid_file) fs)

  unfoldable pub load_identity : Text → Files → Result Error (Identity l)
  unfolding read_file from_pem
  load_identity dir fs = do
    uid ← read_file (in_dir dir uid_file) fs
    cert ← read_file (in_dir dir cert_file) fs
    key ← read_file (in_dir dir key_file) fs
    from_pem (trim uid) cert key

  -- The part of `load_or_create` for a directory without an identity
  unfoldable pub create_identity :
      Writes → ℕ → Rng → ℕ → Text → Files → Result Error (Identity l) × Files
  unfolding generate save
  create_identity writes now rng i dir fs = elim (writes dir) [
    | some e ↦ (err (io e), fs)
    | none ↦ elim (generate now rng i) [
      | err e ↦ (err e, fs)
      | ok id ↦
          let saved = save writes dir id fs in
          elim saved.0 [ err e ↦ (err e, saved.1) | ok u ↦ (ok id, saved.1) ]
    ]
  ]

  unfoldable pub load_or_create :
      Writes → ℕ → Rng → ℕ → Text → Files → Result Error (Identity l) × Files
  unfolding load_identity create_identity
  load_or_create writes now rng i dir fs =
      if has_identity dir fs
      then (load_identity dir fs, fs)
      else create_identity writes now rng i dir fs

  unfoldable pub cert_hex : Identity l → Text
  cert_hex id = l.crypto.hex_encode (bytes id.cert_pem)
