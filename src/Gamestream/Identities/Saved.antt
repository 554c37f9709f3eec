-- ===== src/Gamestream/Identities/Saved.antt =====
-- The files that `Identity::save` of crates/ra-gamestream/src/identity.rs leaves, read again.
use remote_access.Base.{
  some, Text, trim, get, ◌∷◌, [], if◌then◌else◌, get-insert, insert, text_eq, ok, ◌≡◌, refl, arith,
}
use remote_access.Gamestream.External.{Libraries}
use remote_access.Gamestream.Transport.{Identity}
use remote_access.Gamestream.Identities.{
  KeyTool, Files, Writes, in_dir, cert_file, key_file, uid_file, read_file, save, load_identity,
  from_pem, private_key_of,
}

text_eq-in_dir : (dir a b : Text) → text_eq (in_dir dir a) (in_dir dir b) ≡ text_eq a b
unfolding text_eq
text_eq-in_dir [] a b = ground arith
text_eq-in_dir (c ∷ dir) a b = ground (arith, text_eq-in_dir dir a b)

module _ (l : Libraries) (tool : KeyTool l) where
  -- The files after a save that ends well
  abbrev saved : Text → Identity l → Files → Files
  saved dir id fs =
      insert (in_dir dir uid_file) id.unique_id
        (insert (in_dir dir key_file) id.key_pem (insert (in_dir dir cert_file) id.cert_pem fs))

  pub save-saved :
      (writes : Writes) (dir : Text) (id : Identity l) (fs fs' : Files)
      → save l tool writes dir id fs ≡ (ok tt, fs')
      → fs' ≡ saved dir id fs
  unfolding save
  save-saved writes dir id fs fs' e = ground (arith, e)

  pub get-saved :
      (dir name : Text) (id : Identity l) (fs : Files)
      → get (in_dir dir name) (saved dir id fs) ≡ (
          if text_eq uid_file name
          then some id.unique_id
          else (if text_eq key_file name
              then some id.key_pem
              else (if text_eq cert_file name then some id.cert_pem else get (in_dir dir name) fs)))
  get-saved dir name id fs = simp (get-insert, text_eq-in_dir)

  read_file-saved :
      (dir name s : Text) (id : Identity l) (fs : Files)
      → get (in_dir dir name) (saved dir id fs) ≡ some s
      → read_file (in_dir dir name) (saved dir id fs) ≡ ok s
  unfolding read_file
  read_file-saved dir name s id fs found = rw (read_file, found) refl

  -- An identity that was saved is loaded as it was, if its key is read from its own PEM text and its
  -- unique ID has no white space at its ends.
  pub load_identity-save :
      (writes : Writes) (dir : Text) (id : Identity l) (fs fs' : Files)
      → tool.from_pkcs8_pem id.key_pem ≡ ok id.key
      → trim id.unique_id ≡ id.unique_id
      → save l tool writes dir id fs ≡ (ok tt, fs')
      → load_identity l tool dir fs' ≡ ok id
  unfolding load_identity from_pem text_eq
  load_identity-save writes dir id fs fs' keyed trimmed done =
      rw
        (
          save-saved writes dir id fs fs' done,
          read_file-saved dir uid_file id.unique_id id fs (get-saved dir uid_file id fs),
          read_file-saved dir cert_file id.cert_pem id fs (get-saved dir cert_file id fs),
          read_file-saved dir key_file id.key_pem id fs (get-saved dir key_file id fs),
          trimmed,
          private_key_of,
          keyed,
        )
        refl
