-- ===== src/Gamestream/Simulated/Bodies.antt =====
-- The replies of crates/ra-gamestream/src/testing.rs, as crates/ra-gamestream/src/xml.rs reads them.
use remote_access.Base.{
  ◌≤◌, ◌≡◌, refl, ap, sym, ◌∙◌, true, Bool-cases, inl, inr, find, Option, none, some, List, [], ◌∷◌,
  ◌++◌, append-nil, Text, Bytes, lit, bytes, All, all, length, IsHex, IsByte, IsString, text_eq,
  parse_i32, parse_unsigned, if◌then◌else◌, ok, arith,
}
use remote_access.Proto.Hashes.{concat}
use remote_access.Gamestream.External.{
  Libraries, root_xml, is_alnum, IsPlain, ArePlain, AreElements,
}
use remote_access.Gamestream.Replies.{Root, parse_root, child, child_text, is_named}
use remote_access.Gamestream.Blocks.{sha256, cert_signature, cert_public_key}

all_alnum : (s : Text) → all is_alnum s ≡ true → All (λ c. is_alnum c ≡ true) s
all_alnum [] h = tt
all_alnum (c ∷ cs) h = (ground arith, all_alnum cs (ground arith))

hex_alnum : (s : Text) → IsHex s → All (λ c. is_alnum c ≡ true) s
hex_alnum [] h = tt
hex_alnum (c ∷ cs) h = (let digit = h.0 in ground arith, hex_alnum cs h.1)

-- The text of the first element of that name
abbrev pub content_of : Text → List (Text × Text) → Option Text
content_of name [] = none
content_of name ((n, content) ∷ es) = if text_eq n name then some content else content_of name es

module _ (l : Libraries) where
  -- What the client reads of a reply with these elements.
  pub record Reads (body : Text) (es : List (Text × Text)) : Type 0 where
    pub root : Root l
    pub parses : parse_root l body ≡ ok root
    pub contents : (name : Text) → child l root name ≡ content_of name es

  abbrev text_of : Option l.Node → Option Text
  text_of none = none
  text_of (some n) = l.text n

  found :
      (ns : List l.Node) (es : List (Text × Text)) (name : Text)
      → AreElements l.is_element l.tag_name l.text ns es
      → text_of (find (is_named l name) ns) ≡ content_of name es
  found [] [] name h = refl
  found [] (x ∷ es) name h = absurd h
  found (n ∷ ns) [] name h = absurd h
  found (n ∷ ns) (x ∷ es) name h = elim (Bool-cases (text_eq x.0 name)) [
    | inl e ↦ rw (h.0, h.1, e) h.2
    | inr e ↦ rw (h.0, h.1, e) (found ns es name h.3)
  ]

  pub reads : (es : List (Text × Text)) → ArePlain es → Reads (root_xml es) es
  unfolding parse_root text_eq parse_i32 parse_unsigned child child_text
  reads es h =
      let r = l.parses_elements es h in
      record {
        root = record { doc = r.0 };
        parses = rw (r.1, r.2, r.3) refl;
        contents = λ name. found (l.children r.0) es name r.4;
      }

-- Each reply of the host but the last two: that it is paired, and one element
abbrev pub paired_with : Text → Text → List (Text × Text)
paired_with name content = (lit "paired", lit "1") ∷ (name, content) ∷ []

pub hex-IsPlain : (s : Text) → IsHex s → 1 ≤ length s → IsPlain s
hex-IsPlain s h n = (n, hex_alnum s h)

paired-IsPlain : IsPlain (lit "paired") × IsPlain (lit "1")
paired-IsPlain =
    ((omega arith, all_alnum (lit "paired") refl), (omega arith, all_alnum (lit "1") refl))

pub paired_with-ArePlain :
    (name content : Text)
    → all is_alnum name ≡ true
    → 1 ≤ length name
    → IsPlain content
    → ArePlain (paired_with name content)
paired_with-ArePlain name content a n h = (paired-IsPlain, (((n, all_alnum name a), h), tt))

pub paired-ArePlain : ArePlain ((lit "paired", lit "1") ∷ [])
paired-ArePlain = (paired-IsPlain, tt)

-- Sixteen bytes, as the handshake draws them
abbrev pub IsBlock : Bytes → Type 0
IsBlock b = (length b ≡ 16) × All IsByte b

module _ (l : Libraries) where
  -- A certificate made for this key, with its signature
  pub record IsCertificate (pem : Text) (key : l.PrivateKey) (sig : Bytes) : Type 0 where
    pub written : IsString pem
    pub nonempty : 1 ≤ length (bytes pem)
    pub signed : cert_signature l pem ≡ ok sig
    pub keyed : cert_public_key l pem ≡ ok (l.public_of key)

  -- The hash of three parts is that of their concatenation.
  pub hashed : (a b c : Bytes) → sha256 l (a ∷ b ∷ c ∷ []) ≡ sha256 l ((a ++ (b ++ c)) ∷ [])
  unfolding sha256
  hashed a b c =
      ap (λ r. l.crypto.sha256 (a ++ (b ++ r))) (append-nil c)
      ∙ sym (ap l.crypto.sha256 (append-nil (a ++ (b ++ c))))

  pub hash_size : (parts : List Bytes) → length (sha256 l parts) ≡ 32
  unfolding sha256
  hash_size parts = l.crypto.sha256_length (concat parts)

  pub hash_bytes : (parts : List Bytes) → All IsByte (sha256 l parts)
  unfolding sha256
  hash_bytes parts = l.crypto.sha256_bytes (concat parts)

  pub hex_size : (b : Bytes) → 1 ≤ length b → 1 ≤ length (l.crypto.hex_encode b)
  hex_size b h = omega (arith, l.crypto.hex_encode_length b)

  -- The reply that carries bytes in an element
  abbrev pub carrying : Text → Bytes → Text
  carrying name b = root_xml (paired_with name (l.crypto.hex_encode b))

  pub Reads-bytes :
      (name : Text) (b : Bytes)
      → all is_alnum name ≡ true
      → 1 ≤ length name
      → All IsByte b
      → 1 ≤ length b
      → Reads l (carrying name b) (paired_with name (l.crypto.hex_encode b))
  Reads-bytes name b a n y s = reads l (paired_with name (l.crypto.hex_encode b)) (
      paired_with-ArePlain name (l.crypto.hex_encode b) a n
        (hex-IsPlain (l.crypto.hex_encode b) (l.crypto.hex_encode_digits b y) (hex_size b s)))
