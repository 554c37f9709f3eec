-- ===== src/Gamestream/External.antt =====
-- What crates/ra-gamestream takes from other crates: `roxmltree`, `aes`, `rsa`, `x509-parser`,
-- `rustls-pemfile` and, with `sha2` and `hex`, those of crates/ra-proto. An error is its message.
use remote_access.Base.{
  ℕ, ◌≤◌, ◌≡◌, Bool, true, Option, some, List, [], ◌∷◌, ◌++◌, ◌&&◌, ◌||◌, leb, Text, lit, Bytes,
  IsByte, IsHex, All, length, Result, ok,
}
use remote_access.Proto.External.{Crypto}

-- A document of the form that GameStream servers send: elements with a text each.
abbrev pub element_xml : Text → Text → Text → Text
element_xml name content rest =
    lit "<" ++ (name ++ (lit ">" ++ (content ++ (lit "</" ++ (name ++ (lit ">" ++ rest))))))

abbrev pub elements_xml : List (Text × Text) → Text
elements_xml [] = lit "</root>"
elements_xml ((name, content) ∷ es) = element_xml name content (elements_xml es)

abbrev pub root_xml : List (Text × Text) → Text
root_xml es = lit "<root status_code=\"200\">" ++ elements_xml es

-- ASCII letters and digits
abbrev pub is_alnum : ℕ → Bool
is_alnum c = leb b'0' c && leb c b'9' || leb b'a' c && leb c b'z' || leb b'A' c && leb c b'Z'

-- A name or a text that needs no escapes
abbrev pub IsPlain : Text → Type 0
IsPlain s = (1 ≤ length s) × All (λ c. is_alnum c ≡ true) s

abbrev pub ArePlain : List (Text × Text) → Type 0
ArePlain = All (λ e. IsPlain e.0 × IsPlain e.1)

-- These nodes are the elements of these names and texts.
abbrev pub AreElements :
    {N : Type 0}
    → (N → Bool)
    → (N → Text)
    → (N → Option Text)
    → List N
    → List (Text × Text)
    → Type 0
AreElements is_element tag_name text [] [] = Unit
AreElements is_element tag_name text [] (e ∷ es) = ⊥
AreElements is_element tag_name text (n ∷ ns) [] = ⊥
AreElements is_element tag_name text (n ∷ ns) ((name, content) ∷ es) =
    (is_element n ≡ true)
    × (tag_name n ≡ name)
    × (text n ≡ some content)
    × AreElements is_element tag_name text ns es

pub record Libraries : Type 1 where
  pub crypto : Crypto
  pub hex_encode_upper : Bytes → Text
  pub hex_encode_upper_digits : (b : Bytes) → All IsByte b → IsHex (hex_encode_upper b)
  -- `roxmltree`: the root element of a document, and what the code reads of an element
  pub Node : Type 0
  pub parse_document : Text → Result Text Node
  pub tag_name : Node → Text
  pub attribute : Node → Text → Option Text
  pub children : Node → List Node
  pub is_element : Node → Bool
  pub text : Node → Option Text
  pub parses_elements :
      (es : List (Text × Text))
      → ArePlain es
      → (n : Node) × (parse_document (root_xml es) ≡ ok n)
        × (tag_name n ≡ lit "root")
        × (attribute n (lit "status_code") ≡ some (lit "200"))
        × AreElements is_element tag_name text (children n) es
  -- `Aes128`: the key and one block
  pub encrypt_block : Bytes → Bytes → Bytes
  pub decrypt_block : Bytes → Bytes → Bytes
  pub encrypt_block_length : (k b : Bytes) → length (encrypt_block k b) ≡ 16
  pub decrypt_block_length : (k b : Bytes) → length (decrypt_block k b) ≡ 16
  pub encrypt_block_bytes : (k b : Bytes) → All IsByte (encrypt_block k b)
  pub decrypt_block-encrypt_block :
      (k b : Bytes)
      → length k ≡ 16
      → length b ≡ 16
      → All IsByte b
      → decrypt_block k (encrypt_block k b) ≡ b
  -- `rustls_pemfile::certs`: the certificates of a PEM text
  pub pem_certs : Text → Result Text (List Bytes)
  -- `x509_parser`
  pub X509 : Type 0
  pub parse_x509 : Bytes → Result Text X509
  pub signature_value : X509 → Bytes
  pub subject_public_key : X509 → Bytes
  -- `rsa`: PKCS#1 v1.5 over SHA-256; `verify` also refuses what is no signature
  pub PublicKey : Type 0
  pub PrivateKey : Type 0
  pub from_pkcs1_der : Bytes → Result Text PublicKey
  pub sign : PrivateKey → Bytes → Bytes
  pub verify : PublicKey → Bytes → Bytes → Bool
  pub public_of : PrivateKey → PublicKey
  pub sign_bytes : (k : PrivateKey) (m : Bytes) → All IsByte (sign k m)
  pub sign_nonempty : (k : PrivateKey) (m : Bytes) → 1 ≤ length (sign k m)
  pub verify-sign : (k : PrivateKey) (m : Bytes) → verify (public_of k) m (sign k m) ≡ true
