-- ===== src/Examples/Libraries.antt =====
-- Concrete functions for what crates/ra-gamestream uses of other crates. Every reply has status 200;
-- its first character is dropped, and what is left is the text of each element that pairing reads.
use remote_access.Base.{
  ◌≤◌, ◌≡◌, refl, true, Option, none, some, List, [], ◌∷◌, ◌++◌, Text, Bytes, lit, bytes, text_eq,
  text_eq_refl, length, length-append, length-take, take, take-append, IsByte, All, All-take,
  All-append, arith, Result, ok, unwrap_or, if◌then◌else◌,
}
use remote_access.Gamestream.External.{Libraries, root_xml, ArePlain, AreElements}
use remote_access.Examples.Crypto.{
  copy_crypto, zero_bytes, length-zero_bytes, zero_bytes-IsByte, low_bytes, low_bytes-IsByte,
}
use remote_access.Examples.Parser.{read_document, read_document-root_xml}

pub data Element : Type 0 where
  leaf : Text → Text → Element
  top : List (Text × Text) → Element

unfoldable pub drop_first : Text → Text
drop_first [] = []
drop_first (c ∷ cs) = cs

abbrev pub element_name : Element → Text
element_name (leaf n t) = n
element_name (top es) = lit "root"

abbrev pub element_text : Element → Option Text
element_text (leaf n t) = some t
element_text (top es) = none

abbrev pub leaves : List (Text × Text) → List Element
leaves [] = []
leaves ((n, t) ∷ es) = leaf n t ∷ leaves es

abbrev pub elements : Element → List Element
elements (leaf n t) = []
elements (top es) = leaves es

-- What a body that is no such document is read as
abbrev pub short_reply : Text → List (Text × Text)
short_reply b =
    (lit "paired", lit "1")
    ∷ (lit "appversion", lit "7.1")
    ∷ (lit "plaincert", drop_first b)
    ∷ (lit "challengeresponse", drop_first b)
    ∷ (lit "pairingsecret", drop_first b)
    ∷ []

unfoldable pub read_body : Text → Result Text Element
unfolding read_document
read_body b = ok (top (unwrap_or (read_document b) (short_reply b)))

abbrev pub status_of : Element → Text → Option Text
status_of e n = if text_eq n (lit "status_code") then some (lit "200") else none

leaves-AreElements :
    (es : List (Text × Text)) → AreElements (λ e. true) element_name element_text (leaves es) es
leaves-AreElements [] = tt
leaves-AreElements ((n, t) ∷ es) = (refl, refl, refl, leaves-AreElements es)

pub read_body-root_xml :
    (es : List (Text × Text))
    → ArePlain es
    → (n : Element) × (read_body (root_xml es) ≡ ok n)
      × (element_name n ≡ lit "root")
      × (status_of n (lit "status_code") ≡ some (lit "200"))
      × AreElements (λ e. true) element_name element_text (elements n) es
unfolding read_body text_eq
read_body-root_xml es p =
    (top es, rw (read_document-root_xml es p) refl, refl, refl, leaves-AreElements es)

unfoldable pub pad_block : Bytes → Bytes
unfolding low_bytes
pad_block b = take 16 (low_bytes b ++ zero_bytes 16)

pub pad_block-length : (b : Bytes) → length (pad_block b) ≡ 16
unfolding pad_block
pad_block-length b = omega (
  arith,
  length-take 16 (low_bytes b ++ zero_bytes 16),
  length-append (low_bytes b) (zero_bytes 16),
  length-zero_bytes 16,
)

pub pad_block-IsByte : (b : Bytes) → All IsByte (pad_block b)
unfolding pad_block
pad_block-IsByte b =
    All-take IsByte 16 (low_bytes b ++ zero_bytes 16)
      (All-append IsByte (low_bytes b) (zero_bytes 16) (low_bytes-IsByte b) (zero_bytes-IsByte 16))

low_bytes_whole : (b : Bytes) → All IsByte b → low_bytes b ≡ b
unfolding low_bytes
low_bytes_whole [] h = refl
low_bytes_whole (x ∷ xs) h = ground (arith, low_bytes_whole xs h.1)

pad_block-whole : (b : Bytes) → length b ≡ 16 → All IsByte b → pad_block b ≡ b
unfolding pad_block
pad_block-whole b h y = rw (low_bytes_whole b y) (rw (← h) (take-append b (zero_bytes (length b))))

pub pad_block_twice : (b : Bytes) → length b ≡ 16 → All IsByte b → pad_block (pad_block b) ≡ b
pad_block_twice b h y = rw (pad_block-whole b h y) (pad_block-whole b h y)

-- The signature is the message after a first byte.
unfoldable pub mark : Bytes → Bytes
unfolding low_bytes
mark m = 1 ∷ low_bytes m

pub mark-IsByte : (m : Bytes) → All IsByte (mark m)
unfolding mark
mark-IsByte m = (omega arith, low_bytes-IsByte m)

pub mark-nonempty : (m : Bytes) → 1 ≤ length (mark m)
unfolding mark
mark-nonempty m = omega arith

abbrev pub toy_libraries : Libraries
toy_libraries = record {
  crypto = copy_crypto;
  hex_encode_upper = copy_crypto.hex_encode;
  hex_encode_upper_digits = copy_crypto.hex_encode_digits;
  Node = Element;
  parse_document = read_body;
  tag_name = element_name;
  attribute = status_of;
  children = elements;
  is_element = λ e. true;
  text = element_text;
  parses_elements = read_body-root_xml;
  encrypt_block = λ k b. pad_block b;
  decrypt_block = λ k b. pad_block b;
  encrypt_block_length = λ k b. pad_block-length b;
  decrypt_block_length = λ k b. pad_block-length b;
  encrypt_block_bytes = λ k b. pad_block-IsByte b;
  decrypt_block-encrypt_block = λ k b hk hb hy. pad_block_twice b hb hy;
  pem_certs = λ pem. ok (bytes pem ∷ []);
  X509 = Bytes;
  parse_x509 = λ der. ok der;
  signature_value = λ c. c;
  subject_public_key = λ c. c;
  PublicKey = Bytes;
  PrivateKey = Bytes;
  from_pkcs1_der = λ k. ok k;
  sign = λ k m. mark m;
  verify = λ k m s. text_eq (mark m) s;
  public_of = λ k. k;
  sign_bytes = λ k m. mark-IsByte m;
  sign_nonempty = λ k m. mark-nonempty m;
  verify-sign = λ k m. text_eq_refl (mark m);
}
