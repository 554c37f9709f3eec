-- ===== src/Examples/Parser.antt =====
-- A parser of the documents that GameStream servers send: a list of elements with a text each.
use remote_access.Base.{
  ℕ, zero, suc, ◌<◌, ◌≡◌, refl, true, false, ◌==◌, Option, none, some, List, [], ◌∷◌, ◌++◌, ap, ◌∙◌,
  subst, Bool-cases, inl, inr, ==_iff, Text, lit, length, length-append, All, Lacks, strip_prefix,
  strip_prefix-append, is_empty, append_assoc, arith, if◌then◌else◌,
}
use remote_access.Gamestream.External.{
  element_xml, elements_xml, root_xml, is_alnum, IsPlain, ArePlain,
}

unfoldable pub span_until : ℕ → Text → Text × Text
span_until c [] = ([], [])
span_until c (x ∷ xs) = let r = span_until c xs in if x == c then ([], x ∷ xs) else (x ∷ r.0, r.1)

closing_tag : Text → Text
closing_tag name = lit "</" ++ (name ++ lit ">")

read_more : Text → Text → Option Text → Option (Text × Text × Text)
read_more name content none = none
read_more name content (some more) = some (name, content, more)

-- After the name: the text up to the closing tag, and what follows it
read_content : Text → Text × Text → Option (Text × Text × Text)
unfolding strip_prefix closing_tag read_more
read_content name r = read_more name r.0 (strip_prefix r.1 (closing_tag name))

read_name : Text × Text → Option (Text × Text × Text)
unfolding span_until strip_prefix read_content
read_name r = elim (strip_prefix r.1 (lit ">")) [
  | none ↦ none
  | some b ↦ read_content r.0 (span_until b'<' b)
]

-- The name, the text, and what follows the element
unfoldable pub read_element : Text → Option (Text × Text × Text)
unfolding read_name
read_element s = elim (strip_prefix s (lit "<")) [
  | none ↦ none
  | some a ↦ read_name (span_until b'>' a)
]

unfoldable pub read_elements : ℕ → Text → Option (List (Text × Text))
unfolding read_element
read_elements zero s = none
read_elements (suc fuel) s = elim (strip_prefix s (lit "</root>")) [
  | some rest ↦ if is_empty rest then some [] else none
  | none ↦ elim (read_element s) [
    | none ↦ none
    | some e ↦ elim (read_elements fuel e.2) [ none ↦ none | some es ↦ some ((e.0, e.1) ∷ es) ]
  ]
]

unfoldable pub read_document : Text → Option (List (Text × Text))
unfolding read_elements
read_document s = elim (strip_prefix s (lit "<root status_code=\"200\">")) [
  | none ↦ none
  | some rest ↦ read_elements (length rest) rest
]

span_until-append :
    (c : ℕ) (v rest : Text) → Lacks c v → span_until c (v ++ c ∷ rest) ≡ (v, c ∷ rest)
unfolding span_until
span_until-append c [] rest h = ground arith
span_until-append c (x ∷ xs) rest h = rw (h.0, span_until-append c xs rest h.1) refl

alnum_other : (c x : ℕ) → is_alnum c ≡ false → is_alnum x ≡ true → (x == c) ≡ false
alnum_other c x n h = elim (Bool-cases (x == c)) [
  | inr e ↦ e
  | inl e ↦ absurd (ground (arith, subst (λ y. is_alnum y ≡ true) ((==_iff x c).0 e) h))
]

alnum-Lacks : (c : ℕ) → is_alnum c ≡ false → (s : Text) → All (λ x. is_alnum x ≡ true) s → Lacks c s
alnum-Lacks c n [] h = tt
alnum-Lacks c n (x ∷ xs) h = (alnum_other c x n h.0, alnum-Lacks c n xs h.1)

read_content-closed :
    (name content rest : Text)
    → read_content name (content, lit "</" ++ (name ++ (lit ">" ++ rest)))
      ≡ some (name, content, rest)
unfolding read_content read_more
read_content-closed name content rest =
    let d : strip_prefix (lit "</" ++ (name ++ (lit ">" ++ rest))) (closing_tag name) ≡ some rest =
      unfold closing_tag in
      rw (← append_assoc name (lit ">") rest)
        (strip_prefix-append (lit "</" ++ (name ++ lit ">")) rest) in
    ap (read_more name content) d

read_element-element_xml :
    (name content rest : Text)
    → IsPlain name
    → IsPlain content
    → read_element (element_xml name content rest) ≡ some (name, content, rest)
unfolding read_element strip_prefix read_name
read_element-element_xml name content rest n c =
    let tail = lit "</" ++ (name ++ (lit ">" ++ rest)) in
    let a = span_until-append b'>' name (content ++ tail) (alnum-Lacks b'>' refl name n.1) in
    let b =
      span_until-append b'<' content (lit "/" ++ (name ++ (lit ">" ++ rest)))
        (alnum-Lacks b'<' refl content c.1) in
    ap read_name a ∙ (ap (read_content name) b ∙ read_content-closed name content rest)

not_closed :
    (name content rest : Text)
    → IsPlain name
    → strip_prefix (element_xml name content rest) (lit "</root>") ≡ none
unfolding strip_prefix
not_closed [] content rest n = absurd (omega (arith, n.0))
not_closed (x ∷ xs) content rest n =
    let slash : (x == b'/') ≡ false = (alnum-Lacks b'/' refl (x ∷ xs) n.1).0 in rw slash refl

read_elements-elements_xml :
    (fuel : ℕ) (es : List (Text × Text))
    → ArePlain es
    → length es < fuel
    → read_elements fuel (elements_xml es) ≡ some es
unfolding read_elements
read_elements-elements_xml zero es p h = absurd (omega arith)
read_elements-elements_xml (suc fuel) [] p h = unfold strip_prefix in refl
read_elements-elements_xml (suc fuel) ((n, c) ∷ es) p h =
    rw
      (
        not_closed n c (elements_xml es) p.0.0,
        read_elements,
        read_element-element_xml n c (elements_xml es) p.0.0 p.0.1,
        read_elements-elements_xml fuel es p.1 (omega arith),
      )
      refl

length-elements_xml : (es : List (Text × Text)) → length es < length (elements_xml es)
length-elements_xml [] = omega arith
length-elements_xml ((n, c) ∷ es) = omega (
  arith,
  length-elements_xml es,
  length-append n (lit ">" ++ (c ++ (lit "</" ++ (n ++ (lit ">" ++ elements_xml es))))),
  length-append c (lit "</" ++ (n ++ (lit ">" ++ elements_xml es))),
  length-append n (lit ">" ++ elements_xml es),
)

pub read_document-root_xml :
    (es : List (Text × Text)) → ArePlain es → read_document (root_xml es) ≡ some es
unfolding read_document strip_prefix
read_document-root_xml es p =
    read_elements-elements_xml (length (elements_xml es)) es p (length-elements_xml es)
