-- ===== src/Host/Names.antt =====
-- The names of crates/ra-host/src/agent.rs.
use remote_access.Base.{
  ℕ, zero, suc, Bool, ◌||◌, List, [], ◌∷◌, ◌++◌, Text, Bytes, lit, bytes, from_utf8, trim, is_empty,
  filter_by, take, drop, contains_char, length, unwrap_or, if◌then◌else◌,
}

-- `char::is_alphanumeric` is a parameter.
unfoldable pub sanitize_name : (ℕ → Bool) → Text → Text
sanitize_name is_alphanumeric n =
    let s = take 48 (filter_by (λ c. is_alphanumeric c || contains_char (lit " -_.[]") c) n) in
    if is_empty (trim s) then lit "Remote client" else s

-- `chunks(3)`; as many rounds as there are bytes are enough.
abbrev pub chunks : ℕ → Bytes → List Bytes
chunks zero b = []
chunks (suc n) [] = []
chunks (suc n) (x ∷ xs) = take 3 (x ∷ xs) ∷ chunks n (drop 3 (x ∷ xs))

abbrev pub join_spaced : List Text → Text
join_spaced [] = []
join_spaced (x ∷ []) = x
join_spaced (x ∷ y ∷ ys) = x ++ b' ' ∷ join_spaced (y ∷ ys)

abbrev pub chunk_texts : List Bytes → List Text
chunk_texts [] = []
chunk_texts (b ∷ bs) = unwrap_or (from_utf8 b) (lit "") ∷ chunk_texts bs

unfoldable pub pretty_id : Text → Text
pretty_id id = join_spaced (chunk_texts (chunks (length (bytes id)) (bytes id)))
