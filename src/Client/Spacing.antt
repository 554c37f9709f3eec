-- ===== src/Client/Spacing.antt =====
-- `pretty_id` of crates/ra-host/src/agent.rs is undone by `normalize_id` of
-- crates/ra-client/src/session.rs.
use remote_access.Base.{
  ℕ, zero, suc, ◌≤◌, ◌≡◌, refl, ap, ◌∙◌, true, some, List, [], ◌∷◌, ◌++◌, Text, lit, from_utf8,
  from_utf8-bytes, bytes_ascii, digits-ascii, ascii-IsString, IsDigits, is_ascii_digit, filter_by,
  take, drop, length, length-drop, append-nil, All-take, arith, unwrap_or, ok,
}
use remote_access.Proto.Ids.{is_valid_id, is_valid_id_iff}
use remote_access.Host.Names.{chunks, join_spaced, chunk_texts, pretty_id}
use remote_access.Client.Session.{normalize_id}

abbrev digits_of : Text → Text
digits_of = filter_by is_ascii_digit

digits_of-append : (s t : Text) → digits_of (s ++ t) ≡ digits_of s ++ digits_of t
digits_of-append [] t = refl
digits_of-append (c ∷ cs) t = ground (arith, digits_of-append cs t)

digits_kept : (s : Text) → IsDigits s → digits_of s ≡ s
digits_kept [] h = refl
digits_kept (c ∷ cs) h = rw (h.0) (ap (λ r. c ∷ r) (digits_kept cs h.1))

digits_joined :
    (x : Text) (xs : List Text)
    → digits_of (join_spaced (x ∷ xs)) ≡ digits_of x ++ digits_of (join_spaced xs)
digits_joined x [] = rw (append-nil (digits_of x)) refl
digits_joined x (y ∷ ys) = digits_of-append x (b' ' ∷ join_spaced (y ∷ ys))

digits_decoded : (s : Text) → IsDigits s → from_utf8 s ≡ some s
digits_decoded s h =
    let a = digits-ascii s h in rw (bytes_ascii s a) at (from_utf8-bytes s (ascii-IsString s a))

drop-IsDigits : (n : ℕ) (s : Text) → IsDigits s → IsDigits (drop n s)
drop-IsDigits zero s h = h
drop-IsDigits (suc n) [] h = tt
drop-IsDigits (suc n) (x ∷ xs) h = drop-IsDigits n xs h.1

split_at : (n : ℕ) (s : Text) → take n s ++ drop n s ≡ s
split_at zero s = refl
split_at (suc n) [] = refl
split_at (suc n) (x ∷ xs) = ap (λ r. x ∷ r) (split_at n xs)

digits_of-chunk_texts :
    (n : ℕ) (s : Text)
    → length s ≤ n
    → IsDigits s
    → digits_of (join_spaced (chunk_texts (chunks n s))) ≡ s
digits_of-chunk_texts zero [] h d = refl
digits_of-chunk_texts zero (x ∷ xs) h d = absurd (omega arith)
digits_of-chunk_texts (suc n) [] h d = refl
digits_of-chunk_texts (suc n) (x ∷ xs) h d =
    let s = x ∷ xs in
    let first : IsDigits (take 3 s) = All-take (λ c. is_ascii_digit c ≡ true) 3 s d in
    let fewer : length (drop 3 s) ≤ n = omega (arith, length-drop 3 s) in
    let rest = digits_of-chunk_texts n (drop 3 s) fewer (drop-IsDigits 3 s d) in
    let both = digits_joined (take 3 s) (chunk_texts (chunks n (drop 3 s))) in
    let tail = chunk_texts (chunks n (drop 3 s)) in
    ap (λ o. digits_of (join_spaced (unwrap_or o (lit "") ∷ tail)))
      (digits_decoded (take 3 s) first)
    ∙ both
    ∙ (rw (digits_kept (take 3 s) first, rest) (split_at 3 s))

-- The client reads an ID as the host shows it, in groups of three digits, as that ID.
pub normalize_id-pretty_id :
    (id : Text) → is_valid_id id ≡ true → normalize_id (pretty_id id) ≡ ok id
unfolding normalize_id pretty_id
normalize_id-pretty_id id h =
    let d = ((is_valid_id_iff id).0 h).1 in
    let b = bytes_ascii id (digits-ascii id d) in
    let same : digits_of (pretty_id id) ≡ id =
      rw b (digits_of-chunk_texts (length id) id (omega arith) d) in
    rw (same, h) refl
