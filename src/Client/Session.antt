-- ===== src/Client/Session.antt =====
-- crates/ra-client/src/session.rs: IDs, passwords, the request of a pairing and its result.
use remote_access.Base.{
  ℕ, Bool, true, false, Option, none, some, List, [], ◌∷◌, ◌++◌, map, Text, lit, text_eq,
  is_ascii_digit, filter_by, find, trim_end_matches, get, unwrap_or, Result, ok, err, ◌>>=◌,
  if◌then◌else◌, leb, ◌&&◌, ◌+◌,
}
use remote_access.Proto.External.{Crypto, Rng}
use remote_access.Proto.Types.{
  ChallengeResponse, SubmitPairRequest, PairResult, accepted, paired, rejected, failed, api_version,
}
use remote_access.Proto.Hashes.{password_h1, challenge_response}
use remote_access.Proto.Ids.{is_valid_id}
use remote_access.Proto.Pins.{CryptoError, derive, seal_pin}
use remote_access.Client.Remembered.{ClientConfig}

unfoldable pub rendezvous_path : ClientConfig → Text → Text
rendezvous_path cfg path =
    trim_end_matches cfg.rendezvous_url b'/' ++ lit "/" ++ api_version ++ path

unfoldable pub normalize_id : Text → Result Text Text
normalize_id input =
    let id = filter_by is_ascii_digit input in
    if is_valid_id id then ok id else err (lit "'" ++ input ++ lit "' is not a valid 9-digit ID")

-- A cached hash is good for the salt that it was made with.
unfoldable pub cached_h1 : ClientConfig → Text → Text → Option Text
cached_h1 cfg id salt = elim (get id cfg.hosts) [
  | none ↦ none
  | some h ↦ elim h.password_h1 [
    | none ↦ none
    | some h1 ↦ elim h.password_salt [
      | none ↦ none
      | some s ↦ if text_eq s salt then some h1 else none
    ]
  ]
]

-- `typed` is what the terminal prompt comes to.
unfoldable pub h1_for :
    Crypto → ClientConfig → Bool → Text → Text → Option Text → Result Text Text → Result Text Text
unfolding cached_h1
h1_for c cfg interactive id salt password typed = elim password [
  | some p ↦ ok (password_h1 c p salt)
  | none ↦ elim (cached_h1 cfg id salt) [
    | some h1 ↦ ok h1
    | none ↦
        if interactive
        then (typed >>= λ p. ok (password_h1 c p salt))
        else err (lit "password required")
  ]
]

-- The request that `pair_with` submits; the nonce of the sealed PIN is the i-th draw.
unfoldable pub submit_request :
    Crypto
    → Rng
    → ℕ
    → ClientConfig
    → Text
    → Text
    → ChallengeResponse
    → Text
    → Bool
    → Result CryptoError SubmitPairRequest
submit_request c rng i cfg unique_id h1 ch pin remember = do
  sealed ← seal_pin c rng i (derive c h1 ch.challenge) pin
  ok (record {
    request_id = ch.request_id;
    response = challenge_response c h1 ch.challenge;
    device_name = cfg.device_name;
    client_uid = some unique_id;
    sealed_pin = sealed;
    remember = remember;
  })

-- What `pair_with` answers for the result that the host posted
unfoldable pub pair_outcome : PairResult → Result Text (Unit {0})
pair_outcome r = elim r.status [
  | paired ↦ ok tt
  | accepted ↦ ok tt
  | rejected ↦ err (lit "wrong password")
  | failed ↦ err (lit "host failed to pair: " ++ unwrap_or r.message (lit ""))
]

-- `eq_ignore_ascii_case("desktop")`
abbrev pub to_lower : ℕ → ℕ
to_lower c = if leb b'A' c && leb c b'Z' then c + 32 else c

abbrev pub is_desktop : Text → Bool
is_desktop a = text_eq (map to_lower a) (lit "desktop")

abbrev pub first_of : List Text → Option Text
first_of [] = none
first_of (a ∷ rest) = some a

-- The app that was asked for, or the last one, or the desktop, or the first one
unfoldable pub choose_app : Option Text → Option Text → List Text → Text
choose_app (some a) last apps = a
choose_app none (some a) apps = a
choose_app none none apps = elim (find is_desktop apps) [
  | some a ↦ a
  | none ↦ unwrap_or (first_of apps) (lit "Desktop")
]

abbrev pub was_paired : PairResult → Bool
was_paired r = elim r.status [
  | paired ↦ true
  | accepted ↦ false
  | rejected ↦ false
  | failed ↦ false
]
