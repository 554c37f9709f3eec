-- ===== src/Host/Checks.antt =====
-- The check of a request in crates/ra-host/src/agent.rs.
use remote_access.Base.{
  ◌≡◌, refl, true, some, Text, IsString, Result, ok, err, arith, ascii-IsString,
}
use remote_access.Proto.External.{Crypto}
use remote_access.Proto.Types.{PairRequest}
use remote_access.Proto.Hashes.{ct_eq_iff, challenge_response, sha256_parts}
use remote_access.Proto.Ids.{is_valid_pin}
use remote_access.Proto.Pins.{derive, open_pin, open_pin-valid, CryptoError}
use remote_access.Host.Agent.{checked_pin}

module _ (c : Crypto) where
  pub challenge_response-IsString : (h1 ch : Text) → IsString (challenge_response c h1 ch)
  unfolding challenge_response sha256_parts
  challenge_response-IsString h1 ch = ascii-IsString _ (c.hex_encode_ascii _ (c.sha256_bytes _))

  opened :
      (h1 pin : Text) (pr : PairRequest) (r : Result CryptoError Text)
      → open_pin c (derive c h1 pr.challenge) pr.sealed_pin ≡ r
      → checked_pin c h1 pr ≡ some pin
      → is_valid_pin pin ≡ true
  unfolding checked_pin
  opened h1 pin pr (err x) er e = absurd (ground arith)
  opened h1 pin pr (ok p) er e =
      open_pin-valid c (derive c h1 pr.challenge) pr.sealed_pin pin (ground arith)

  -- A host takes a PIN only out of a request whose response is the hash that its own password hash
  -- makes of the challenge, and the PIN is valid.
  pub checked_pin-right :
      (h1 pin : Text) (pr : PairRequest)
      → IsString pr.response
      → checked_pin c h1 pr ≡ some pin
      → (pr.response ≡ challenge_response c h1 pr.challenge) × (is_valid_pin pin ≡ true)
  unfolding checked_pin
  checked_pin-right h1 pin pr string e =
      let s = challenge_response-IsString h1 pr.challenge in
      ((ct_eq_iff _ _ string s).0 (ground arith), opened h1 pin pr _ refl e)
