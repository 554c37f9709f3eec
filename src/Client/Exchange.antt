-- ===== src/Client/Exchange.antt =====
-- A pairing request from crates/ra-client/src/session.rs through crates/ra-rendezvous/src/lib.rs to
-- crates/ra-host/src/agent.rs.
use remote_access.Base.{ℕ, ◌≡◌, refl, Bool, true, some, Text, ok}
use remote_access.Proto.External.{Crypto, Rng}
use remote_access.Proto.Types.{SubmitPairRequest}
use remote_access.Proto.Hashes.{ct_eq, ct_eq_iff, challenge_response}
use remote_access.Proto.Ids.{is_valid_pin}
use remote_access.Proto.Pins.{derive, derive-length, open_pin-seal_pin}
use remote_access.Rendezvous.State.{Challenge}
use remote_access.Rendezvous.Pairing.{pair_request}
use remote_access.Host.Checks.{challenge_response-IsString}
use remote_access.Host.Agent.{checked_pin}
use remote_access.Client.Remembered.{ClientConfig}
use remote_access.Client.Session.{submit_request}

module _ (c : Crypto) where
  same_response :
      (h1 ch : Text) → ct_eq (challenge_response c h1 ch) (challenge_response c h1 ch) ≡ true
  same_response h1 ch = let s = challenge_response-IsString c h1 ch in (ct_eq_iff _ _ s s).1 refl

  -- With the same password hash on both sides and a challenge as the server issued it, a valid PIN is
  -- submitted by the client, and is the one that the host takes out of the request as the server
  -- passes it on.
  pub checked_pin-submit_request :
      (rng : Rng) (i : ℕ) (cfg : ClientConfig) (uid h1 pin : Text) (remember : Bool) (ttl : ℕ)
      (request_id : Text) (ch : Challenge)
      → is_valid_pin pin ≡ true
      → (req : SubmitPairRequest) × (submit_request c rng i cfg uid h1
            (record { request_id = request_id; challenge = ch.challenge; ttl_secs = ttl })
            pin
            remember
          ≡ ok req)
        × (checked_pin c h1 (pair_request ch req) ≡ some pin)
  unfolding submit_request checked_pin
  checked_pin-submit_request rng i cfg uid h1 pin remember ttl request_id ch valid =
      let sealed =
        open_pin-seal_pin c rng i (derive c h1 ch.challenge) pin (derive-length c h1 ch.challenge)
          valid in
      (
        record {
          request_id = request_id;
          response = challenge_response c h1 ch.challenge;
          device_name = cfg.device_name;
          client_uid = some uid;
          sealed_pin = sealed.0;
          remember = remember;
        },
        rw (sealed.1) refl,
        rw (same_response h1 ch.challenge, sealed.2) refl,
      )
