-- ===== src/Examples/Client.antt =====
-- crates/ra-client at concrete inputs.
use remote_access.Base.{
  ◌≡◌, refl, true, false, Option, none, some, List, [], ◌∷◌, lit, ok, All, bytes, text_eq, map,
}
use remote_access.Proto.Types.{HostInfo, SubmitPairRequest}
use remote_access.Proto.Ids.{is_valid_pin, is_valid_id}
use remote_access.Rendezvous.State.{Challenge}
use remote_access.Rendezvous.Pairing.{pair_request}
use remote_access.Gamestream.ServerInfos.{ServerInfo}
use remote_access.Gamestream.Transport.{new_addr}
use remote_access.Host.Names.{pretty_id}
use remote_access.Host.Agent.{checked_pin}
use remote_access.Client.Remembered.{ClientConfig}
use remote_access.Client.Resolve.{
  Probe, Resolved, resolve, pick_best, sort_ranked, insert_ranked, rank,
}
use remote_access.Client.Best.{IsBest, IsAnswer, resolve-IsBest}
use remote_access.Client.Session.{submit_request, normalize_id}
use remote_access.Client.Spacing.{normalize_id-pretty_id}
use remote_access.Client.Exchange.{checked_pin-submit_request}
use remote_access.Examples.Crypto.{copy_crypto, counting_rng}

abbrev client_config : ClientConfig
client_config = record {
  rendezvous_url = lit "http://127.0.0.1:21114";
  moonlight_path = none;
  device_name = lit "laptop";
  hosts = [];
  stream_args = [];
}

abbrev issued : Challenge
issued = record { host_id = lit "123456789"; challenge = lit "c0ffee"; created = 0 }

pin-valid : is_valid_pin (lit "0042") ≡ true
unfolding is_valid_pin bytes
pin-valid = refl

checked_pin-submit_request_example :
    (req : SubmitPairRequest) × (submit_request copy_crypto counting_rng 0 client_config
        (lit "0123456789ABCDEF")
        (lit "h1")
        (record { request_id = lit "r1"; challenge = lit "c0ffee"; ttl_secs = 120 })
        (lit "0042")
        true
      ≡ ok req)
    × (checked_pin copy_crypto (lit "h1") (pair_request issued req) ≡ some (lit "0042"))
checked_pin-submit_request_example =
    checked_pin-submit_request copy_crypto counting_rng 0 client_config (lit "0123456789ABCDEF")
      (lit "h1") (lit "0042") true 120 (lit "r1") issued pin-valid

abbrev host_info : HostInfo
host_info = record {
  id = lit "123456789";
  name = lit "host";
  platform = lit "linux";
  online = true;
  endpoints =
      record { host = lit "203.0.113.9"; port = 47989; kind = lit "public" }
      ∷ record { host = lit "192.168.1.50"; port = 47989; kind = lit "lan" }
      ∷ [];
  password_salt = lit "salt";
  last_seen_secs = 1;
}

abbrev silent_info : ServerInfo
silent_info = record {
  hostname = lit "host";
  uuid = lit "";
  app_version = lit "7.1";
  gfe_version = lit "";
  https_port = 47984;
  external_port = none;
  local_ip = none;
  external_ip = none;
  mac = none;
  paired = false;
  state = lit "";
  current_game = 0;
  server_codec_mode_support = 0;
  permission = none;
  virtual_display_capable = none;
}

abbrev all_answer : Probe
all_answer a = some silent_info

abbrev found : Option Resolved → List Resolved
found none = []
found (some r) = r ∷ []

resolve-IsBest_example :
    IsAnswer all_answer (resolve all_answer host_info)
    × All (IsBest all_answer (resolve all_answer host_info)) host_info.endpoints
resolve-IsBest_example = resolve-IsBest all_answer host_info

lan_first :
    map (λ (r : Resolved). r.endpoint.kind) (found (resolve all_answer host_info)) ≡ lit "lan" ∷ []
unfolding resolve pick_best sort_ranked insert_ranked rank text_eq new_addr
lan_first = refl

id-valid : is_valid_id (lit "123456789") ≡ true
unfolding is_valid_id bytes
id-valid = refl

normalize_id-pretty_id_example : normalize_id (pretty_id (lit "123456789")) ≡ ok (lit "123456789")
normalize_id-pretty_id_example = normalize_id-pretty_id (lit "123456789") id-valid
