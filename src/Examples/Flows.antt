-- ===== src/Examples/Flows.antt =====
-- The flows of the client at concrete inputs.
use remote_access.Base.{ℕ, suc, none, some, true, false, [], ◌∷◌, lit, ok, bytes, pad_decimal}
use remote_access.Proto.Types.{PairResult, paired, HostInfo, Endpoint}
use remote_access.Gamestream.ServerInfos.{ServerInfo}
use remote_access.Client.Flows.{ClientWorld, Session, polled, presented}
use remote_access.Client.Flows.Streams.{prepare}
use remote_access.Client.Flows.Certificates.{pair_native}
use remote_access.Client.Flows.Native.{IsResultEarly, native_happenings, IsLost, pair_native-IsLost}
use remote_access.Client.Flows.Kept.{Remembers, prepare-Remembers}
use remote_access.Examples.Crypto.{copy_crypto, counting_rng, counting}
use remote_access.Proto.Ids.{random_pin, is_valid_pin}
use remote_access.Proto.Pins.{seal_pin}
use remote_access.Examples.Window.{client_config}

abbrev lan : Endpoint
lan = record { host = lit "192.168.1.50"; port = 47989; kind = lit "lan" }

abbrev host_info : HostInfo
host_info = record {
  id = lit "123456789";
  name = lit "tower";
  platform = lit "linux";
  online = true;
  endpoints = lan ∷ [];
  password_salt = lit "salt";
  last_seen_secs = 1;
}

abbrev server : ServerInfo
server = record {
  hostname = lit "tower";
  uuid = lit "u";
  app_version = lit "7.1.431.-1";
  gfe_version = lit "3.23.0.74";
  https_port = 47984;
  external_port = none;
  local_ip = none;
  external_ip = none;
  mac = none;
  paired = false;
  state = lit "SUNSHINE_SERVER_FREE";
  current_game = 0;
  server_codec_mode_support = 0;
  permission = none;
  virtual_display_capable = none;
}

abbrev result : PairResult
result = record { request_id = lit "r1"; status = paired; message = none }

-- A host that says that it has paired before the client has seen the end of the handshake
abbrev world : ClientWorld ℕ
world = record {
  on_event = λ e n. suc n;
  get_host = λ url n. (ok (200, ok host_info), suc n);
  probes = λ n. ((λ addr. some server), suc n);
  post_challenge = λ url n.
      (ok (record { request_id = lit "r1"; challenge = lit "c0ffee"; ttl_secs = 120 }), suc n);
  post_pair = λ url req n. (ok (200, none), suc n);
  moonlight_pairs =
      λ url host pin n. (presented (ok tt) ∷ polled (ok (some result)) false ∷ [], suc n);
  native_pairs = λ addr url pin n. (
    polled (ok none) false ∷ polled (ok (some result)) false ∷ presented (ok (lit "host")) ∷ [],
    suc n,
  );
  find_moonlight = λ path n. true;
  list_apps = λ host n. (ok (lit "Desktop" ∷ []), suc n);
  stream = λ host app extra n. (ok 0, suc n);
  app_list = λ addr pem n. (ok [], suc n);
  save = λ cfg n. (ok tt, suc n);
  typed = λ prompt n. ok (lit "secret");
}

abbrev session : Session
session = record { cfg = client_config; unique_id = lit "0123456789ABCDEF"; interactive = true }

early : IsResultEarly (
    native_happenings copy_crypto counting_rng world session 0
      (lit "123456789")
      (some (lit "secret"))
      0)
unfolding native_happenings seal_pin is_valid_pin bytes random_pin pad_decimal counting
early = tt

pair_native-IsLost_example : IsLost session (
  (pair_native copy_crypto counting_rng world session 0
      (lit "123456789")
      (some (lit "secret"))
      0).0,
  (pair_native copy_crypto counting_rng world session 0
      (lit "123456789")
      (some (lit "secret"))
      0).1,
)
pair_native-IsLost_example =
    pair_native-IsLost copy_crypto counting_rng world session 0 (lit "123456789")
      (some (lit "secret")) 0 early

prepare-Remembers_example : Remembers (lit "123456789") session (
  (prepare copy_crypto counting_rng world session 0 (lit "123456789") none none true 0).0,
  (prepare copy_crypto counting_rng world session 0 (lit "123456789") none none true 0).1,
)
prepare-Remembers_example =
    prepare-Remembers copy_crypto counting_rng world session 0 (lit "123456789") none none true 0
