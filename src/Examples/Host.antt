-- ===== src/Examples/Host.antt =====
-- crates/ra-host and the agent of crates/ra-desk at concrete inputs.
use remote_access.Base.{
  if◌then◌else◌, ◌==◌, Text, ◌+◌, first_field, strip_prefix, ℕ, ◌≤◌, ◌≡◌, refl, true, false, Bool,
  none, some, List, [], ◌∷◌, ◌++◌, lit, length, ok, err, suc, bytes, text_eq, bit_and, leb, ◌&&◌,
  from_utf8,
}
use remote_access.Proto.Types.{PairRequest}
use remote_access.Proto.Hashes.{ct_eq, challenge_response, fold_differences, sha256_parts}
use remote_access.Proto.Ids.{is_valid_pin}
use remote_access.Proto.Pins.{derive, open_pin}
use remote_access.Host.Config.{Config, control, server_cmd}
use remote_access.Host.Endpoints.{Interface, endpoints}
use remote_access.Host.Apollos.{
  ApolloClient, Reply, WebClient, WebState, new_web, call, call_from, current_cookie, login,
  send_call, auth_cookie,
}
use remote_access.Host.Calls.{call-bounds, TriedAgain}
use remote_access.Desk.{
  starts, stops, fails, recovers, run_runner, new_runner, RunnerEvent, running, runner_step,
  start_agent, stop_agent, agent_restarts, IsTracked, run_runner-IsTracked,
}
use remote_access.Host.Names.{pretty_id}
use remote_access.Host.Agent.{
  Apollo, Tick, checked_pin, handle_pair, answer_request, serve_request, failures_after,
  pair_with_apollo, wait_client, deliver, new_client, finish_pair,
}
use remote_access.Host.Requests.{
  WasPaired, serve_request-right, endpoints-distinct, HasDistinctHosts,
}
use remote_access.Host.Checks.{challenge_response-IsString}
use remote_access.Examples.Crypto.{
  copy_crypto, copy_hash, low_bytes, zero_bytes, to_hex, hex_digit, of_hex, digit_value, join_byte,
  untag,
}

abbrev sent : PairRequest
sent = record {
  request_id = lit "r1";
  challenge = lit "c0ffee";
  response = challenge_response copy_crypto (lit "h1") (lit "c0ffee");
  device_name = lit "laptop";
  client_uid = none;
  sealed_pin = to_hex (zero_bytes 12 ++ lit "0042" ++ zero_bytes 16);
  remember = false;
}

sent-accepted : checked_pin copy_crypto (lit "h1") sent ≡ some (lit "0042")
unfolding checked_pin ct_eq fold_differences challenge_response sha256_parts open_pin derive
    is_valid_pin bytes from_utf8 copy_hash low_bytes zero_bytes to_hex of_hex hex_digit digit_value
    join_byte untag
sent-accepted = refl

abbrev pub wrong_sent : PairRequest
wrong_sent = record {
  request_id = lit "r1";
  challenge = lit "c0ffee";
  response = lit "00";
  device_name = lit "laptop";
  client_uid = none;
  sealed_pin = lit "";
  remember = false;
}

abbrev pub apollo : Apollo ℕ
apollo = record {
  list_clients = λ n. (ok [], suc n);
  submit_pin = λ pin name n. (ok true, suc n);
  update_client = λ c n. (ok tt, suc n);
}

abbrev pub host_config : Config
host_config = record {
  rendezvous_url = lit "http://127.0.0.1:21114";
  id = none;
  token = lit "token";
  name = lit "host";
  password_h1 = some (lit "h1");
  password_salt = lit "salt";
  password_display = none;
  autostart_agent = true;
  apollo_url = lit "https://127.0.0.1:47990";
  apollo_username = lit "apollo";
  apollo_password = lit "apollo";
  gamestream_port = 47989;
  client_permissions = control;
  extra_endpoints =
      record { host = lit "host.example.com"; port = 47989; kind = lit "manual" } ∷ [];
  advertise_public_ip = true;
  advertise_lan_ips = true;
}

-- Characters that are alphanumeric in ASCII
abbrev pub is_letter : ℕ → Bool
is_letter c = leb b'a' c && leb c b'z'

wrong-refused : checked_pin copy_crypto (lit "h1") wrong_sent ≡ none
unfolding checked_pin ct_eq fold_differences challenge_response sha256_parts bytes copy_hash
    low_bytes zero_bytes to_hex hex_digit
wrong-refused = refl

abbrev newcomer : ApolloClient
newcomer = record {
  name = lit "";
  uuid = lit "u1";
  perm = 0;
  connected = false;
  display_mode = lit "";
  enable_legacy_ordering = true;
  allow_client_commands = true;
  always_use_virtual_display = false;
  do_cmds = [];
  undo = [];
}

-- A web UI that lists a client from its second list on
abbrev pairing_apollo : Apollo ℕ
pairing_apollo = record {
  list_clients = λ n. (ok (if n == 0 then [] else newcomer ∷ []), suc n);
  submit_pin = λ pin name n. (ok true, suc n);
  update_client = λ c n. (ok tt, suc n);
}

abbrev one_tick : List Tick
one_tick = record { now = 10; now_due = 10; delivered_at = 20 } ∷ []

was_paired :
    WasPaired
      (serve_request copy_crypto is_letter pairing_apollo host_config
        (lit "h1")
        one_tick
        0
        sent
        0
        0).0
unfolding serve_request handle_pair answer_request failures_after pair_with_apollo wait_client
    deliver new_client finish_pair checked_pin ct_eq fold_differences challenge_response
    sha256_parts open_pin derive is_valid_pin bytes from_utf8 copy_hash low_bytes zero_bytes to_hex
    of_hex hex_digit digit_value join_byte untag text_eq
was_paired = refl

serve_request-right_example :
    (sent.response ≡ challenge_response copy_crypto (lit "h1") (lit "c0ffee"))
    × ((pin : Text) × (checked_pin copy_crypto (lit "h1") sent ≡ some pin)
        × (is_valid_pin pin ≡ true))
serve_request-right_example =
    serve_request-right copy_crypto is_letter pairing_apollo host_config (lit "h1") one_tick 0 sent
      0 0 (challenge_response-IsString copy_crypto (lit "h1") (lit "c0ffee")) was_paired

abbrev ethernet : Interface
ethernet = record {
  name = lit "en0";
  ip = lit "192.168.1.50";
  is_loopback = false;
  first_segment = none;
}

endpoints-distinct_example :
    (length (endpoints host_config (some (ethernet ∷ ethernet ∷ [])) (some (lit "192.168.1.50")))
      ≤ 16)
    × HasDistinctHosts
        (endpoints host_config (some (ethernet ∷ ethernet ∷ [])) (some (lit "192.168.1.50")))
endpoints-distinct_example =
    endpoints-distinct host_config (some (ethernet ∷ ethernet ∷ [])) (some (lit "192.168.1.50"))

spaced : pretty_id (lit "123456789") ≡ lit "123 456 789"
unfolding pretty_id bytes from_utf8
spaced = refl

no_server_commands : bit_and control server_cmd ≡ 0
no_server_commands = refl

-- A web UI that logs in whoever asks, and then answers 200
abbrev web : WebClient × WebState
web =
    new_web
      (λ calls c. ok (record {
        status = 200;
        set_cookies = lit "auth=abc; Path=/" ∷ [];
        json = err (lit "no JSON");
      }))
      (lit "https://127.0.0.1:47990/") (lit "apollo") (lit "apollo")

abbrev fine : Reply
fine = record {
  status = 200;
  set_cookies = lit "auth=abc; Path=/" ∷ [];
  json = err (lit "no JSON");
}

called : (call web.0 false (lit "/api/config") none web.1).0 ≡ ok fine
unfolding new_web call call_from current_cookie login send_call auth_cookie first_field strip_prefix
called = refl

call-bounds_example :
    (length (call web.0 false (lit "/api/config") none web.1).1.calls ≤ length web.1.calls + 4)
    × (fine.status ≡ 401
        → TriedAgain web.0 false
            (lit "/api/config")
            none
            web.1.calls
            (call web.0 false (lit "/api/config") none web.1).1.calls)
call-bounds_example = call-bounds web.0 false (lit "/api/config") none web.1 fine called

abbrev happened : List RunnerEvent
happened =
    starts (record { config = some host_config; can_bind = true })
    ∷ fails (lit "offline")
    ∷ recovers
    ∷ stops
    ∷ []

run_runner-IsTracked_example : IsTracked happened new_runner
run_runner-IsTracked_example = run_runner-IsTracked happened

-- A task that is stopped in its pause of ten seconds, and writes once more
shown_running :
    (run_runner
      (starts (record { config = some host_config; can_bind = true })
        ∷ fails (lit "offline")
        ∷ stops
        ∷ recovers
        ∷ [])
      new_runner)
    ≡ record { lock = false; task = false; state = running }
unfolding runner_step start_agent stop_agent agent_restarts
shown_running = refl
