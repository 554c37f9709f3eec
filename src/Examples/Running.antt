-- ===== src/Examples/Running.antt =====
-- The loop of the agent at concrete inputs.
use remote_access.Base.{
  ℕ, suc, none, some, List, [], ◌∷◌, ◌++◌, ◌+◌, ◌≡◌, refl, true, All, length, ok, err, lit, bytes,
  arith,
}
use remote_access.Proto.Types.{PairRequest, PairResult}
use remote_access.Proto.Hashes.{challenge_response, sha256_parts}
use remote_access.Host.Running.{World, run, serve_requests}
use remote_access.Host.Running.Answered.{Observer}
use remote_access.Host.Running.Refused.{IsWrong, IsBackoff, rejecting, serve_requests-rejects}
use remote_access.Host.Running.Registered.{RunKeeps, run-RunKeeps}
use remote_access.Examples.Crypto.{copy_crypto, copy_hash, low_bytes, zero_bytes, to_hex, hex_digit}
use remote_access.Examples.Host.{apollo, host_config, is_letter, wrong_sent}

-- A server that gives the ID 123456789, and hands out one request with a wrong password at each poll
abbrev world : World ℕ
world = record {
  post_register = λ r n. (
    ok (record {
      id = lit "123456789";
      observed_addr = some (lit "203.0.113.7");
      heartbeat_secs = 30;
    }),
    suc n,
  );
  send_heartbeat = λ id token eps n. (none, suc n);
  poll_requests = λ id token n. (ok (200, wrong_sent ∷ []), suc n);
  post_result = λ id token r n. suc n;
  save_config = λ cfg n. (ok tt, suc n);
  interfaces = λ n. none;
  now = λ n. n;
  wait_ticks = λ n. [];
  sleep = λ secs n. suc n;
  apollo = apollo;
  check_apollo = λ n. suc n;
}

abbrev Log : Type 0
Log = List PairResult × ℕ

-- The same world, which keeps the results that were posted and the seconds that were slept
abbrev logging : World Log
logging = record {
  post_register = λ r s. (err (lit "offline"), s);
  send_heartbeat = λ id token eps s. (none, s);
  poll_requests = λ id token s. (err (lit "offline"), s);
  post_result = λ id token r s. (s.0 ++ r ∷ [], s.1);
  save_config = λ cfg s. (ok tt, s);
  interfaces = λ s. none;
  now = λ s. s.1;
  wait_ticks = λ s. [];
  sleep = λ secs s. (s.0, s.1 + secs);
  apollo = record {
    list_clients = λ s. (ok [], s);
    submit_pin = λ pin name s. (ok true, s);
    update_client = λ x s. (ok tt, s);
  };
  check_apollo = λ s. s;
}

abbrev observer : Observer logging
observer = record {
  posts = λ s. s.0;
  slept = λ s. s.1;
  posts-post_result = λ id token r s. refl;
  slept-post_result = λ id token r s. refl;
  posts-sleep = λ n s. refl;
  slept-sleep = λ n s. refl;
  posts-apollo = record {
    listing = λ s. refl;
    submitting = λ pin name s. refl;
    updating = λ x s. refl;
  };
  slept-apollo = record {
    listing = λ s. refl;
    submitting = λ pin name s. refl;
    updating = λ x s. refl;
  };
}

abbrev batch : List PairRequest
batch = wrong_sent ∷ wrong_sent ∷ []

wrong : IsWrong copy_crypto (lit "h1") wrong_sent
unfolding challenge_response sha256_parts bytes copy_hash low_bytes zero_bytes to_hex hex_digit
wrong = record { string = ground arith; wrong = λ e. cc }

serve_requests-rejects_example :
    (waits : List ℕ) × (length waits ≡ 2)
    × All IsBackoff waits
    × (serve_requests copy_crypto is_letter
          (lit "linux")
          (lit "0.1.0")
          logging
          host_config
          (lit "h1")
          (lit "123456789")
          batch
          3
          ([], 0)
        ≡ (
          some 5,
          rejecting copy_crypto is_letter
              (lit "linux")
              (lit "0.1.0")
              logging
              (lit "123456789")
              host_config.token
              batch
              waits
              ([], 0),
        ))
serve_requests-rejects_example =
    serve_requests-rejects copy_crypto is_letter (lit "linux") (lit "0.1.0") logging host_config
      (lit "h1") (lit "123456789") batch 3 ([], 0) (wrong, (wrong, tt))

run-RunKeeps_example :
    RunKeeps copy_crypto is_letter
      (lit "linux")
      (lit "0.1.0")
      world
      host_config
      (run copy_crypto is_letter (lit "linux") (lit "0.1.0") world 2 host_config 0).0
run-RunKeeps_example =
    run-RunKeeps copy_crypto is_letter (lit "linux") (lit "0.1.0") world 2 host_config 0
