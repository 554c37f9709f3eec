-- ===== src/Examples/Simulated.antt =====
-- The simulated host at concrete inputs.
use remote_access.Base.{◌≡◌, refl, [], ◌∷◌, none, ok, lit, bytes, Bytes, arith}
use remote_access.Gamestream.Blocks.{cert_signature, cert_public_key, pem_to_der}
use remote_access.Gamestream.Transport.{Identity}
use remote_access.Gamestream.Pairing.{with_random, start, otpauth}
use remote_access.Gamestream.Simulated.{FakeHost, new_fake_host, pin_of, run_with}
use remote_access.Gamestream.Simulated.Bodies.{IsBlock, IsCertificate}
use remote_access.Gamestream.Simulated.Completes.{Pairs, run_with-Pairs}
use remote_access.Examples.Libraries.{toy_libraries}
use remote_access.Examples.Crypto.{to_hex}

abbrev client : Identity toy_libraries
client = record {
  unique_id = lit "0123456789ABCDEF";
  cert_pem = lit "client";
  key_pem = lit "key";
  key = bytes (lit "client");
}

abbrev pub host : FakeHost toy_libraries
host = new_fake_host toy_libraries (bytes (lit "host")) (lit "host") (lit "1234")

abbrev sevens : Bytes
sevens = 7 ∷ 7 ∷ 7 ∷ 7 ∷ 7 ∷ 7 ∷ 7 ∷ 7 ∷ 7 ∷ 7 ∷ 7 ∷ 7 ∷ 7 ∷ 7 ∷ 7 ∷ 7 ∷ []

sevens-IsBlock : IsBlock sevens
sevens-IsBlock = (refl, omega arith)

host_secret-IsBlock : IsBlock host.server_secret
unfolding new_fake_host
host_secret-IsBlock = (refl, omega arith)

host_challenge-IsBlock : IsBlock host.server_challenge
unfolding new_fake_host
host_challenge-IsBlock = (refl, omega arith)

host-IsCertificate : IsCertificate toy_libraries host.cert_pem host.key (bytes (lit "host"))
unfolding new_fake_host cert_signature cert_public_key pem_to_der bytes
host-IsCertificate = record {
  written = ground arith;
  nonempty = omega arith;
  signed = refl;
  keyed = refl;
}

client-IsCertificate : IsCertificate toy_libraries client.cert_pem client.key (bytes (lit "client"))
unfolding cert_signature cert_public_key pem_to_der bytes
client-IsCertificate = record {
  written = ground arith;
  nonempty = omega arith;
  signed = refl;
  keyed = refl;
}

agreed :
    pin_of toy_libraries host (to_hex sevens) (
      otpauth toy_libraries
        (with_random toy_libraries client (lit "1234") none sevens sevens sevens))
    ≡ ok (lit "1234")
unfolding pin_of otpauth with_random new_fake_host
agreed = refl

run_with-Pairs_example : Pairs toy_libraries host (
    run_with toy_libraries 5 host
      (with_random toy_libraries client (lit "1234") none sevens sevens sevens)
      (start toy_libraries
        (with_random toy_libraries client (lit "1234") none sevens sevens sevens)))
run_with-Pairs_example =
    run_with-Pairs toy_libraries host client (lit "1234") none sevens sevens sevens
      (bytes (lit "host")) (bytes (lit "client")) 5 (omega arith) host-IsCertificate
      client-IsCertificate sevens-IsBlock sevens-IsBlock sevens-IsBlock host_secret-IsBlock
      host_challenge-IsBlock agreed
