-- ===== src/Examples/Identities.antt =====
-- The identity of a client at concrete inputs.
use remote_access.Base.{Text, ◌≡◌, refl, sym, [], none, ok, lit}
use remote_access.Gamestream.Transport.{Identity}
use remote_access.Gamestream.Identities.{
  KeyTool, Files, Writes, generate, self_signed_cert, random_unique_id, save, load_or_create,
  create_identity,
}
use remote_access.Gamestream.Identities.Again.{load_or_create-again}
use remote_access.Examples.Crypto.{counting_rng, to_hex, zero_bytes}
use remote_access.Examples.Libraries.{toy_libraries}

-- A key is its own PEM text.
abbrev tool : KeyTool toy_libraries
tool = record {
  KeyPair = Text;
  new_key = λ i. ok (lit "key");
  to_pkcs8_pem = λ k. ok k;
  from_pkcs8_pem = λ pem. ok pem;
  from_pkcs1_pem = λ pem. ok pem;
  key_pair_of = λ pem. ok pem;
  new_params = ok tt;
  self_signed = λ kp params. ok kp;
}

abbrev anywhere : Writes
anywhere path = none

abbrev dir : Text
dir = lit "/home/user/identity"

abbrev made : Identity toy_libraries
made = record {
  unique_id = lit "0000000000000000";
  cert_pem = lit "key";
  key_pem = lit "key";
  key = lit "key";
}

abbrev files : Files
files = (load_or_create toy_libraries tool anywhere 0 counting_rng 3 dir []).1

makes : load_or_create toy_libraries tool anywhere 0 counting_rng 3 dir [] ≡ (ok made, files)
unfolding load_or_create create_identity generate save self_signed_cert random_unique_id to_hex
    zero_bytes
makes = refl

load_or_create-again_example :
    load_or_create toy_libraries tool anywhere 100 counting_rng 5 dir files ≡ (ok made, files)
load_or_create-again_example =
    load_or_create-again toy_libraries tool (λ k pem h. sym h) anywhere 0 counting_rng 3 dir []
      files made makes anywhere 100 counting_rng 5
