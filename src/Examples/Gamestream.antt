-- ===== src/Examples/Gamestream.antt =====
-- crates/ra-gamestream at concrete inputs.
use remote_access.Base.{
  All, IsByte, ℕ, ◌≡◌, refl, true, none, some, List, [], ◌∷◌, ◌++◌, Text, Bytes, lit, bytes, arith,
  length, ok, text_eq, trim, is_whitespace, from_utf8, first_field, parse_unsigned, parse_i32,
}
use remote_access.Gamestream.Replies.{parse_root, child_text, child, required}
use remote_access.Gamestream.Blocks.{
  check_block_len, on_chunks, sha256, derive_aes_key, aes_ecb_encrypt, aes_ecb_decrypt, pem_to_der,
  cert_signature, cert_public_key, sign_sha256, verify_sha256,
}
use remote_access.Gamestream.Ciphers.{aes_ecb_decrypt-aes_ecb_encrypt}
use remote_access.Gamestream.ServerInfos.{
  ServerInfo, field, number, read_info, parse_server_info, major_version,
}
use remote_access.Gamestream.Transport.{
  HostAddr, Identity, GsHttp, new_addr, get_http, server_info_http, Network,
}
use remote_access.Gamestream.Pairing.{
  Pairing, with_random, next, next_phase0, next_phase1, next_phase2, next_phase3, next_phase4,
  is_complete, server_cert, client_challenge, challenge_answer, challenge_resp, pairing_secret,
  check_secret,
}
use remote_access.Gamestream.Pairing.Phases.{Advances, next-Advances}
use remote_access.Gamestream.Pairing.Authentic.{IsAuthentic, feed, feed-IsAuthentic}
use remote_access.Gamestream.Pairing.Driver.{pair_host}
use remote_access.Gamestream.Pairing.Closing.{Closes, pair_host-Closes}
use remote_access.Examples.Crypto.{
  counting_rng, copy_hash, low_bytes, zero_bytes, to_hex, of_hex, hex_digit, digit_value, join_byte,
}
use remote_access.Examples.Libraries.{
  toy_libraries, top, drop_first, pad_block, short_reply, read_body, mark,
}
use remote_access.Examples.Parser.{read_document}

abbrev client : Identity toy_libraries
client = record {
  unique_id = lit "0123456789ABCDEF";
  cert_pem = lit "client";
  key_pem = lit "key";
  key = [];
}

abbrev sixteen : ℕ → Bytes
sixteen b = b ∷ b ∷ b ∷ b ∷ b ∷ b ∷ b ∷ b ∷ b ∷ b ∷ b ∷ b ∷ b ∷ b ∷ b ∷ b ∷ []

abbrev fresh : Pairing toy_libraries
fresh = with_random toy_libraries client (lit "1234") none (sixteen 7) (sixteen 1) (sixteen 2)

-- What a host with the certificate `host` and the secret 3, 3, … answers.
abbrev host_answer : Bytes
host_answer = copy_hash (sixteen 1 ++ bytes (lit "host") ++ sixteen 3) ++ sixteen 4

abbrev host_replies : List Text
host_replies =
    (b'x' ∷ to_hex (bytes (lit "host")))
    ∷ (b'x' ∷ to_hex host_answer)
    ∷ (b'x' ∷ to_hex (sixteen 3 ++ 1 ∷ sixteen 3))
    ∷ lit "x"
    ∷ lit "x"
    ∷ []

completes : is_complete toy_libraries (feed toy_libraries fresh host_replies) ≡ true
unfolding is_complete with_random next next_phase0 next_phase1 next_phase2 next_phase3 next_phase4
    server_cert client_challenge challenge_answer challenge_resp pairing_secret check_secret
    parse_root child_text child required sha256 derive_aes_key aes_ecb_encrypt aes_ecb_decrypt
    check_block_len on_chunks pem_to_der cert_signature cert_public_key sign_sha256 verify_sha256
    text_eq trim is_whitespace from_utf8 bytes parse_unsigned parse_i32 drop_first pad_block
    copy_hash low_bytes zero_bytes to_hex of_hex hex_digit digit_value join_byte read_body mark
completes = refl

feed-IsAuthentic_example : IsAuthentic toy_libraries (feed toy_libraries fresh host_replies)
feed-IsAuthentic_example =
    feed-IsAuthentic toy_libraries client (lit "1234") none (sixteen 7) (sixteen 1) (sixteen 2)
      host_replies completes

fresh-sized : length fresh.rand_challenge ≡ 16
unfolding with_random
fresh-sized = refl

next-Advances_example : Advances toy_libraries fresh (next toy_libraries fresh (lit "x"))
next-Advances_example = next-Advances toy_libraries fresh (lit "x") fresh-sized

-- A host that answers its version and then nothing of use
abbrev silent : Network
silent log r = ok (lit "x")

abbrev http : GsHttp toy_libraries
http = record { identity = client; rng = counting_rng; network = silent }

abbrev addr : HostAddr
addr = new_addr (lit "192.168.1.50") 47989

abbrev info : ServerInfo
info = read_info toy_libraries (record { doc = top (short_reply (lit "x")) })

info_told :
    server_info_http toy_libraries http addr []
    ≡ (ok info, (server_info_http toy_libraries http addr []).1)
unfolding server_info_http get_http parse_server_info read_info field number parse_root child_text
    child text_eq trim is_whitespace parse_unsigned parse_i32 drop_first read_body read_document
info_told = refl

version : major_version info ≡ 7
unfolding major_version read_info field number parse_root child_text child first_field text_eq trim
    is_whitespace parse_unsigned drop_first
version = refl

pair_host-Closes_example :
    Closes toy_libraries
      (pair_host toy_libraries 5 http counting_rng addr (lit "1234") none (some 60) [])
pair_host-Closes_example =
    pair_host-Closes toy_libraries 5 http counting_rng addr (lit "1234") none (some 60) [] info
      (server_info_http toy_libraries http addr []).1 (omega arith) info_told
      (omega (arith, version))

two_blocks-IsByte : All IsByte (sixteen 1 ++ sixteen 2)
two_blocks-IsByte = omega arith

aes_ecb_decrypt-aes_ecb_encrypt_example :
    (out : Bytes) × (aes_ecb_encrypt toy_libraries (sixteen 9) (sixteen 1 ++ sixteen 2) ≡ ok out)
    × (aes_ecb_decrypt toy_libraries (sixteen 9) out ≡ ok (sixteen 1 ++ sixteen 2))
aes_ecb_decrypt-aes_ecb_encrypt_example =
    aes_ecb_decrypt-aes_ecb_encrypt toy_libraries (sixteen 9) (sixteen 1 ++ sixteen 2) 1 refl refl
      two_blocks-IsByte
