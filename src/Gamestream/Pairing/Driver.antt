-- ===== src/Gamestream/Pairing/Driver.antt =====
-- `pair` of crates/ra-gamestream/src/pairing.rs: the handshake over the network.
use remote_access.Base.{
  ℕ, zero, suc, ltb, Option, none, some, Text, lit, Result, ok, err, if◌then◌else◌,
}
use remote_access.Proto.External.{Rng}
use remote_access.Gamestream.External.{Libraries}
use remote_access.Gamestream.Errors.{Error, old_server, panicked, out_of_fuel}
use remote_access.Gamestream.ServerInfos.{major_version}
use remote_access.Gamestream.Transport.{
  HostAddr, Identity, GsHttp, Log, get_http, get_https, server_info_http, unpair,
}
use remote_access.Gamestream.Pairing.{Pairing, OtpAuth, Step, refuse, with_random, start, next}

pub record PairOutcome : Type 0 where
  pub server_cert_pem : Text

module _ (l : Libraries) where
  -- The three random strings are the draws 0 to 2.
  unfoldable pub new_pairing : Rng → Identity l → Text → Option OtpAuth → Pairing l
  new_pairing rng identity pin otp =
      with_random l identity pin otp (rng.fill_bytes 0 16) (rng.fill_bytes 1 16)
        (rng.fill_bytes 2 16)

  -- The request of a step; `none` is the failed `expect`.
  unfoldable pub send_step :
      GsHttp l → HostAddr → Pairing l → Step → Option ℕ → Log → Option (Result Error Text × Log)
  send_step h addr p step timeout log =
      if step.https
      then elim p.server_cert_pem [
        | none ↦ none
        | some pem ↦ some (get_https l h addr pem (lit "pair") step.args log)
      ]
      else some (get_http l h addr (lit "pair") step.args timeout log)

  -- On an error the host is asked to forget the client.
  unfoldable pub give_up : GsHttp l → HostAddr → Error → Log → Result Error PairOutcome × Log
  give_up h addr e log = (err e, (unpair l h addr log).1)

  unfoldable pub outcome : Pairing l → Log → Result Error PairOutcome × Log
  outcome p log = elim p.server_cert_pem [
    | none ↦ (err panicked, log)
    | some pem ↦ (ok (record { server_cert_pem = pem }), log)
  ]

  -- The loop, on fuel
  unfoldable pub pair_loop :
      ℕ → GsHttp l → HostAddr → Pairing l → Step → Option ℕ → Log → Result Error PairOutcome × Log
  unfolding send_step give_up outcome
  pair_loop zero h addr p step timeout log = (err out_of_fuel, log)
  pair_loop (suc fuel) h addr p step timeout log = elim (send_step h addr p step timeout log) [
    | none ↦ (err panicked, log)
    | some sent ↦ elim sent.0 [
      | err e ↦ give_up h addr e sent.1
      | ok body ↦
          let n = next l p body in
          elim n.0 [
            | err e ↦ give_up h addr e sent.1
            | ok o ↦ elim o [
              | none ↦ outcome n.1 sent.1
              | some step' ↦ pair_loop fuel h addr n.1 step' (some 5) sent.1
            ]
          ]
    ]
  ]

  unfoldable pub pair_host :
      ℕ
      → GsHttp l
      → Rng
      → HostAddr
      → Text
      → Option OtpAuth
      → Option ℕ
      → Log
      → Result Error PairOutcome × Log
  unfolding new_pairing pair_loop
  pair_host fuel h rng addr pin otp first_step_timeout log =
      let info = server_info_http l h addr log in
      elim info.0 [
        | err e ↦ (err e, info.1)
        | ok i ↦
            if ltb (major_version i) 7
            then (err (refuse (old_server (major_version i))), info.1)
            else let p = new_pairing rng h.identity pin otp in
              pair_loop fuel h addr p (start l p) first_step_timeout info.1
      ]
