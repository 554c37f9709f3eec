-- ===== src/Client/Flows/Certificates.antt =====
-- `pair_native` and `apps_native` of crates/ra-client/src/session.rs: pairing with the identity of this
-- program.
use remote_access.Base.{ℕ, true, Option, none, some, List, ◌++◌, Text, lit, get, Result, ok, err}
use remote_access.Proto.External.{Crypto, Rng}
use remote_access.Gamestream.Apps.{App}
use remote_access.Client.Remembered.{RememberedHost}
use remote_access.Client.Resolve.{Resolved}
use remote_access.Client.Session.{h1_for}
use remote_access.Client.Flows.{
  ClientWorld, Session, entry_of, put_entry, resolve_host, Paired, pair_with,
}

module _ (c : Crypto) (rng : Rng) {W : Type 0} (w : ClientWorld W) where
  -- What the pairing of this crate itself found, if it had ended
  abbrev pub cert_of : Option (Result Text Text) → Option Text
  cert_of none = none
  cert_of (some (err e)) = none
  cert_of (some (ok pem)) = some pem

  -- The end of `pair_native`, with the certificate
  unfoldable pub keep_cert :
      Session → Text → Resolved → Text → Text → W → Result Text (List App) × Session × W
  unfolding entry_of put_entry
  keep_cert x id resolved h1 pem s =
      let cfg =
        put_entry id
          (record (entry_of id x.cfg) {
            name = resolved.info.name;
            server_cert_pem = some pem;
            password_h1 = some h1;
            password_salt = some resolved.info.password_salt;
          })
          x.cfg in
      let saved = w.save cfg s in
      elim saved.0 [
        | err e ↦ (err e, record x { cfg = cfg }, saved.1)
        | ok u ↦
            let apps = w.app_list resolved.addr pem saved.1 in
            (apps.0, record x { cfg = cfg }, apps.1)
      ]

  -- `pair_native` after the pairing; `none` is a wait that goes on.
  unfoldable pub keep_pairing :
      Session
      → Text
      → Resolved
      → Text
      → Paired c rng w Text
      → Option (Result Text (List App)) × Session × W
  unfolding keep_cert
  keep_pairing x id resolved h1 p = elim p.0 [
    | none ↦ (none, x, p.1)
    | some y ↦ elim y.0 [
      | err e ↦ (some (err e), x, p.1)
      | ok u ↦ elim (cert_of y.1) [
        | none ↦ (some (err (lit "pairing finished without a server certificate")), x, p.1)
        | some pem ↦ let kept = keep_cert x id resolved h1 pem p.1 in (some kept.0, kept.1, kept.2)
      ]
    ]
  ]

  unfoldable pub pair_native :
      Session → ℕ → Text → Option Text → W → Option (Result Text (List App)) × Session × W
  unfolding resolve_host pair_with keep_pairing h1_for
  pair_native x i id password s =
      let found = resolve_host c rng w x id s in
      elim found.0 [
        | err e ↦ (some (err e), x, found.1)
        | ok resolved ↦
            elim (h1_for c x.cfg x.interactive id resolved.info.password_salt password
              (w.typed (lit "Password for " ++ (id ++ lit ": ")) found.1)) [
                | err e ↦ (some (err e), x, found.1)
                | ok h1 ↦ keep_pairing x id resolved h1 (
                    pair_with c rng w x i id h1 true
                      (λ url pin. w.native_pairs resolved.addr url pin) found.1)
              ]
      ]

  abbrev pub known_cert : Option RememberedHost → Option Text
  known_cert none = none
  known_cert (some h) = h.server_cert_pem

  unfoldable pub apps_native : Session → Text → W → Result Text (List App) × W
  unfolding resolve_host
  apps_native x id s = elim (known_cert (get id x.cfg.hosts)) [
    | none ↦ (
      err (
          lit "not natively paired with "
          ++ (id ++ (lit "; run `ra pair " ++ (id ++ lit " --native`")))),
      s,
    )
    | some pem ↦
        let found = resolve_host c rng w x id s in
        elim found.0 [
          | err e ↦ (err e, found.1)
          | ok resolved ↦ w.app_list resolved.addr pem found.1
        ]
  ]
