-- ===== src/Client/Flows/Streams.antt =====
-- `prepare` and `connect` of crates/ra-client/src/session.rs: a stream through Moonlight.
use remote_access.Base.{
  ℕ, Bool, not, Option, none, some, List, [], ◌++◌, Text, lit, if◌then◌else◌, Result, ok, err,
}
use remote_access.Proto.External.{Crypto, Rng}
use remote_access.Client.Remembered.{ClientConfig}
use remote_access.Client.Resolve.{Resolved, moonlight_host}
use remote_access.Client.Session.{h1_for, choose_app}
use remote_access.Client.Flows.{
  streaming, already_paired, Prepared, ClientWorld, Session, entry_of, put_entry, resolve_host,
  pair_with,
}

module _ (c : Crypto) (rng : Rng) {W : Type 0} (w : ClientWorld W) where
  -- `prepare`, with the results of Moonlight's list before and after a pairing
  unfoldable pub remember_password : Text → Text → Text → Bool → ClientConfig → ClientConfig
  unfolding entry_of put_entry
  remember_password id h1 salt remember cfg =
      if remember
      then put_entry id
          (record (entry_of id cfg) { password_h1 = some h1; password_salt = some salt }) cfg
      else cfg

  -- The end of `prepare`: the host is remembered with the app that was chosen.
  unfoldable pub keep_host :
      Session → Text → Resolved → Option Text → List Text → W → Result Text Prepared × Session × W
  unfolding entry_of put_entry moonlight_host choose_app
  keep_host x id resolved app apps s =
      let entry = entry_of id x.cfg in
      let host = moonlight_host resolved in
      let chosen = choose_app app entry.last_app apps in
      let cfg =
        put_entry id
          (record entry {
            name = resolved.info.name;
            last_endpoint = some host;
            last_app = some chosen;
          })
          x.cfg in
      let saved = w.save cfg s in
      elim saved.0 [
        | err e ↦ (err e, record x { cfg = cfg }, saved.1)
        | ok u ↦ (
          ok (record { id = id; host = host; app = chosen; apps = apps; resolved = resolved }),
          record x { cfg = cfg },
          saved.1,
        )
      ]

  abbrev pub listed_or_none : Result Text (List Text) → List Text
  listed_or_none (ok apps) = apps
  listed_or_none (err e) = []

  -- The part of `prepare` for a host that did not list its apps; `none` is a wait that goes on.
  unfoldable pub pair_and_keep :
      Session
      → ℕ
      → Text
      → Resolved
      → Option Text
      → Option Text
      → Bool
      → W
      → Option (Result Text Prepared) × Session × W
  unfolding pair_with remember_password keep_host h1_for moonlight_host
  pair_and_keep x i id resolved password app remember s =
      let salt = resolved.info.password_salt in
      let host = moonlight_host resolved in
      elim (h1_for c x.cfg x.interactive id salt password
        (w.typed (lit "Password for " ++ (id ++ lit ": ")) s)) [
          | err e ↦ (some (err e), x, s)
          | ok h1 ↦
              let p =
                pair_with c rng w x i id h1 remember (λ url pin. w.moonlight_pairs url host pin)
                  s in
              elim p.0 [
                | none ↦ (none, x, p.1)
                | some (r, ended) ↦ elim r [
                  | err e ↦ (some (err e), x, p.1)
                  | ok u ↦
                      let listed = w.list_apps host p.1 in
                      let kept =
                        keep_host (record x { cfg = remember_password id h1 salt remember x.cfg })
                          id resolved app (listed_or_none listed.0) listed.1 in
                      (some kept.0, kept.1, kept.2)
                ]
              ]
        ]

  unfoldable pub prepare :
      Session
      → ℕ
      → Text
      → Option Text
      → Option Text
      → Bool
      → W
      → Option (Result Text Prepared) × Session × W
  unfolding resolve_host keep_host pair_and_keep moonlight_host
  prepare x i id password app remember s =
      if not (w.find_moonlight x.cfg.moonlight_path s)
      then (
        some (err (lit "Moonlight not found; install it or set moonlight_path / MOONLIGHT_BIN")),
        x,
        s,
      )
      else let found = resolve_host c rng w x id s in
        elim found.0 [
          | err e ↦ (some (err e), x, found.1)
          | ok resolved ↦
              let listed = w.list_apps (moonlight_host resolved) found.1 in
              elim listed.0 [
                | err e ↦ pair_and_keep x i id resolved password app remember listed.1
                | ok apps ↦
                    let kept =
                      keep_host x id resolved app apps (w.on_event already_paired listed.1) in
                    (some kept.0, kept.1, kept.2)
              ]
        ]

  unfoldable pub connect :
      Session
      → ℕ
      → Text
      → Option Text
      → Option Text
      → Bool
      → List Text
      → W
      → Option (Result Text ℕ) × Session × W
  unfolding prepare
  connect x i id password app remember extra s =
      let p = prepare x i id password app remember s in
      elim p.0 [
        | none ↦ (none, p.1, p.2)
        | some r ↦ elim r [
          | err e ↦ (some (err e), p.1, p.2)
          | ok ready ↦
              let s' = w.on_event (streaming ready.app) p.2 in
              if w.find_moonlight p.1.cfg.moonlight_path s'
              then (let out = w.stream ready.host ready.app (p.1.cfg.stream_args ++ extra) s' in
                  (some out.0, p.1, out.1))
              else (
                some (
                    err (
                      lit "Moonlight not found; install it or set moonlight_path / MOONLIGHT_BIN")),
                p.1,
                s',
              )
        ]
      ]
