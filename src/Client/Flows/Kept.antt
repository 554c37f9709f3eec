-- ===== src/Client/Flows/Kept.antt =====
-- What crates/ra-client/src/session.rs remembers of the hosts that it prepares a stream for.
use remote_access.Base.{
  either, whichever, ℕ, ◌≡◌, refl, sym, subst, ◌++◌, ◌∙◌, Bool, true, false, not, Option, none,
  some, List, Text, lit, text_eq, text_eq_refl, get, insert, remove, get-insert, get-remove,
  Bool-cases, inl, inr, Result, ok, err, if◌then◌else◌,
}
use remote_access.Proto.External.{Crypto, Rng}
use remote_access.Client.Remembered.{ClientConfig, RememberedHost}
use remote_access.Client.Resolve.{Resolved, moonlight_host}
use remote_access.Client.Session.{h1_for, choose_app}
use remote_access.Client.Flows.{
  ClientWorld, Session, Prepared, Paired, entry_of, put_entry, pair_with, resolve_host,
  already_paired,
}
use remote_access.Client.Flows.Streams.{
  remember_password, keep_host, pair_and_keep, prepare, listed_or_none,
}

-- Every host but this one is remembered as it was.
abbrev pub SameOthers : Text → ClientConfig → ClientConfig → Type 0
SameOthers id cfg cfg' = (j : Text) → get j (remove id cfg'.hosts) ≡ get j (remove id cfg.hosts)

-- The host is remembered as it was prepared.
pub record IsRemembered (p : Prepared) (h : RememberedHost) : Type 0 where
  pub name : h.name ≡ p.resolved.info.name
  pub endpoint : h.last_endpoint ≡ some p.host
  pub app : h.last_app ≡ some p.app

-- What a preparation does to the session
abbrev pub Remembers : Text → Session → Option (Result Text Prepared) × Session → Type 0
Remembers id x (none, x') = SameOthers id x.cfg x'.cfg
Remembers id x (some (err e), x') = SameOthers id x.cfg x'.cfg
Remembers id x (some (ok p), x') = SameOthers id x.cfg x'.cfg × IsRemembered p (entry_of id x'.cfg)

same_else :
    (id j : Text) (h : RememberedHost) (cfg : ClientConfig)
    → (if text_eq id j then none else get j (insert id h cfg.hosts))
      ≡ (if text_eq id j then none else get j cfg.hosts)
same_else id j h cfg = elim (Bool-cases (text_eq id j)) [
  | inl e ↦ rw e refl
  | inr e ↦ rw e (get-insert id j h cfg.hosts ∙ rw e refl)
]

put_entry-SameOthers :
    (id : Text) (h : RememberedHost) (cfg : ClientConfig) → SameOthers id cfg (put_entry id h cfg)
unfolding put_entry
put_entry-SameOthers id h cfg j =
    get-remove id j (insert id h cfg.hosts) ∙ same_else id j h cfg ∙ sym (get-remove id j cfg.hosts)

entry_of-put_entry :
    (id : Text) (h : RememberedHost) (cfg : ClientConfig) → entry_of id (put_entry id h cfg) ≡ h
unfolding entry_of put_entry
entry_of-put_entry id h cfg = rw (get-insert id id h cfg.hosts, text_eq_refl id) refl

remember_password-SameOthers :
    {W : Type 0} (c : Crypto) (rng : Rng) (w : ClientWorld W) (id h1 salt : Text) (remember : Bool)
    (cfg : ClientConfig)
    → SameOthers id cfg (remember_password c rng w id h1 salt remember cfg)
unfolding remember_password
remember_password-SameOthers c rng w id h1 salt true cfg j = put_entry-SameOthers id _ cfg j
remember_password-SameOthers c rng w id h1 salt false cfg j = refl

module _ (c : Crypto) (rng : Rng) {W : Type 0} (w : ClientWorld W) where
  abbrev Remembered : Text → Session → Option (Result Text Prepared) × Session × W → Type 0
  Remembered id x r = Remembers id x (r.0, r.1)

  keep_host-Remembers :
      (x x0 : Session) (id : Text) (resolved : Resolved) (app : Option Text) (apps : List Text)
      (s : W)
      → SameOthers id x0.cfg x.cfg
      → (let k = keep_host c rng w x id resolved app apps s in Remembers id x0 (some k.0, k.1))
  unfolding keep_host
  keep_host-Remembers x x0 id resolved app apps s h =
      let entry = entry_of id x.cfg in
      let host = moonlight_host resolved in
      let chosen = choose_app app entry.last_app apps in
      let new : RememberedHost = record entry {
        name = resolved.info.name;
        last_endpoint = some host;
        last_app = some chosen;
      } in
      let p : Prepared = record {
        id = id;
        host = host;
        app = chosen;
        apps = apps;
        resolved = resolved;
      } in
      let others : SameOthers id x0.cfg (put_entry id new x.cfg) =
        λ j. put_entry-SameOthers id new x.cfg j ∙ h j in
      let kept : IsRemembered p (entry_of id (put_entry id new x.cfg)) =
        subst (IsRemembered p) (sym (entry_of-put_entry id new x.cfg))
          (record { name = refl; endpoint = refl; app = refl }) in
      either (λ (k : Result Text Prepared × Session × W). Remembers id x0 (some k.0, k.1))
        (w.save (put_entry id new x.cfg) s).0 (λ e. others) (λ u. (others, kept))

  -- The end of a pairing, for what became of it
  paired_and_kept :
      (x : Session) (id : Text) (resolved : Resolved) (app : Option Text) (remember : Bool)
      (h1 : Text) (p : Paired c rng w (Unit {0}))
      → Remembered id x (elim p.0 as (λ y. Option (Result Text Prepared) × Session × W) [
        | none ↦ (none, x, p.1)
        | some (r, ended) ↦ elim r [
          | err e ↦ (some (err e), x, p.1)
          | ok u ↦
              let listed = w.list_apps (moonlight_host resolved) p.1 in
              let kept =
                keep_host c rng w
                  (record x {
                    cfg =
                        remember_password c rng w id h1 resolved.info.password_salt remember x.cfg;
                  })
                  id
                  resolved
                  app
                  (listed_or_none c rng w listed.0)
                  listed.1 in
              (some kept.0, kept.1, kept.2)
        ]
      ])
  paired_and_kept x id resolved app remember h1 (none, s) = λ j. refl
  paired_and_kept x id resolved app remember h1 (some (err e, ended), s) = λ j. refl
  paired_and_kept x id resolved app remember h1 (some (ok u, ended), s) =
      let salt = resolved.info.password_salt in
      let listed = w.list_apps (moonlight_host resolved) s in
      keep_host-Remembers (record x { cfg = remember_password c rng w id h1 salt remember x.cfg }) x
        id resolved app (listed_or_none c rng w listed.0) listed.1
        (remember_password-SameOthers c rng w id h1 salt remember x.cfg)

  pair_and_keep-Remembers :
      (x : Session) (i : ℕ) (id : Text) (resolved : Resolved) (password app : Option Text)
      (remember : Bool) (s : W)
      → Remembered id x (pair_and_keep c rng w x i id resolved password app remember s)
  unfolding pair_and_keep
  pair_and_keep-Remembers x i id resolved password app remember s =
      either (Remembered id x)
        (h1_for c x.cfg x.interactive id resolved.info.password_salt password
          (w.typed (lit "Password for " ++ (id ++ lit ": ")) s))
        (λ e j. refl)
        (λ h1. paired_and_kept x id resolved app remember h1 (
          pair_with c rng w x i id h1 remember
            (λ url pin. w.moonlight_pairs url (moonlight_host resolved) pin) s))

  -- A stream that is prepared is of a host that is remembered with its name, its endpoint and its app;
  -- and whatever becomes of the preparation, every other host is remembered as it was.
  pub prepare-Remembers :
      (x : Session) (i : ℕ) (id : Text) (password app : Option Text) (remember : Bool) (s : W)
      → Remembers id x (
        (prepare c rng w x i id password app remember s).0,
        (prepare c rng w x i id password app remember s).1,
      )
  unfolding prepare
  prepare-Remembers x i id password app remember s =
      let found = resolve_host c rng w x id s in
      whichever (Remembered id x) (not (w.find_moonlight x.cfg.moonlight_path s)) (λ j. refl)
        (either (Remembered id x) found.0 (λ e j. refl)
          (λ resolved.
            let listed = w.list_apps (moonlight_host resolved) found.1 in
            either (Remembered id x) listed.0
              (λ e. pair_and_keep-Remembers x i id resolved password app remember listed.1)
              (λ apps.
                keep_host-Remembers x x id resolved app apps (w.on_event already_paired listed.1)
                  (λ j. refl))))
