-- ===== src/Host/Running/Registered.antt =====
-- What the loop of crates/ra-host/src/agent.rs makes of its configuration.
use remote_access.Base.{
  ℕ, zero, suc, ◌*◌, ◌-◌, ◌≡◌, refl, ◌∙◌, Bool, true, ◌||◌, ◌&&◌, leb, ltb, ◌==◌, Bool-cases, inl,
  inr, Option, lit, none, some, is_some, List, Text, Result, ok, err, arith,
}
use remote_access.Proto.External.{Crypto}
use remote_access.Proto.Types.{RegisterResponse, PairRequest}
use remote_access.Host.Config.{Config}
use remote_access.Host.Agent.{heartbeat_interval}
use remote_access.Host.Running.{
  World, Running, register, serve_requests, reregister, after_poll, beat, round, rounds, run,
  run_with_password,
}
use remote_access.Host.Running.Registration.{SameButId, Registers, register-Registers}

-- What the agent keeps of the configuration that it was started with: all but the ID, and it has one.
abbrev pub KeepsConfig : Config → Config → Type 0
KeepsConfig cfg cfg' = SameButId cfg cfg' × (is_some cfg'.id ≡ true)

abbrev pub KeptSoFar : Config → Option Running → Type 0
KeptSoFar cfg none = Unit
KeptSoFar cfg (some a) = KeepsConfig cfg a.cfg

then_registers :
    (cfg cfg1 cfg2 : Config) (r : Result Text RegisterResponse)
    → KeepsConfig cfg cfg1
    → Registers cfg1 r cfg2
    → KeepsConfig cfg cfg2
then_registers cfg cfg1 cfg2 (ok resp) h k = (h.0 ∙ k.0, rw (k.1) refl)
then_registers cfg cfg1 cfg2 (err e) h k =
    (h.0 ∙ k.0, elim k.1 [ inl f ↦ absurd (ground arith) | inr t ↦ t ])

module _ (c : Crypto) (alnum : ℕ → Bool) (platform version : Text) {W : Type 0} (w : World W) where
  reregister-keeps :
      (cfg : Config) (a : Running) (s : W)
      → KeepsConfig cfg a.cfg
      → KeepsConfig cfg (reregister c alnum platform version w a s).0.cfg
  unfolding reregister
  reregister-keeps cfg a s h =
      then_registers cfg a.cfg (register c alnum platform version w a.cfg s).1
        (register c alnum platform version w a.cfg s).0 h
        (register-Registers c alnum platform version w a.cfg s)

  -- Requests that are served leave the configuration.
  served_keeps :
      (cfg : Config) (a : Running) (o : Option ℕ) (s : W)
      → KeepsConfig cfg a.cfg
      → KeptSoFar cfg
          (elim o as (λ x. Option Running × W) [
            | none ↦ (none, s)
            | some failures ↦ (some (record a { failures = failures }), s)
          ]).0
  served_keeps cfg a none s h = tt
  served_keeps cfg a (some failures) s h = h

  after_poll-keeps :
      (cfg : Config) (h1 id : Text) (a : Running) (r : Result Text (ℕ × List PairRequest)) (s : W)
      → KeepsConfig cfg a.cfg
      → KeptSoFar cfg (after_poll c alnum platform version w h1 id a r s).0
  unfolding after_poll
  after_poll-keeps cfg h1 id a (err e) s h = h
  after_poll-keeps cfg h1 id a (ok (status, reqs)) s h =
      elim (Bool-cases (leb 200 status && ltb status 300)) [
        | inl e ↦
            let r = serve_requests c alnum platform version w a.cfg h1 id reqs a.failures s in
            rw e (served_keeps cfg a r.0 r.1 h)
        | inr e ↦ elim (Bool-cases (status == 404 || status == 403)) [
          | inl g ↦ rw (e, g) (reregister-keeps cfg a s h)
          | inr g ↦ rw (e, g) h
        ]
      ]

  beat-keeps :
      (id : Text) (reg : RegisterResponse) (a : Running) (s : W)
      → (beat c alnum platform version w id reg a s).0.cfg ≡ a.cfg
  unfolding beat
  beat-keeps id reg a s =
      elim (Bool-cases (leb (1000 * heartbeat_interval reg) (w.now s - a.last_heartbeat))) [
        | inl e ↦ rw e refl
        | inr e ↦ rw e refl
      ]

  round_at :
      (cfg : Config) (reg : RegisterResponse) (o : Option Running × W)
      → KeptSoFar cfg o.0
      → KeptSoFar cfg
          (elim o.0 as (λ x. Option Running × W) [
            | none ↦ (none, o.1)
            | some a' ↦ let b = beat c alnum platform version w reg.id reg a' o.1 in (some b.0, b.1)
          ]).0
  round_at cfg reg (none, s) h = tt
  round_at cfg reg (some a, s) h = rw (beat-keeps reg.id reg a s) h

  round-keeps :
      (cfg : Config) (h1 : Text) (reg : RegisterResponse) (a : Running) (s : W)
      → KeepsConfig cfg a.cfg
      → KeptSoFar cfg (round c alnum platform version w h1 reg a s).0
  unfolding round
  round-keeps cfg h1 reg a s h =
      let poll = w.poll_requests reg.id a.cfg.token s in
      round_at cfg reg (after_poll c alnum platform version w h1 reg.id a poll.0 poll.1)
        (after_poll-keeps cfg h1 reg.id a poll.0 poll.1 h)

  rounds_at :
      (cfg : Config) (n : ℕ) (h1 : Text) (reg : RegisterResponse) (a : Running) (s : W)
      (o : Option Running)
      → (round c alnum platform version w h1 reg a s).0 ≡ o
      → KeptSoFar cfg o
      → ((a' : Running) (s' : W)
          → KeepsConfig cfg a'.cfg
          → KeptSoFar cfg (rounds c alnum platform version w n h1 reg a' s').0)
      → KeptSoFar cfg (rounds c alnum platform version w (suc n) h1 reg a s).0
  unfolding rounds
  rounds_at cfg n h1 reg a s none eo h t = rw (eo, rounds) tt
  rounds_at cfg n h1 reg a s (some a') eo h t =
      let s' = (round c alnum platform version w h1 reg a s).1 in rw (eo, rounds) (t a' s' h)

  rounds-KeptSoFar :
      (cfg : Config) (n : ℕ) (h1 : Text) (reg : RegisterResponse) (a : Running) (s : W)
      → KeepsConfig cfg a.cfg
      → KeptSoFar cfg (rounds c alnum platform version w n h1 reg a s).0
  unfolding rounds
  rounds-KeptSoFar cfg zero h1 reg a s h = h
  rounds-KeptSoFar cfg (suc n) h1 reg a s h =
      rounds_at cfg n h1 reg a s _ refl (round-keeps cfg h1 reg a s h)
        (λ a' s' h'. rounds-KeptSoFar cfg n h1 reg a' s' h')

  -- A run is refused before its loop, or is in it with a configuration that is kept.
  abbrev pub RunKeeps : Config → Result Text (Option Running) → Type 0
  RunKeeps cfg (err e) = Unit
  RunKeeps cfg (ok o) = (is_some cfg.password_h1 ≡ true) × KeptSoFar cfg o

  run_at :
      (n : ℕ) (cfg : Config) (s : W) (h1 : Text) (o : Result Text RegisterResponse)
      → is_some cfg.password_h1 ≡ true
      → (register c alnum platform version w cfg (w.check_apollo s)).0 ≡ o
      → Registers cfg o (register c alnum platform version w cfg (w.check_apollo s)).1
      → RunKeeps cfg (run_with_password c alnum platform version w n cfg h1 s).0
  unfolding run_with_password
  run_at n cfg s h1 (err e) ep eo k = rw (eo, run_with_password) tt
  run_at n cfg s h1 (ok reg) ep eo k =
      let r = register c alnum platform version w cfg (w.check_apollo s) in
      let a : Running = record {
        cfg = r.1;
        failures = 0;
        observed = reg.observed_addr;
        last_heartbeat = w.now r.2;
      } in
      rw (eo, run_with_password) (ep, rounds-KeptSoFar cfg n h1 reg a r.2 (k.0, rw (k.1) refl))

  started_at :
      (n : ℕ) (cfg : Config) (s : W) (o : Option Text)
      → is_some cfg.password_h1 ≡ is_some o
      → RunKeeps cfg
          (elim o as (λ x. Result Text (Option Running) × W) [
            | none ↦ (err (lit "no password set; run `ra-host set-password` first"), s)
            | some h1 ↦ run_with_password c alnum platform version w n cfg h1 s
          ]).0
  started_at n cfg s none e = tt
  started_at n cfg s (some h1) e =
      run_at n cfg s h1 _ e refl
        (register-Registers c alnum platform version w cfg (w.check_apollo s))

  -- In any number of rounds, whatever the server, Apollo and the files do, an agent that has come into
  -- its loop was started with a password, has an ID, and has changed nothing else of its configuration.
  pub run-RunKeeps :
      (n : ℕ) (cfg : Config) (s : W) → RunKeeps cfg (run c alnum platform version w n cfg s).0
  unfolding run
  run-RunKeeps n cfg s = started_at n cfg s cfg.password_h1 refl
