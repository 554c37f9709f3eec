-- ===== src/Host/Running.antt =====
-- `Agent::register` and `Agent::run` of crates/ra-host/src/agent.rs: how the agent stays registered and
-- what it answers. The world is what the agent talks to: the ID server, Apollo, the clock and the files.
use remote_access.Base.{
  ℕ, zero, suc, ◌+◌, ◌*◌, ◌-◌, Bool, true, false, not, ◌&&◌, ◌||◌, ◌==◌, leb, ltb, Option, none,
  some, List, [], ◌∷◌, ◌++◌, Text, lit, text_eq, if◌then◌else◌, Result, ok, err,
}
use remote_access.Proto.External.{Crypto}
use remote_access.Proto.Types.{RegisterRequest, RegisterResponse, Endpoint, PairRequest, PairResult}
use remote_access.Host.Config.{Config}
use remote_access.Host.Endpoints.{Interface, endpoints}
use remote_access.Host.Agent.{Apollo, Tick, serve_request, heartbeat_interval}
pub mod Unseen
pub mod Answered
pub mod Refused
pub mod Registration
pub mod Registered

-- A failed request and a file that cannot be written are errors with their message. `send_heartbeat`
-- is the answer where one came and could be read; `post_result` ignores its outcome.
pub record World (W : Type 0) : Type 0 where
  pub post_register : RegisterRequest → W → Result Text RegisterResponse × W
  pub send_heartbeat : Text → Text → List Endpoint → W → Option RegisterResponse × W
  pub poll_requests : Text → Text → W → Result Text (ℕ × List PairRequest) × W
  pub post_result : Text → Text → PairResult → W → W
  pub save_config : Config → W → Result Text (Unit {0}) × W
  pub interfaces : W → Option (List Interface)
  -- The clock in milliseconds, and what it will show to the rounds of a wait
  pub now : W → ℕ
  pub wait_ticks : W → List Tick
  pub sleep : ℕ → W → W
  pub apollo : Apollo W
  -- `Apollo::config`, the answer of which is only logged
  pub check_apollo : W → W

abbrev pub is_id : Option Text → Text → Bool
is_id none id = false
is_id (some i) id = text_eq i id

-- What `run` keeps between the rounds
pub record Running : Type 0 where
  pub cfg : Config
  pub failures : ℕ
  pub observed : Option Text
  pub last_heartbeat : ℕ

module _ (c : Crypto) (alnum : ℕ → Bool) (platform version : Text) {W : Type 0} (w : World W) where
  unfoldable pub register_request : Config → W → RegisterRequest
  register_request cfg s = record {
    id = cfg.id;
    token = cfg.token;
    name = cfg.name;
    platform = platform;
    endpoints = endpoints cfg (w.interfaces s) none;
    password_salt = cfg.password_salt;
    agent_version = version;
  }

  -- An ID that is new is kept, also where the file cannot be written.
  abbrev pub keep_id : Config → RegisterResponse → W → Result Text (Unit {0}) × Config × W
  keep_id cfg resp s =
      if is_id cfg.id resp.id
      then (ok tt, cfg, s)
      else let cfg' = record cfg { id = some resp.id } in
        let saved = w.save_config cfg' s in (saved.0, cfg', saved.1)

  -- The second pass, with the address that the server sees
  abbrev pub advertise : Config → RegisterResponse → W → W
  advertise cfg resp s = elim resp.observed_addr [
    | none ↦ s
    | some obs ↦
        (w.send_heartbeat resp.id cfg.token (endpoints cfg (w.interfaces s) (some obs)) s).1
  ]

  unfoldable pub register : Config → W → Result Text RegisterResponse × Config × W
  unfolding register_request
  register cfg s =
      let answer = w.post_register (register_request cfg s) s in
      elim answer.0 [
        | err e ↦ (err e, cfg, answer.1)
        | ok resp ↦
            let kept = keep_id cfg resp answer.1 in
            elim kept.0 [
              | err e ↦ (err e, kept.1, kept.2)
              | ok u ↦ (ok resp, kept.1, advertise kept.1 resp kept.2)
            ]
      ]

  abbrev pub pause : ℕ → W → W
  pause zero s = s
  pause (suc n) s = w.sleep (suc n) s

  -- The requests of one poll, and the failures that are counted then; `none` is a request that is still
  -- being handled.
  unfoldable pub serve_requests : Config → Text → Text → List PairRequest → ℕ → W → Option ℕ × W
  serve_requests cfg h1 id [] failures s = (some failures, s)
  serve_requests cfg h1 id (pr ∷ prs) failures s =
      let r = serve_request c alnum w.apollo cfg h1 (w.wait_ticks s) (w.now s) pr failures s in
      elim r.0 [
        | none ↦ (none, r.1)
        | some answer ↦
            serve_requests cfg h1 id prs answer.1
              (w.post_result id cfg.token answer.0 (pause answer.2 r.1))
      ]

  unfoldable pub reregister : Running → W → Running × W
  unfolding register
  reregister a s =
      let r = register a.cfg s in
      (
        record a {
          cfg = r.1;
          observed = elim r.0 [ err e ↦ a.observed | ok resp ↦ resp.observed_addr ];
        },
        r.2,
      )

  unfoldable pub after_poll :
      Text → Text → Running → Result Text (ℕ × List PairRequest) → W → Option Running × W
  unfolding serve_requests reregister
  after_poll h1 id a (err e) s = (some a, w.sleep 10 s)
  after_poll h1 id a (ok (status, reqs)) s =
      if leb 200 status && ltb status 300
      then (let r = serve_requests a.cfg h1 id reqs a.failures s in
          elim r.0 [
            | none ↦ (none, r.1)
            | some failures ↦ (some (record a { failures = failures }), r.1)
          ])
      else if status == 404 || status == 403
      then (let r = reregister a s in (some r.0, w.sleep 5 r.1))
      else (some a, w.sleep 5 s)

  -- The heartbeat at the end of a round, at the interval of the first registration
  unfoldable pub beat : Text → RegisterResponse → Running → W → Running × W
  beat id reg a s =
      if leb (1000 * heartbeat_interval reg) (w.now s - a.last_heartbeat)
      then (let h =
            w.send_heartbeat id a.cfg.token (endpoints a.cfg (w.interfaces s) a.observed) s in
          (
            record a {
              observed = elim h.0 [ none ↦ a.observed | some r ↦ r.observed_addr ];
              last_heartbeat = w.now h.1;
            },
            h.1,
          ))
      else (a, s)

  unfoldable pub round : Text → RegisterResponse → Running → W → Option Running × W
  unfolding after_poll beat
  round h1 reg a s =
      let poll = w.poll_requests reg.id a.cfg.token s in
      let p = after_poll h1 reg.id a poll.0 poll.1 in
      elim p.0 [ none ↦ (none, p.1) | some a' ↦ let b = beat reg.id reg a' p.1 in (some b.0, b.1) ]

  -- The first n rounds of the loop; `none` is a request that is still being handled.
  unfoldable pub rounds : ℕ → Text → RegisterResponse → Running → W → Option Running × W
  unfolding round
  rounds zero h1 reg a s = (some a, s)
  rounds (suc n) h1 reg a s =
      let r = round h1 reg a s in elim r.0 [ none ↦ (none, r.1) | some a' ↦ rounds n h1 reg a' r.1 ]

  -- `Agent::run` with a password, up to the n-th round
  unfoldable pub run_with_password : ℕ → Config → Text → W → Result Text (Option Running) × W
  unfolding register rounds
  run_with_password n cfg h1 s =
      let r = register cfg (w.check_apollo s) in
      elim r.0 [
        | err e ↦ (err e, r.2)
        | ok reg ↦
            let a : Running = record {
              cfg = r.1;
              failures = 0;
              observed = reg.observed_addr;
              last_heartbeat = w.now r.2;
            } in
            let out = rounds n h1 reg a r.2 in (ok out.0, out.1)
      ]

  unfoldable pub run : ℕ → Config → W → Result Text (Option Running) × W
  unfolding run_with_password
  run n cfg s = elim cfg.password_h1 [
    | none ↦ (err (lit "no password set; run `ra-host set-password` first"), s)
    | some h1 ↦ run_with_password n cfg h1 s
  ]
