-- ===== src/Desk/Window.antt =====
-- The state of the desktop application of crates/ra-desk/src/main.rs, and the wizard of
-- crates/ra-desk/src/setup.rs. What is spawned is noted as a job, and reports back by a message.
use remote_access.Base.{
  ℕ, zero, suc, ◌+◌, ◌-◌, Bool, true, false, not, ◌&&◌, ◌||◌, ltb, Option, none, some, List, [],
  ◌∷◌, ◌++◌, Text, lit, Map, get, is_some, is_empty, length, take, drop, trim, ends_with, leb,
  contains, decimal, unwrap_or, trim_end_matches, if◌then◌else◌, Result, ok, err,
}
use remote_access.Proto.External.{Rng, Crypto}
use remote_access.Proto.Types.{Endpoint}
use remote_access.Host.Config.{Config, set_password, set_random_password, random_password}
use remote_access.Host.Names.{pretty_id}
use remote_access.Client.Remembered.{ClientConfig, RememberedHost}
use remote_access.Client.Flows.{Event, Prepared}
use remote_access.Client.Session.{normalize_id}
use remote_access.Desk.{
  AgentState, AgentRunner, Surroundings, running, failed, not_configured, new_runner, start_agent,
  stop_agent, restart_agent,
}
pub mod Messages
pub mod Kept
pub mod Actions

pub data ApolloProbe : Type 0 where
  unknown checking : ApolloProbe
  found : Bool → ApolloProbe
  not_found : Text → ApolloProbe

pub record Wizard : Type 0 where
  pub rendezvous_url : Text
  pub apollo_url : Text
  pub apollo_username : Text
  pub apollo_password : Text
  pub host_name : Text
  pub access_password : Text
  pub show_access_password : Bool
  pub probe : ApolloProbe
  pub creds_ok : Option (Result Text Text)
  pub error : Option Text
  pub busy : Bool

-- `trim_end_matches(".local")`; each round takes six characters, so the length is fuel enough.
unfoldable pub trim_local : ℕ → Text → Text
trim_local zero s = s
trim_local (suc n) s =
    let shorter = trim_local n (take (length s - 6) s) in
    if ends_with s (lit ".local") then shorter else s

abbrev pub host_label : Option Text → Text
host_label none = lit "My PC"
host_label (some h) = trim_local (length h) h

-- The name of the machine, where it is text
unfoldable pub new_wizard : Rng → ℕ → Option Text → Text → Wizard
unfolding random_password
new_wizard rng i hostname rendezvous_url = record {
  rendezvous_url = rendezvous_url;
  apollo_url = lit "https://127.0.0.1:47990";
  apollo_username = lit "";
  apollo_password = lit "";
  host_name = host_label hostname;
  access_password = random_password rng i;
  show_access_password = true;
  probe = unknown;
  creds_ok = none;
  error = none;
  busy = false;
}

pub data Msg : Type 0 where
  event : Event → Msg
  is_prepared : Prepared → Msg
  stream_ended error log : Text → Msg
  host_online : Option Bool → Msg
  probe : ApolloProbe → Msg
  creds setup_done : Result Text Text → Msg
  password_changed : Result Text (Unit {0}) → Msg

-- What the application spawns
pub data Job : Type 0 where
  connects : ClientConfig → Text → Option Text → Option Text → Bool → Job
  streams : Text → Text → List Text → Job
  kills : Job
  quits polls probes : Text → Job
  registers : Config → Job
  tests_creds : Text → Text → Text → Job
  finishes : Wizard → Job

-- `stream` is the slot of the child process, and whether it is still in it; `last_host_poll` is in
-- milliseconds, `none` for the time long ago that the application starts with.
pub record Desk : Type 0 where
  pub cfg : ClientConfig
  pub host_cfg : Option Config
  pub host_online : Option Bool
  pub agent : AgentRunner
  pub autostart : Bool
  pub wizard : Option Wizard
  pub remote_id : Text
  pub remote_password : Text
  pub remote_app : Text
  pub remember : Bool
  pub busy : Bool
  pub need_password : Bool
  pub log : List Text
  pub inbox : List Msg
  pub stream : Option Bool
  pub current : Option Prepared
  pub last_host_poll : Option ℕ
  pub jobs : List Job

-- What the calls answer that an operation makes at once
pub record Outside : Type 0 where
  pub client_config : Option ClientConfig
  pub host_config : Option Config
  pub saves : Result Text (Unit {0})
  pub moonlight : Result Text (Unit {0})
  pub spawns : Result Text (Unit {0})
  pub installs : Result Text (Unit {0})
  pub runner : Surroundings

abbrev pub spawn : Job → Desk → Desk
spawn j d = record d { jobs = j ∷ d.jobs }

unfoldable pub push_log : Text → Desk → Desk
push_log s d =
    let lines = d.log ++ (s ∷ []) in
    record d { log = if ltb 200 (length lines) then drop 100 lines else lines }

-- A line that reports an error
abbrev pub cross : Text → Text
cross e = lit "✗ " ++ e

-- `Some(s)`, or `None` for an empty one
abbrev pub non_empty : Text → Option Text
non_empty s = if is_empty s then none else some s

unfoldable pub start_connect : Desk → Desk
unfolding push_log normalize_id
start_connect d = elim (normalize_id d.remote_id) [
  | err e ↦ push_log (cross e) d
  | ok id ↦
      spawn
        (connects d.cfg id (non_empty d.remote_password) (non_empty (trim d.remote_app)) d.remember)
        (record d { busy = true; need_password = false; log = [] })
]

unfoldable pub start_stream : Outside → Prepared → Desk → Desk
unfolding push_log
start_stream o p d = elim o.moonlight [
  | err e ↦ record (push_log (cross e) d) { busy = false }
  | ok u ↦ elim o.spawns [
    | err e ↦ record (push_log (cross e) d) { busy = false }
    | ok u' ↦
        let d' =
          push_log (lit "▶ streaming \"" ++ (p.app ++ (lit "\" from " ++ p.host)))
            (spawn (streams p.host p.app d.cfg.stream_args) (record d { stream = some true })) in
        record d' { current = some p }
  ]
]

-- The watcher of the child process, when it ends
unfoldable pub child_ends : Text → Desk → Desk
child_ends s d = elim d.stream [
  | none ↦ d
  | some there ↦
      if there
      then record d { stream = some false; inbox = d.inbox ++ (stream_ended s ∷ []) }
      else d
]

abbrev pub kill : Option Bool → Desk → Desk
kill none d = d
kill (some there) d = if there then spawn kills d else d

unfoldable pub disconnect : Desk → Desk
unfolding push_log
disconnect d =
    push_log (lit "■ disconnected")
      (record (kill d.stream d) { stream = none; current = none; busy = false })

unfoldable pub quit_remote_app : Desk → Desk
quit_remote_app d = elim d.current [ none ↦ d | some p ↦ spawn (quits p.host) d ]

abbrev pub polled_lately : ℕ → Option ℕ → Bool
polled_lately now none = false
polled_lately now (some t) = ltb (now - t) 10000

unfoldable pub poll_host_online : ℕ → Desk → Desk
poll_host_online now d =
    if polled_lately now d.last_host_poll
    then d
    else let d' = record d { last_host_poll = some now } in
      elim d.host_cfg [
        | none ↦ d'
        | some c ↦ elim c.id [
          | none ↦ d'
          | some id ↦
              spawn (polls (trim_end_matches c.rendezvous_url b'/' ++ (lit "/v1/hosts/" ++ id))) d'
        ]
      ]

abbrev pub is_live : AgentState → Bool
is_live running = true
is_live (failed e) = true
is_live s = false

-- `apply_host_cfg`: save, register again, restart the agent.
unfoldable pub apply_host_cfg : Outside → Config → Text → Desk → Desk
unfolding push_log restart_agent
apply_host_cfg o cfg ok_msg d = elim o.saves [
  | err e ↦ push_log (cross e) d
  | ok u ↦
      let d' = spawn (registers cfg) (record d { host_cfg = some cfg }) in
      push_log ok_msg
        (if is_live d.agent.state then record d' { agent = restart_agent o.runner d.agent } else d')
]

module _ (c : Crypto) where
  unfoldable pub regenerate_password : Outside → Rng → ℕ → Desk → Desk
  unfolding apply_host_cfg set_random_password
  regenerate_password o rng i d = elim d.host_cfg [
    | none ↦ d
    | some cfg ↦
        let r = set_random_password c rng i cfg in
        apply_host_cfg o r.1 (lit "✓ new access password: " ++ r.0) d
  ]

  unfoldable pub set_custom_password : Outside → Rng → ℕ → Text → Bool → Desk → Desk
  unfolding apply_host_cfg set_password
  set_custom_password o rng i pw display d = elim d.host_cfg [
    | none ↦ d
    | some cfg ↦
        apply_host_cfg o
          (record (set_password c rng i pw cfg) {
            password_display = if display then some pw else none;
          })
          (lit "✓ access password changed") d
  ]

unfoldable pub toggle_autostart : Outside → Bool → Desk → Desk
unfolding push_log start_agent stop_agent
toggle_autostart o on d = elim o.installs [
  | err e ↦ push_log (lit "✗ autostart: " ++ e) d
  | ok u ↦
      let d' = record d { autostart = on } in
      if on
      then push_log
          (lit "✓ background service installed; it will keep this PC reachable after a reboot")
          (record d' { agent = stop_agent d.agent })
      else push_log (lit "✓ background service removed; agent runs while this window is open")
          (record d' { agent = start_agent o.runner d.agent })
]
