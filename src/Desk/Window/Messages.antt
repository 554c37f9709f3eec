-- ===== src/Desk/Window/Messages.antt =====
-- `drain` of crates/ra-desk/src/main.rs, the steps of the wizard, and how the window opens and closes.
use remote_access.Base.{
  Bool, true, false, not, ◌&&◌, ◌==◌, leb, Option, none, some, List, [], ◌∷◌, ◌++◌, Text, lit, Map,
  get, is_empty, contains, decimal, unwrap_or, if◌then◌else◌, Result, ok, err,
}
use remote_access.Proto.Types.{Endpoint}
use remote_access.Host.Names.{pretty_id}
use remote_access.Client.Remembered.{ClientConfig, RememberedHost}
use remote_access.Desk.{
  AgentState, AgentRunner, running, not_configured, new_runner, start_agent, stop_agent,
}
use remote_access.Client.Flows.{
  Event, resolving, streaming, info, probing, reachable, already_paired, pairing_started,
  pair_accepted, paired,
}
use remote_access.Desk.Window.{
  checking, Wizard, Msg, event, is_prepared, stream_ended, error, log, host_online, probe, creds,
  setup_done, password_changed, probes, tests_creds, finishes, Desk, Outside, spawn, push_log,
  cross, start_stream,
}

-- A step of the wizard, while it is open
abbrev pub with_wizard : (Wizard → Desk → Desk) → Desk → Desk
with_wizard f d = elim d.wizard [ none ↦ d | some w ↦ f w d ]

unfoldable pub wizard_probe : Desk → Desk
wizard_probe d =
    with_wizard
      (λ w d.
        spawn (probes w.apollo_url) (record d { wizard = some (record w { probe = checking }) }))
      d

unfoldable pub wizard_test_creds : Desk → Desk
wizard_test_creds d =
    with_wizard
      (λ w d.
        spawn (tests_creds w.apollo_url w.apollo_username w.apollo_password)
          (record d { wizard = some (record w { busy = true }) }))
      d

unfoldable pub wizard_finish : Desk → Desk
wizard_finish d =
    with_wizard
      (λ w d.
        let w' = record w { busy = true; error = none } in
        spawn (finishes w') (record d { wizard = some w' }))
      d

abbrev pub at_endpoint : Endpoint → Text
at_endpoint ep = ep.host ++ (lit ":" ++ (decimal ep.port ++ (lit " (" ++ (ep.kind ++ lit ")"))))

unfoldable pub event_line : Event → Text
unfolding pretty_id
event_line (resolving id) = lit "→ looking up " ++ pretty_id id
event_line (probing ep) = lit "  probing " ++ at_endpoint ep
event_line (reachable ep) = lit "✓ reachable at " ++ at_endpoint ep
event_line already_paired = lit "✓ already paired"
event_line pairing_started = lit "→ pairing… (host is checking the password)"
event_line pair_accepted = lit "✓ password accepted"
event_line paired = lit "✓ paired"
event_line (streaming a) = lit "→ streaming " ++ a
event_line (info s) = s

-- `Msg::Error`
unfoldable pub report_error : Text → Desk → Desk
unfolding push_log
report_error e d =
    let d' =
      if contains e (lit "password required")
      then push_log (lit "this host needs a password — enter it and press Connect again")
          (record d { need_password = true })
      else if contains e (lit "wrong password")
      then push_log (lit "✗ wrong password") (record d { need_password = true })
      else push_log (cross e) d in
    record d' { busy = false }

-- What a name that Apollo reports makes of the name in the wizard
abbrev pub named_by : Result Text Text → Text → Text
named_by (err e) host_name = host_name
named_by (ok name) host_name = if not (is_empty name) && is_empty host_name then name else host_name

unfoldable pub set_up : Outside → Result Text Text → Desk → Desk
unfolding push_log start_agent pretty_id
set_up o (ok id) d = push_log (lit "✓ this PC is now reachable as " ++ pretty_id id) (record d {
  wizard = none;
  host_cfg = o.host_config;
  agent = start_agent o.runner d.agent;
  last_host_poll = none;
})
set_up o (err e) d =
    with_wizard (λ w d. record d { wizard = some (record w { busy = false; error = some e }) }) d

unfoldable pub handle_msg : Outside → Msg → Desk → Desk
unfolding push_log event_line start_stream report_error set_up
handle_msg o (event e) d = push_log (event_line e) d
handle_msg o (is_prepared p) d = start_stream o p (record d {
  remote_password = lit "";
  remote_app = p.app;
  cfg = unwrap_or o.client_config d.cfg;
})
handle_msg o (stream_ended s) d = record (push_log s d) {
  stream = none;
  current = none;
  busy = false;
}
handle_msg o (host_online x) d = record d { host_online = x }
handle_msg o (error e) d = report_error e d
handle_msg o (log s) d = push_log s d
handle_msg o (probe p) d =
    with_wizard (λ w d. record d { wizard = some (record w { probe = p }) }) d
handle_msg o (creds r) d =
    with_wizard
      (λ w d. record d {
        wizard =
            some (record w { busy = false; host_name = named_by r w.host_name; creds_ok = some r });
      })
      d
handle_msg o (setup_done r) d = set_up o r d
handle_msg o (password_changed r) d = elim r [
  | ok u ↦ d
  | err e ↦
      push_log (lit "✗ saved locally, but the rendezvous server could not be updated: " ++ e) d
]

abbrev pub handle_msgs : Outside → List Msg → Desk → Desk
handle_msgs o [] d = d
handle_msgs o (x ∷ xs) d = handle_msgs o xs (handle_msg o x d)

-- All messages that are there
unfoldable pub drain : Outside → Desk → Desk
unfolding handle_msg
drain o d = handle_msgs o d.inbox (record d { inbox = [] })

abbrev pub text_leb : Text → Text → Bool
text_leb [] t = true
text_leb (x ∷ xs) [] = false
text_leb (x ∷ xs) (y ∷ ys) = if x == y then text_leb xs ys else leb x y

-- `keys().next_back()` of a `BTreeMap`: the greatest key
unfoldable pub last_key : Map RememberedHost → Option Text
last_key [] = none
last_key ((k, h) ∷ m) = elim (last_key m) [
  | none ↦ some k
  | some j ↦ some (if text_leb k j then j else k)
]

abbrev pub last_app_of : Option RememberedHost → Text
last_app_of none = lit "Desktop"
last_app_of (some h) = unwrap_or h.last_app (lit "Desktop")

-- The agent as the window opens
abbrev pub opened_agent : Outside → AgentRunner
opened_agent o = elim o.host_config [
  | none ↦ record new_runner { state = not_configured }
  | some c ↦ if c.autostart_agent then start_agent o.runner new_runner else new_runner
]

unfoldable pub new_desk : Outside → ClientConfig → Bool → Desk
unfolding get last_key start_agent
new_desk o cfg installed =
    let remote_id = unwrap_or (last_key cfg.hosts) (lit "") in
    record {
      cfg = cfg;
      host_cfg = o.host_config;
      host_online = none;
      agent = opened_agent o;
      autostart = installed;
      wizard = none;
      remote_id = remote_id;
      remote_password = lit "";
      remote_app = last_app_of (get remote_id cfg.hosts);
      remember = true;
      busy = false;
      need_password = false;
      log = [];
      inbox = [];
      stream = none;
      current = none;
      last_host_poll = none;
      jobs = [];
    }

abbrev pub is_running : AgentState → Bool
is_running running = true
is_running s = false

-- `on_exit`: the agent is handed to a background process, the start of which is the second part.
unfoldable pub on_exit : Desk → Desk × Bool
unfolding stop_agent
on_exit d =
    if is_running d.agent.state && not d.autostart
    then (record d { agent = stop_agent d.agent }, true)
    else (d, false)
