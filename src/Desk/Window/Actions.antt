-- ===== src/Desk/Window/Actions.antt =====
-- What stays true of the desktop application of crates/ra-desk/src/main.rs, whatever the user does and
-- whatever is reported to it.
use remote_access.Base.{ℕ, Bool, some, List, [], ◌∷◌, ◌++◌, Text}
use remote_access.Proto.External.{Rng, Crypto}
use remote_access.Desk.{start_agent, stop_agent}
use remote_access.Desk.Window.{
  Desk, Outside, log, Msg, Wizard, start_connect, child_ends, disconnect, quit_remote_app,
  poll_host_online, regenerate_password, set_custom_password, toggle_autostart,
}
use remote_access.Desk.Window.Messages.{
  on_exit, drain, wizard_probe, wizard_test_creds, wizard_finish,
}

-- What can happen to the application: what the user does, messages that arrive and are handled, the end
-- of the child process, and the clock.
pub data Action : Type 0 where
  connect disconnects quits_app probes_apollo tests_login finishes_wizard clears_log leaves : Action
  types : Text → Text → Text → Bool → Action
  opens_wizard : Wizard → Action
  arrives : Msg → Action
  updates : Outside → ℕ → Action
  child_ended : Text → Action
  new_password : Outside → Rng → ℕ → Action
  own_password : Outside → Rng → ℕ → Text → Bool → Action
  autostarts : Outside → Bool → Action
  shares : Outside → Action
  stops_sharing : Action

module _ (c : Crypto) where
  unfoldable pub act : Action → Desk → Desk
  unfolding start_connect disconnect quit_remote_app wizard_probe wizard_test_creds wizard_finish
      on_exit drain poll_host_online child_ends regenerate_password set_custom_password
      toggle_autostart start_agent stop_agent
  act connect d = start_connect d
  act disconnects d = disconnect d
  act quits_app d = quit_remote_app d
  act probes_apollo d = wizard_probe d
  act tests_login d = wizard_test_creds d
  act finishes_wizard d = wizard_finish d
  act clears_log d = record d { log = [] }
  act leaves d = (on_exit d).0
  act (types id pw app remember) d = record d {
    remote_id = id;
    remote_password = pw;
    remote_app = app;
    remember = remember;
  }
  act (opens_wizard w) d = wizard_probe (record d { wizard = some w })
  act (arrives m) d = record d { inbox = d.inbox ++ (m ∷ []) }
  act (updates o now) d = poll_host_online now (drain o d)
  act (child_ended s) d = child_ends s d
  act (new_password o rng i) d = regenerate_password c o rng i d
  act (own_password o rng i pw display) d = set_custom_password c o rng i pw display d
  act (autostarts o on) d = toggle_autostart o on d
  act (shares o) d = record d { agent = start_agent o.runner d.agent }
  act stops_sharing d = record d { agent = stop_agent d.agent }

  abbrev pub act_all : List Action → Desk → Desk
  act_all [] d = d
  act_all (a ∷ actions) d = act_all actions (act a d)
