-- ===== src/Examples/Window.antt =====
-- The desktop application at concrete inputs.
use remote_access.Base.{none, some, true, [], ◌∷◌, lit, ok, List}
use remote_access.Client.Remembered.{ClientConfig}
use remote_access.Desk.Window.{Outside, stream_ended}
use remote_access.Desk.Window.Actions.{Action, connect, types, arrives, updates, disconnects}
use remote_access.Examples.Host.{host_config}

abbrev pub client_config : ClientConfig
client_config = record {
  rendezvous_url = lit "http://127.0.0.1:21114";
  moonlight_path = none;
  device_name = lit "laptop";
  hosts = [];
  stream_args = [];
}

abbrev outside : Outside
outside = record {
  client_config = none;
  host_config = some host_config;
  saves = ok tt;
  moonlight = ok tt;
  spawns = ok tt;
  installs = ok tt;
  runner = record { config = some host_config; can_bind = true };
}

abbrev actions : List Action
actions =
    types (lit "123 456 789") (lit "secret") (lit "Desktop") true
    ∷ connect
    ∷ arrives (stream_ended (lit "stream ended"))
    ∷ updates outside 5
    ∷ disconnects
    ∷ []
