-- ===== src/Client/Remembered.antt =====
-- crates/ra-client/src/config.rs: what the client remembers.
use remote_access.Base.{Option, none, List, Text, lit, Map}

pub record RememberedHost : Type 0 where
  pub name : Text
  pub password_h1 : Option Text
  pub password_salt : Option Text
  pub last_endpoint : Option Text
  pub last_app : Option Text
  pub server_cert_pem : Option Text

pub record ClientConfig : Type 0 where
  pub rendezvous_url : Text
  pub moonlight_path : Option Text
  pub device_name : Text
  pub hosts : Map RememberedHost
  pub stream_args : List Text

abbrev pub default_remembered : RememberedHost
default_remembered = record {
  name = lit "";
  password_h1 = none;
  password_salt = none;
  last_endpoint = none;
  last_app = none;
  server_cert_pem = none;
}
