-- ===== src/Proto/Types.antt =====
-- The wire types of crates/ra-proto/src/lib.rs.
use remote_access.Base.{ℕ, List, Option, Bool, Text, lit}

abbrev pub api_version : Text
api_version = lit "v1"

-- Length of a host ID in decimal digits.
abbrev pub id_digits : ℕ
id_digits = 9

abbrev pub default_gamestream_port : ℕ
default_gamestream_port = 47989

pub record Endpoint : Type 0 where
  pub host : Text
  pub port : ℕ
  pub kind : Text

pub record RegisterRequest : Type 0 where
  pub id : Option Text
  pub token : Text
  pub name : Text
  pub platform : Text
  pub endpoints : List Endpoint
  pub password_salt : Text
  pub agent_version : Text

pub record RegisterResponse : Type 0 where
  pub id : Text
  pub observed_addr : Option Text
  pub heartbeat_secs : ℕ

pub record PairRequest : Type 0 where
  pub request_id : Text
  pub challenge : Text
  pub response : Text
  pub device_name : Text
  pub client_uid : Option Text
  pub sealed_pin : Text
  pub remember : Bool

pub data PairStatus : Type 0 where
  accepted paired rejected failed : PairStatus

pub record PairResult : Type 0 where
  pub request_id : Text
  pub status : PairStatus
  pub message : Option Text

pub record HostInfo : Type 0 where
  pub id : Text
  pub name : Text
  pub platform : Text
  pub online : Bool
  pub endpoints : List Endpoint
  pub password_salt : Text
  pub last_seen_secs : ℕ

pub record ChallengeResponse : Type 0 where
  pub request_id : Text
  pub challenge : Text
  pub ttl_secs : ℕ

pub record SubmitPairRequest : Type 0 where
  pub request_id : Text
  pub response : Text
  pub device_name : Text
  pub client_uid : Option Text
  pub sealed_pin : Text
  pub remember : Bool
