-- ===== src/Gamestream/Errors.antt =====
-- The errors of crates/ra-gamestream/src/lib.rs and crates/ra-gamestream/src/pairing.rs.
use remote_access.Base.{ℕ, ℤ, Text}

pub data PairError : Type 0 where
  old_server : ℕ → PairError
  not_paired already_in_progress wrong_pin bad_server_signature : PairError
  malformed : Text → PairError

-- `panicked` is a failed `expect`; `out_of_fuel` is a loop that has used up the fuel of the model.
pub data Error : Type 0 where
  http xml crypto identity io tls : Text → Error
  status : ℤ → Text → Error
  missing : Text → Error
  hex : Error
  pair : PairError → Error
  panicked out_of_fuel : Error

abbrev pub default_http_port : ℕ
default_http_port = 47989

abbrev pub default_https_port : ℕ
default_https_port = 47984
