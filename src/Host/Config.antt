-- ===== src/Host/Config.antt =====
-- crates/ra-host/src/config.rs: permissions, the configuration, and passwords.
use remote_access.Base.{
  ℕ, zero, suc, ◌+◌, Bool, true, Option, none, some, List, [], ◌∷◌, Text, lit, unwrap_or, length,
  bit_or,
}
use remote_access.Proto.External.{Crypto, Rng}
use remote_access.Proto.Types.{Endpoint, default_gamestream_port}
use remote_access.Proto.Hashes.{password_h1}
use remote_access.Proto.Ids.{random_salt, random_hex}

-- Apollo's permission bits
abbrev pub all_inputs : ℕ
all_inputs = 0x00001F00

abbrev pub clipboard_set : ℕ
clipboard_set = 0x00010000

abbrev pub clipboard_read : ℕ
clipboard_read = 0x00020000

abbrev pub server_cmd : ℕ
server_cmd = 0x00100000

abbrev pub all_actions : ℕ
all_actions = 0x07000000

abbrev pub control : ℕ
control = bit_or (bit_or (bit_or all_actions all_inputs) clipboard_set) clipboard_read

pub record Config : Type 0 where
  pub rendezvous_url : Text
  pub id : Option Text
  pub token : Text
  pub name : Text
  pub password_h1 : Option Text
  pub password_salt : Text
  pub password_display : Option Text
  pub autostart_agent : Bool
  pub apollo_url : Text
  pub apollo_username : Text
  pub apollo_password : Text
  pub gamestream_port : ℕ
  pub client_permissions : ℕ
  pub extra_endpoints : List Endpoint
  pub advertise_public_ip : Bool
  pub advertise_lan_ips : Bool

abbrev pub password_alphabet : Text
password_alphabet = lit "abcdefghjkmnpqrstuvwxyzABCDEFGHJKLMNPQRSTUVWXYZ23456789"

-- `A[i]`; there is no index past the end.
abbrev pub char_at : Text → ℕ → ℕ
char_at [] i = 0
char_at (c ∷ cs) zero = c
char_at (c ∷ cs) (suc i) = char_at cs i

abbrev pub password_chars : Rng → ℕ → ℕ → Text
password_chars rng i zero = []
password_chars rng i (suc n) =
    char_at password_alphabet (rng.gen_range i 0 (length password_alphabet))
    ∷ password_chars rng (suc i) n

unfoldable pub random_password : Rng → ℕ → Text
random_password rng i = password_chars rng i 8

module _ (c : Crypto) where
  -- The token is the draw 0, the salt starts at the draw 1.
  unfoldable pub new_default : Rng → Option Text → Text → Text → Text → Config
  new_default rng hostname rendezvous_url apollo_username apollo_password = record {
    rendezvous_url = rendezvous_url;
    id = none;
    token = random_hex c rng 0 32;
    name = unwrap_or hostname (lit "Apollo Host");
    password_h1 = none;
    password_salt = random_salt rng 1 16;
    password_display = none;
    autostart_agent = true;
    apollo_url = lit "https://127.0.0.1:47990";
    apollo_username = apollo_username;
    apollo_password = apollo_password;
    gamestream_port = default_gamestream_port;
    client_permissions = control;
    extra_endpoints = [];
    advertise_public_ip = true;
    advertise_lan_ips = true;
  }

  -- The salt starts at that draw.
  unfoldable pub set_password : Rng → ℕ → Text → Config → Config
  set_password rng i password cfg =
      let salt = random_salt rng i 16 in
      record cfg {
        password_salt = salt;
        password_h1 = some (password_h1 c password salt);
        password_display = none;
      }

  unfoldable pub set_random_password : Rng → ℕ → Config → Text × Config
  unfolding random_password set_password
  set_random_password rng i cfg =
      let pw = random_password rng i in
      (pw, record (set_password rng (i + 8) pw cfg) { password_display = some pw })
