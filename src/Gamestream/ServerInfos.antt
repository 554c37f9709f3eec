-- ===== src/Gamestream/ServerInfos.antt =====
-- crates/ra-gamestream/src/serverinfo.rs: what a host tells of itself.
use remote_access.Base.{
  ℕ, ◌^◌, ◌%◌, Bool, false, not, Option, none, some, Text, lit, text_eq, trim, is_empty,
  starts_with, ends_with, contains, first_field, parse_unsigned, unwrap_or, Result, ok, ◌>>=◌,
  if◌then◌else◌,
}
use remote_access.Gamestream.External.{Libraries}
use remote_access.Gamestream.Errors.{Error, default_https_port}
use remote_access.Gamestream.Replies.{Root, parse_root, child}

pub record ServerInfo : Type 0 where
  pub hostname : Text
  pub uuid : Text
  pub app_version : Text
  pub gfe_version : Text
  pub https_port : ℕ
  pub external_port : Option ℕ
  pub local_ip : Option Text
  pub external_ip : Option Text
  pub mac : Option Text
  pub paired : Bool
  pub state : Text
  pub current_game : ℕ
  pub server_codec_mode_support : ℕ
  pub permission : Option ℕ
  pub virtual_display_capable : Option Bool

abbrev keep_text : (Text → Bool) → Option Text → Option Text
keep_text p none = none
keep_text p (some s) = if p s then some s else none

abbrev as_u16 : Option ℕ → Option ℕ
as_u16 none = none
as_u16 (some n) = some (n % 2 ^ 16)

module _ (l : Libraries) where
  -- The closures `get` and `num`
  unfoldable pub field : Root l → Text → Option Text
  field root n = elim (child l root n) [
    | none ↦ none
    | some s ↦ if is_empty (trim s) then none else some (trim s)
  ]

  unfoldable pub number : Root l → Text → Option ℕ
  unfolding field
  number root n = elim (field root n) [ none ↦ none | some s ↦ parse_unsigned (2 ^ 32) s ]

  unfoldable pub read_info : Root l → ServerInfo
  unfolding field number
  read_info root = record {
    hostname = unwrap_or (field root (lit "hostname")) (lit "");
    uuid = unwrap_or (field root (lit "uniqueid")) (lit "");
    app_version = unwrap_or (field root (lit "appversion")) (lit "");
    gfe_version = unwrap_or (field root (lit "GfeVersion")) (lit "");
    https_port = unwrap_or (as_u16 (number root (lit "HttpsPort"))) default_https_port;
    external_port = as_u16 (number root (lit "ExternalPort"));
    local_ip = keep_text (λ ip. not (starts_with ip (lit "127."))) (field root (lit "LocalIP"));
    external_ip = field root (lit "ExternalIP");
    mac = keep_text (λ m. not (text_eq m (lit "00:00:00:00:00:00"))) (field root (lit "mac"));
    paired = elim (field root (lit "PairStatus")) [ none ↦ false | some v ↦ text_eq v (lit "1") ];
    state = unwrap_or (field root (lit "state")) (lit "");
    current_game = unwrap_or (number root (lit "currentgame")) 0;
    server_codec_mode_support = unwrap_or (number root (lit "ServerCodecModeSupport")) 0;
    permission = number root (lit "Permission");
    virtual_display_capable = elim (field root (lit "VirtualDisplayCapable")) [
      | none ↦ none
      | some v ↦ some (text_eq v (lit "1"))
    ];
  }

  unfoldable pub parse_server_info : Text → Result Error ServerInfo
  unfolding read_info
  parse_server_info body = do root ← parse_root l body; ok (read_info root)

unfoldable pub major_version : ServerInfo → ℕ
major_version info = unwrap_or (parse_unsigned (2 ^ 32) (first_field b'.' info.app_version)) 0

unfoldable pub is_busy : ServerInfo → Bool
is_busy info = ends_with info.state (lit "_SERVER_BUSY")

unfoldable pub is_sunshine_family : ServerInfo → Bool
is_sunshine_family info = not (contains info.state (lit "MJOLNIR"))
