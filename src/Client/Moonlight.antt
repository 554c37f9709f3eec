-- ===== src/Client/Moonlight.antt =====
-- crates/ra-client/src/moonlight.rs: finding the Moonlight binary, the arguments that it is called with,
-- and the reading of its list of apps.
use remote_access.Base.{
  Bool, true, false, Option, none, some, List, [], ◌∷◌, ◌++◌, Text, Bytes, lit, map, filter_by,
  find, split, trim, trim_end_matches, is_empty, not, if◌then◌else◌, Result, ok, err, ◌≡◌, refl,
  arith,
}
pub mod Places

pub data Os : Type 0 where
  macos windows other : Os

-- The system: its files, two of its variables, `PATH` in its parts, and `Path::join`
pub record System : Type 0 where
  pub os : Os
  pub exists : Text → Bool
  pub is_file : Text → Bool
  pub moonlight_bin : Option Text
  pub search_path : Option (List Text)
  pub join : Text → Text → Text

unfoldable pub candidates : Os → List Text
candidates macos =
    lit "/Applications/Moonlight.app/Contents/MacOS/Moonlight"
    ∷ lit "/opt/homebrew/bin/moonlight"
    ∷ lit "/usr/local/bin/moonlight"
    ∷ []
candidates windows =
    lit "C:\\Program Files\\Moonlight Game Streaming\\Moonlight.exe"
    ∷ lit "C:\\Program Files (x86)\\Moonlight Game Streaming\\Moonlight.exe"
    ∷ []
candidates other =
    lit "/usr/bin/moonlight-qt"
    ∷ lit "/usr/bin/moonlight"
    ∷ lit "/usr/local/bin/moonlight"
    ∷ lit "/var/lib/flatpak/exports/bin/com.moonlight_stream.Moonlight"
    ∷ []

abbrev pub binary_names : List Text
binary_names = lit "moonlight" ∷ lit "moonlight-qt" ∷ lit "Moonlight.exe" ∷ []

-- A path that is given, if there is something
abbrev pub existing : System → Option Text → Option Text
existing sys none = none
existing sys (some p) = if sys.exists p then some p else none

-- `first` or else `second`
abbrev pub otherwise : Option Text → Option Text → Option Text
otherwise (some p) q = some p
otherwise none q = q

unfoldable pub in_search_path : System → List Text → Option Text
in_search_path sys [] = none
in_search_path sys (dir ∷ dirs) =
    otherwise (find sys.is_file (map (sys.join dir) binary_names)) (in_search_path sys dirs)

abbrev pub dirs_of : Option (List Text) → List Text
dirs_of none = []
dirs_of (some dirs) = dirs

unfoldable pub find_moonlight : System → Option Text → Option Text
unfolding candidates in_search_path
find_moonlight sys configured = otherwise (existing sys configured) (
    otherwise (existing sys sys.moonlight_bin) (
      otherwise (find sys.exists (candidates sys.os))
        (in_search_path sys (dirs_of sys.search_path))))

-- The arguments of the calls
unfoldable pub list_args : Text → List Text
list_args host = lit "list" ∷ host ∷ []

unfoldable pub pair_args : Text → Text → List Text
pair_args host pin = lit "pair" ∷ host ∷ lit "--pin" ∷ pin ∷ []

unfoldable pub stream_args : Text → Text → List Text → List Text
stream_args host app extra = (lit "stream" ∷ host ∷ app ∷ []) ++ extra

unfoldable pub quit_args : Text → List Text
quit_args host = lit "quit" ∷ host ∷ []

-- What a process leaves when it ends; its output as `String::from_utf8_lossy` reads it
pub record Output : Type 0 where
  pub success : Bool
  pub stdout : Text
  pub stderr : Text

-- `Moonlight::list`; `lines` ends a line before a carriage return, which `trim` drops with the rest.
unfoldable pub app_titles : Output → Result Text (List Text)
app_titles out =
    if out.success
    then ok (filter_by (λ t. not (is_empty t)) (map trim (split 10 out.stdout)))
    else err (lit "moonlight list failed: " ++ trim out.stderr)
