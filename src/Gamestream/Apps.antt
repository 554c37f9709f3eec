-- ===== src/Gamestream/Apps.antt =====
-- crates/ra-gamestream/src/apps.rs: the list of the host's apps.
use remote_access.Base.{
  ℕ, ◌^◌, Bool, false, not, ◌||◌, ◌==◌, Option, none, some, List, map, filter_by, Text, lit,
  text_eq, trim, parse_unsigned, unwrap_or, Result, ok, ◌>>=◌,
}
use remote_access.Gamestream.External.{Libraries}
use remote_access.Gamestream.Errors.{Error}
use remote_access.Gamestream.Replies.{parse_root, child_text, is_named}

pub record App : Type 0 where
  pub id : ℕ
  pub title : Text
  pub hdr_supported : Bool
  pub uuid : Option Text

abbrev pub permission_denied_app_id : ℕ
permission_denied_app_id = 114514

-- The zero-width characters of a padded title
abbrev pub is_padding : ℕ → Bool
is_padding c = c == 0x200B || c == 0x200C || c == 0x200D || c == 0xFEFF

module _ (l : Libraries) where
  unfoldable pub trimmed : l.Node → Text → Option Text
  trimmed n name = elim (child_text l n name) [ none ↦ none | some s ↦ some (trim s) ]

  unfoldable pub read_app : l.Node → App
  unfolding trimmed
  read_app n = record {
    id =
        unwrap_or (elim (trimmed n (lit "ID")) [ none ↦ none | some s ↦ parse_unsigned (2 ^ 32) s ])
          0;
    title = filter_by (λ c. not (is_padding c)) (unwrap_or (trimmed n (lit "AppTitle")) (lit ""));
    hdr_supported = elim (trimmed n (lit "IsHdrSupported")) [
      | none ↦ false
      | some s ↦ text_eq s (lit "1")
    ];
    uuid = trimmed n (lit "UUID");
  }

  unfoldable pub parse_applist : Text → Result Error (List App)
  unfolding read_app
  parse_applist body = do
    root ← parse_root l body
    ok (map read_app (filter_by (is_named l (lit "App")) (l.children root.doc)))
