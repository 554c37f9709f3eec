-- ===== src/Examples/Moonlight.antt =====
-- The search for Moonlight and its list of apps at concrete inputs.
use remote_access.Base.{
  text_eq, split, trim, is_whitespace, ◌≡◌, refl, [], ◌∷◌, ◌++◌, none, some, ok, true, lit,
}
use remote_access.Client.Moonlight.{
  System, other, find_moonlight, candidates, in_search_path, app_titles,
}
use remote_access.Client.Moonlight.Places.{first_of, places, find_moonlight-first_of}

-- The second name in the first directory of PATH
abbrev system : System
system = record {
  os = other;
  exists = λ p. text_eq p (lit "/opt/moonlight-qt");
  is_file = λ p. text_eq p (lit "/opt/moonlight-qt");
  moonlight_bin = some (lit "/missing");
  search_path = some (lit "/opt" ∷ lit "/bin" ∷ []);
  join = λ dir name. dir ++ (lit "/" ++ name);
}

found : find_moonlight system none ≡ some (lit "/opt/moonlight-qt")
unfolding find_moonlight candidates in_search_path text_eq
found = refl

find_moonlight-first_of_example :
    find_moonlight system (some (lit "/gone"))
    ≡ first_of system (places system (some (lit "/gone")))
find_moonlight-first_of_example = find_moonlight-first_of system (some (lit "/gone"))

listed :
    app_titles (record { success = true; stdout = lit "Desktop\n Steam \n\n"; stderr = [] })
    ≡ ok (lit "Desktop" ∷ lit "Steam" ∷ [])
unfolding app_titles split trim is_whitespace
listed = refl
