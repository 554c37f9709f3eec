-- ===== src/Client/Moonlight/Places.antt =====
-- The places in which `find_moonlight` of crates/ra-client/src/moonlight.rs looks, as one list.
use remote_access.Base.{
  Bool, Option, none, some, List, [], ◌∷◌, ◌++◌, Text, map, find, if◌then◌else◌, ◌≡◌, refl, arith,
  ◌∙◌,
}
use remote_access.Client.Moonlight.{
  System, existing, otherwise, binary_names, candidates, in_search_path, dirs_of, find_moonlight,
}

-- A path that is taken if there is something, or only if it is a file
pub data Place : Type 0 where
  anything file : Text → Place

abbrev pub path_of : Place → Text
path_of (anything p) = p
path_of (file p) = p

abbrev pub works : System → Place → Bool
works sys (anything p) = sys.exists p
works sys (file p) = sys.is_file p

abbrev given : Option Text → List Place
given none = []
given (some p) = anything p ∷ []

abbrev pub in_dirs : System → List Text → List Place
in_dirs sys [] = []
in_dirs sys (dir ∷ dirs) = map (λ name. file (sys.join dir name)) binary_names ++ in_dirs sys dirs

-- The configured path, that of MOONLIGHT_BIN, the usual ones, and each directory of PATH with each name
abbrev pub places : System → Option Text → List Place
places sys configured =
    given configured
    ++ (given sys.moonlight_bin
        ++ (map anything (candidates sys.os) ++ in_dirs sys (dirs_of sys.search_path)))

-- The path of the first that works
abbrev pub first_of : System → List Place → Option Text
first_of sys [] = none
first_of sys (p ∷ ps) = if works sys p then some (path_of p) else first_of sys ps

first_of-append :
    (sys : System) (ps qs : List Place)
    → first_of sys (ps ++ qs) ≡ otherwise (first_of sys ps) (first_of sys qs)
first_of-append sys [] qs = refl
first_of-append sys (p ∷ ps) qs = ground (arith, first_of-append sys ps qs)

first_of-given : (sys : System) (o : Option Text) → first_of sys (given o) ≡ existing sys o
first_of-given sys none = refl
first_of-given sys (some p) = refl

first_of-anything :
    (sys : System) (ps : List Text) → first_of sys (map anything ps) ≡ find sys.exists ps
first_of-anything sys [] = refl
first_of-anything sys (p ∷ ps) = rw (first_of-anything sys ps) refl

first_of-in_dirs :
    (sys : System) (dirs : List Text) → first_of sys (in_dirs sys dirs) ≡ in_search_path sys dirs
unfolding in_search_path
first_of-in_dirs sys [] = refl
first_of-in_dirs sys (dir ∷ dirs) =
    first_of-append sys (map (λ name. file (sys.join dir name)) binary_names) (in_dirs sys dirs)
    ∙ rw (first_of-in_dirs sys dirs) refl

-- Moonlight is found at the first place that works.
pub find_moonlight-first_of :
    (sys : System) (configured : Option Text)
    → find_moonlight sys configured ≡ first_of sys (places sys configured)
unfolding find_moonlight
find_moonlight-first_of sys configured =
    rw
      (
        first_of-append sys (given configured) (
            given sys.moonlight_bin
            ++ (map anything (candidates sys.os) ++ in_dirs sys (dirs_of sys.search_path))),
        first_of-append sys (given sys.moonlight_bin)
            (map anything (candidates sys.os) ++ in_dirs sys (dirs_of sys.search_path)),
        first_of-append sys (map anything (candidates sys.os))
            (in_dirs sys (dirs_of sys.search_path)),
        first_of-given sys configured,
        first_of-given sys sys.moonlight_bin,
        first_of-anything sys (candidates sys.os),
        first_of-in_dirs sys (dirs_of sys.search_path),
      )
      refl
