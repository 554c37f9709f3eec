-- ===== src/Desk/Setup.antt =====
-- crates/ra-desk/src/setup.rs: what the wizard asks Apollo, and how it sets this machine up. The web UI,
-- the ID server and the files are the world of the agent; the status of a page is its HTTP status.
use remote_access.Base.{
  ℕ, Bool, false, ◌&&◌, leb, ltb, Option, some, Text, lit, ◌++◌, is_empty, trim, take,
  trim_end_matches, decimal, starts_with, if◌then◌else◌, Result, ok, err,
}
use remote_access.Proto.External.{Rng, Crypto}
use remote_access.Host.Config.{Config, new_default, set_password}
use remote_access.Host.Running.{World, register}
use remote_access.Desk.Window.{Wizard, ApolloProbe, found, not_found}

-- The answer to a request of the probe: its status and the path that it was redirected to. An error
-- says whether there was no connection.
pub record Page : Type 0 where
  pub status : ℕ
  pub path : Text

pub record Failure : Type 0 where
  pub is_connect : Bool
  pub message : Text

abbrev pub is_success : ℕ → Bool
is_success s = leb 200 s && ltb s 300

abbrev pub is_first_run : Result Failure Page → Bool
is_first_run (err e) = false
is_first_run (ok p) = starts_with p.path (lit "/welcome")

unfoldable pub probe_apollo : (Text → Result Failure Page) → Text → ApolloProbe
probe_apollo web url =
    let base = trim_end_matches url b'/' in
    elim (web (base ++ lit "/api/configLocale")) [
      | ok r ↦
          if is_success r.status
          then found (is_first_run (web (base ++ lit "/")))
          else not_found (lit "web UI answered " ++ decimal r.status)
      | err e ↦ not_found (
          if e.is_connect
          then lit "nothing is listening; is Apollo installed and running?"
          else e.message)
    ]

module _ (c : Crypto) (alnum : ℕ → Bool) (platform version : Text) {W : Type 0} (w : World W) where
  -- The configuration that the wizard writes
  unfoldable pub wizard_config : Rng → ℕ → Option Text → Wizard → Config
  unfolding new_default set_password
  wizard_config rng i hostname z =
      let cfg = new_default c rng hostname z.rendezvous_url z.apollo_username z.apollo_password in
      let named = record cfg {
        apollo_url = z.apollo_url;
        name = if is_empty (trim z.host_name) then cfg.name else take 64 (trim z.host_name);
      } in
      record (set_password c rng i z.access_password named) {
        password_display = some z.access_password;
      }

  unfoldable pub finish : Rng → ℕ → Option Text → Wizard → W → Result Text Text × W
  unfolding wizard_config register
  finish rng i hostname z s =
      let cfg = wizard_config rng i hostname z in
      let saved = w.save_config cfg s in
      elim saved.0 [
        | err e ↦ (err e, saved.1)
        | ok u ↦
            let r = register c alnum platform version w cfg saved.1 in
            elim r.0 [ err e ↦ (err e, r.2) | ok resp ↦ (ok resp.id, r.2) ]
      ]
