-- ===== src/Rendezvous/State.antt =====
-- The state of crates/ra-rendezvous/src/lib.rs: hosts, challenges, pending requests and results.
-- An `Instant` is its number of nanoseconds. A `Notify` carries no data and is left out: a waiting
-- handler may look at the store again at any time.
use remote_access.Base.{
  ℕ, ◌-◌, ◌*◌, ◌/◌, ◌^◌, Option, none, some, List, [], ◌∷◌, String, Text, Map, get, insert, retain,
  values, ltb, unwrap_or, Result, ok, err, ◌≡◌,
}
use remote_access.Proto.Types.{Endpoint, PairRequest, PairResult}

abbrev pub heartbeat_secs : ℕ
heartbeat_secs = 30

abbrev pub offline_after_secs : ℕ
offline_after_secs = 90

abbrev pub challenge_ttl_secs : ℕ
challenge_ttl_secs = 120

abbrev pub result_ttl_secs : ℕ
result_ttl_secs = 300

abbrev pub max_long_poll_secs : ℕ
max_long_poll_secs = 30

abbrev pub challenges_per_minute : ℕ
challenges_per_minute = 20

-- `Duration::from_secs`
abbrev pub from_secs : ℕ → ℕ
from_secs n = n * 1000000000

-- `now.duration_since(t)` and `t.elapsed()`, which are zero where `t` is later.
abbrev pub duration_since : ℕ → ℕ → ℕ
duration_since now t = now - t

-- `Duration::as_secs`
abbrev pub as_secs : ℕ → ℕ
as_secs d = d / 1000000000

abbrev pub u64_max : ℕ
u64_max = 2 ^ 64 - 1

pub record HostRecord : Type 0 where
  pub id : Text
  pub token_fp : Text
  pub name : Text
  pub platform : Text
  pub endpoints : List Endpoint
  pub password_salt : Text
  pub agent_version : Text
  pub last_seen : Option ℕ
  pub last_seen_unix : ℕ

pub record HostRuntime : Type 0 where
  pub pending : List PairRequest
  pub challenge_times : List ℕ

abbrev pub default_runtime : HostRuntime
default_runtime = record { pending = []; challenge_times = [] }

pub record Challenge : Type 0 where
  pub host_id : Text
  pub challenge : Text
  pub created : ℕ

pub record ResultSlot : Type 0 where
  pub result : Option PairResult
  pub created : ℕ

pub record Store : Type 0 where
  pub hosts : Map HostRecord
  pub runtime : Map HostRuntime
  pub challenges : Map Challenge
  pub results : Map ResultSlot

abbrev pub empty_store : Store
empty_store = record { hosts = []; runtime = []; challenges = []; results = [] }

pub data StatusCode : Type 0 where
  bad_request unauthorized forbidden not_found gone too_many_requests : StatusCode
  service_unavailable panicked : StatusCode

pub record ApiError : Type 0 where
  pub status : StatusCode
  pub message : String

abbrev pub api_err : StatusCode → String → ApiError
api_err code msg = record { status = code; message = msg }

-- What a handler answers, and the store that it leaves.
abbrev pub Outcome : Type 0 → Type 0
Outcome A = Result ApiError A × Store

-- A handler that changes the store only where it answers `Ok`.
abbrev pub commit : {A : Type 0} → Store → Result ApiError (A × Store) → Outcome A
commit s (ok (a, s')) = (ok a, s')
commit s (err e) = (err e, s)

-- `runtime.entry(id).or_default()`
abbrev pub runtime_of : Text → Store → HostRuntime
runtime_of id s = unwrap_or (get id s.runtime) default_runtime

abbrev pub put_runtime : Text → HostRuntime → Store → Store
put_runtime id rt s = record s { runtime = insert id rt s.runtime }

-- What serde writes of a host: the fields marked `serde(skip)` are left out.
pub record SavedHost : Type 0 where
  pub id : Text
  pub token_fp : Text
  pub name : Text
  pub platform : Text
  pub endpoints : List Endpoint
  pub password_salt : Text
  pub agent_version : Text

unfoldable pub saved : HostRecord → SavedHost
saved h = record {
  id = h.id;
  token_fp = h.token_fp;
  name = h.name;
  platform = h.platform;
  endpoints = h.endpoints;
  password_salt = h.password_salt;
  agent_version = h.agent_version;
}

-- What serde makes of it: a field that was left out has its default.
unfoldable pub revived : SavedHost → HostRecord
revived h = record {
  id = h.id;
  token_fp = h.token_fp;
  name = h.name;
  platform = h.platform;
  endpoints = h.endpoints;
  password_salt = h.password_salt;
  agent_version = h.agent_version;
  last_seen = none;
  last_seen_unix = 0;
}

-- `serde_json` on lists of saved hosts, and the contents of files that it writes and reads: such lists
-- are written, and read again as they were.
pub record Json : Type 1 where
  pub Contents : Type 0
  pub to_string_pretty : List SavedHost → Option Contents
  pub from_str : Contents → Option (List SavedHost)
  pub from_str-to_string_pretty :
      (hs : List SavedHost)
      → (t : Contents) × (to_string_pretty hs ≡ some t) × (from_str t ≡ some hs)

-- How a write of a file ends: as asked for, or with an error, after which the file holds anything or
-- cannot be read.
pub data Write (A : Type 0) : Type 0 where
  done : Write A
  failed : Option A → Write A

unfoldable pub saved_all : List HostRecord → List SavedHost
unfolding saved
saved_all [] = []
saved_all (h ∷ hs) = saved h ∷ saved_all hs

unfoldable pub insert_hosts : List SavedHost → Map HostRecord → Map HostRecord
unfolding revived
insert_hosts [] m = m
insert_hosts (h ∷ hs) m = insert_hosts hs (insert h.id (revived h) m)

module _ (json : Json) where
  -- What the state file holds, if there is one and it can be read; the outer `none` is a server that
  -- keeps none.
  abbrev pub StateFile : Type 0
  StateFile = Option (Option json.Contents)

  abbrev pub written : Write json.Contents → json.Contents → Option json.Contents
  written done t = some t
  written (failed left) t = left

  -- `AppState::persist`
  unfoldable pub persist : Write json.Contents → Store → StateFile → StateFile
  unfolding saved_all
  persist w s none = none
  persist w s (some old) = elim (json.to_string_pretty (saved_all (values s.hosts))) [
    | none ↦ some old
    | some t ↦ some (written w t)
  ]

  abbrev pub with_hosts : Option (List SavedHost) → Store
  with_hosts none = empty_store
  with_hosts (some hs) = record empty_store { hosts = insert_hosts hs [] }

  -- `AppState::new`: a file that cannot be read, or parsed, counts as none.
  unfoldable pub load : StateFile → Store
  unfolding insert_hosts
  load none = empty_store
  load (some none) = empty_store
  load (some (some t)) = with_hosts (json.from_str t)

-- `AppState::gc`
unfoldable pub gc : ℕ → Store → Store
gc now s = record s {
  challenges =
      retain (λ c. ltb (as_secs (duration_since now c.created)) challenge_ttl_secs) s.challenges;
  results = retain (λ r. ltb (as_secs (duration_since now r.created)) result_ttl_secs) s.results;
}
