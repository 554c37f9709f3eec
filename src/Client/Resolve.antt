-- ===== src/Client/Resolve.antt =====
-- `Session::resolve` of crates/ra-client/src/session.rs: the best endpoint that answers.
use remote_access.Base.{
  ℕ, ◌≡◌, Bool, true, ltb, leb, Option, none, some, List, [], ◌∷◌, ◌++◌, Text, lit, text_eq,
  contains_char, decimal, if◌then◌else◌,
}
use remote_access.Proto.Types.{Endpoint, HostInfo}
use remote_access.Gamestream.ServerInfos.{ServerInfo}
use remote_access.Gamestream.Transport.{HostAddr, new_addr}

pub record Resolved : Type 0 where
  pub info : HostInfo
  pub addr : HostAddr
  pub endpoint : Endpoint
  pub server_info : ServerInfo

unfoldable pub moonlight_host : Resolved → Text
moonlight_host r =
    (if contains_char r.addr.host b':' then lit "[" ++ r.addr.host ++ lit "]" else r.addr.host)
    ++ lit ":"
    ++ decimal r.addr.http_port

unfoldable pub rank : Text → ℕ
rank kind =
    if text_eq kind (lit "lan")
    then 0
    else if text_eq kind (lit "vpn")
    then 1
    else if text_eq kind (lit "manual")
    then 2
    else if text_eq kind (lit "public")
    then 3
    else 4

-- `sort_by_key(|e| rank(&e.kind))`, which is stable: e goes before those of no smaller rank.
unfoldable pub insert_ranked : Endpoint → List Endpoint → List Endpoint
unfolding rank
insert_ranked e [] = e ∷ []
insert_ranked e (x ∷ xs) =
    if leb (rank e.kind) (rank x.kind) then e ∷ x ∷ xs else x ∷ insert_ranked e xs

unfoldable pub sort_ranked : List Endpoint → List Endpoint
unfolding insert_ranked
sort_ranked [] = []
sort_ranked (e ∷ es) = insert_ranked e (sort_ranked es)

-- `none` is a probe that failed or took more than 4 seconds.
abbrev pub Probe : Type 0
Probe = HostAddr → Option ServerInfo

abbrev pub is_better : Endpoint → Option Resolved → Bool
is_better e none = true
is_better e (some b) = ltb (rank e.kind) (rank b.endpoint.kind)

abbrev pub resolved_at : HostInfo → Endpoint → ServerInfo → Resolved
resolved_at info e si = record {
  info = info;
  addr = new_addr e.host e.port;
  endpoint = e;
  server_info = si;
}

-- One round of the loop over the results
abbrev pub better_of : HostInfo → Endpoint → Option ServerInfo → Option Resolved → Option Resolved
better_of info e none best = best
better_of info e (some si) best = if is_better e best then some (resolved_at info e si) else best

unfoldable pub pick_best : Probe → HostInfo → Option Resolved → List Endpoint → Option Resolved
pick_best probe info best [] = best
pick_best probe info best (e ∷ es) =
    pick_best probe info (better_of info e (probe (new_addr e.host e.port)) best) es

-- A host without endpoints has none that answers.
unfoldable pub resolve : Probe → HostInfo → Option Resolved
unfolding pick_best sort_ranked
resolve probe info = pick_best probe info none (sort_ranked info.endpoints)

-- This endpoint answers.
abbrev pub Answers : Probe → Endpoint → Type 0
Answers probe e = (si : ServerInfo) × (probe (new_addr e.host e.port) ≡ some si)
