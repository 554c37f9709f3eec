-- ===== src/Client/Flows.antt =====
-- The flows of crates/ra-client/src/session.rs: looking a host up, pairing with it, preparing a stream.
-- The world is what they talk to: the ID server, the host, Moonlight, the terminal and the files.
use remote_access.Base.{
  ℕ, suc, ◌+◌, Bool, true, false, not, ◌&&◌, ◌==◌, leb, ltb, Option, none, some, List, [], ◌∷◌,
  ◌++◌, Text, lit, is_empty, length, decimal, get, insert, unwrap_or, is_some, if◌then◌else◌,
  Result, ok, err,
}
use remote_access.Proto.External.{Crypto, Rng}
use remote_access.Proto.Types.{Endpoint, HostInfo, ChallengeResponse, SubmitPairRequest, PairResult}
use remote_access.Proto.Ids.{random_pin}
use remote_access.Gamestream.Apps.{App}
use remote_access.Gamestream.Transport.{HostAddr}
use remote_access.Client.Remembered.{ClientConfig, RememberedHost, default_remembered}
use remote_access.Client.Resolve.{Resolved, Probe, resolve, sort_ranked, moonlight_host}
use remote_access.Client.Session.{
  rendezvous_path, h1_for, submit_request, pair_outcome, was_paired, choose_app,
}
pub mod Streams
pub mod Certificates
pub mod Native
pub mod Kept

pub data Event : Type 0 where
  resolving streaming info : Text → Event
  probing reachable : Endpoint → Event
  already_paired pairing_started pair_accepted paired : Event

pub record Prepared : Type 0 where
  pub id : Text
  pub host : Text
  pub app : Text
  pub apps : List Text
  pub resolved : Resolved

-- What happens while `pair_with` waits: the long poll is answered, with the flag of a deadline that has
-- passed, or the pairing itself ends, with what it found.
pub data Happening (A : Type 0) : Type 0 where
  polled : Result Text (Option PairResult) → Bool → Happening A
  presented : Result Text A → Happening A

pub record ClientWorld (W : Type 0) : Type 0 where
  pub on_event : Event → W → W
  -- The status of the answer and its body
  pub get_host : Text → W → Result Text (ℕ × Result Text HostInfo) × W
  -- All endpoints are probed together.
  pub probes : W → Probe × W
  pub post_challenge : Text → W → Result Text ChallengeResponse × W
  pub post_pair : Text → SubmitPairRequest → W → Result Text (ℕ × Option Text) × W
  -- What happens while Moonlight, or this crate itself, pairs with that PIN, and the result is polled
  pub moonlight_pairs : Text → Text → Text → W → List (Happening (Unit {0})) × W
  pub native_pairs : HostAddr → Text → Text → W → List (Happening Text) × W
  pub find_moonlight : Option Text → W → Bool
  pub list_apps : Text → W → Result Text (List Text) × W
  pub stream : Text → Text → List Text → W → Result Text ℕ × W
  pub app_list : HostAddr → Text → W → Result Text (List App) × W
  pub save : ClientConfig → W → Result Text (Unit {0}) × W
  pub typed : Text → W → Result Text Text

-- The loop of `select!`: the first result ends it, whether or not the pairing has ended; `none` is a
-- wait that goes on.
unfoldable pub await_result :
    {A : Type 0}
    → List (Happening A)
    → Option (Result Text A)
    → Option (Result Text PairResult × Option (Result Text A))
await_result [] ended = none
await_result (presented r ∷ hs) none = await_result hs (some r)
await_result (presented r ∷ hs) (some d) = await_result hs (some d)
await_result (polled (err e) late ∷ hs) ended = some (err e, ended)
await_result (polled (ok (some r)) late ∷ hs) ended = some (ok r, ended)
await_result (polled (ok none) true ∷ hs) ended =
    some (err (lit "timed out waiting for the host to answer"), ended)
await_result (polled (ok none) false ∷ hs) ended = await_result hs ended

-- `entry(id).or_default()`
unfoldable pub entry_of : Text → ClientConfig → RememberedHost
unfolding get
entry_of id cfg = unwrap_or (get id cfg.hosts) default_remembered

unfoldable pub put_entry : Text → RememberedHost → ClientConfig → ClientConfig
unfolding insert
put_entry id h cfg = record cfg { hosts = insert id h cfg.hosts }

-- The session: its configuration, its unique ID, and whether it may ask at the terminal
pub record Session : Type 0 where
  pub cfg : ClientConfig
  pub unique_id : Text
  pub interactive : Bool

module _ (c : Crypto) (rng : Rng) {W : Type 0} (w : ClientWorld W) where
  unfoldable pub lookup : Session → Text → W → Result Text HostInfo × W
  lookup x id s =
      let r =
        w.get_host (rendezvous_path x.cfg (lit "/hosts/" ++ id)) (w.on_event (resolving id) s) in
      elim r.0 [
        | err e ↦ (err (lit "contacting rendezvous server: " ++ e), r.1)
        | ok (status, body) ↦
            if status == 404
            then (err (lit "ID " ++ (id ++ lit " is not registered")), r.1)
            else if leb 400 status
            then (err (lit "HTTP status " ++ decimal status), r.1)
            else (body, r.1)
      ]

  abbrev pub emit_probes : List Endpoint → W → W
  emit_probes [] s = s
  emit_probes (e ∷ es) s = emit_probes es (w.on_event (probing e) s)

  abbrev pub no_answer : Text → HostInfo → Text
  no_answer id found =
      lit "host "
      ++ (found.name
          ++ (lit " ("
              ++ (id
                  ++ (lit ") is "
                      ++ ((if found.online then lit "online" else lit "OFFLINE")
                          ++ (lit " but none of its "
                              ++ (decimal (length found.endpoints)
                                  ++ lit
                                      " endpoint(s) answered on the GameStream port. Over the internet this needs a VPN (Tailscale, WireGuard) or port forwarding of TCP/UDP 47984-48010.")))))))

  unfoldable pub resolve_host : Session → Text → W → Result Text Resolved × W
  unfolding lookup resolve
  resolve_host x id s =
      let found = lookup x id s in
      elim found.0 [
        | err e ↦ (err e, found.1)
        | ok h ↦
            if is_empty h.endpoints
            then (err (lit "host " ++ (id ++ lit " advertises no endpoints")), found.1)
            else let p = w.probes (emit_probes (sort_ranked h.endpoints) found.1) in
              elim (resolve p.0 h) [
                | none ↦ (err (no_answer id h), p.1)
                | some best ↦ (ok best, w.on_event (reachable best.endpoint) p.1)
              ]
      ]

  -- What becomes of the result, and what the pairing itself found by then
  abbrev pub Paired : Type 0 → Type 0
  Paired A = Option (Result Text (Unit {0}) × Option (Result Text A)) × W

  abbrev pub told : PairResult → W → W
  told r s = if was_paired r then w.on_event paired s else s

  -- What follows the wait
  unfoldable pub concluded : {A : Type 0} → List (Happening A) → W → Paired A
  unfolding await_result
  concluded hs s = elim (await_result hs none) [
    | none ↦ (none, s)
    | some x ↦ elim x.0 [
      | err e ↦ (some (err e, x.1), s)
      | ok r ↦ (some (pair_outcome r, x.1), told r s)
    ]
  ]

  -- The request is submitted, and its result is awaited.
  unfoldable pub submit_and_wait :
      {A : Type 0}
      → Session
      → Text
      → Text
      → SubmitPairRequest
      → Text
      → (Text → Text → W → List (Happening A) × W)
      → W
      → Paired A
  unfolding concluded
  submit_and_wait x id request_id req pin presents s =
      let sent = w.post_pair (rendezvous_path x.cfg (lit "/hosts/" ++ (id ++ lit "/pair"))) req s in
      elim sent.0 [
        | err e ↦ (some (err e, none), sent.1)
        | ok answer ↦
            if not (leb 200 answer.0 && ltb answer.0 300)
            then (
              some (err (lit "pair request refused: " ++ unwrap_or answer.1 (lit "unknown")), none),
              sent.1,
            )
            else let h =
                presents (rendezvous_path x.cfg (lit "/pair/" ++ (request_id ++ lit "?wait=20")))
                  pin (w.on_event pairing_started sent.1) in
              concluded h.0 h.1
      ]

  unfoldable pub pair_with :
      {A : Type 0}
      → Session
      → ℕ
      → Text
      → Text
      → Bool
      → (Text → Text → W → List (Happening A) × W)
      → W
      → Paired A
  unfolding submit_request submit_and_wait
  pair_with x i id h1 remember presents s =
      let ch =
        w.post_challenge (rendezvous_path x.cfg (lit "/hosts/" ++ (id ++ lit "/challenge"))) s in
      elim ch.0 [
        | err e ↦ (some (err e, none), ch.1)
        | ok challenge ↦
            let pin = random_pin rng i in
            elim (submit_request c rng (suc i) x.cfg x.unique_id h1 challenge pin remember) [
              | err e ↦ (some (err (lit "sealing the PIN failed"), none), ch.1)
              | ok req ↦ submit_and_wait x id challenge.request_id req pin presents ch.1
            ]
      ]
