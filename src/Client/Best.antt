-- ===== src/Client/Best.antt =====
-- The endpoint that `Session::resolve` of crates/ra-client/src/session.rs picks.
use remote_access.Base.{
  ◌≤◌, ◌≡◌, refl, ltb, leb, Option, none, some, List, [], ◌∷◌, arith, Bool-cases, inl, inr, All,
}
use remote_access.Proto.Types.{Endpoint, HostInfo}
use remote_access.Gamestream.ServerInfos.{ServerInfo}
use remote_access.Gamestream.Transport.{new_addr}
use remote_access.Client.Resolve.{
  Resolved, rank, insert_ranked, sort_ranked, Probe, Answers, pick_best, resolve, better_of,
}

-- No answering endpoint is ranked before that of this result; without one, none answers.
abbrev pub IsBest : Probe → Option Resolved → Endpoint → Type 0
IsBest probe none e = ¬ Answers probe e
IsBest probe (some b) e = Answers probe e → rank b.endpoint.kind ≤ rank e.kind

better_at :
    (probe : Probe) (info : HostInfo) (e : Endpoint) (o : Option ServerInfo)
    (best : Option Resolved)
    → probe (new_addr e.host e.port) ≡ o
    → IsBest probe (better_of info e o best) e
better_at probe info e none none eo = λ a. ground arith
better_at probe info e none (some b) eo = λ a. ground arith
better_at probe info e (some si) none eo = λ a. omega arith
better_at probe info e (some si) (some b) eo = ground arith

better_of-keeps :
    (probe : Probe) (info : HostInfo) (e x : Endpoint) (o : Option ServerInfo)
    (best : Option Resolved)
    → IsBest probe best x
    → IsBest probe (better_of info e o best) x
better_of-keeps probe info e x none best h = h
better_of-keeps probe info e x (some si) none h = λ y. absurd (h y)
better_of-keeps probe info e x (some si) (some b) h = ground arith

pick_best-keeps :
    (probe : Probe) (info : HostInfo) (best : Option Resolved) (es : List Endpoint) (x : Endpoint)
    → IsBest probe best x
    → IsBest probe (pick_best probe info best es) x
unfolding pick_best
pick_best-keeps probe info best [] x h = h
pick_best-keeps probe info best (e ∷ es) x h =
    pick_best-keeps probe info (better_of info e (probe (new_addr e.host e.port)) best) es x
      (better_of-keeps probe info e x _ best h)

pick_best-IsBest :
    (probe : Probe) (info : HostInfo) (best : Option Resolved) (es : List Endpoint)
    → All (IsBest probe (pick_best probe info best es)) es
unfolding pick_best
pick_best-IsBest probe info best [] = tt
pick_best-IsBest probe info best (e ∷ es) = (
  pick_best-keeps probe info (better_of info e (probe (new_addr e.host e.port)) best) es e
      (better_at probe info e _ best refl),
  pick_best-IsBest probe info (better_of info e (probe (new_addr e.host e.port)) best) es,
)

-- The result is of one of these endpoints, at its address, and is what the probe of it answered.
abbrev pub IsAnswer : Probe → Option Resolved → Type 0
IsAnswer probe none = Unit
IsAnswer probe (some b) =
    (b.addr ≡ new_addr b.endpoint.host b.endpoint.port) × (probe b.addr ≡ some b.server_info)

chosen_at :
    (probe : Probe) (info : HostInfo) (e : Endpoint) (o : Option ServerInfo)
    (best : Option Resolved)
    → probe (new_addr e.host e.port) ≡ o
    → IsAnswer probe best
    → IsAnswer probe (better_of info e o best)
chosen_at probe info e none best eo h = h
chosen_at probe info e (some si) none eo h = (refl, eo)
chosen_at probe info e (some si) (some b) eo h =
    elim (Bool-cases (ltb (rank e.kind) (rank b.endpoint.kind))) [
      | inl t ↦ rw t (refl, eo)
      | inr f ↦ rw f h
    ]

pick_best-IsAnswer :
    (probe : Probe) (info : HostInfo) (best : Option Resolved) (es : List Endpoint)
    → IsAnswer probe best
    → IsAnswer probe (pick_best probe info best es)
unfolding pick_best
pick_best-IsAnswer probe info best [] h = h
pick_best-IsAnswer probe info best (e ∷ es) h =
    pick_best-IsAnswer probe info (better_of info e (probe (new_addr e.host e.port)) best) es
      (chosen_at probe info e _ best refl h)

insert_ranked-All :
    (P : Endpoint → Type 0) (e : Endpoint) (es : List Endpoint)
    → All P (insert_ranked e es)
    → P e × All P es
unfolding insert_ranked
insert_ranked-All P e [] h = h
insert_ranked-All P e (x ∷ xs) h = elim (Bool-cases (leb (rank e.kind) (rank x.kind))) [
  | inl t ↦ rw t at h
  | inr f ↦
      let h' : P x × All P (insert_ranked e xs) = rw f at h in
      let r = insert_ranked-All P e xs h'.1 in (r.0, (h'.0, r.1))
]

sort_ranked-All : (P : Endpoint → Type 0) (es : List Endpoint) → All P (sort_ranked es) → All P es
unfolding sort_ranked
sort_ranked-All P [] h = h
sort_ranked-All P (e ∷ es) h =
    let s = insert_ranked-All P e (sort_ranked es) h in (s.0, sort_ranked-All P es s.1)

-- What is picked is the answer of a probe at its endpoint's address; no advertised endpoint that
-- answers is ranked before it, and where nothing is picked no advertised endpoint answers.
pub resolve-IsBest :
    (probe : Probe) (info : HostInfo)
    → IsAnswer probe (resolve probe info) × All (IsBest probe (resolve probe info)) info.endpoints
unfolding resolve
resolve-IsBest probe info = (
  pick_best-IsAnswer probe info none (sort_ranked info.endpoints) tt,
  sort_ranked-All (IsBest probe (resolve probe info)) info.endpoints
      (pick_best-IsBest probe info none (sort_ranked info.endpoints)),
)
