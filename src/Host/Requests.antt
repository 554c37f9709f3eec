-- ===== src/Host/Requests.antt =====
-- What the agent of crates/ra-host/src/agent.rs does with a request, and what it advertises.
use remote_access.Base.{
  ℕ, zero, suc, ◌≤◌, ◌^◌, ◌≡◌, refl, Bool, false, min, Option, none, some, List, [], ◌∷◌, Text,
  text_eq, text_eq_sound, text_eq_refl, take, length, length-take, All, All-take, text_eq_complete,
  IsString, true, sym, ◌||◌, arith, Bool-cases, inl, inr,
}
use remote_access.Proto.External.{Crypto}
use remote_access.Proto.Types.{Endpoint, PairRequest, PairResult, rejected, paired}
use remote_access.Proto.Hashes.{challenge_response}
use remote_access.Proto.Ids.{is_valid_pin}
use remote_access.Host.Checks.{checked_pin-right}
use remote_access.Host.Config.{Config}
use remote_access.Host.Endpoints.{
  Interface, push_new, push_interface, push_interfaces, push_all, endpoints, lan_endpoints,
  push_public, is_link_local, interface_kind,
}
use remote_access.Host.Agent.{
  Apollo, Tick, wrong_password, checked_pin, handle_pair, backoff, answer_request, serve_request,
}

power_pos : (m : ℕ) → 1 ≤ 2 ^ m
power_pos zero = omega arith
power_pos (suc m) = omega (arith, power_pos m)

power_two : (m : ℕ) → 1 ≤ m → 2 ≤ 2 ^ m
power_two zero h = absurd (omega arith)
power_two (suc m) h = omega (arith, power_pos m)

pub backoff-bounds : (n : ℕ) → (2 ≤ backoff (suc n)) × (backoff (suc n) ≤ 60)
unfolding backoff
backoff-bounds n = (omega (arith, power_two (min (suc n) 6) (omega arith)), omega arith)

-- The answer `paired` is posted.
abbrev pub WasPaired : Option (PairResult × ℕ × ℕ) → Type 0
WasPaired none = ⊥
WasPaired (some (res, n, wait)) = res.status ≡ paired

module _ (c : Crypto) (alnum : ℕ → Bool) {S : Type 0} (apollo : Apollo S) where
  served_at :
      (cfg : Config) (h1 : Text) (ts : List Tick) (started : ℕ) (pr : PairRequest) (failures : ℕ)
      (a : S) (o : Option Text)
      → checked_pin c h1 pr ≡ o
      → WasPaired (serve_request c alnum apollo cfg h1 ts started pr failures a).0
      → (pin : Text) × (checked_pin c h1 pr ≡ some pin)
  unfolding serve_request handle_pair answer_request
  served_at cfg h1 ts started pr failures a (some pin) eo h = (pin, eo)
  served_at cfg h1 ts started pr failures a none eo h =
      let refused : rejected ≡ paired =
        rw (eo, text_eq_refl wrong_password, serve_request, handle_pair, answer_request) at h in
      cc

  -- The agent answers `paired` only to a request that responds to the challenge with the hash that the
  -- agent's own password hash makes of it, and that holds a valid PIN.
  pub serve_request-right :
      (cfg : Config) (h1 : Text) (ts : List Tick) (started : ℕ) (pr : PairRequest) (failures : ℕ)
      (a : S)
      → IsString pr.response
      → WasPaired (serve_request c alnum apollo cfg h1 ts started pr failures a).0
      → (pr.response ≡ challenge_response c h1 pr.challenge)
        × ((pin : Text) × (checked_pin c h1 pr ≡ some pin) × (is_valid_pin pin ≡ true))
  serve_request-right cfg h1 ts started pr failures a string h =
      let p = served_at cfg h1 ts started pr failures a _ refl h in
      let right = checked_pin-right c h1 p.0 pr string p.1 in (right.0, (p.0, p.1, right.1))

text_eq_swap : (a b : Text) → text_eq a b ≡ false → text_eq b a ≡ false
text_eq_swap a b f = elim (Bool-cases (text_eq b a)) [
  | inr g ↦ g
  | inl t ↦ absurd (ground (arith, text_eq_complete a b (sym (text_eq_sound b a t))))
]

-- No host stands twice in the list.
abbrev pub IsNew : Text → List Endpoint → Type 0
IsNew host = All (λ e. text_eq e.host host ≡ false)

abbrev pub HasDistinctHosts : List Endpoint → Type 0
HasDistinctHosts [] = Unit
HasDistinctHosts (e ∷ es) = IsNew e.host es × HasDistinctHosts es

push_new-IsNew :
    (host : Text) (e : Endpoint) (es : List Endpoint)
    → text_eq e.host host ≡ false
    → IsNew host es
    → IsNew host (push_new e es)
unfolding push_new
push_new-IsNew host e [] h n = (h, tt)
push_new-IsNew host e (x ∷ xs) h n = ground (arith, push_new-IsNew host e xs h n.1)

push_new-distinct :
    (e : Endpoint) (es : List Endpoint) → HasDistinctHosts es → HasDistinctHosts (push_new e es)
unfolding push_new
push_new-distinct e [] h = (tt, tt)
push_new-distinct e (x ∷ xs) h = elim (Bool-cases (text_eq x.host e.host)) [
  | inl t ↦ rw t h
  | inr f ↦
      rw f
        (push_new-IsNew x.host e xs (text_eq_swap x.host e.host f) h.0, push_new-distinct e xs h.1)
]

push_interface-distinct :
    (port : ℕ) (i : Interface) (es : List Endpoint)
    → HasDistinctHosts es
    → HasDistinctHosts (push_interface port i es)
push_interface-distinct port i es h = elim (Bool-cases (i.is_loopback || is_link_local i)) [
  | inl t ↦ rw t h
  | inr f ↦
      rw f (push_new-distinct (record { host = i.ip; port = port; kind = interface_kind i }) es h)
]

push_interfaces-distinct :
    (port : ℕ) (is : List Interface) (es : List Endpoint)
    → HasDistinctHosts es
    → HasDistinctHosts (push_interfaces port is es)
push_interfaces-distinct port [] es h = h
push_interfaces-distinct port (i ∷ is) es h =
    push_interfaces-distinct port is (push_interface port i es)
      (push_interface-distinct port i es h)

push_all-distinct :
    (es eps : List Endpoint) → HasDistinctHosts eps → HasDistinctHosts (push_all es eps)
push_all-distinct [] eps h = h
push_all-distinct (e ∷ es) eps h = push_all-distinct es (push_new e eps) (push_new-distinct e eps h)

take-IsNew : (host : Text) (n : ℕ) (es : List Endpoint) → IsNew host es → IsNew host (take n es)
take-IsNew host n es h = All-take (λ e. text_eq e.host host ≡ false) n es h

take-distinct : (n : ℕ) (es : List Endpoint) → HasDistinctHosts es → HasDistinctHosts (take n es)
take-distinct zero es h = tt
take-distinct (suc n) [] h = tt
take-distinct (suc n) (e ∷ es) h = (take-IsNew e.host n es h.0, take-distinct n es h.1)

lan_endpoints-distinct :
    (cfg : Config) (ifaces : Option (List Interface)) → HasDistinctHosts (lan_endpoints cfg ifaces)
unfolding lan_endpoints
lan_endpoints-distinct cfg none = tt
lan_endpoints-distinct cfg (some is) = elim (Bool-cases cfg.advertise_lan_ips) [
  | inl t ↦ rw t (push_interfaces-distinct cfg.gamestream_port is [] tt)
  | inr f ↦ rw f tt
]

push_public-distinct :
    (cfg : Config) (observed : Option Text) (eps : List Endpoint)
    → HasDistinctHosts eps
    → HasDistinctHosts (push_public cfg observed eps)
unfolding push_public
push_public-distinct cfg none eps h = h
push_public-distinct cfg (some o) eps h = elim (Bool-cases cfg.advertise_public_ip) [
  | inl t ↦ rw t (push_new-distinct _ eps h)
  | inr f ↦ rw f h
]

-- A host advertises at most 16 endpoints, no two of them with the same address.
pub endpoints-distinct :
    (cfg : Config) (ifaces : Option (List Interface)) (observed : Option Text)
    → (length (endpoints cfg ifaces observed) ≤ 16)
      × HasDistinctHosts (endpoints cfg ifaces observed)
unfolding endpoints
endpoints-distinct cfg ifaces observed =
    let es = push_public cfg observed (push_all cfg.extra_endpoints (lan_endpoints cfg ifaces)) in
    (
      omega (arith, length-take 16 es),
      take-distinct 16 es (
          push_public-distinct cfg observed _
            (push_all-distinct cfg.extra_endpoints _ (lan_endpoints-distinct cfg ifaces))),
    )
