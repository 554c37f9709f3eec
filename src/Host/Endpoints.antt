-- ===== src/Host/Endpoints.antt =====
-- `Agent::endpoints` of crates/ra-host/src/agent.rs: the addresses that a host advertises.
use remote_access.Base.{
  ℕ, Bool, false, ◌||◌, ◌==◌, Option, none, some, List, [], ◌∷◌, Text, lit, text_eq, starts_with,
  take, bit_and, if◌then◌else◌,
}
use remote_access.Proto.Types.{Endpoint}
use remote_access.Host.Config.{Config}

-- What the code reads of a network interface: `first_segment` is that of an IPv6 address.
pub record Interface : Type 0 where
  pub name : Text
  pub ip : Text
  pub is_loopback : Bool
  pub first_segment : Option ℕ

abbrev pub is_link_local : Interface → Bool
is_link_local i = elim i.first_segment [ none ↦ false | some s ↦ bit_and s 0xffc0 == 0xfe80 ]

abbrev pub interface_kind : Interface → Text
interface_kind i =
    if starts_with i.name (lit "tailscale")
      || starts_with i.name (lit "utun")
      || starts_with i.name (lit "wg")
      || starts_with i.name (lit "zt")
    then lit "vpn"
    else lit "lan"

abbrev pub is_seen : Text → List Endpoint → Bool
is_seen host [] = false
is_seen host (e ∷ es) = text_eq e.host host || is_seen host es

-- `if seen.insert(…) { eps.push(…) }`; what has been seen are the hosts that were pushed.
unfoldable pub push_new : Endpoint → List Endpoint → List Endpoint
push_new e [] = e ∷ []
push_new e (x ∷ xs) = if text_eq x.host e.host then x ∷ xs else x ∷ push_new e xs

abbrev pub push_interface : ℕ → Interface → List Endpoint → List Endpoint
push_interface port i eps =
    if i.is_loopback || is_link_local i
    then eps
    else push_new (record { host = i.ip; port = port; kind = interface_kind i }) eps

abbrev pub push_interfaces : ℕ → List Interface → List Endpoint → List Endpoint
push_interfaces port [] eps = eps
push_interfaces port (i ∷ is) eps = push_interfaces port is (push_interface port i eps)

abbrev pub push_all : List Endpoint → List Endpoint → List Endpoint
push_all [] eps = eps
push_all (e ∷ es) eps = push_all es (push_new e eps)

-- `none` for the interfaces is a failed `get_if_addrs`.
unfoldable pub lan_endpoints : Config → Option (List Interface) → List Endpoint
unfolding push_new
lan_endpoints cfg none = []
lan_endpoints cfg (some is) =
    if cfg.advertise_lan_ips then push_interfaces cfg.gamestream_port is [] else []

-- The address that the server sees the host at
unfoldable pub push_public : Config → Option Text → List Endpoint → List Endpoint
unfolding push_new
push_public cfg none eps = eps
push_public cfg (some o) eps =
    if cfg.advertise_public_ip
    then push_new (record { host = o; port = cfg.gamestream_port; kind = lit "public" }) eps
    else eps

unfoldable pub endpoints : Config → Option (List Interface) → Option Text → List Endpoint
unfolding lan_endpoints push_public
endpoints cfg ifaces observed =
    take 16 (push_public cfg observed (push_all cfg.extra_endpoints (lan_endpoints cfg ifaces)))
