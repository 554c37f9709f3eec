-- ===== src/Gamestream/Transport.antt =====
-- crates/ra-gamestream/src/http.rs: addresses, URLs and requests. The network is what answers a
-- request, given the requests before it; a connection whose certificate is not the pinned one is an
-- error of that answer.
use remote_access.Base.{
  ℕ, ◌+◌, ◌-◌, ◌*◌, ◌^◌, ◌%◌, Bool, not, ◌&&◌, Option, none, some, List, ◌∷◌, ◌++◌, Text, Bytes,
  lit, is_empty, contains_char, starts_with_char, decimal, length, if◌then◌else◌, text_eq, Result,
  ok, err, ◌>>=◌,
}
use remote_access.Proto.External.{Rng}
use remote_access.Gamestream.External.{Libraries}
use remote_access.Gamestream.Errors.{Error}
use remote_access.Gamestream.Blocks.{pem_to_der}
use remote_access.Gamestream.ServerInfos.{ServerInfo, parse_server_info}
use remote_access.Gamestream.Apps.{App, parse_applist}

pub record HostAddr : Type 0 where
  pub host : Text
  pub http_port : ℕ
  pub https_port : ℕ

-- `wrapping_sub(5)` on a port
unfoldable pub new_addr : Text → ℕ → HostAddr
new_addr host base_port = record {
  host = host;
  http_port = base_port;
  https_port = (base_port + (2 ^ 16 - 5)) % 2 ^ 16;
}

unfoldable pub fmt_host : HostAddr → Text
fmt_host a =
    if contains_char a.host b':' && not (starts_with_char a.host b'[')
    then lit "[" ++ a.host ++ lit "]"
    else a.host

unfoldable pub http_base : HostAddr → Text
unfolding fmt_host
http_base a = lit "http://" ++ fmt_host a ++ lit ":" ++ decimal a.http_port

unfoldable pub https_base : HostAddr → Text
unfolding fmt_host
https_base a = lit "https://" ++ fmt_host a ++ lit ":" ++ decimal a.https_port

-- `PinnedCert::verify_server_cert`: the certificate that the host shows must be the pinned one.
unfoldable pub verify_server_cert : Bytes → Bytes → Bool
verify_server_cert pinned end_entity = text_eq end_entity pinned

pub record Identity (l : Libraries) : Type 0 where
  pub unique_id : Text
  pub cert_pem : Text
  pub key_pem : Text
  pub key : l.PrivateKey

-- A request: its URL, the certificate that the TLS connection pins, and the time it may take.
pub record Request : Type 0 where
  pub url : Text
  pub command : Text
  pub args : Text
  pub pinned : Option Bytes
  pub seconds : ℕ

-- The answer to a request after those before it, the latest first
abbrev pub Network : Type 0
Network = List Request → Request → Result Error Text

-- The requests so far, the latest first
abbrev pub Log : Type 0
Log = List Request

module _ (l : Libraries) where
  -- The random part is the draw of that number.
  unfoldable pub query_prefix : Rng → ℕ → Identity l → Text
  query_prefix rng i id =
      lit "uniqueid=" ++ id.unique_id ++ lit "&uuid=" ++ l.crypto.hex_encode (rng.fill_bytes i 16)

  unfoldable pub make_url : Rng → ℕ → Identity l → Text → Text → Text → Text
  unfolding query_prefix
  make_url rng i id base command args =
      if is_empty args
      then base ++ lit "/" ++ command ++ lit "?" ++ query_prefix rng i id
      else base ++ lit "/" ++ command ++ lit "?" ++ query_prefix rng i id ++ lit "&" ++ args

  -- The identity of a client that sends requests, and what it sends them to
  pub record GsHttp : Type 0 where
    pub identity : Identity l
    pub rng : Rng
    pub network : Network

  abbrev send : GsHttp → Request → Log → Result Error Text × Log
  send h r log = (h.network log r, r ∷ log)

  abbrev pub plain_request : GsHttp → ℕ → HostAddr → Text → Text → Option ℕ → Request
  plain_request h i addr command args timeout = record {
    url = make_url h.rng i h.identity (http_base addr) command args;
    command = command;
    args = args;
    pinned = none;
    seconds = elim timeout [ some t ↦ t | none ↦ 60 * 60 ];
  }

  -- Each request draws once: the number of the draw is the number of requests before it.
  unfoldable pub get_http :
      GsHttp → HostAddr → Text → Text → Option ℕ → Log → Result Error Text × Log
  get_http h addr command args timeout log =
      send h (plain_request h (length log) addr command args timeout) log

  abbrev pub pinned_request : GsHttp → ℕ → HostAddr → Bytes → Text → Text → Request
  pinned_request h i addr der command args = record {
    url = make_url h.rng i h.identity (https_base addr) command args;
    command = command;
    args = args;
    pinned = some der;
    seconds = 10;
  }

  -- Without a certificate to pin there is no client, and no request is sent.
  unfoldable pub get_https : GsHttp → HostAddr → Text → Text → Text → Log → Result Error Text × Log
  get_https h addr server_cert_pem command args log = elim (pem_to_der l server_cert_pem) [
    | err e ↦ (err e, log)
    | ok der ↦ send h (pinned_request h (length log) addr der command args) log
  ]

  abbrev pub reading :
      {A : Type 0} → (Text → Result Error A) → Result Error Text × Log → Result Error A × Log
  reading f (body, log) = (body >>= f, log)

  unfoldable pub server_info_http : GsHttp → HostAddr → Log → Result Error ServerInfo × Log
  unfolding get_http
  server_info_http h addr log =
      reading (parse_server_info l) (get_http h addr (lit "serverinfo") (lit "") (some 3) log)

  unfoldable pub server_info_https : GsHttp → HostAddr → Text → Log → Result Error ServerInfo × Log
  unfolding get_https
  server_info_https h addr pem log =
      reading (parse_server_info l) (get_https h addr pem (lit "serverinfo") (lit "") log)

  unfoldable pub app_list : GsHttp → HostAddr → Text → Log → Result Error (List App) × Log
  unfolding get_https
  app_list h addr pem log =
      reading (parse_applist l) (get_https h addr pem (lit "applist") (lit "") log)

  unfoldable pub unpair : GsHttp → HostAddr → Log → Result Error (Unit {0}) × Log
  unfolding get_http
  unpair h addr log = reading (λ _. ok tt) (get_http h addr (lit "unpair") (lit "") (some 3) log)
