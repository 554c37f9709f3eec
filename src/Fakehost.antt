-- ===== src/Fakehost.antt =====
-- crates/ra-fakehost/src/main.rs: the stand-in for Apollo of the end-to-end tests. A handler that
-- holds the lock is one definition; `pair` of a first query is two, with the wait for the PIN between
-- them. A panic is an error, after which nothing is said of the state.
use remote_access.Base.{
  ℕ, ◌+◌, ◌-◌, ◌^◌, ◌%◌, Bool, true, false, not, ◌&&◌, ◌||◌, ◌==◌, Option, none, some, List, [],
  ◌∷◌, ◌++◌, Text, lit, text_eq, split, contains, decimal, is_some, is_ascii_digit, all, length,
  unwrap_or, Map, get, insert, len, if◌then◌else◌, Result, ok, err, ◌>>=◌,
}
use remote_access.Gamestream.External.{Libraries}
use remote_access.Gamestream.Errors.{Error}
use remote_access.Gamestream.Simulated.{FakeHost, find_stripped, handle_query}
pub mod Sessions
pub mod WebApi

-- `serde_json::Value`; an array or an object in a field is kept as its text.
pub data Value : Type 0 where
  null : Value
  boolean : Bool → Value
  number : ℕ → Value
  string compound : Text → Value

abbrev pub Object : Type 0
Object = Map Value

pub record Args : Type 0 where
  pub port : ℕ
  pub username : Text
  pub password : Text
  pub name : Text

-- What the handlers look at of the headers
pub record Headers : Type 0 where
  pub https : Bool
  pub cookie : Option Text

-- The status and the JSON of an answer of the web API; `named_certs` is its list of clients.
pub record Answer : Type 0 where
  pub status : ℕ
  pub body : Object
  pub named_certs : Option (List Object)

-- `v.get(k).and_then(|s| s.as_str())`
abbrev pub as_str : Option Value → Option Text
as_str (some (string s)) = some s
as_str (some (compound s)) = none
as_str (some (number n)) = none
as_str (some (boolean b)) = none
as_str (some null) = none
as_str none = none

abbrev pub get_str : Text → Object → Option Text
get_str k v = as_str (get k v)

unfoldable pub xml_err : ℕ → Text → Text
xml_err code msg =
    lit "<root status_code=\""
    ++ (decimal code ++ (lit "\" status_message=\"" ++ (msg ++ lit "\"/>")))

unfoldable pub param : Text → Text → Option Text
param q k = find_stripped (k ++ lit "=") (split b'&' q)

abbrev pub element : Text → Text → Text
element name content =
    lit "<" ++ (name ++ (lit ">" ++ (content ++ (lit "</" ++ (name ++ lit ">")))))

-- `port - 5` wraps as a release build does.
unfoldable pub serverinfo : Args → Text → Option Text → Headers → Text
unfolding param
serverinfo args uuid q headers =
    let paired = headers.https && is_some (param (unwrap_or q (lit "")) (lit "uniqueid")) in
    lit "<?xml version=\"1.0\"?><root status_code=\"200\">"
    ++ (element (lit "hostname") args.name
        ++ (lit "<appversion>7.1.431.-1</appversion><GfeVersion>3.23.0.74</GfeVersion>"
            ++ (element (lit "uniqueid") uuid
                ++ (element (lit "HttpsPort") (decimal ((args.port + 2 ^ 16 - 5) % 2 ^ 16))
                    ++ (element (lit "ExternalPort") (decimal args.port)
                        ++ (lit
                              "<mac>00:00:00:00:00:00</mac><LocalIP>127.0.0.1</LocalIP><ServerCodecModeSupport>259</ServerCodecModeSupport>"
                            ++ (element (lit "PairStatus") (if paired then lit "1" else lit "0")
                                ++ lit
                                    "<currentgame>0</currentgame><state>SUNSHINE_SERVER_FREE</state></root>")))))))

abbrev pub unpair : Text
unpair = lit "<root status_code=\"200\"/>"

unfoldable pub authed : Headers → Bool
authed headers = elim headers.cookie [
  | none ↦ false
  | some c ↦ contains c (lit "auth=fake-session")
]

-- `==` of two `Option`s of strings, the second one present
abbrev pub is_text : Option Text → Text → Bool
is_text none s = false
is_text (some t) s = text_eq t s

-- The status, and the cookie that is set
unfoldable pub login : Args → Object → ℕ × Option Text
login args v =
    if is_text (get_str (lit "username") v) args.username
      && is_text (get_str (lit "password") v) args.password
    then (200, some (lit "auth=fake-session; Path=/"))
    else (401, none)

abbrev pub unauthorized : Answer
unauthorized = record {
  status = 401;
  body = (lit "error", string (lit "Unauthorized")) ∷ [];
  named_certs = none;
}

-- What `api_pin` says in its place
abbrev pub pin_unauthorized : Answer
pin_unauthorized = record {
  status = 401;
  body =
      (lit "status_code", number 401)
      ∷ (lit "status", boolean false)
      ∷ (lit "error", string (lit "Unauthorized"))
      ∷ [];
  named_certs = none;
}

-- `{"status": b}`
abbrev pub status_answer : Bool → Answer
status_answer b = record { status = 200; body = (lit "status", boolean b) ∷ []; named_certs = none }

-- A waiting `getservercert`: its query, and the number of its waiter
pub record Parked : Type 0 where
  pub query : Text
  pub waiter : ℕ

abbrev pub default_perm : ℕ
default_perm = 0x03000000

abbrev pub new_client : Text → Text → Object
new_client name uuid =
    (lit "name", string name)
    ∷ (lit "uuid", string uuid)
    ∷ (lit "display_mode", string (lit ""))
    ∷ (lit "perm", number default_perm)
    ∷ (lit "enable_legacy_ordering", boolean true)
    ∷ (lit "allow_client_commands", boolean true)
    ∷ (lit "always_use_virtual_display", boolean false)
    ∷ (lit "connected", boolean false)
    ∷ []

abbrev pub updatable : List Text
updatable =
    lit "name"
    ∷ lit "perm"
    ∷ lit "display_mode"
    ∷ lit "enable_legacy_ordering"
    ∷ lit "allow_client_commands"
    ∷ lit "always_use_virtual_display"
    ∷ []

-- The loop over the fields that a request may change
unfoldable pub update_fields : List Text → Object → Object → Object
unfolding get insert
update_fields [] v c = c
update_fields (k ∷ ks) v c =
    update_fields ks v (elim (get k v) [ none ↦ c | some val ↦ insert k val c ])

-- `c["uuid"] == uuid`: `Value` and a string
abbrev pub has_uuid : Text → Object → Bool
has_uuid uuid c = is_text (get_str (lit "uuid") c) uuid

-- `iter_mut().find(…)` and the update; `none` where no client is found.
unfoldable pub update_first : Text → Object → List Object → Option (List Object)
unfolding update_fields
update_first uuid v [] = none
update_first uuid v (c ∷ cs) =
    let rest = update_first uuid v cs in
    if has_uuid uuid c
    then some (update_fields updatable v c ∷ cs)
    else elim rest [ none ↦ none | some cs' ↦ some (c ∷ cs') ]

module _ (l : Libraries) where
  pub record Inner : Type 0 where
    pub host : FakeHost l
    pub parked : Option Parked
    pub clients : List Object
    pub pending_name : Option Text

  -- `pair`: an answer, or a wait for the PIN by this waiter. A session that was parked before loses its
  -- sender, and is aborted.
  unfoldable pub pair : ℕ → Text → Inner → Text → Headers → Result Error (Option Text × Inner)
  unfolding xml_err param handle_query
  pair waiter uuid s q headers =
      if not (is_some (param q (lit "uniqueid")))
      then ok (some (xml_err 400 (lit "Missing uniqueid parameter")), s)
      else if is_text (param q (lit "phrase")) (lit "getservercert")
      then ok (none, record s { parked = some (record { query = q; waiter = waiter }) })
      else do
        handled ← handle_query l s.host q headers.https
        let s' = record s { host = handled.1 }
        ok (
          some handled.0,
          if is_some (param q (lit "clientpairingsecret"))
                && contains handled.0 (lit "<paired>1</paired>")
              then record s' {
                pending_name = none;
                clients =
                    s.clients ++ (new_client (unwrap_or s.pending_name (lit "Unnamed")) uuid ∷ []);
              }
              else s',
        )

  -- The rest of `pair` after the wait; `none` is a dropped sender.
  unfoldable pub pair_resumed : Text → Option (Text × Text) → Inner → Result Error (Text × Inner)
  unfolding xml_err handle_query
  pair_resumed q none s = ok (xml_err 503 (lit "pairing aborted"), s)
  pair_resumed q (some (pin, name)) s = do
    handled ← handle_query l (record s.host { pin = pin }) q false
    ok (handled.0, record s { pending_name = some name; host = handled.1 })

  unfoldable pub applist : Inner → Text
  applist s =
      lit
        "<root status_code=\"200\"><App><IsHdrSupported>1</IsHdrSupported><AppTitle>Desktop</AppTitle><UUID>desk</UUID><IDX>0</IDX><ID>1</ID></App><App><IsHdrSupported>0</IsHdrSupported><AppTitle>Steam Big Picture</AppTitle><UUID>steam</UUID><IDX>1</IDX><ID>2</ID></App><App><IsHdrSupported>0</IsHdrSupported><AppTitle>Paired clients: "
      ++ (decimal (length s.clients) ++ lit "</AppTitle><ID>3</ID></App></root>")

  -- The answer, the state, and the waiter that is sent the PIN and the name
  unfoldable pub api_pin : Headers → Object → Inner → Answer × Inner × Option (ℕ × Text × Text)
  unfolding authed
  api_pin headers v s =
      let pin = unwrap_or (get_str (lit "pin") v) (lit "") in
      let name = unwrap_or (get_str (lit "name") v) (lit "") in
      if not (authed headers)
      then (pin_unauthorized, s, none)
      else if not (len pin == 4) || not (all is_ascii_digit pin)
      then (status_answer false, s, none)
      else elim s.parked [
        | none ↦ (status_answer false, s, none)
        | some p ↦ (status_answer true, record s { parked = none }, some (p.waiter, pin, name))
      ]

  unfoldable pub clients_list : Headers → Inner → Answer
  unfolding authed
  clients_list headers s = if not (authed headers) then unauthorized else record {
    status = 200;
    body = (lit "status", boolean true) ∷ [];
    named_certs = some s.clients;
  }

  unfoldable pub clients_update : Headers → Object → Inner → Answer × Inner
  unfolding authed update_first
  clients_update headers v s =
      if not (authed headers)
      then (unauthorized, s)
      else elim (update_first (unwrap_or (get_str (lit "uuid") v) (lit "")) v s.clients) [
        | none ↦ (status_answer false, s)
        | some cs ↦ (status_answer true, record s { clients = cs })
      ]

unfoldable pub api_config : Args → Headers → Answer
unfolding authed
api_config args headers = if not (authed headers) then unauthorized else record {
  status = 200;
  body =
      (lit "status", boolean true)
      ∷ (lit "platform", string (lit "fake"))
      ∷ (lit "version", string (lit "0"))
      ∷ (lit "sunshine_name", string args.name)
      ∷ [];
  named_certs = none;
}
