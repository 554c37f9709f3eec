-- ===== src/Host/Apollos.antt =====
-- crates/ra-host/src/apollo.rs: the client of Apollo's web UI. The web UI answers each call as it
-- likes, given the calls before it; a body stands for the JSON text that it is sent as.
use remote_access.Base.{
  ℕ, zero, suc, Bool, true, false, not, ◌&&◌, ◌||◌, ◌==◌, ltb, Option, none, some, List, [], ◌∷◌,
  ◌++◌, Text, lit, is_empty, starts_with, first_field, trim_end_matches, find, map, unwrap_or,
  Result, ok, err, ◌>>=◌, ◌>>◌, ok_or, require, if◌then◌else◌,
}

pub record ApolloClient : Type 0 where
  pub name : Text
  pub uuid : Text
  pub perm : ℕ
  pub connected : Bool
  pub display_mode : Text
  pub enable_legacy_ordering : Bool
  pub allow_client_commands : Bool
  pub always_use_virtual_display : Bool
  pub do_cmds : List Text
  pub undo : List Text

pub record OtpResponse : Type 0 where
  pub otp : Text
  pub name : Text
  pub status : Bool
  pub message : Text

-- The bodies that are sent, each with its fields
pub data Body : Type 0 where
  credentials pin_and_name passphrase_and_device : Text → Text → Body
  client_body : ApolloClient → Body
  uuid_body : Text → Body

-- What the code reads of the JSON of a reply
pub record Json : Type 0 where
  pub status : Option Bool
  pub named_certs : Result Text (List ApolloClient)
  pub otp_response : Result Text OtpResponse
  pub text : Text

pub record Reply : Type 0 where
  pub status : ℕ
  pub set_cookies : List Text
  pub json : Result Text Json

pub record Call : Type 0 where
  pub is_post : Bool
  pub url : Text
  pub cookie : Option Text
  pub body : Option Body

-- The calls so far, the latest first, and the cookie that is kept
pub record WebState : Type 0 where
  pub calls : List Call
  pub cookie : Option Text

pub record WebClient : Type 0 where
  pub base : Text
  pub username : Text
  pub password : Text
  pub answers : List Call → Call → Result Text Reply

unfoldable pub new_web :
    (List Call → Call → Result Text Reply) → Text → Text → Text → WebClient × WebState
new_web answers base username password = (
  record {
    base = trim_end_matches base b'/';
    username = username;
    password = password;
    answers = answers;
  },
  record { calls = []; cookie = none },
)

module _ (w : WebClient) where
  unfoldable pub send_call : Call → WebState → Result Text Reply × WebState
  send_call c s = (w.answers s.calls c, record s { calls = c ∷ s.calls })

  abbrev pub is_auth : Text → Bool
  is_auth kv = starts_with kv (lit "auth=")

  -- `error_for_status`, and the first cookie named `auth`
  unfoldable pub auth_cookie : Reply → Result Text Text
  auth_cookie r = do
    require (not (r.status == 401)) (lit "Apollo rejected the web UI credentials")
    require (ltb r.status 400) (lit "error status")
    ok_or (find is_auth (map (first_field b';') r.set_cookies))
        (lit "Apollo login did not return an auth cookie")

  unfoldable pub login : WebState → Result Text Text × WebState
  unfolding send_call auth_cookie
  login s =
      let r =
        send_call
          (record {
            is_post = true;
            url = w.base ++ lit "/api/login";
            cookie = none;
            body = some (credentials w.username w.password);
          })
          s in
      (r.0 >>= auth_cookie, r.1)

  -- The cookie that is kept, or that of a new login, which is then kept
  unfoldable pub current_cookie : WebState → Result Text Text × WebState
  unfolding login
  current_cookie s = elim s.cookie [
    | some c ↦ (ok c, s)
    | none ↦
        let r = login s in
        elim r.0 [ err e ↦ (err e, r.1) | ok c ↦ (ok c, record r.1 { cookie = some c }) ]
  ]

  -- The loop over the attempts that are left; a 401 in the first one drops the cookie.
  unfoldable pub call_from : ℕ → Bool → Text → Option Body → WebState → Result Text Reply × WebState
  unfolding current_cookie send_call
  call_from zero is_post path body s = (err (lit "unreachable"), s)
  call_from (suc n) is_post path body s =
      let c = current_cookie s in
      elim c.0 [
        | err e ↦ (err e, c.1)
        | ok cookie ↦
            let r =
              send_call
                (record {
                  is_post = is_post;
                  url = w.base ++ path;
                  cookie = some cookie;
                  body = body;
                })
                c.1 in
            elim r.0 [
              | err e ↦ (err e, r.1)
              | ok reply ↦ elim (reply.status == 401 && n == 1) [
                | true ↦ call_from n is_post path body (record r.1 { cookie = none })
                | false ↦ (ok reply, r.1)
              ]
            ]
      ]

  unfoldable pub call : Bool → Text → Option Body → WebState → Result Text Reply × WebState
  unfolding call_from
  call is_post path body s = call_from 2 is_post path body s

  abbrev pub reading_json :
      {A : Type 0}
      → (Json → Result Text A)
      → Result Text Reply × WebState
      → Result Text A × WebState
  reading_json f (r, s) = ((r >>= λ reply. reply.json >>= f), s)

  unfoldable pub submit_pin : Text → Text → WebState → Result Text Bool × WebState
  unfolding call
  submit_pin pin name s =
      reading_json (λ v. ok (unwrap_or v.status false))
        (call true (lit "/api/pin") (some (pin_and_name pin name)) s)

  abbrev pub granted : OtpResponse → Result Text OtpResponse
  granted r =
      if not r.status || is_empty r.otp then err (lit "Apollo refused OTP: " ++ r.message) else ok r

  unfoldable pub request_otp : Text → Text → WebState → Result Text OtpResponse × WebState
  unfolding call
  request_otp passphrase device s =
      reading_json (λ v. v.otp_response >>= granted)
        (call true (lit "/api/otp") (some (passphrase_and_device passphrase device)) s)

  unfoldable pub list_clients : WebState → Result Text (List ApolloClient) × WebState
  unfolding call
  list_clients s = reading_json (λ v. v.named_certs) (call false (lit "/api/clients/list") none s)

  abbrev pub updated_ok : Json → Result Text (Unit {0})
  updated_ok v =
      if unwrap_or v.status false
      then ok tt
      else err (lit "Apollo refused client update: " ++ v.text)

  unfoldable pub update_client : ApolloClient → WebState → Result Text (Unit {0}) × WebState
  unfolding call
  update_client c s =
      reading_json updated_ok (call true (lit "/api/clients/update") (some (client_body c)) s)

  abbrev pub ignoring : Result Text Reply × WebState → Result Text (Unit {0}) × WebState
  ignoring (r, s) = ((r >>= λ reply. ok tt), s)

  unfoldable pub unpair_client : Text → WebState → Result Text (Unit {0}) × WebState
  unfolding call
  unpair_client uuid s = ignoring (call true (lit "/api/clients/unpair") (some (uuid_body uuid)) s)

  unfoldable pub disconnect_client : Text → WebState → Result Text (Unit {0}) × WebState
  unfolding call
  disconnect_client uuid s =
      ignoring (call true (lit "/api/clients/disconnect") (some (uuid_body uuid)) s)

  unfoldable pub web_config : WebState → Result Text Json × WebState
  unfolding call
  web_config s = reading_json (λ v. ok v) (call false (lit "/api/config") none s)
