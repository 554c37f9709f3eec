-- ===== src/Examples/Fakehost.antt =====
-- The stand-in for Apollo at concrete inputs.
use remote_access.Base.{false, none, some, [], ◌∷◌, lit, List}
use remote_access.Fakehost.{Args, Headers, Object, Inner, string, api_pin}
use remote_access.Fakehost.Sessions.{
  Request, queried, resumed, pin_posted, client_updated, serve_all, AllEnrol, serve_all-AllEnrol,
}
use remote_access.Fakehost.WebApi.{SendsOnce, api_pin-SendsOnce}
use remote_access.Examples.Libraries.{toy_libraries}
use remote_access.Examples.Simulated.{host}

abbrev args : Args
args = record {
  port = 47989;
  username = lit "admin";
  password = lit "admin";
  name = lit "Fake Apollo";
}

abbrev stranger : Headers
stranger = record { https = false; cookie = none }

abbrev logged_in : Headers
logged_in = record { https = false; cookie = some (lit "auth=fake-session") }

abbrev pin_body : Object
pin_body = (lit "pin", string (lit "1234")) ∷ (lit "name", string (lit "laptop")) ∷ []

abbrev waiting : Inner toy_libraries
waiting = record {
  host = host;
  parked = some (record { query = lit "uniqueid=1&phrase=getservercert"; waiter = 7 });
  clients = [];
  pending_name = none;
}

abbrev requests : List (Request toy_libraries)
requests =
    queried 8 (lit "u1") (lit "uniqueid=1&phrase=getservercert") stranger
    ∷ pin_posted logged_in pin_body
    ∷ resumed (lit "uniqueid=1&phrase=getservercert") none
    ∷ client_updated logged_in pin_body
    ∷ []

serve_all-AllEnrol_example :
    AllEnrol toy_libraries waiting requests (serve_all toy_libraries requests waiting)
serve_all-AllEnrol_example = serve_all-AllEnrol toy_libraries requests waiting

api_pin-SendsOnce_example :
    SendsOnce toy_libraries waiting (api_pin toy_libraries logged_in pin_body waiting)
api_pin-SendsOnce_example = api_pin-SendsOnce toy_libraries logged_in pin_body waiting
