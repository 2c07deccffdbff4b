-- ===== src/Server/Tests/Routes.antt =====
-- Requests at concrete inputs: a wallet's login, and the routing.
use mathlib.Core.Bool.{false≢true}
use hikari.Prelude.{◌≡◌, ◌≢◌, ◌⊎◌, refl, true, false, [], ◌∷◌, none, some}
use hikari.Prelude.Int.{ℤ}
use hikari.Prelude.Text.{String, eq_iff}
use hikari.Prelude.Dict.{lookup}
use hikari.Prelude.Number.{fixed_point}
use hikari.Prelude.Except.{ok, thrown}
use hikari.Prelude.Json.{Json, Fields, object, str, get, field_of}
use hikari.Auth.Types.{AuthChallenge, Service}
use hikari.Auth.Verify.{new_session}
use hikari.Auth.Soundness.{Accepts}
use hikari.Auth.Tests.{address, signature, service}
use hikari.Auth.Tests as AuthTests
use hikari.Auth.Tests.Encoding as Encoding
use hikari.Database.Types as Db
use hikari.Database.Profiles.{is_account}
use hikari.Server.Http.{Request, World, absent, property, parse_body}
use hikari.Server.Replies.{State}
use hikari.Server.Sessions.{verify_request, verify_login}
use hikari.Server.Sessions.Login.{verify_login_lem}
use hikari.Server.Static.{Files}
use hikari.Server.Router.{Surroundings, handle_request}
use hikari.Server.Router.Frame.{handle_request-auth}
use hikari.Server.Tests.Surroundings.{world}

abbrev payload : Json ℤ
payload = object (
    ("challengeId", str "c1") ∷ ("stellarAddress", str address) ∷ ("signature", str signature) ∷ [])

abbrev login_world : World fixed_point
login_world = record world { parse_json = λ s. ok payload }

abbrev state : State ℤ
state = record { auth = some service; database = none; telemetry_file = absent }

abbrev request : String → String → Request
request method pathname = record {
  method = method;
  pathname = pathname;
  query = [];
  body = "a body";
  client_ip = "10.0.0.1";
  user_agent = "test";
}

abbrev login : Request
login = request "POST" "/api/v1/auth/verify"

abbrev db_draw : Db.Draw
db_draw = record {
  uuid = "u";
  tx_uuid = "t";
  now = "1";
  later = "2";
  tx_time = "3";
  saved_at = "4";
  can_write = true;
}

parsed : parse_body login_world login.body ≡ ok payload
unfolding parse_body
parsed = refl

given : property login_world "challengeId" payload ≡ ok (get "challengeId" payload)
unfolding property
given = refl

valid : is_account (verify_request login payload).stellar_address ≡ true
unfolding is_account get field_of
valid = refl

verify_login_lem_example :
    let (st', r) =
      verify_login Encoding.host login_world state login (AuthTests.draw "s1") db_draw in
    let session =
      new_session Encoding.host "secret" (verify_request login payload) (AuthTests.draw "s1") in
    (((c : AuthChallenge) × Accepts Encoding.host service
          (verify_request login payload)
          (AuthTests.draw "s1")
          c)
      × (r.status ≡ 200)
      × ((auth' : Service) × (st'.auth ≡ some auth')
          × (lookup session.session_token auth'.active_sessions ≡ some session)))
    ⊎ ((r.status ≡ 401)
        × ((auth' : Service) × (st'.auth ≡ some auth')
            × (auth'.active_sessions ≡ [])
            × (auth'.consumed_nonces ≡ [])))
verify_login_lem_example =
    verify_login_lem Encoding.host login_world state service login (AuthTests.draw "s1") db_draw
      payload refl parsed given valid

abbrev files : Files
files = record {
  public_dir = "/srv";
  join = λ a b. b;
  extname = λ p. "";
  to_lower = λ s. s;
  exists_sync = λ p. false;
  read_file = λ p. thrown "ENOENT";
}

abbrev db_host : Db.Host ℤ
db_host = record {
  big_int = λ s. none;
  syntax_error = "SyntaxError";
  show_ℤ = λ z. "?";
  spread_other = λ v. Fields.end;
  mask_password = λ s. s;
  last_four = λ s. s;
  parse = λ content. none;
}

abbrev around : Surroundings fixed_point
around = record {
  auth_host = Encoding.host;
  db_host = db_host;
  world = login_world;
  files = files;
  auth_draw = AuthTests.draw "s1";
  db_draw = db_draw;
  can_write = true;
  cycle_stdout = "";
  cycle_file = absent;
}

not_profile : ◌≢◌ {A = String} "/api/trigger-cycle" "/api/v1/user/profile"
not_profile e = false≢true ((eq_iff _ _).1 e)

handle_request-auth_example :
    (handle_request around state (request "PUT" "/api/v1/user/profile")).0.auth ≡ some service
handle_request-auth_example =
    handle_request-auth around state (request "PUT" "/api/v1/user/profile") refl
