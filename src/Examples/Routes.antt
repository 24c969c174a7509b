-- ===== src/Examples/Routes.antt =====
-- Requests to the forms of the API at concrete inputs.
use mathlib.Core.Option
use sso_go.Prelude.{
  map, sym, ap, ◌∙◌, ◌≡◌, ◌≢◌, ◌⊎◌, refl, Text, codes, ◌==◌, none, some, [], ◌∷◌, if◌then◌else◌,
  true, arith,
}
use sso_go.Action.{World}
use sso_go.Db.{Account}
use sso_go.Http.Message.{Request, problem}
use sso_go.Http.Routes.{
  Web, Made, api, admin, login, grant_access, disable_account, route_of, serve_form, serve_admin,
}
use sso_go.Http.Routes.Forged.{serve_form-forged}
use sso_go.Http.Routes.Administered.{Administered, serve_admin-Administered}
use sso_go.Examples.State.{small_db, at_time}
use sso_go.Examples.Jwt.{jose}
use sso_go.Examples.Endpoints.{outside, challenge_of}
use sso_go.Examples.Http.{net, networks}

abbrev pub web : Web
web = record {
  out = outside;
  net = net;
  networks = networks;
  challenge_of = challenge_of;
  jose = jose;
  new_authorize_request = λ q d. none;
  set_query = λ target values. target;
}

abbrev pub made : Made
made = record { token = codes "tok"; family = codes "fam"; id = codes "ev"; ids = λ n. n ∷ [] }

-- a form that disables Ann, with the session and the form token in cookies of one value
abbrev posted : Text → Text → Request
posted cookie csrf = record {
  form = some (λ name.
      if name == codes "csrf" then csrf else if name == codes "user_id" then codes "ann" else []);
  cookie = λ name. some cookie;
  query = λ name. [];
  header = λ name. [];
  basic = none;
  remote_addr = codes "1";
  request_uri = codes "/api/login";
}

abbrev csrf_of : (Text → Text) → Text
csrf_of form = form (codes "csrf")

forged : some (codes "t") ≢ Option.map csrf_of (posted (codes "t") (codes "u")).form
unfolding ◌==◌
forged p = ground (arith, p)

serve_form-forged_example :
    serve_form web made login (posted (codes "t") (codes "u")) (at_time 10)
    ≡ (problem 403 (codes "invalid form token"), at_time 10)
serve_form-forged_example =
    serve_form-forged web made (posted (codes "t") (codes "u")) (at_time 10)
      (λ form there same. forged (same ∙ sym (ap (Option.map csrf_of) there))) login

-- Ann administers
abbrev administered : World
administered = record (at_time 10) {
  db = record small_db {
    accounts = map (λ (a : Account). record a { global_admin = true }) small_db.accounts;
  };
}

serve_admin-Administered_example :
    ((serve_admin web made disable_account (posted (codes "t") (codes "t")) administered).1.db
      ≡ administered.db)
    ⊎ Administered outside (posted (codes "t") (codes "t")) administered
serve_admin-Administered_example =
    serve_admin-Administered web made (posted (codes "t") (codes "t")) administered disable_account

route_lem :
    route_of (codes "POST") (codes "/api/admin/access/grant") ≡ some (api (admin grant_access))
unfolding route_of ◌==◌
route_lem = refl
