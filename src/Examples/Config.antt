-- ===== src/Examples/Config.antt =====
-- Settings with a database and the defaults.
use sso_go.Prelude.{
  Text, codes, ◌==◌, false, Option, none, some, [], ok, ◌≡◌, ◌↔◌, refl, if◌then◌else◌,
}
use sso_go.Strconv.{parse_int, scan}
use sso_go.Service.Words.{all_bytes}
use sso_go.Config.{IssuerUrl, config, load, trim_slashes, is_port}
use sso_go.Config.Checked.{IsServing, load-IsServing}

abbrev localhost : IssuerUrl
localhost = record {
  scheme = codes "http";
  host = codes "localhost:8080";
  hostname = codes "localhost";
  path = [];
  raw_query = [];
  fragment = [];
  has_user = false;
}

abbrev parse_url : Text → Option IssuerUrl
parse_url s = if s == codes "http://localhost:8080" then some localhost else none

abbrev env : Text → Text
env name = if name == codes "SSO_DATABASE_URL" then codes "postgres://db" else []

loaded_lem : load parse_url env ≡ ok (config parse_url env)
unfolding load trim_slashes is_port parse_int scan all_bytes ◌==◌
loaded_lem = refl

load-IsServing_example : (load parse_url env ≡ ok (config parse_url env)) ↔ (
    (config parse_url env ≡ config parse_url env) × IsServing parse_url env (config parse_url env))
load-IsServing_example = load-IsServing parse_url env (config parse_url env)
