-- ===== src/Config.antt =====
-- internal/config/config.go: the settings of the process.
--
-- The environment is a function, which gives the empty text for a variable that is not set;
-- url.Parse comes as a parameter. The two ports are tested in one order, where the code ranges over
-- a map: both tests have the same error. The settings that Load returns beside an error are left out.
pub mod Checked
use sso_go.Prelude.{
  ℤ, pos, negsuc, ℕ, Text, codes, ◌==◌, eqb, leb, Bool, true, false, ◌&&◌, ◌||◌, not, Option, none,
  some, [], ◌∷◌, missing_database, bad_issuer, insecure_issuer, bad_port, half_tls, Error, Result,
  ok, err, if◌then◌else◌,
}
use sso_go.Strconv.{parse_int}

pub record Config : Type 0 where
  pub database_url : Text
  pub issuer : Text
  pub http_port : Text
  pub grpc_port : Text
  pub kafka_broker : Text
  pub kafka_topic : Text
  pub rotate_key : Bool

-- what Load reads of a url.URL
pub record IssuerUrl : Type 0 where
  pub scheme : Text
  pub host : Text
  pub hostname : Text
  pub path : Text
  pub raw_query : Text
  pub fragment : Text
  pub has_user : Bool

-- strings.TrimRight(s, "/")
unfoldable pub trim_slashes : Text → Text
trim_slashes [] = []
trim_slashes (c ∷ s) =
    let rest = trim_slashes s in if rest == [] && eqb c b'/' then [] else c ∷ rest

abbrev or_default : Text → Text → Text
or_default [] fallback = fallback
or_default v fallback = v

-- the first test on the issuer
abbrev pub is_origin : Option IssuerUrl → Bool
is_origin none = false
is_origin (some u) =
    not (u.host == [])
    && (u.scheme == codes "http" || u.scheme == codes "https")
    && not u.has_user
    && u.path == []
    && u.raw_query == []
    && u.fragment == []

-- the second: HTTPS, or HTTP on this machine
abbrev pub is_protected : Option IssuerUrl → Bool
is_protected none = false
is_protected (some u) =
    not (u.scheme == codes "http")
    || u.hostname == codes "localhost"
    || u.hostname == codes "127.0.0.1"

abbrev pub in_range : Option ℤ → Bool
in_range (some (pos n)) = leb 1 n && leb n 65535
in_range other = false

-- the test on a port
unfoldable pub is_port : Text → Bool
is_port port = in_range (parse_int port)

-- an early return with an error, unless the test holds
abbrev pub need : Bool → Error → Result Config → Result Config
need b e rest = if b then rest else err e

module _ (parse_url : Text → Option IssuerUrl) (env : Text → Text) where
  -- getenv
  abbrev getenv : Text → Text → Text
  getenv name fallback = or_default (env name) fallback

  abbrev pub config : Config
  config = record {
    database_url = env (codes "SSO_DATABASE_URL");
    issuer = trim_slashes (getenv (codes "SSO_ISSUER") (codes "http://localhost:8080"));
    http_port = getenv (codes "SSO_HTTP_PORT") (codes "8080");
    grpc_port = getenv (codes "SSO_GRPC_PORT") (codes "9090");
    kafka_broker = env (codes "KAFKA_BROKER");
    kafka_topic = codes "sso.events";
    rotate_key = env (codes "SSO_ROTATE_KEY_ON_START") == codes "1";
  }

  -- the certificate and the key are set together
  abbrev pub both_or_none : Bool
  both_or_none =
      let cert = env (codes "SSO_GRPC_TLS_CERT") == [] in
      let key = env (codes "SSO_GRPC_TLS_KEY") == [] in if cert then key else not key

  -- Load
  unfoldable pub load : Result Config
  load = need (not (config.database_url == [])) missing_database (
      need (is_origin (parse_url config.issuer)) bad_issuer (
        need (is_protected (parse_url config.issuer)) insecure_issuer (
          need (is_port config.http_port && is_port config.grpc_port) bad_port
            (need both_or_none half_tls (ok config)))))
