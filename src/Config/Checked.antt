-- ===== src/Config/Checked.antt =====
-- What Load accepts.
use mathlib.Core.Path.{subst}
use sso_go.Prelude.{
  ℤ, pos, negsuc, ◌⊎◌, false, ℕ, ◌<◌, ◌≤◌, Text, codes, ◌==◌, eq_iff, Bool, true, ◌++◌, Option,
  none, some, [], ◌∷◌, missing_database, bad_issuer, insecure_issuer, bad_port, half_tls, not, ◌&&◌,
  Error, ok, ◌≡◌, ◌≢◌, ◌↔◌, refl, arith,
}
use sso_go.Strconv.{parse_int}
use sso_go.Config.{
  Config, getenv, IssuerUrl, config, load, is_origin, is_protected, is_port, in_range, both_or_none,
  need, trim_slashes,
}

-- A number from 1 to 65535 in decimal.
abbrev pub IsPort : Text → Type 0
IsPort port = (n : ℕ) × (parse_int port ≡ some (pos n)) × (0 < n) × (n ≤ 65535)

in_range-pos :
    (v : Option ℤ) → in_range v ≡ true → (n : ℕ) × (v ≡ some (pos n)) × (0 < n) × (n ≤ 65535)
in_range-pos none h = absurd (cc h)
in_range-pos (some (pos n)) h = (n, refl, ground arith, ground arith)
in_range-pos (some (negsuc n)) h = absurd (cc h)

is_port-IsPort : (port : Text) → is_port port ≡ true → IsPort port
unfolding is_port
is_port-IsPort port h = in_range-pos (parse_int port) h

IsPort-is_port : (port : Text) → IsPort port → is_port port ≡ true
unfolding is_port
IsPort-is_port port (n, e, lo, hi) = ground (arith, e)

-- no slash at the end
trim_slashes-end : (s t : Text) → trim_slashes s ≢ t ++ b'/' ∷ []
unfolding trim_slashes
trim_slashes-end [] [] h = cc h
trim_slashes-end [] (x ∷ t) h = cc h
trim_slashes-end (c ∷ s) [] h = ground (arith, eq_iff (trim_slashes s) [])
trim_slashes-end (c ∷ s) (x ∷ t) h =
    ground (arith, eq_iff (trim_slashes s) [], trim_slashes-end s t)

both_true : (a b : Bool) → (a && b) ≡ true → (a ≡ true) × (b ≡ true)
both_true a b h = ground arith

-- the five early returns of Load
needs_iff :
    (b1 b2 b3 b4 b5 : Bool) (e1 e2 e3 e4 e5 : Error) (made c : Config)
    → (need b1 e1 (need b2 e2 (need b3 e3 (need b4 e4 (need b5 e5 (ok made))))) ≡ ok c)
      ↔ ((c ≡ made) × (b1 ≡ true) × (b2 ≡ true) × (b3 ≡ true) × (b4 ≡ true) × (b5 ≡ true))
needs_iff b1 b2 b3 b4 b5 e1 e2 e3 e4 e5 made c = ground arith

-- an HTTP or HTTPS URL that is an origin alone: a host, and neither credentials nor more
pub record IsOrigin (u : IssuerUrl) : Type 0 where
  pub host : u.host ≢ []
  pub scheme : (u.scheme ≡ codes "http") ⊎ (u.scheme ≡ codes "https")
  pub no_user : u.has_user ≡ false
  pub no_path : u.path ≡ []
  pub no_query : u.raw_query ≡ []
  pub no_fragment : u.fragment ≡ []

-- plain HTTP only on this machine
abbrev pub IsGuarded : IssuerUrl → Type 0
IsGuarded u =
    u.scheme ≡ codes "http" → (u.hostname ≡ codes "localhost") ⊎ (u.hostname ≡ codes "127.0.0.1")

is_origin_iff :
    (v : Option IssuerUrl) → (is_origin v ≡ true) ↔ ((u : IssuerUrl) × (v ≡ some u) × IsOrigin u)
is_origin_iff none = (λ h. absurd (cc h), λ (u, e, h). absurd (cc e))
is_origin_iff (some u) =
    let host = eq_iff u.host [] in
    let http = eq_iff u.scheme (codes "http") in
    let https = eq_iff u.scheme (codes "https") in
    let path = eq_iff u.path [] in
    let query = eq_iff u.raw_query [] in
    let fragment = eq_iff u.fragment [] in
    (
      λ h. (
        u,
        refl,
        record {
          host = λ e. ground (arith, host);
          scheme = ground (arith, http, https);
          no_user = ground arith;
          no_path = ground (arith, path);
          no_query = ground (arith, query);
          no_fragment = ground (arith, fragment);
        },
      ),
      λ (u', e, h).
          let same : u' ≡ u = cc e in
          let o : IsOrigin u = subst IsOrigin same h in
          ground (
            arith, host, http, https, path, query, fragment, o.host, o.scheme, o.no_user, o.no_path,
            o.no_query, o.no_fragment,
          ),
    )

is_protected_iff : (u : IssuerUrl) → (is_protected (some u) ≡ true) ↔ IsGuarded u
is_protected_iff u = ground (
  arith,
  eq_iff u.scheme (codes "http"),
  eq_iff u.hostname (codes "localhost"),
  eq_iff u.hostname (codes "127.0.0.1"),
)

-- Settings that the process can serve with: a database, an issuer that parses as an origin, on HTTPS
-- or on this machine, and has no slash at its end, two ports from 1 to 65535, and a certificate
-- exactly if there is a key.
pub record IsServing (parse_url : Text → Option IssuerUrl) (env : Text → Text) (c : Config)
    : Type 0 where
  pub database : c.database_url ≢ []
  pub url : IssuerUrl
  pub parsed : parse_url c.issuer ≡ some url
  pub origin : IsOrigin url
  pub ending : (t : Text) → c.issuer ≢ t ++ b'/' ∷ []
  pub guarded : IsGuarded url
  pub http : IsPort c.http_port
  pub grpc : IsPort c.grpc_port
  pub tls : (env (codes "SSO_GRPC_TLS_CERT") ≡ []) ↔ (env (codes "SSO_GRPC_TLS_KEY") ≡ [])

both_or_none_iff :
    (parse_url : Text → Option IssuerUrl) (env : Text → Text)
    → (both_or_none parse_url env ≡ true)
      ↔ ((env (codes "SSO_GRPC_TLS_CERT") ≡ []) ↔ (env (codes "SSO_GRPC_TLS_KEY") ≡ []))
both_or_none_iff parse_url env =
    ground (
      arith,
      eq_iff (env (codes "SSO_GRPC_TLS_CERT")) [],
      eq_iff (env (codes "SSO_GRPC_TLS_KEY")) [],
    )

module _ (parse_url : Text → Option IssuerUrl) (env : Text → Text) (c : Config) where
  abbrev made : Config
  made = config parse_url env

  load_iff : (load parse_url env ≡ ok c) ↔ (
      (c ≡ made)
      × (not (made.database_url == []) ≡ true)
      × (is_origin (parse_url made.issuer) ≡ true)
      × (is_protected (parse_url made.issuer) ≡ true)
      × ((is_port made.http_port && is_port made.grpc_port) ≡ true)
      × (both_or_none parse_url env ≡ true))
  unfolding load
  load_iff =
      needs_iff (not (made.database_url == [])) (is_origin (parse_url made.issuer))
        (is_protected (parse_url made.issuer)) (is_port made.http_port && is_port made.grpc_port)
        (both_or_none parse_url env) missing_database bad_issuer insecure_issuer bad_port half_tls
        made c

  -- Load succeeds exactly with settings that the process can serve with, which are those of the
  -- environment or the defaults: a database is named, the issuer is an origin without credentials
  -- and without a slash at its end, on HTTPS or on this machine, both ports are numbers from 1 to 65535, and a TLS certificate is
  -- set exactly if its key is.
  pub load-IsServing : (load parse_url env ≡ ok c) ↔ ((c ≡ made) × IsServing parse_url env made)
  load-IsServing = (to, from)
    where
      to : load parse_url env ≡ ok c → (c ≡ made) × IsServing parse_url env made
      to h =
          let (same, database, origin, guarded, ports, tls) = load_iff.0 h in
          let (u, e, whole) = (is_origin_iff (parse_url made.issuer)).0 origin in
          let (http, grpc) = both_true (is_port made.http_port) (is_port made.grpc_port) ports in
          (
            same,
            record {
              database = λ none_set. ground (arith, eq_iff made.database_url []);
              url = u;
              parsed = e;
              origin = whole;
              ending =
                  trim_slashes-end
                    (getenv parse_url env (codes "SSO_ISSUER") (codes "http://localhost:8080"));
              guarded = (is_protected_iff u).0 (rw e at guarded);
              http = is_port-IsPort made.http_port http;
              grpc = is_port-IsPort made.grpc_port grpc;
              tls = (both_or_none_iff parse_url env).0 tls;
            },
          )

      from : ((c ≡ made) × IsServing parse_url env made) → load parse_url env ≡ ok c
      from (same, s) =
          let http = IsPort-is_port made.http_port s.http in
          let grpc = IsPort-is_port made.grpc_port s.grpc in
          load_iff.1 (
            same,
            ground (arith, s.database, eq_iff made.database_url []),
            (is_origin_iff (parse_url made.issuer)).1 (s.url, s.parsed, s.origin),
            rw s.parsed ((is_protected_iff s.url).1 s.guarded),
            ground (arith, http, grpc),
            (both_or_none_iff parse_url env).1 s.tls,
          )
