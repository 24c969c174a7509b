-- ===== src/Http/TokenEndpoint.antt =====
-- internal/transport/httpapi/oauth.go: the token endpoint, from its parsed form on.
pub mod Answers
use sso_go.Prelude.{
  ℕ, Text, codes, ◌==◌, Bool, true, false, ◌&&◌, Option, none, some, List, [], ◌∷◌, Error,
  invalid_client, refresh_reuse, invalid_grant, access_revoked, Result, ok, err, if◌then◌else◌,
}
use sso_go.Db.{Client}
use sso_go.Action.{World, Action}
use sso_go.Service.Access.{allow}
use sso_go.Service.Oauth.{Tokens, authenticate_client, exchange, refresh}
use sso_go.Token.{Jose}

pub record TokenRequest : Type 0 where
  -- r.BasicAuth()
  pub basic : Option (Text × Text)
  pub client_id : Text
  pub client_secret : Text
  pub grant_type : Text
  pub code : Text
  pub redirect_uri : Text
  pub code_verifier : Text
  pub refresh_token : Text
  -- s.clientIP(r)
  pub client_ip : Text

pub data Response : Type 0 where
  problem : ℕ → Text → Response
  issued : Tokens → Response

-- the id and secret of BasicAuth, or else those of the form
abbrev pub credentials : TokenRequest → Text × Text
credentials q = elim q.basic [ none ↦ (q.client_id, q.client_secret) | some pair ↦ pair ]

-- the last switch of the handler
abbrev pub respond : Result Tokens → Response
respond (ok tokens) = issued tokens
respond (err refresh_reuse) = problem 400 (codes "refresh_reuse_detected")
respond (err invalid_grant) = problem 400 (codes "invalid_grant")
respond (err access_revoked) = problem 403 (codes "access_revoked")
respond (err e) = problem 500 (codes "token unavailable")

abbrev pub client_problem : Error → Response
client_problem invalid_client = problem 401 (codes "invalid_client")
client_problem e = problem 500 (codes "token unavailable")

abbrev pub granted : Result Bool → Bool
granted (ok b) = b
granted (err e) = false

module _ (hash challenge_of : Text → Text) (jose : Jose) (issuer : Text) where
  -- `s.allowAttempt(r, "token-ip", ...) && s.allowAttempt(r, "token-client", ...)`
  unfoldable pub within_limits : TokenRequest → World → Bool × World
  within_limits q w =
      let (a, w1) = allow hash (codes "token-ip") q.client_ip 300 900 w in
      let (b, w2) = allow hash (codes "token-client") (credentials q).0 300 900 w1 in
      if granted a then (granted b, w2) else (false, w1)

  -- the switch on grant_type, with the tokens that the services would make up
  unfoldable pub grant_tokens : Text → Text → TokenRequest → Client → World → Response × World
  grant_tokens token family q client w =
      let (by_code, w1) =
        exchange hash challenge_of jose issuer token family client q.code q.redirect_uri
          q.code_verifier w in
      let (by_refresh, w2) = refresh hash challenge_of jose issuer token client q.refresh_token w in
      if q.grant_type == codes "authorization_code"
      then (respond by_code, w1)
      else if q.grant_type == codes "refresh_token"
      then (respond by_refresh, w2)
      else (problem 400 (codes "unsupported_grant_type"), w)

  abbrev pub for_client : Text → Text → TokenRequest → Result Client × World → Response × World
  for_client token family q (ok client, w) = grant_tokens token family q client w
  for_client token family q (err e, w) = (client_problem e, w)

  -- Server.token
  unfoldable pub token_endpoint : Text → Text → TokenRequest → World → Response × World
  token_endpoint token family q w =
      let (within, w1) = within_limits q w in
      if within
      then for_client token family q
          (authenticate_client hash (credentials q).0 (credentials q).1 w1)
      else (problem 429 (codes "too many attempts"), w1)
