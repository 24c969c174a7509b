-- ===== src/Http/OauthHandlers.antt =====
-- internal/transport/httpapi/oauth.go: the handlers of the OpenID Connect protocol.
--
-- Fosite's NewAuthorizeRequest reads the client from the database: it comes as a function of the
-- request and the tables to the client's ID. `set_query` is the rest of net/url: the URL with the
-- given values set in its query.
use sso_go.Prelude.{
  Text, codes, Option, none, some, List, [], ◌∷◌, ◌++◌, unauthenticated, pending_access, forbidden,
  invalid_input, invalid_client, access_revoked, invalid_grant, Result, ok, err, if◌then◌else◌,
}
use sso_go.Db.{Db}
use sso_go.Service.Words.{has_prefix}
use sso_go.Service.Identity.{Outside}
use sso_go.Service.Oauth
use sso_go.Service.Oauth.{AuthorizeInput, Userinfo}
use sso_go.Security.Password.{trim_prefix}
use sso_go.Token.{Jose}
use sso_go.Http.Address.{Net, Network}
use sso_go.Http.Message.{Request, Reply, problem, redirect, tokens, userinfo, Handler, replying}
use sso_go.Http.Forms.{current_session, address}
use sso_go.Http.TokenEndpoint
use sso_go.Http.TokenEndpoint.{Response, issued, token_endpoint}

abbrev or_empty : Result Text → Text
or_empty (ok id) = id
or_empty (err e) = []

abbrev reply_of : Response → Reply
reply_of (TokenEndpoint.problem status text) = problem status text
reply_of (issued t) = tokens t

abbrev userinfo_reply : Result Userinfo → Reply
userinfo_reply (ok u) = userinfo u
userinfo_reply (err access_revoked) = problem 403 (codes "access revoked")
userinfo_reply (err invalid_grant) = problem 401 (codes "invalid token")
userinfo_reply (err e) = problem 500 (codes "userinfo unavailable")

module _ (out : Outside) (new_authorize_request : Request → Db → Option Text)
    (set_query : Text → List (Text × Text) → Text) where
  abbrev authorize_input : Request → Text → Text → AuthorizeInput
  authorize_input q client user = record {
    client_id = client;
    redirect = q.query (codes "redirect_uri");
    response_type = q.query (codes "response_type");
    scope = q.query (codes "scope");
    state = q.query (codes "state");
    nonce = q.query (codes "nonce");
    challenge = q.query (codes "code_challenge");
    challenge_method = q.query (codes "code_challenge_method");
    user = user;
  }

  -- redirectPending
  unfoldable pub redirect_pending : Text → Text → Reply
  redirect_pending target state =
      redirect 302
        (set_query target ((codes "error", codes "access_pending") ∷ (codes "state", state) ∷ []))

  abbrev authorize_reply : Request → AuthorizeInput → Result Text → Reply
  authorize_reply q i (ok code) =
      redirect 302 (set_query i.redirect ((codes "code", code) ∷ (codes "state", i.state) ∷ []))
  authorize_reply q i (err unauthenticated) =
      redirect 303 (codes "/login?next=" ++ out.query_escape q.request_uri)
  authorize_reply q i (err pending_access) = redirect_pending i.redirect i.state
  authorize_reply q i (err forbidden) = problem 403 (codes "email not verified")
  authorize_reply q i (err invalid_input) = problem 400 (codes "invalid OIDC or PKCE parameters")
  authorize_reply q i (err invalid_client) = problem 400 (codes "invalid OIDC or PKCE parameters")
  authorize_reply q i (err e) = problem 500 (codes "authorization failed")

  abbrev authorize_for : Text → Request → Option Text → Handler
  authorize_for code q none w = (problem 400 (codes "invalid authorization request"), w)
  authorize_for code q (some client) w =
      let (user, w1) = current_session out q w in
      let input = authorize_input q client (or_empty user) in
      replying (authorize_reply q input) (Oauth.authorize out.hash code input w1)

  -- Server.authorize, with the code that Authorize makes
  unfoldable pub authorize : Text → Request → Handler
  unfolding redirect_pending
  authorize code q w = authorize_for code q (new_authorize_request q w.db) w

module _ (out : Outside) (challenge_of : Text → Text) (jose : Jose) where
  -- Server.userinfo
  unfoldable pub userinfo_endpoint : Request → Handler
  userinfo_endpoint q w =
      let header = q.header (codes "Authorization") in
      let known =
        Oauth.userinfo out.hash challenge_of jose out.issuer (trim_prefix header (codes "Bearer "))
          w in
      if has_prefix header (codes "Bearer ")
      then replying userinfo_reply known
      else (problem 401 (codes "missing bearer token"), w)

  module _ (net : Net) (networks : List Network) where
    abbrev token_of : Text → Text → Request → Option (Text → Text) → Handler
    token_of token family q none w = (problem 400 (codes "invalid form"), w)
    token_of token family q (some form) w = replying reply_of (
        token_endpoint out.hash challenge_of jose out.issuer token family
          (record {
            basic = q.basic;
            client_id = form (codes "client_id");
            client_secret = form (codes "client_secret");
            grant_type = form (codes "grant_type");
            code = form (codes "code");
            redirect_uri = form (codes "redirect_uri");
            code_verifier = form (codes "code_verifier");
            refresh_token = form (codes "refresh_token");
            client_ip = address out net networks q;
          })
          w)

    -- Server.token, with the refresh token and the family that issue makes
    unfoldable pub token : Text → Text → Request → Handler
    token new_token family q = token_of new_token family q q.form
