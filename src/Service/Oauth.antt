-- ===== src/Service/Oauth.antt =====
-- internal/service/oauth.go: authorization, the two token grants and the userinfo endpoint.
--
-- SHA-256 comes as `hash` (its hex text) and `challenge_of` (its base64url text); the tokens that
-- security.RandomToken would make are arguments.
pub mod Granting
pub mod Issuing
pub mod Reuse
pub mod Flow
use sso_go.Prelude.{
  ℕ, Text, codes, ◌==◌, mem, Bool, true, false, ◌&&◌, ◌||◌, not, Option, none, some, is_some, List,
  [], ◌∷◌, ◌++◌, length, eqb, leb, Error, no_rows, token_reuse, invalid_input, invalid_client,
  unauthenticated, forbidden, pending_access, invalid_grant, access_revoked, refresh_reuse, Result,
  ok, err, if◌then◌else◌,
}
use sso_go.Db.{Client, Account}
use sso_go.Action.{World, Action, ◌>>=◌, ◌>>◌, pure, fail, time, require, or_not_found, mapping}
use sso_go.Repo.Tables.{get_client, get_account, get_access, is_active}
use sso_go.Repo.Oauth.{
  AuthorizationCode, create_authorization_code, consume_authorization_code, rotate_refresh,
  create_refresh,
}
use sso_go.Service.Words.{
  split, fields, contains, all_bytes, is_lower, is_upper, is_digit, join_space,
}
use sso_go.Token.{Claim, Claims, Jose, text, flag, texts, get, put, sign, verify}

-- [A-Za-z0-9_-]
abbrev base64url_byte : ℕ → Bool
base64url_byte c = is_upper c || is_lower c || is_digit c || eqb c b'_' || eqb c b'-'

-- pkceChallengePattern, ^[A-Za-z0-9_-]{43}$
unfoldable pub is_challenge : Text → Bool
is_challenge s = all_bytes base64url_byte s && eqb (length s) 43

-- [A-Za-z0-9._~-]
abbrev verifier_byte : ℕ → Bool
verifier_byte c = base64url_byte c || eqb c b'.' || eqb c b'~'

-- pkceVerifierPattern, ^[A-Za-z0-9._~-]{43,128}$
unfoldable pub is_verifier : Text → Bool
is_verifier s = all_bytes verifier_byte s && leb 43 (length s) && leb (length s) 128

pub record AuthorizeInput : Type 0 where
  pub client_id : Text
  pub redirect : Text
  pub response_type : Text
  pub scope : Text
  pub state : Text
  pub nonce : Text
  pub challenge : Text
  pub challenge_method : Text
  pub user : Text

-- the first test of Authorize
unfoldable pub good_request : AuthorizeInput → Bool
good_request i =
    i.response_type == codes "code"
    && contains (32 ∷ i.scope ++ 32 ∷ []) (codes " openid ")
    && leb 16 (length i.state)
    && leb (length i.state) 512
    && leb 16 (length i.nonce)
    && leb (length i.nonce) 256
    && i.challenge_method == codes "S256"
    && is_challenge i.challenge

abbrev pub known_scopes : List Text
known_scopes = codes "openid" ∷ codes "profile" ∷ codes "email" ∷ codes "offline_access" ∷ []

-- the loop over strings.Fields(in.Scope)
unfoldable pub good_scopes : List Text → Bool
good_scopes [] = true
good_scopes (s ∷ rest) = mem s known_scopes && good_scopes rest

abbrev pub code_for : AuthorizeInput → Client → AuthorizationCode
code_for i client = record {
  account = i.user;
  client = client.id;
  redirect = i.redirect;
  nonce = i.nonce;
  challenge = i.challenge;
  scopes = fields i.scope;
}

-- the answer of the token endpoint
pub record Tokens : Type 0 where
  pub access_token : Text
  pub id_token : Text
  pub refresh_token : Text
  pub management_token : Text
  pub token_type : Text
  pub expires_in : ℕ
  pub scope : Text

pub record Userinfo : Type 0 where
  pub sub : Text
  pub email : Text
  pub email_verified : Bool
  pub preferred_username : Text
  pub name : Text
  pub given_name : Text
  pub family_name : Text
  pub picture : Text

-- the errors of RotateRefresh, as Refresh returns them
abbrev pub refresh_error : Error → Error
refresh_error token_reuse = refresh_reuse
refresh_error no_rows = invalid_grant
refresh_error e = e

-- `x, _ := claims[name].(string)`
abbrev pub text_or_empty : Option Claim → Text
text_or_empty (some (text t)) = t
text_or_empty other = []

-- `if nonce != "" { idClaims["nonce"] = nonce }`
abbrev with_nonce : Text → Claims → Claims
with_nonce [] claims = claims
with_nonce nonce claims = put (codes "nonce") (text nonce) claims

module _ (hash : Text → Text) where
  -- OAuth.Authorize, with the code that it would make
  unfoldable pub authorize : Text → AuthorizeInput → Action Text
  authorize code i = do
    require (good_request i) invalid_input
    require (good_scopes (fields i.scope)) invalid_input
    client ← mapping (or_not_found invalid_client) (get_client i.client_id)
    require (mem i.redirect client.redirects) invalid_input
    require (not (i.user == [])) unauthenticated
    a ← mapping (or_not_found forbidden) (get_account i.user)
    require (is_some a.verified) forbidden
    require (is_active a.status) pending_access
    roles ← mapping (or_not_found pending_access) (get_access i.user client.project)
    create_authorization_code (hash code) (code_for i client)
    pure code

  -- OAuth.Client
  unfoldable pub authenticate_client : Text → Text → Action Client
  authenticate_client id secret = do
    c ← mapping (or_not_found invalid_client) (get_client id)
    require (c.secret_hash == hash secret) invalid_client
    pure c

  module _ (challenge_of : Text → Text) (jose : Jose) (issuer : Text) where
    abbrev pub access_claims : Text → Client → List Text → List Text → Claims
    access_claims user c roles scopes =
        (codes "sub", text user)
        ∷ (codes "aud", text c.project)
        ∷ (codes "client_id", text c.id)
        ∷ (codes "roles", texts roles)
        ∷ (codes "scope", text (join_space scopes))
        ∷ []

    abbrev pub management_claims : Text → Client → List Text → Claims
    management_claims user c roles =
        (codes "sub", text user)
        ∷ (codes "aud", text (issuer ++ codes "/grpc"))
        ∷ (codes "client_id", text c.id)
        ∷ (codes "project_id", text c.project)
        ∷ (codes "roles", texts roles)
        ∷ []

    abbrev pub id_claims : Text → Client → Account → Text → Claims
    id_claims user c a nonce = with_nonce nonce (
        (codes "sub", text user)
        ∷ (codes "aud", text c.id)
        ∷ (codes "email", text a.email)
        ∷ (codes "email_verified", flag true)
        ∷ (codes "preferred_username", text a.login)
        ∷ (codes "name", text a.name)
        ∷ (codes "given_name", text a.given_name)
        ∷ (codes "family_name", text a.family_name)
        ∷ (codes "picture", text a.avatar_url)
        ∷ [])

    -- the three tokens that issue signs, and its answer
    unfoldable pub sign_tokens :
        Text → Client → Account → List Text → Text → List Text → Text → Action Tokens
    sign_tokens user c a roles nonce scopes refresh = do
      access ← sign jose issuer (access_claims user c roles scopes) (codes "at+jwt")
      id_token ← sign jose issuer (id_claims user c a nonce) (codes "JWT")
      management ← sign jose issuer (management_claims user c roles) (codes "at+jwt")
      pure (record {
        access_token = access;
        id_token = id_token;
        refresh_token = refresh;
        management_token = management;
        token_type = codes "Bearer";
        expires_in = 300;
        scope = join_space scopes;
      })

    -- OAuth.issue: `family` is the family that it would make up for a first refresh token
    unfoldable pub issue : Text → Text → Client → Text → List Text → Text → Bool → Action Tokens
    unfolding sign_tokens
    issue family user c nonce scopes refresh is_refresh = do
      a ← mapping (or_not_found invalid_grant) (get_account user)
      require (is_some a.verified && is_active a.status) invalid_grant
      roles ← mapping (or_not_found access_revoked) (get_access user c.project)
      if is_refresh
          then pure tt
          else create_refresh (hash refresh) family user c.id c.project scopes
      sign_tokens user c a roles nonce scopes refresh

    -- OAuth.Exchange, with the refresh token and family that issue would make
    unfoldable pub exchange : Text → Text → Client → Text → Text → Text → Action Tokens
    exchange refresh family c code redirect verifier = do
      require (is_verifier verifier) invalid_grant
      grant ← mapping (or_not_found invalid_grant) (
          consume_authorization_code (hash code) c.id redirect
            (λ expected. challenge_of verifier == expected))
      issue family grant.account c grant.nonce grant.scopes refresh false

    -- OAuth.Refresh, with the token that it would make
    unfoldable pub refresh : Text → Client → Text → Action Tokens
    refresh next c raw = do
      require (not (raw == [])) invalid_grant
      now ← time
      grant ← mapping refresh_error (rotate_refresh (hash raw) (hash next) c.id c.project now)
      issue [] grant.account c [] grant.scopes next true

    -- from the audience that the token claims on
    unfoldable pub userinfo_of : Text → Text → Action Userinfo
    userinfo_of raw audience = do
      claims ← mapping (λ _. invalid_grant) (verify jose issuer raw audience (codes "at+jwt"))
      let user = text_or_empty (get (codes "sub") claims)
      client ←
          mapping (or_not_found invalid_grant)
            (get_client (text_or_empty (get (codes "client_id") claims)))
      require (client.project == audience) invalid_grant
      roles ← mapping (or_not_found access_revoked) (get_access user audience)
      a ← mapping (or_not_found invalid_grant) (get_account user)
      require (is_active a.status) invalid_grant
      pure (record {
        sub = a.id;
        email = a.email;
        email_verified = is_some a.verified;
        preferred_username = a.login;
        name = a.name;
        given_name = a.given_name;
        family_name = a.family_name;
        picture = a.avatar_url;
      })

    abbrev untrusted_audience : Option Claims → Action Text
    untrusted_audience none = fail invalid_grant
    untrusted_audience (some claims) = pure (text_or_empty (get (codes "aud") claims))

    userinfo_split : Text → List Text → Action Userinfo
    unfolding userinfo_of
    userinfo_split raw (head ∷ body ∷ sig ∷ []) = do
      audience ← untrusted_audience (jose.decode_claims body)
      userinfo_of raw audience
    userinfo_split raw _ = fail invalid_grant

    -- OAuth.Userinfo
    unfoldable pub userinfo : Text → Action Userinfo
    unfolding userinfo_split
    userinfo raw = userinfo_split raw (split b'.' raw)
