-- ===== src/Examples/Endpoints.antt =====
-- The service layer on the small database.
use sso_go.Prelude.{
  ◌≡◌, Text, codes, ◌==◌, mem, lower, true, some, List, [], ◌∷◌, ok, find_where, any_where,
  update_where, order_by, refl,
}
use sso_go.Db.{Account, Client, CodeRow, RefreshRow, Status}
use sso_go.Action.{run, run_committed}
use sso_go.Repo.Tables.{get_client, get_account, get_access}
use sso_go.Repo.Keys.{active_signing_key}
use sso_go.Repo.Oauth.{
  AuthorizationCode, consume_authorization_code, consume_code, create_authorization_code,
  rotate_refresh, rotate, create_refresh, usable_code,
}
use sso_go.Repo.Oauth.Codes.{Redeems}
use sso_go.Repo.Oauth.Rotation.{Renewed, with_hash}
use sso_go.Repo.Identity.{with_login, create_session}
use sso_go.Service.Words.{fields, contains, all_bytes, join_space, trim, has_prefix}
use sso_go.Service.Oauth.{
  AuthorizeInput, Tokens, authorize, exchange, refresh, issue, sign_tokens, good_request,
  good_scopes, is_challenge, is_verifier,
}
use sso_go.Service.Oauth.Granting.{Authorized, authorize-Authorized}
use sso_go.Service.Oauth.Issuing.{Admitted, exchange-Redeems, refresh-Renewed}
use sso_go.Security.Password.{is_legacy_bcrypt}
use sso_go.Service.Identity.{Outside, login, admit}
use sso_go.Service.Identity.SignIn.{SignedIn, login-SignedIn}
use sso_go.Token.{sign, active}
use sso_go.Examples.State.{small_db, at_time}
use sso_go.Examples.Oauth.{uri}
use sso_go.Examples.Jwt.{jose, issuer}

abbrev pub same : Text → Text
same s = s

abbrev pub challenge_of : Text → Text
challenge_of s = codes "ch"

abbrev pub request : AuthorizeInput
request = record {
  client_id = codes "web";
  redirect = uri;
  response_type = codes "code";
  scope = codes "openid email";
  state = codes "0123456789abcdef";
  nonce = codes "0123456789abcdef";
  challenge = codes "0123456789012345678901234567890123456789012";
  challenge_method = codes "S256";
  user = codes "ann";
}

pub authorized_lem : (authorize same (codes "new") request (at_time 10)).0 ≡ ok (codes "new")
unfolding authorize good_request good_scopes is_challenge fields contains all_bytes run find_where
    any_where ◌==◌ mem get_client get_account get_access create_authorization_code
authorized_lem = refl

authorize-Authorized_example :
    (client : Client) × (account : Account) × Authorized same
      (codes "new")
      request
      (at_time 10)
      (authorize same (codes "new") request (at_time 10)).1.db
      client
      account
authorize-Authorized_example =
    authorize-Authorized same (codes "new") request (at_time 10) (codes "new") authorized_lem

abbrev pub web : Client
web = record {
  id = codes "web";
  project = codes "shop";
  secret_hash = codes "sec";
  redirects = uri ∷ [];
}

abbrev pub tokens : Text → Tokens
tokens token = record {
  access_token = codes "h.b.s";
  id_token = codes "h.b.s";
  refresh_token = token;
  management_token = codes "h.b.s";
  token_type = codes "Bearer";
  expires_in = 300;
  scope = codes "openid";
}

abbrev pub verifier : Text
verifier = codes "0123456789012345678901234567890123456789012"

pub exchanged_lem :
    (exchange same challenge_of jose issuer
      (codes "r")
      (codes "g")
      web
      (codes "t")
      uri
      verifier
      (at_time 10)).0
    ≡ ok (tokens (codes "r"))
unfolding exchange issue sign_tokens is_verifier all_bytes join_space run find_where any_where
    update_where order_by ◌==◌ get_account get_access consume_authorization_code consume_code
    create_refresh sign active active_signing_key
exchanged_lem = refl

exchange-Redeems_example :
    (row : CodeRow) × (code : AuthorizationCode) × (account : Account) × (roles : List Text)
    × (find_where (usable_code (codes "t") 10) small_db.codes ≡ some row)
    × Redeems (codes "t") (codes "web") uri (λ expected. codes "ch" == expected) 10 row code
    × (is_verifier verifier ≡ true)
    × Admitted code.account (codes "shop") small_db account roles
exchange-Redeems_example =
    exchange-Redeems same challenge_of jose issuer (codes "r") (codes "g") web (codes "t") uri
      verifier (at_time 10) (tokens (codes "r")) exchanged_lem

refreshed_lem :
    (refresh same challenge_of jose issuer (codes "t2") web (codes "t") (at_time 10)).0
    ≡ ok (tokens (codes "t2"))
unfolding refresh issue sign_tokens join_space run run_committed find_where any_where update_where
    order_by ◌==◌ get_account get_access rotate_refresh rotate sign active active_signing_key
refreshed_lem = refl

refresh-Renewed_example :
    (r : RefreshRow) × (account : Account) × (roles : List Text) × (find_where
        (with_hash (codes "t"))
        small_db.refresh
      ≡ some r)
    × (r.client_id ≡ codes "web")
    × Renewed
        (codes "t")
        (codes "t2")
        (codes "web")
        (codes "shop")
        10
        10
        small_db
        (rotate_refresh (codes "t") (codes "t2") (codes "web") (codes "shop") 10 (at_time 10)).1.db
        r
        (rotate_refresh (codes "t") (codes "t2") (codes "web") (codes "shop") 10 (at_time 10)).0
    × Admitted r.account_id (codes "shop") small_db account roles
refresh-Renewed_example =
    refresh-Renewed same challenge_of jose issuer (codes "t2") web (codes "t") (at_time 10)
      (tokens (codes "t2")) refreshed_lem

abbrev pub outside : Outside
outside = record {
  hash = same;
  hash_password = λ p. ok p;
  verify_password = λ p h. ok (p == h);
  send = λ _ _ _. ok tt;
  parse_address = λ a. some a;
  query_escape = same;
  issuer = issuer;
}

signed_in_lem :
    (login outside (codes " Ann@x") (codes "old") (codes "cookie") (at_time 10)).0
    ≡ ok Status.active
unfolding login admit with_login create_session is_legacy_bcrypt has_prefix trim lower run
    find_where any_where ◌==◌
signed_in_lem = refl

login-SignedIn_example :
    (a : Account) × (Status.active ≡ a.status)
    × SignedIn outside
        (codes " Ann@x")
        (codes "old")
        (codes "cookie")
        (at_time 10)
        (login outside (codes " Ann@x") (codes "old") (codes "cookie") (at_time 10)).1.db.sessions
        a
login-SignedIn_example =
    login-SignedIn outside (codes " Ann@x") (codes "old") (codes "cookie") (at_time 10)
      Status.active signed_in_lem
