-- ===== src/Examples/Http.antt =====
-- The handlers' own decisions at concrete inputs.
use sso_go.Prelude.{
  ◌≡◌, ◌⊎◌, Text, codes, ◌==◌, true, false, none, some, List, [], ◌∷◌, ok, find_where, any_where,
  update_where, order_by, refl,
}
use sso_go.Db.{Client}
use sso_go.Action.{World, run}
use sso_go.Repo.Tables.{find_client, get_client, get_account, get_access}
use sso_go.Repo.Keys.{active_signing_key}
use sso_go.Repo.Maintenance.{increment_attempt}
use sso_go.Repo.Oauth.{consume_authorization_code, consume_code, create_refresh}
use sso_go.Service.Words.{split, trim, has_prefix, all_bytes, join_space}
use sso_go.Service.Access.{allow}
use sso_go.Service.Oauth.{exchange, refresh, issue, sign_tokens, is_verifier, authenticate_client}
use sso_go.Token.{sign, active}
use sso_go.Http.Address.{Net, Network, trusted_proxy, client_ip, reverse_onto}
use sso_go.Http.Address.Spoofing.{client_ip-hops}
use sso_go.Http.TokenEndpoint.{TokenRequest, within_limits, token_endpoint, grant_tokens, issued}
use sso_go.Http.TokenEndpoint.Answers.{IsWithin, token_endpoint-issued}
use sso_go.Http.Browser.{has_byte, contains_any, safe_next}
use sso_go.Examples.State.{at_time}
use sso_go.Examples.Oauth.{uri}
use sso_go.Examples.Jwt.{jose, issuer}
use sso_go.Examples.Endpoints.{same, challenge_of, tokens, verifier}

abbrev pub net : Net
net = record { split_host = λ addr. some addr; parse_ip = λ s. some s; parse_cidr = λ s. none }

-- the proxies are p and q
abbrev pub networks : List Network
networks = (λ ip. ip == codes "p") ∷ (λ ip. ip == codes "q") ∷ []

client_ip-hops_example :
    (trusted_proxy networks (codes "p") ≡ true
      → client_ip net networks (codes "p") (codes "6, 1, q") ≡ codes "1")
    × (trusted_proxy networks (codes "p") ≡ false
        → client_ip net networks (codes "p") (codes "q") ≡ codes "p")
unfolding trim split reverse_onto trusted_proxy ◌==◌
client_ip-hops_example =
    client_ip-hops net networks (codes "p") (codes "p") (codes "p") (codes "6, 1, q") (codes "q")
      (codes " 1") (codes "1") (codes " q" ∷ []) (codes "6" ∷ []) refl refl refl
      ((codes "q", refl, refl), tt) refl refl

abbrev form : TokenRequest
form = record {
  basic = none;
  client_id = codes "web";
  client_secret = codes "sec";
  grant_type = codes "authorization_code";
  code = codes "t";
  redirect_uri = uri;
  code_verifier = verifier;
  refresh_token = [];
  client_ip = codes "1";
}

answered_lem :
    (token_endpoint same challenge_of jose issuer (codes "r") (codes "g") form (at_time 10)).0
    ≡ issued (tokens (codes "r"))
unfolding token_endpoint within_limits grant_tokens allow increment_attempt authenticate_client
    exchange issue sign_tokens is_verifier all_bytes join_space run find_where any_where
    update_where order_by ◌==◌ get_client get_account get_access consume_authorization_code
    consume_code create_refresh sign active active_signing_key
answered_lem = refl

abbrev authenticated : World
authenticated =
    (authenticate_client same (codes "web") (codes "sec")
      (within_limits same challenge_of jose issuer form (at_time 10)).1).1

token_endpoint-issued_example :
    IsWithin same challenge_of jose issuer
      (codes "r")
      (codes "g")
      form
      (at_time 10)
      (tokens (codes "r"))
    × ((c : Client) × (find_client
            (codes "web")
            (within_limits same challenge_of jose issuer form (at_time 10)).1.db
          ≡ some c)
        × (c.secret_hash ≡ codes "sec")
        × (((codes "authorization_code" ≡ codes "authorization_code")
              × ((exchange same challenge_of jose issuer
                    (codes "r")
                    (codes "g")
                    c
                    (codes "t")
                    uri
                    verifier
                    authenticated).0
                  ≡ ok (tokens (codes "r"))))
            ⊎ ((codes "authorization_code" ≡ codes "refresh_token")
                × ((refresh same challenge_of jose issuer (codes "r") c [] authenticated).0
                    ≡ ok (tokens (codes "r"))))))
token_endpoint-issued_example =
    token_endpoint-issued same challenge_of jose issuer (codes "r") (codes "g") form (at_time 10)
      (tokens (codes "r")) answered_lem

-- the slashes would name the host evil
abbrev evil : Text
evil = codes "//evil/authorize?"

safe_next-evil : safe_next evil ≡ codes "/projects"
unfolding safe_next has_prefix contains_any has_byte ◌==◌
safe_next-evil = refl

safe_next-authorize : safe_next (codes "/authorize?a=1") ≡ codes "/authorize?a=1"
unfolding safe_next has_prefix contains_any has_byte ◌==◌
safe_next-authorize = refl
