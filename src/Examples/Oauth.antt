-- ===== src/Examples/Oauth.antt =====
-- internal/repository/postgres/oauth.go on the small database.
use sso_go.Prelude.{
  ◌≡◌, ◌≢◌, Text, codes, ◌==◌, true, [], ◌∷◌, ok, err, no_rows, find_where, any_where, update_where,
  count_where, arith, refl,
}
use sso_go.Action.{World, run, run_committed}
use sso_go.Repo.Oauth.{
  AuthorizationCode, consume_authorization_code, rotate_refresh, rotate, consume_code, RefreshGrant,
}
use sso_go.Repo.Oauth.Codes.{consume-once, consume-wrong_client}
use sso_go.Repo.Oauth.Families.{IsSingle}
use sso_go.Examples.State.{small_db, at_time, code_row}

abbrev pub uri : Text
uri = codes "https://web/cb"

abbrev redeemed : World
redeemed = (consume_authorization_code (codes "t") (codes "web") uri (λ _. true) (at_time 10)).1

abbrev pub the_code : AuthorizationCode
the_code = record {
  account = codes "ann";
  client = codes "web";
  redirect = uri;
  nonce = codes "n";
  challenge = codes "ch";
  scopes = codes "openid" ∷ [];
}

redeemed_lem :
    (consume_authorization_code (codes "t") (codes "web") uri (λ _. true) (at_time 10)).0
    ≡ ok the_code
unfolding consume_authorization_code consume_code run find_where update_where ◌==◌
redeemed_lem = refl

consume-once_example :
    (consume_authorization_code (codes "t") (codes "web") uri (λ _. true) redeemed).0 ≢ ok the_code
unfolding consume_authorization_code consume_code find_where ◌==◌ run update_where
consume-once_example =
    consume-once (codes "t") (codes "web") uri (codes "web") uri (λ _. true) (λ _. true)
      (at_time 10) redeemed the_code the_code redeemed_lem refl (omega arith)

consume-wrong_client_example :
    ((consume_authorization_code (codes "t") (codes "evil") uri (λ _. true) (at_time 10)).0
      ≡ err no_rows)
    × ((consume_authorization_code
          (codes "t")
          (codes "web")
          uri
          (λ _. true)
          (consume_authorization_code (codes "t") (codes "evil") uri (λ _. true) (at_time 10)).1).0
        ≡ ok the_code)
unfolding find_where ◌==◌
consume-wrong_client_example =
    consume-wrong_client (codes "t") (codes "evil") uri (λ _. true) (λ _. true) (at_time 10)
      (code_row (codes "t")) refl (ground arith) refl refl refl

pub small_db-IsSingle : IsSingle small_db.refresh
unfolding count_where
small_db-IsSingle family = ground arith

abbrev pub rotated : World
rotated = (rotate_refresh (codes "t") (codes "t2") (codes "web") (codes "shop") 10 (at_time 10)).1

abbrev the_grant : RefreshGrant
the_grant = record { account = codes "ann"; scopes = codes "openid" ∷ [] }

rotated_lem :
    (rotate_refresh (codes "t") (codes "t2") (codes "web") (codes "shop") 10 (at_time 10)).0
    ≡ ok the_grant
unfolding rotate_refresh rotate run_committed run find_where update_where any_where ◌==◌
rotated_lem = refl
