-- ===== src/Examples/SignIn.antt =====
-- A sign-in from Authorize to Exchange on the small database.
use sso_go.Prelude.{
  arith, ◌≡◌, ◌++◌, codes, ◌==◌, true, [], ◌∷◌, ok, find_where, any_where, order_by, refl,
  update_where, false,
}
use sso_go.Action.{World, run}
use sso_go.Repo.Keys.{active_signing_key}
use sso_go.Repo.Oauth.{
  first_token, has_refresh, consume_authorization_code, consume_code, create_refresh,
}
use sso_go.Repo.Tables.{get_account, get_access}
use sso_go.Token.{sign, active}
use sso_go.Examples.Oauth.{uri}
use sso_go.Service.Oauth.Flow.Renewal.{exchange-refresh}
use sso_go.Service.Words.{all_bytes, fields, join_space}
use sso_go.Service.Oauth.{Tokens, authorize, exchange, refresh, issue, sign_tokens, is_verifier}
use sso_go.Service.Oauth.Flow.{working, Answered}
use sso_go.Service.Oauth.Flow.SignIn.{authorize-exchange}
use sso_go.Examples.State.{small_db, at_time, key_row}
use sso_go.Examples.Jwt.{jose, issuer}
use sso_go.Examples.Endpoints.{
  same, challenge_of, tokens, request, web, verifier, authorized_lem, exchanged_lem,
}

abbrev signed_in : World
signed_in = working (authorize same (codes "new") request (at_time 10)).1.db 70

is_verifier_lem : is_verifier verifier ≡ true
unfolding is_verifier all_bytes
is_verifier_lem = refl

active_lem : (active_signing_key (working small_db 70)).0 ≡ ok (key_row (codes "k1"))
unfolding active_signing_key run find_where order_by
active_lem = refl

authorize-exchange_example :
    let (r, w') =
      exchange same same jose issuer
        (codes "r")
        (codes "g")
        web
        (codes "new")
        request.redirect
        verifier
        signed_in in
    (t : Tokens) × (r ≡ ok t)
    × Answered (codes "r") (fields request.scope) t
    × (w'.db.refresh
        ≡ small_db.refresh
          ++ first_token
              (codes "r")
              (codes "g")
              (codes "ann")
              (codes "web")
              (codes "shop")
              (fields request.scope)
              70
            ∷ [])
unfolding find_where any_where ◌==◌
authorize-exchange_example =
    authorize-exchange same same jose issuer (codes "new") request (at_time 10) (codes "new") web
      (codes "r") (codes "g") verifier 70 (key_row (codes "k1")) tt authorized_lem refl
      (omega arith) is_verifier_lem refl refl refl active_lem refl (λ _. refl)

abbrev exchanged : World
exchanged =
    (exchange same challenge_of jose issuer (codes "r") (codes "g") web (codes "t") uri verifier
      (at_time 10)).1

after_lem :
    (has_refresh (codes "r2") exchanged.db ≡ false)
    × ((active_signing_key (working exchanged.db 70)).0 ≡ ok (key_row (codes "k1")))
unfolding exchange issue sign_tokens is_verifier all_bytes join_space run find_where any_where
    update_where order_by ◌==◌ get_account get_access consume_authorization_code consume_code
    create_refresh sign active active_signing_key
after_lem = (refl, refl)

exchange-refresh_example :
    (t : Tokens) × ((refresh same challenge_of jose issuer
        (codes "r2")
        web
        (codes "r")
        (working exchanged.db 70)).0
      ≡ ok t)
    × (t.refresh_token ≡ codes "r2")
    × (t.scope ≡ codes "openid")
unfolding ◌==◌
exchange-refresh_example =
    exchange-refresh same challenge_of jose issuer (codes "r") (codes "g") web (codes "t") uri
      verifier (at_time 10) (tokens (codes "r")) exchanged_lem (codes "r2") 70
      (key_row (codes "k1")) tt refl (omega arith) after_lem.0 after_lem.1 refl (λ _. refl)
