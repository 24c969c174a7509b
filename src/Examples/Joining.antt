-- ===== src/Examples/Joining.antt =====
-- Registration on the small database, and the redirect URIs of a client.
use sso_go.Prelude.{
  ◌++◌, ◌<◌, ◌≡◌, ◌↔◌, All, length, Text, codes, ◌==◌, lower, false, none, some, Option, [], ◌∷◌,
  ok, find_where, any_where, refl, arith, if◌then◌else◌,
}
use sso_go.Db.{Account}
use sso_go.Action.{World, fails, run}
use sso_go.Repo.Identity.{create_pending_account}
use sso_go.Repo.Tables.{find_account}
use sso_go.Service.Words.{trim, all_bytes}
use sso_go.Service.Identity.{Registration, register, verify_email, good_registration, is_login}
use sso_go.Service.Identity.Joining.{register-verify_email}
use sso_go.Service.Operator.{Url, validate_redirects}
use sso_go.Service.Operator.Redirects.{IsRedirect, validate_redirects_iff}
use sso_go.Service.Roles.Valid.{IsDistinct}
use sso_go.Examples.State.{at_time}
use sso_go.Examples.Endpoints.{outside}

abbrev form : Registration
form = record {
  email = codes " Cyd@x";
  login = codes "cyd";
  given_name = codes "Cyd";
  family_name = [];
  name = [];
  password = codes "a long password";
}

abbrev joined : World
joined = (register outside (codes "cyd-id") (codes "link") form (at_time 10)).1

joined_lem : (register outside (codes "cyd-id") (codes "link") form (at_time 10)).0 ≡ ok tt
unfolding register good_registration is_login all_bytes trim lower create_pending_account run
    find_where any_where ◌==◌
joined_lem = refl

joined_now : (joined.now ≡ 10) × (fails joined.faults ≡ false)
unfolding register good_registration is_login all_bytes trim lower create_pending_account run
    find_where any_where ◌==◌
joined_now = (refl, refl)

register-verify_email_example :
    (outside.send
        (lower (trim form.email))
        (codes "Confirm your email")
        (outside.issuer ++ codes "/verify?token=" ++ outside.query_escape (codes "link"))
      ≡ ok tt)
    × ((verify_email outside (codes "link") joined).0 ≡ ok tt)
    × ((a : Account) × (find_account
            (codes "cyd-id")
            (verify_email outside (codes "link") joined).1.db
          ≡ some a)
        × (a.verified ≡ some joined.now)
        × (a.email ≡ lower (trim form.email)))
unfolding ◌==◌
register-verify_email_example =
    register-verify_email outside (codes "cyd-id") (codes "link") form (at_time 10) joined refl
      joined_lem refl (omega (arith, joined_now.0)) joined_now.1

abbrev parse_url : Text → Option Url
parse_url s =
    if s == codes "https://web/cb"
    then some (record {
      scheme = codes "https";
      host = codes "web";
      hostname = codes "web";
      fragment = [];
      has_user = false;
    })
    else none

validate_redirects_iff_example :
    (validate_redirects parse_url (codes "https://web/cb" ∷ []) ≡ ok tt) ↔ (
      (0 < length (codes "https://web/cb" ∷ []))
      × All (IsRedirect parse_url) (codes "https://web/cb" ∷ [])
      × IsDistinct (codes "https://web/cb" ∷ []))
validate_redirects_iff_example = validate_redirects_iff parse_url (codes "https://web/cb" ∷ [])
