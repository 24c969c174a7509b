-- ===== src/Examples/Lockout.antt =====
-- Cutting an account's credentials, on the small database.
use sso_go.Prelude.{
  none, ◌<◌, ℕ, ◌≡◌, ◌≢◌, Text, codes, ◌==◌, Bool, true, some, [], ◌∷◌, ok, Result, find_where,
  any_where, order_by, update_where, select_where, delete_where, arith, refl,
}
use sso_go.Db.{Account, OneTime, disabled}
use sso_go.Action.{World, run}
use sso_go.Repo.Tables.{get_access, account_is}
use sso_go.Repo.Events.{queue_all, queue_event, profile_projects}
use sso_go.Repo.Oauth.{consume_authorization_code, rotate_refresh}
use sso_go.Repo.Identity.{session_account, usable, with_password}
use sso_go.Repo.Passwords.{
  reset_password, change_password, cut_credentials, revoke_password_sessions, enabled_account,
}
use sso_go.Repo.Admin.{disable_account}
use sso_go.Repo.Lockout.Refusals.{
  disable_account-locks_out, reset_password-once, change_password-cuts,
}
use sso_go.Examples.State.{at_time}
use sso_go.Examples.Oauth.{the_code, uri}

abbrev ids : ℕ → Text
ids n = n ∷ []

abbrev shut : World
shut = (disable_account ids (codes "root") (codes "ann") (at_time 10)).1

shut_lem : (disable_account ids (codes "root") (codes "ann") (at_time 10)).0 ≡ ok tt
unfolding disable_account run find_where update_where delete_where any_where order_by select_where
    ◌==◌ cut_credentials queue_all queue_event profile_projects
shut_lem = refl

disable_account-locks_out_example :
    ((session_account (codes "t") shut).0 ≢ ok (codes "ann"))
    × ((rotate_refresh (codes "t") (codes "t2") (codes "web") (codes "shop") 20 shut).0
        ≢ ok (record { account = codes "ann"; scopes = codes "openid" ∷ [] }))
    × ((consume_authorization_code (codes "t") (codes "web") uri (λ _. true) shut).0 ≢ ok the_code)
    × ((get_access (codes "ann") (codes "shop") shut).0 ≢ ok (codes "user" ∷ []))
disable_account-locks_out_example =
    disable_account-locks_out ids (codes "root") (codes "ann") (codes "t") (codes "t2")
      (codes "web") (codes "shop") uri 20 (codes "openid" ∷ []) (codes "user" ∷ []) (λ _. true)
      the_code (at_time 10) shut shut_lem refl refl

abbrev renewed : World
renewed = (reset_password ids (codes "reset") (codes "new") (at_time 10)).1

renewed_lem : (reset_password ids (codes "reset") (codes "new") (at_time 10)).0 ≡ ok tt
unfolding reset_password revoke_password_sessions run find_where update_where delete_where any_where
    order_by select_where ◌==◌ cut_credentials queue_all queue_event profile_projects
renewed_lem = refl

renewed_now : renewed.now ≡ 10
unfolding reset_password revoke_password_sessions run find_where update_where delete_where any_where
    order_by select_where ◌==◌ cut_credentials queue_all queue_event profile_projects
renewed_now = refl

reset_password-once_example :
    (t : OneTime) × (find_where (usable (codes "reset") 10) (at_time 10).db.resets ≡ some t)
    × (t.token_hash ≡ codes "reset")
    × (t.used_at ≡ none)
    × (10 < t.expires_at)
    × (renewed.db.accounts
        ≡ update_where
            (account_is t.account_id)
            (with_password (codes "new"))
            (at_time 10).db.accounts)
    × ((reset_password ids (codes "reset") (codes "other") renewed).0 ≢ ok tt)
    × ((session_account (codes "t") renewed).0 ≢ ok t.account_id)
    × ((rotate_refresh (codes "t") (codes "t2") (codes "web") (codes "shop") 20 renewed).0
        ≢ ok (record { account = t.account_id; scopes = [] }))
reset_password-once_example =
    reset_password-once ids ids (codes "reset") (codes "new") (codes "other") (codes "t")
      (codes "t2") (codes "web") (codes "shop") 20 [] (at_time 10) renewed renewed_lem refl
      (omega (arith, renewed_now))

abbrev verifies_old : Text → Result Bool
verifies_old hash = ok (hash == codes "old")

abbrev changed : World
changed = (change_password ids (codes "ann") (codes "new") verifies_old (at_time 10)).1

changed_lem : (change_password ids (codes "ann") (codes "new") verifies_old (at_time 10)).0 ≡ ok tt
unfolding change_password revoke_password_sessions run find_where update_where delete_where
    any_where order_by select_where ◌==◌ cut_credentials queue_all queue_event profile_projects
changed_lem = refl

change_password-cuts_example :
    (a : Account) × (find_where (enabled_account (codes "ann")) (at_time 10).db.accounts ≡ some a)
    × (a.id ≡ codes "ann")
    × (a.status ≢ disabled)
    × (verifies_old a.password_hash ≡ ok true)
    × (changed.db.accounts
        ≡ update_where
            (account_is (codes "ann"))
            (with_password (codes "new"))
            (at_time 10).db.accounts)
    × ((session_account (codes "t") changed).0 ≢ ok (codes "ann"))
    × ((rotate_refresh (codes "t") (codes "t2") (codes "web") (codes "shop") 20 changed).0
        ≢ ok (record { account = codes "ann"; scopes = [] }))
change_password-cuts_example =
    change_password-cuts ids (codes "ann") (codes "new") (codes "t") (codes "t2") (codes "web")
      (codes "shop") 20 [] verifies_old (at_time 10) changed changed_lem refl
