-- ===== src/Repo/Lockout/Refusals.antt =====
-- What an account that was disabled, or whose password was renewed, can no longer do.
use mathlib.Core.Path.{subst}
use sso_go.Prelude.{
  find_where-some, eq_iff, ◌<◌, ℕ, ◌≤◌, Text, Bool, true, List, none, some, ◌≡◌, ◌≢◌, sym, ok,
  Result, arith, find_where, find_where-update_none, find_where_mono, find_where-delete_still,
  update_where,
}
use sso_go.Db.{Account, OneTime, disabled}
use sso_go.Action.{World}
use sso_go.Action.Run.{run-eq-ok}
use sso_go.Repo.Tables.{account_is, get_access, access_is}
use sso_go.Repo.Oauth.{AuthorizationCode, rotate_refresh, consume_authorization_code}
use sso_go.Repo.Identity.{session_account, usable, use_up, with_password}
use sso_go.Repo.Passwords.{reset_password, change_password, enabled_account, one_time_of}
use sso_go.Repo.Admin.{disable_account, access_of}
use sso_go.Repo.Lockout.{IsCut, IsCut-session_account, IsCut-rotate_refresh, IsCut-consume}
use sso_go.Repo.Lockout.Cuts.{
  disable_account-IsCut, disable_account-access, reset_password-IsRenewed,
  change_password-IsRenewed,
}

no_access :
    (id project : Text) (roles : List Text) (w : World)
    → find_where (access_of id) w.db.access ≡ none
    → (get_access id project w).0 ≢ ok roles
unfolding get_access
no_access id project roles w h got = ground (
  arith,
  run-eq-ok _ w roles got,
  find_where_mono (access_of id) (access_is id project) w.db.access (λ a k. ground arith) h,
)

-- After DisableAccount, and as long as nothing else is written, no session token resolves to the
-- account, no refresh token or authorization code of it is redeemed, and it has no project access.
pub disable_account-locks_out :
    (ids : ℕ → Text) (actor id hash next_hash client project redirect : Text) (app_now : ℕ)
    (scopes roles : List Text) (valid : Text → Bool) (code : AuthorizationCode) (w w' : World)
    → (disable_account ids actor id w).0 ≡ ok tt
    → w'.db ≡ (disable_account ids actor id w).1.db
    → code.account ≡ id
    → ((session_account hash w').0 ≢ ok id)
      × ((rotate_refresh hash next_hash client project app_now w').0
          ≢ ok (record { account = id; scopes = scopes }))
      × ((consume_authorization_code hash client redirect valid w').0 ≢ ok code)
      × ((get_access id project w').0 ≢ ok roles)
disable_account-locks_out ids actor id hash next_hash client project redirect app_now scopes roles
      valid code w w' h same own =
    let cut : IsCut id w'.db =
      subst (IsCut id) (sym same) (disable_account-IsCut ids actor id w h) in
    (
      IsCut-session_account id w' cut hash,
      IsCut-rotate_refresh id w' cut hash next_hash client project app_now scopes,
      IsCut-consume id w' cut hash client redirect valid code own,
      no_access id project roles w' (rw same (disable_account-access ids actor id w h)),
    )

module _ (ids ids' : ℕ → Text) (token_hash password_hash other_hash : Text) (w w' : World) where
  link_gone :
      (reset_password ids token_hash password_hash w).0 ≡ ok tt
      → w'.db ≡ (reset_password ids token_hash password_hash w).1.db
      → w.now ≤ w'.now
      → find_where (usable token_hash w'.now) w'.db.resets ≡ none
  link_gone h same le =
      let (t, _, new) = reset_password-IsRenewed ids token_hash password_hash w h in
      rw (same, new.resets)
        (find_where-delete_still (usable token_hash w'.now) (one_time_of t.account_id)
          (update_where (usable token_hash w.now) (use_up w.now) w.db.resets)
          (find_where-update_none (usable token_hash w'.now) (usable token_hash w.now)
            (use_up w.now) w.db.resets (λ r p. ground arith) (λ r p. ground arith)))

  reset_again :
      find_where (usable token_hash w'.now) w'.db.resets ≡ none
      → (reset_password ids' token_hash other_hash w').0 ≢ ok tt
  unfolding reset_password
  reset_again gone again = ground (arith, run-eq-ok _ w' tt again)

-- A reset that succeeded showed an unused, unexpired link of some account, which then has the new
-- password hash wherever it stands in the table; while nothing else is written, the link does not
-- work again, and no session or refresh token of that account from before does.
pub reset_password-once :
    (ids ids' : ℕ → Text) (token_hash password_hash other_hash hash next_hash client project : Text)
    (app_now : ℕ) (scopes : List Text) (w w' : World)
    → (reset_password ids token_hash password_hash w).0 ≡ ok tt
    → w'.db ≡ (reset_password ids token_hash password_hash w).1.db
    → w.now ≤ w'.now
    → (t : OneTime) × (find_where (usable token_hash w.now) w.db.resets ≡ some t)
      × (t.token_hash ≡ token_hash)
      × (t.used_at ≡ none)
      × (w.now < t.expires_at)
      × (w'.db.accounts
          ≡ update_where (account_is t.account_id) (with_password password_hash) w.db.accounts)
      × ((reset_password ids' token_hash other_hash w').0 ≢ ok tt)
      × ((session_account hash w').0 ≢ ok t.account_id)
      × ((rotate_refresh hash next_hash client project app_now w').0
          ≢ ok (record { account = t.account_id; scopes = scopes }))
reset_password-once ids ids' token_hash password_hash other_hash hash next_hash client project
      app_now scopes w w' h same le =
    let (t, found, new) = reset_password-IsRenewed ids token_hash password_hash w h in
    let cut : IsCut t.account_id w'.db = subst (IsCut t.account_id) (sym same) new.cut in
    (
      t,
      found,
      ground (
        arith,
        find_where-some (usable token_hash w.now) w.db.resets t found,
        eq_iff t.token_hash token_hash,
      ),
      ground (arith, find_where-some (usable token_hash w.now) w.db.resets t found),
      ground (arith, find_where-some (usable token_hash w.now) w.db.resets t found),
      rw same new.accounts,
      reset_again ids ids' token_hash password_hash other_hash w w'
          (link_gone ids ids' token_hash password_hash other_hash w w' h same le),
      IsCut-session_account t.account_id w' cut hash,
      IsCut-rotate_refresh t.account_id w' cut hash next_hash client project app_now scopes,
    )

-- A password change that succeeded was checked against the stored hash of an account that is not
-- disabled; while nothing else is written, no session or refresh token of the account from before
-- works.
pub change_password-cuts :
    (ids : ℕ → Text) (id password_hash hash next_hash client project : Text) (app_now : ℕ)
    (scopes : List Text) (verify : Text → Result Bool) (w w' : World)
    → (change_password ids id password_hash verify w).0 ≡ ok tt
    → w'.db ≡ (change_password ids id password_hash verify w).1.db
    → (a : Account) × (find_where (enabled_account id) w.db.accounts ≡ some a)
      × (a.id ≡ id)
      × (a.status ≢ disabled)
      × (verify a.password_hash ≡ ok true)
      × (w'.db.accounts ≡ update_where (account_is id) (with_password password_hash) w.db.accounts)
      × ((session_account hash w').0 ≢ ok id)
      × ((rotate_refresh hash next_hash client project app_now w').0
          ≢ ok (record { account = id; scopes = scopes }))
change_password-cuts ids id password_hash hash next_hash client project app_now scopes verify w w' h
      same =
    let (a, found, accepted, new) = change_password-IsRenewed ids id password_hash verify w h in
    let cut : IsCut id w'.db = subst (IsCut id) (sym same) new.cut in
    (
      a,
      found,
      ground (arith, find_where-some (enabled_account id) w.db.accounts a found, eq_iff a.id id),
      (λ off. ground (arith, find_where-some (enabled_account id) w.db.accounts a found)),
      accepted,
      rw same new.accounts,
      IsCut-session_account id w' cut hash,
      IsCut-rotate_refresh id w' cut hash next_hash client project app_now scopes,
    )
