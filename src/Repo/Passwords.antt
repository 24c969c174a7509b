-- ===== src/Repo/Passwords.antt =====
-- internal/repository/postgres/identity.go: password resets and changes, and profile updates.
use sso_go.Prelude.{
  ℕ, ◌+◌, Text, codes, ◌==◌, Bool, ◌&&◌, not, none, some, [], ◌∷◌, ◌++◌, unique_violation,
  other_violation, invalid_password, Result, ok, err, lower, is_none, is_some, if◌then◌else◌,
  find_where, any_where, update_where, delete_where,
}
use sso_go.Db.{
  Db, Account, OneTime, Session, CodeRow, RefreshRow, Payload, text, profile_updated,
  sessions_revoked, password_reset, password_changed,
}
use sso_go.Tx.{Tx, ◌>>=◌, ◌>>◌, pure, gets, first_row, modify, check}
use sso_go.Action.{Action, run}
use sso_go.Repo.Tables.{account_is, has_account, is_active, is_disabled}
use sso_go.Repo.Events.{audit, profile_projects, queue_all, user_payload}
use sso_go.Repo.Oauth.{revoke_at}
use sso_go.Repo.Identity.{hash_is, usable, use_up, with_password}

-- PasswordResetAccount
unfoldable pub password_reset_account : Text → Action Text
password_reset_account email = run do
  a ← first_row (λ _ d.
      find_where
        (λ (a : Account). a.email == email && is_some a.verified && not (is_disabled a.status))
        d.accounts)
  pure a.id

-- AddPasswordReset: 20 minutes
unfoldable pub add_password_reset : Text → Text → Action (Unit {0})
add_password_reset account hash = run do
  check (λ d. not (any_where (hash_is hash) d.resets)) unique_violation
  check (has_account account) other_violation
  modify (λ now d. record d {
    resets =
        d.resets
        ++ record {
          token_hash = hash;
          account_id = account;
          expires_at = now + 1200;
          used_at = none;
        }
          ∷ [];
  })

-- DELETE FROM browser_sessions WHERE account_id=$1, and so on
abbrev pub session_of : Text → Session → Bool
session_of id s = s.account_id == id

abbrev pub code_of : Text → CodeRow → Bool
code_of id c = c.account_id == id

abbrev pub one_time_of : Text → OneTime → Bool
one_time_of id t = t.account_id == id

-- account_id=$1 AND revoked_at IS NULL
abbrev pub unrevoked_of : Text → RefreshRow → Bool
unrevoked_of id r = r.account_id == id && is_none r.revoked_at

-- the statements that DisableAccount and revokePasswordSessions share
unfoldable pub cut_credentials : Text → ℕ → Db → Db
cut_credentials id now d = record d {
  sessions = delete_where (session_of id) d.sessions;
  refresh = update_where (unrevoked_of id) (revoke_at now) d.refresh;
  codes = delete_where (code_of id) d.codes;
  resets = delete_where (one_time_of id) d.resets;
}

-- revokePasswordSessions
unfoldable pub revoke_password_sessions : (ℕ → Text) → Text → Text → Tx (Unit {0})
revoke_password_sessions ids id hash = do
  modify
      (λ _ d. record d { accounts = update_where (account_is id) (with_password hash) d.accounts })
  modify (cut_credentials id)
  projects ← gets (λ _ d. profile_projects id [] d)
  queue_all ids projects sessions_revoked id (user_payload id)

-- ResetPassword
unfoldable pub reset_password : (ℕ → Text) → Text → Text → Action (Unit {0})
reset_password ids token_hash password_hash = run do
  t ← first_row (λ now d. find_where (usable token_hash now) d.resets)
  modify (λ now d. record d { resets = update_where (usable token_hash now) (use_up now) d.resets })
  revoke_password_sessions ids t.account_id password_hash
  audit none none none password_reset t.account_id

-- what `verify` answers: an error, or whether the password matches
abbrev pub accept_password : Result Bool → Result (Unit {0})
accept_password (ok b) = if b then ok tt else err invalid_password
accept_password (err e) = err e

abbrev from_result {ℓ} : {A : Type ℓ} → Result A → Tx A
from_result (ok a) now d = ok (a, d)
from_result (err e) now d = err e

-- id=$1 AND status<>'disabled'
abbrev pub enabled_account : Text → Account → Bool
enabled_account id a = a.id == id && not (is_disabled a.status)

-- ChangePassword
unfoldable pub change_password : (ℕ → Text) → Text → Text → (Text → Result Bool) → Action (Unit {0})
change_password ids id password_hash verify = run do
  a ← first_row (λ _ d. find_where (enabled_account id) d.accounts)
  from_result (accept_password (verify a.password_hash))
  revoke_password_sessions ids id password_hash
  audit (some id) none none password_changed id

pub record ProfileUpdate : Type 0 where
  pub login : Text
  pub given_name : Text
  pub family_name : Text
  pub name : Text
  pub avatar : Text

abbrev pub with_profile : ProfileUpdate → Account → Account
with_profile p a = record a {
  login = p.login;
  given_name = p.given_name;
  family_name = p.family_name;
  name = p.name;
  avatar_url = p.avatar;
}

abbrev pub profile_payload : Text → Text → ProfileUpdate → Payload
profile_payload id email p =
    (codes "user_id", text id)
    ∷ (codes "email", text email)
    ∷ (codes "login", text p.login)
    ∷ (codes "name", text p.name)
    ∷ (codes "given_name", text p.given_name)
    ∷ (codes "family_name", text p.family_name)
    ∷ (codes "avatar_url", text p.avatar)
    ∷ []

-- id=$6 AND status='active'
abbrev pub active_account : Text → Account → Bool
active_account id a = a.id == id && is_active a.status

-- UpdateProfile; the unique index on lower(login) is checked against the other accounts
unfoldable pub update_profile : (ℕ → Text) → Text → ProfileUpdate → Action (Unit {0})
update_profile ids id p = run do
  a ← first_row (λ _ d. find_where (active_account id) d.accounts)
  check
      (λ d. not (
        any_where (λ (b : Account). lower b.login == lower p.login && not (b.id == id)) d.accounts))
      unique_violation
  modify
      (λ _ d. record d { accounts = update_where (active_account id) (with_profile p) d.accounts })
  projects ← gets (λ _ d. profile_projects id [] d)
  queue_all ids projects profile_updated id (profile_payload id a.email p)
  audit (some id) none none profile_updated id
