-- ===== src/Repo/Admin.antt =====
-- internal/repository/postgres/admin.go: what a global administrator does to accounts and access.
pub mod Granted
use sso_go.Prelude.{
  ℕ, Text, codes, ◌==◌, Bool, true, false, ◌&&◌, not, none, some, List, [], ◌∷◌, ◌++◌, no_rows,
  other_violation, is_none, is_some, if◌then◌else◌, any_where, update_where, delete_where,
}
use sso_go.Db.{
  Status, active, disabled, Decision, Account, Access, AccessRequest, RefreshRow, Kind,
  access_granted, access_revoked, roles_changed, account_activated, account_disabled,
}
use sso_go.Tx.{Tx, ◌>>=◌, ◌>>◌, gets, first_row, modify, require, check}
use sso_go.Action.{Action, run}
use sso_go.Repo.Tables.{
  access_is, find_account, find_access, has_account, has_project, is_disabled, active_verified,
  is_active,
}
use sso_go.Repo.Events.{
  audit, audit_event, account_payload, profile_projects, queue_all, user_payload,
}
use sso_go.Repo.Oauth.{revoke_at}
use sso_go.Repo.Identity.{request_of, is_pending}
use sso_go.Repo.Passwords.{cut_credentials}

abbrev pub with_status : Status → Account → Account
with_status s a = record a { status = s }

-- id=$1 AND email_verified_at IS NOT NULL AND status IN ('pending','disabled')
abbrev pub activable : Text → Account → Bool
activable id a = a.id == id && is_some a.verified && not (is_active a.status)

-- ActivateAccount: `id` is the primary key, so a match is the one affected row
unfoldable pub activate_account : Text → Text → Action (Unit {0})
activate_account actor id = run do
  matched ← gets (λ _ d. any_where (activable id) d.accounts)
  require matched no_rows
  modify
      (λ _ d. record d { accounts = update_where (activable id) (with_status active) d.accounts })
  audit (some actor) none none account_activated id

-- id=$1 AND status<>'disabled' AND is_global_admin=false
abbrev pub disableable : Text → Account → Bool
disableable id a = a.id == id && not (is_disabled a.status) && not a.global_admin

abbrev pub access_of : Text → Access → Bool
access_of id a = a.account_id == id

-- DisableAccount
unfoldable pub disable_account : (ℕ → Text) → Text → Text → Action (Unit {0})
disable_account ids actor id = run do
  matched ← gets (λ _ d. any_where (disableable id) d.accounts)
  require matched no_rows
  modify (λ _ d. record d {
    accounts = update_where (disableable id) (with_status disabled) d.accounts;
  })
  modify (cut_credentials id)
  projects ← gets (λ _ d. profile_projects id [] d)
  queue_all ids projects access_revoked id (user_payload id)
  modify (λ _ d. record d { access = delete_where (access_of id) d.access })
  audit (some actor) none none account_disabled id

abbrev pub with_roles : List Text → Access → Access
with_roles roles a = record a { roles = roles }

-- INSERT INTO project_access ... ON CONFLICT(account_id,project_id) DO UPDATE SET roles=$3
unfoldable pub upsert_access : Text → Text → List Text → Tx (Unit {0})
upsert_access user project roles = do
  known ← gets (λ _ d. any_where (access_is user project) d.access)
  if known
      then modify (λ _ d. record d {
        access = update_where (access_is user project) (with_roles roles) d.access;
      })
      else do
        check (λ d. has_account user d && has_project project d) other_violation
        modify (λ _ d. record d {
          access =
              d.access ++ record { account_id = user; project_id = project; roles = roles } ∷ [];
        })

abbrev pub approve : ℕ → AccessRequest → AccessRequest
approve now q = record q { status = Decision.approved; decided_at = some now }

abbrev pub granted_kind : Bool → Kind
granted_kind true = roles_changed
granted_kind false = access_granted

-- GrantAccess
unfoldable pub grant_access : Text → Text → Text → Text → List Text → Action (Unit {0})
grant_access event_id actor user project roles = run do
  a ← first_row (λ _ d. find_account user d)
  require (active_verified a) no_rows
  known ← gets (λ _ d. is_some (find_access user project d))
  upsert_access user project roles
  modify (λ now d. record d {
    requests =
        update_where (λ q. request_of user project q && is_pending q.status) (approve now)
          d.requests;
  })
  payload ← account_payload user roles
  audit_event event_id actor (codes "sso-admin") project (granted_kind known) user payload

-- account_id=$1 AND project_id=$2 AND revoked_at IS NULL
abbrev pub unrevoked_for : Text → Text → RefreshRow → Bool
unrevoked_for user project r =
    r.account_id == user && r.project_id == project && is_none r.revoked_at

-- RevokeAccess of admin.go and RevokeProjectAccess of management.go, which differ in `client`:
-- (account_id, project_id) is the primary key, so "not 1 row" and "0 rows" are one test
unfoldable pub remove_access : Text → Text → Text → Text → Text → Tx (Unit {0})
remove_access event_id actor client user project = do
  matched ← gets (λ _ d. any_where (access_is user project) d.access)
  require matched no_rows
  modify (λ _ d. record d { access = delete_where (access_is user project) d.access })
  modify (λ now d. record d {
    refresh = update_where (unrevoked_for user project) (revoke_at now) d.refresh;
  })
  audit_event event_id actor client project access_revoked user (user_payload user)

unfoldable pub revoke_access : Text → Text → Text → Text → Action (Unit {0})
revoke_access event_id actor user project =
    run (remove_access event_id actor (codes "sso-admin") user project)
