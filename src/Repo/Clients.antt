-- ===== src/Repo/Clients.antt =====
-- internal/repository/postgres/clients.go: projects and OIDC clients, and the first administrators.
pub mod Bootstrap
use sso_go.Service.Words.{trim}
use sso_go.Prelude.{
  lower, Text, codes, ◌==◌, mem, Bool, true, ◌&&◌, not, none, some, List, [], ◌∷◌, ◌++◌,
  unique_violation, other_violation, if◌then◌else◌, find_where, update_where,
}
use sso_go.Db.{Db, Account, Access, access_granted, global_admin_granted}
use sso_go.Tx.{Tx, ◌>>=◌, ◌>>◌, pure, gets, first_row, modify, check}
use sso_go.Action.{Action, run}
use sso_go.Repo.Tables.{
  access_is, find_access, has_client, has_account, has_project, active_verified,
}
use sso_go.Repo.Events.{audit, audit_event, account_payload}

-- INSERT INTO projects ... ON CONFLICT DO NOTHING
unfoldable pub ensure_project : Text → Tx (Unit {0})
ensure_project project = modify (λ _ d.
    if has_project project d
    then d
    else record d { projects = d.projects ++ record { id = project; name = project } ∷ [] })

abbrev add_client : Text → Text → Text → List Text → Db → Db
add_client id project hash redirects d = record d {
  clients =
      d.clients
      ++ record { id = id; project = project; secret_hash = hash; redirects = redirects } ∷ [];
}

-- INSERT INTO oidc_clients ... ON CONFLICT DO NOTHING
unfoldable pub ensure_client : Text → Text → Text → Text → Tx (Unit {0})
ensure_client id project hash redirect = do
  known ← gets (λ _ d. has_client id d)
  if known then pure tt else do
    check (has_project project) other_violation
    modify (λ _ d. add_client id project hash (redirect ∷ []) d)

-- RegisterClient
unfoldable pub register_client : Text → Text → Text → List Text → Action (Unit {0})
register_client id project hash redirects = run do
  ensure_project project
  check (λ d. not (has_client id d)) unique_violation
  check (has_project project) other_violation
  modify (λ _ d. add_client id project hash redirects d)

-- CASE WHEN 'admin'=ANY(roles) THEN roles ELSE array_append(roles,'admin') END
abbrev pub add_admin : List Text → List Text
add_admin roles = if mem (codes "admin") roles then roles else roles ++ codes "admin" ∷ []

abbrev pub with_admin : Access → Access
with_admin a = record a { roles = add_admin a.roles }

abbrev pub admin_access : Text → Text → Access
admin_access user project = record {
  account_id = user;
  project_id = project;
  roles = codes "admin" ∷ [];
}

-- the upsert of GrantProjectAdmin, RETURNING roles
unfoldable pub upsert_admin : Text → Text → Tx (List Text)
upsert_admin user project = do
  old ← gets (λ _ d. find_access user project d)
  elim old [
    | none ↦ (do
      check (λ d. has_account user d && has_project project d) other_violation
      modify (λ _ d. record d { access = d.access ++ admin_access user project ∷ [] })
      pure (codes "admin" ∷ []))
    | some a ↦ (do
      modify
          (λ _ d. record d { access = update_where (access_is user project) with_admin d.access })
      pure (add_admin a.roles))
  ]

-- email=$1 AND email_verified_at IS NOT NULL AND status='active'
abbrev pub active_email : Text → Account → Bool
active_email email a = a.email == email && active_verified a

-- GrantProjectAdmin
unfoldable pub grant_project_admin : Text → Text → Text → Action (Unit {0})
grant_project_admin event_id project email = run do
  a ← first_row (λ _ d. find_where (active_email (lower (trim email))) d.accounts)
  roles ← upsert_admin a.id project
  payload ← account_payload a.id roles
  audit_event event_id (codes "operator") (codes "sso-cli") project access_granted a.id payload

abbrev pub with_global_admin : Account → Account
with_global_admin a = record a { global_admin = true }

-- GrantGlobalAdmin
unfoldable pub grant_global_admin : Text → Action (Unit {0})
grant_global_admin email = run do
  a ← first_row (λ _ d. find_where (active_email email) d.accounts)
  modify (λ _ d. record d {
    accounts = update_where (active_email email) with_global_admin d.accounts;
  })
  audit none (some (codes "sso-cli")) none global_admin_granted a.id
