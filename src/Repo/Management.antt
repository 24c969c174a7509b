-- ===== src/Repo/Management.antt =====
-- internal/repository/postgres/management.go: the transactions behind the gRPC management API.
use sso_go.Prelude.{
  ℕ, suc, Text, codes, ◌==◌, Bool, ◌&&◌, none, some, List, [], ◌∷◌, no_rows, find_where, any_where,
  select_where, update_where, order_by, ltb,
}
use sso_go.Db.{
  Db, Account, AccessRequest, Payload, text, access_granted, roles_changed, profile_updated,
}
use sso_go.Tx.{◌>>=◌, ◌>>◌, pure, gets, first_row, modify, require}
use sso_go.Action.{Action, run}
use sso_go.Repo.Tables.{account_is, access_is, find_account}
use sso_go.Repo.Events.{audit_event, account_payload, profile_projects, queue_all}
use sso_go.Repo.Identity.{is_pending}
use sso_go.Repo.Admin.{approve, upsert_access, with_roles, remove_access}

abbrev pub with_name : Text → Text → Account → Account
with_name name avatar a = record a {
  name = name;
  given_name = name;
  family_name = [];
  avatar_url = avatar;
}

abbrev pub legacy_payload : Account → Text → Text → Text → Payload
legacy_payload a id name avatar =
    (codes "user_id", text id)
    ∷ (codes "email", text a.email)
    ∷ (codes "login", text a.login)
    ∷ (codes "name", text name)
    ∷ (codes "given_name", text name)
    ∷ (codes "family_name", text [])
    ∷ (codes "avatar_url", text avatar)
    ∷ []

-- UpdateLegacyProfile
unfoldable pub update_legacy_profile :
    (ℕ → Text) → Text → Text → Text → Text → Text → Text → Action Payload
update_legacy_profile ids actor client project id name avatar = run do
  a ← first_row (λ _ d. find_account id d)
  modify (λ _ d. record d {
    accounts = update_where (account_is id) (with_name name avatar) d.accounts;
  })
  let payload = legacy_payload a id name avatar
  audit_event (ids 0) actor client project profile_updated id payload
  projects ← gets (λ _ d. profile_projects id project d)
  queue_all (λ n. ids (suc n)) projects profile_updated id payload
  pure payload

pub record PendingRequest : Type 0 where
  pub id : Text
  pub user_id : Text
  pub email : Text
  pub name : Text

abbrev joined : AccessRequest → Account → PendingRequest
joined q a = record { id = q.id; user_id = q.account_id; email = a.email; name = a.name }

-- the join with accounts
join_accounts : List AccessRequest → Db → List PendingRequest
join_accounts [] d = []
join_accounts (q ∷ qs) d =
    let rest = join_accounts qs d in
    elim (find_account q.account_id d) [ none ↦ rest | some a ↦ joined q a ∷ rest ]

-- PendingRequests
unfoldable pub pending_requests : Text → Action (List PendingRequest)
unfolding join_accounts
pending_requests project = run (
    gets (λ _ d.
      join_accounts
        (order_by (λ (p q : AccessRequest). ltb p.created_at q.created_at)
          (select_where (λ (q : AccessRequest). q.project_id == project && is_pending q.status)
            d.requests))
        d))

-- id=$1 AND project_id=$2 AND status='pending'
abbrev pub decidable : Text → Text → AccessRequest → Bool
decidable request project q = q.id == request && q.project_id == project && is_pending q.status

-- ApproveRequest
unfoldable pub approve_request : Text → Text → Text → Text → Text → List Text → Action Payload
approve_request event_id actor client project request roles = run do
  q ← first_row (λ _ d. find_where (decidable request project) d.requests)
  modify (λ now d. record d {
    requests = update_where (decidable request project) (approve now) d.requests;
  })
  upsert_access q.account_id project roles
  payload ← account_payload q.account_id roles
  audit_event event_id actor client project access_granted q.account_id payload
  pure payload

-- SetProjectRoles
unfoldable pub set_project_roles : Text → Text → Text → Text → Text → List Text → Action Payload
set_project_roles event_id actor client project id roles = run do
  matched ← gets (λ _ d. any_where (access_is id project) d.access)
  require matched no_rows
  modify
      (λ _ d. record d { access = update_where (access_is id project) (with_roles roles) d.access })
  payload ← account_payload id roles
  audit_event event_id actor client project roles_changed id payload
  pure payload

-- RevokeProjectAccess
unfoldable pub revoke_project_access : Text → Text → Text → Text → Text → Action (Unit {0})
revoke_project_access event_id actor client project id =
    run (remove_access event_id actor client id project)
