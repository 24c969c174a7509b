-- ===== src/Service/Management.antt =====
-- internal/service/management.go: what a service may do for its project, and who may ask for it.
pub mod Authentication
use sso_go.Prelude.{
  ℕ, Text, codes, ◌==◌, mem, Bool, true, false, ◌&&◌, ◌||◌, not, Option, none, some, is_some, List,
  [], ◌∷◌, ◌++◌, length, eqb, leb, Error, no_rows, invalid_input, unauthenticated, forbidden,
  Result, ok, err, if◌then◌else◌,
}
use sso_go.Db.{Payload}
use sso_go.Action.{World, Action, ◌>>=◌, ◌>>◌, pure, fail, lift, require, or_not_found, mapping}
use sso_go.Repo.Tables.{get_client, get_account, get_access, active_verified}
use sso_go.Repo.Management.{
  PendingRequest, update_legacy_profile, pending_requests, approve_request, set_project_roles,
  revoke_project_access,
}
use sso_go.Service.Words.{trim}
use sso_go.Service.Errors.{stored}
use sso_go.Service.Roles.{validate_role_slice}
use sso_go.Token.{Claims, Jose, get, is_text, text, Claim, verify}

pub record Actor : Type 0 where
  pub user : Text
  pub client : Text
  pub project : Text
  pub roles : List Text

pub record User : Type 0 where
  pub user_id : Text
  pub email : Text
  pub name : Text
  pub avatar_url : Text
  pub roles : List Text

-- hasRole
abbrev pub has_role : List Text → Text → Bool
has_role roles role = mem role roles

abbrev pub subject : Option Claim → Text
subject (some (text t)) = t
subject other = []

-- `if id == "" { id = actor.User }`
abbrev pub or_self : Text → Text → Text
or_self [] self = self
or_self (c ∷ id) self = c ∷ id

-- `validateRoleSlice(roles) == nil`
abbrev pub good_roles : Result (Unit {0}) → Bool
good_roles (ok _) = true
good_roles (err _) = false

-- the roles of GetUser's answer: none without access
abbrev roles_or_none : Result (List Text) → Result (List Text)
roles_or_none (err no_rows) = ok []
roles_or_none r = r

-- `if len(roles) == 0 { roles = []string{"member"} }`
abbrev pub or_member : List Text → List Text
or_member [] = codes "member" ∷ []
or_member (r ∷ rs) = r ∷ rs

module _ (hash : Text → Text) (jose : Jose) (issuer : Text) where
  -- Management.Authenticate
  unfoldable pub authenticate : Text → Text → Text → Text → Bool → Action Actor
  authenticate project client_id secret bearer admin = do
    c ← mapping (or_not_found unauthenticated) (get_client client_id)
    require (c.project == project && c.secret_hash == hash secret) unauthenticated
    claims ←
        mapping (λ _. unauthenticated)
          (verify jose issuer bearer (issuer ++ codes "/grpc") (codes "at+jwt"))
    require
        (is_text client_id (get (codes "client_id") claims)
          && is_text project (get (codes "project_id") claims))
        unauthenticated
    let user = subject (get (codes "sub") claims)
    require (not (user == [])) unauthenticated
    a ← mapping (or_not_found forbidden) (get_account user)
    require (active_verified a) forbidden
    roles ← mapping (or_not_found forbidden) (get_access user project)
    require (not admin || has_role roles (codes "admin")) forbidden
    pure (record { user = user; client = c.id; project = project; roles = roles })

-- Management.GetUser
unfoldable pub get_user : Actor → Text → Action User
get_user actor id = do
  let user = or_self id actor.user
  require (user == actor.user || has_role actor.roles (codes "admin")) forbidden
  a ← stored (get_account user)
  roles ← λ w. let (r, w') = get_access user actor.project w in (roles_or_none r, w')
  pure (record {
    user_id = a.id;
    email = a.email;
    name = a.name;
    avatar_url = a.avatar_url;
    roles = roles;
  })

-- Management.UpdateProfile
unfoldable pub update_profile : (ℕ → Text) → Actor → Text → Text → Text → Action Payload
update_profile ids actor id new_name new_avatar = do
  let user = or_self id actor.user
  require (user == actor.user) forbidden
  let name = trim new_name
  let avatar = trim new_avatar
  require (not (name == []) && leb (length name) 200 && leb (length avatar) 2048) invalid_input
  stored (update_legacy_profile ids actor.user actor.client actor.project user name avatar)

-- Management.ListRequests
unfoldable pub list_requests : Actor → Action (List PendingRequest)
list_requests actor = pending_requests actor.project

-- Management.Approve
unfoldable pub approve : Text → Actor → Text → List Text → Action Payload
approve event_id actor request roles = do
  require (good_roles (validate_role_slice (or_member roles))) invalid_input
  stored (approve_request event_id actor.user actor.client actor.project request (or_member roles))

-- Management.SetRoles
unfoldable pub set_roles : Text → Actor → Text → List Text → Action Payload
set_roles event_id actor id roles = do
  require (not (id == []) && good_roles (validate_role_slice roles)) invalid_input
  stored (set_project_roles event_id actor.user actor.client actor.project id roles)

-- Management.Revoke
unfoldable pub revoke : Text → Actor → Text → Action (Unit {0})
revoke event_id actor id = do
  require (not (id == [])) invalid_input
  stored (revoke_project_access event_id actor.user actor.client actor.project id)
