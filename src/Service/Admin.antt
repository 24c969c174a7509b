-- ===== src/Service/Admin.antt =====
-- internal/service/admin.go: the administrators' operations.
pub mod Deciding
use sso_go.Prelude.{
  ℕ, Text, ◌==◌, Bool, true, false, ◌&&◌, ◌||◌, not, List, [], Error, own_account, missing_argument,
  Result, ok, err, if◌then◌else◌,
}
use sso_go.Db.{Account}
use sso_go.Action.{World, Action, ◌>>=◌, ◌>>◌, pure, lift, require}
use sso_go.Repo.Tables.{get_account, active_verified}
use sso_go.Repo.Admin.{activate_account, disable_account, grant_access, revoke_access}
use sso_go.Service.Errors.{stored}
use sso_go.Service.Roles.{parse_roles}

abbrev pub is_admin : Result Account → Bool
is_admin (ok a) = active_verified a && a.global_admin
is_admin (err e) = false

-- Admin.Authorized
unfoldable pub authorized : Text → Action Bool
authorized actor w = let (r, w') = get_account actor w in (ok (is_admin r), w')

-- Admin.Activate
unfoldable pub activate : Text → Text → Action (Unit {0})
activate actor id = stored (activate_account actor id)

-- Admin.Disable
unfoldable pub disable : (ℕ → Text) → Text → Text → Action (Unit {0})
disable ids actor id = do
  require (not (actor == id)) own_account
  stored (disable_account ids actor id)

-- Admin.Grant
unfoldable pub grant : Text → Text → Text → Text → Text → Action (Unit {0})
grant event_id actor user project raw_roles = do
  require (not (user == []) && not (project == [])) missing_argument
  roles ← lift (parse_roles raw_roles)
  stored (grant_access event_id actor user project roles)

-- Admin.Revoke
unfoldable pub revoke : Text → Text → Text → Text → Action (Unit {0})
revoke event_id actor user project = do
  require (not (user == []) && not (project == [])) missing_argument
  stored (revoke_access event_id actor user project)
