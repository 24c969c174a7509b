-- ===== src/Repo/Replica/Writes.antt =====
-- The sync feed over any sequence of the repository's operations that write access or the feed.
use sso_go.Prelude.{ℕ, Text, Bool, Result, List, ◌≡◌}
use sso_go.Action.{World}
use sso_go.Repo.Admin.{grant_access, revoke_access, disable_account}
use sso_go.Repo.Management.{
  approve_request, set_project_roles, revoke_project_access, update_legacy_profile,
}
use sso_go.Repo.Clients.{grant_project_admin}
use sso_go.Repo.Passwords.{ProfileUpdate, reset_password, change_password, update_profile}
use sso_go.Import.Users.{LegacyUser}
use sso_go.Import.Running.{run_import}
use sso_go.Import.Told.{run_import-Mirrors}
use sso_go.Repo.Replica.{Mirrors}
use sso_go.Repo.Replica.Replaying.{Mirrors-same}
use sso_go.Repo.Replica.Granting.{
  grant_access-Mirrors, approve_request-Mirrors, set_project_roles-Mirrors,
}
use sso_go.Repo.Replica.Operating.{grant_project_admin-Mirrors}
use sso_go.Repo.Replica.Revoking.{revoke_access-Mirrors, revoke_project_access-Mirrors}
use sso_go.Repo.Replica.Disabling.{disable_account-Mirrors}
use sso_go.Repo.Replica.Accounts.{
  reset_password-Mirrors, change_password-Mirrors, update_profile-Mirrors,
  update_legacy_profile-Mirrors,
}

-- One operation, whether it succeeds or fails, or anything that leaves the access and the feed.
pub data Write : World → World → Type 0 where
  grants :
      (event_id actor user project : Text) (roles : List Text) (w : World)
      → Write w (grant_access event_id actor user project roles w).1
  approves :
      (event_id actor client project request : Text) (roles : List Text) (w : World)
      → Write w (approve_request event_id actor client project request roles w).1
  sets_roles :
      (event_id actor client project id : Text) (roles : List Text) (w : World)
      → Write w (set_project_roles event_id actor client project id roles w).1
  makes_admin :
      (event_id project email : Text) (w : World)
      → Write w (grant_project_admin event_id project email w).1
  revokes :
      (event_id actor user project : Text) (w : World)
      → Write w (revoke_access event_id actor user project w).1
  revokes_from_service :
      (event_id actor client project id : Text) (w : World)
      → Write w (revoke_project_access event_id actor client project id w).1
  disables :
      (ids : ℕ → Text) (actor id : Text) (w : World) → Write w (disable_account ids actor id w).1
  resets :
      (ids : ℕ → Text) (token_hash password_hash : Text) (w : World)
      → Write w (reset_password ids token_hash password_hash w).1
  changes :
      (ids : ℕ → Text) (id password_hash : Text) (verify : Text → Result Bool) (w : World)
      → Write w (change_password ids id password_hash verify w).1
  updates :
      (ids : ℕ → Text) (id : Text) (p : ProfileUpdate) (w : World)
      → Write w (update_profile ids id p w).1
  updates_legacy :
      (ids : ℕ → Text) (actor client project id name avatar : Text) (w : World)
      → Write w (update_legacy_profile ids actor client project id name avatar w).1
  imports :
      (ids event_ids : ℕ → Text) (apply : Bool) (read : Result (List LegacyUser)) (w : World)
      → Write w (run_import ids event_ids apply read w).1
  other : (w w' : World) → w'.db.sync ≡ w.db.sync → w'.db.access ≡ w.db.access → Write w w'

-- any number of operations
pub data Writes : World → World → Type 0 where
  start : (w : World) → Writes w w
  after : (w v u : World) → Writes w v → Write v u → Writes w u

Write-Mirrors : (w u : World) → Write w u → Mirrors w.db → Mirrors u.db
Write-Mirrors w _ (grants event_id actor user project roles _) =
    grant_access-Mirrors event_id actor user project roles w
Write-Mirrors w _ (approves event_id actor client project request roles _) =
    approve_request-Mirrors event_id actor client project request roles w
Write-Mirrors w _ (sets_roles event_id actor client project id roles _) =
    set_project_roles-Mirrors event_id actor client project id roles w
Write-Mirrors w _ (makes_admin event_id project email _) =
    grant_project_admin-Mirrors event_id project email w
Write-Mirrors w _ (revokes event_id actor user project _) =
    revoke_access-Mirrors event_id actor user project w
Write-Mirrors w _ (revokes_from_service event_id actor client project id _) =
    revoke_project_access-Mirrors event_id actor client project id w
Write-Mirrors w _ (disables ids actor id _) = disable_account-Mirrors ids actor id w
Write-Mirrors w _ (resets ids token_hash password_hash _) =
    reset_password-Mirrors ids token_hash password_hash w
Write-Mirrors w _ (changes ids id password_hash verify _) =
    change_password-Mirrors ids id password_hash verify w
Write-Mirrors w _ (updates ids id p _) = update_profile-Mirrors ids id p w
Write-Mirrors w _ (updates_legacy ids actor client project id name avatar _) =
    update_legacy_profile-Mirrors ids actor client project id name avatar w
Write-Mirrors w _ (imports ids event_ids apply read _) =
    run_import-Mirrors ids event_ids apply read w
Write-Mirrors w _ (other _ u feed table) = λ mirrors. Mirrors-same w.db u.db feed table mirrors

-- When the events of the feed, replayed from its start, give for every account and every project
-- with a name the roles in project_access or their absence, they still do after any sequence of
-- GrantAccess, ApproveRequest, SetProjectRoles, GrantProjectAdmin, RevokeAccess,
-- RevokeProjectAccess, DisableAccount, ResetPassword, ChangePassword, UpdateProfile,
-- UpdateLegacyProfile, the import of the old users and steps that write neither table, whichever of
-- them fail.
pub Writes-Mirrors : (w u : World) → Writes w u → Mirrors w.db → Mirrors u.db
Writes-Mirrors w _ (start _) mirrors = mirrors
Writes-Mirrors w u (after _ v _ before last) mirrors =
    Write-Mirrors v u last (Writes-Mirrors w v before mirrors)
