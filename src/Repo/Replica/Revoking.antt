-- ===== src/Repo/Replica/Revoking.antt =====
-- Operations that take access away keep the feed true.
use sso_go.Prelude.{Text, codes, none, delete_where, update_where, refl, arith}
use sso_go.Db.{Db, access_revoked}
use sso_go.Action.{run}
use sso_go.Action.Run.{run-keeps}
use sso_go.Action.Keeps.{Keeps}
use sso_go.Repo.Tables.{access_is}
use sso_go.Repo.Events.{user_payload}
use sso_go.Repo.Oauth.{revoke_at}
use sso_go.Repo.Admin.{remove_access, revoke_access, unrevoked_for}
use sso_go.Repo.Management.{revoke_project_access}
use sso_go.Repo.Replica.{Mirrors}
use sso_go.Repo.Replica.Replaying.{audit_event-Mirrors}
use sso_go.Repo.Replica.Access.{roles_at-delete}

remove_access-Mirrors :
    (event_id actor client user project : Text)
    → Keeps Mirrors (run (remove_access event_id actor client user project))
remove_access-Mirrors event_id actor client user project w mirrors =
    run-keeps Mirrors (remove_access event_id actor client user project) w
      (λ t d' h.
        let d1 : Db = record w.db {
          access = delete_where (access_is user project) w.db.access;
          refresh = update_where (unrevoked_for user project) (revoke_at w.now) w.db.refresh;
        } in
        audit_event-Mirrors event_id actor client project access_revoked user (user_payload user)
          w.now none w.db d1 d' mirrors (λ u p. roles_at-delete user project u p w.db.access) refl
          refl (λ old. refl) (unfold remove_access in ground arith))
      mirrors

pub revoke_access-Mirrors :
    (event_id actor user project : Text) → Keeps Mirrors (revoke_access event_id actor user project)
unfolding revoke_access
revoke_access-Mirrors event_id actor user project =
    remove_access-Mirrors event_id actor (codes "sso-admin") user project

pub revoke_project_access-Mirrors :
    (event_id actor client project id : Text)
    → Keeps Mirrors (revoke_project_access event_id actor client project id)
unfolding revoke_project_access
revoke_project_access-Mirrors event_id actor client project id =
    remove_access-Mirrors event_id actor client id project
