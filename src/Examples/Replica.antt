-- ===== src/Examples/Replica.antt =====
-- A run of operations on access that starts with an empty feed.
use sso_go.Prelude.{
  ℕ, Text, codes, ◌==◌, some, [], ◌∷◌, ◌≡◌, refl, find_where, any_where, update_where,
}
use sso_go.Action.{World, run}
use sso_go.Repo.Tables.{roles_of}
use sso_go.Repo.Admin.{grant_access, disable_account, upsert_access}
use sso_go.Repo.Events.{account_payload, audit_event}
use sso_go.Repo.Management.{set_project_roles}
use sso_go.Repo.Replica.{replay, Mirrors}
use sso_go.Repo.Replica.Writes.{Writes, Writes-Mirrors, grants, sets_roles, disables, start, after}
use sso_go.Examples.State.{small_db}

abbrev ids : ℕ → Text
ids n = n ∷ []

-- nobody has access yet
abbrev empty : World
empty = record { db = record small_db { access = [] }; faults = []; now = 10 }

abbrev granted : World
granted =
    (grant_access (codes "e") (codes "root") (codes "ann") (codes "shop") (codes "user" ∷ [])
      empty).1

abbrev raised : World
raised =
    (set_project_roles (codes "f") (codes "root") (codes "web") (codes "shop") (codes "ann")
      (codes "admin" ∷ []) granted).1

abbrev disabled : World
disabled = (disable_account ids (codes "root") (codes "ann") raised).1

abbrev run_of_three : Writes empty disabled
run_of_three =
    after _ raised _
      (after _ granted _
        (after _ empty _ (start empty) (
          grants (codes "e") (codes "root") (codes "ann") (codes "shop") (codes "user" ∷ []) empty))
        (sets_roles (codes "f") (codes "root") (codes "web") (codes "shop") (codes "ann")
          (codes "admin" ∷ []) granted))
      (disables ids (codes "root") (codes "ann") raised)

empty-Mirrors : Mirrors empty.db
unfolding replay find_where
empty-Mirrors u p named = refl

-- the roles in the table on the way, and that they are gone at the end
raised-roles : roles_of (codes "ann") (codes "shop") raised.db ≡ some (codes "admin" ∷ [])
unfolding grant_access set_project_roles find_where run ◌==◌ upsert_access any_where account_payload
    audit_event update_where
raised-roles = refl

Writes-Mirrors_example : Mirrors disabled.db
Writes-Mirrors_example = Writes-Mirrors empty disabled run_of_three empty-Mirrors
