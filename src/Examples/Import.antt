-- ===== src/Examples/Import.antt =====
-- The import of one old user into the small database.
use sso_go.Prelude.{
  ℕ, pos, none, Text, codes, ◌==◌, true, some, [], ◌∷◌, ok, ◌≡◌, refl, All, any_where, find_where,
  lower,
}
use sso_go.Action.{World, run}
use sso_go.Strconv.{print}
use sso_go.Repo.Events.{account_payload, audit_event}
use sso_go.Import.Users.{LegacyUser}
use sso_go.Import.Writing.{
  main_api, insert_user, insert_access, give_access, add_user, import_user, import_users,
}
use sso_go.Import.Running.{Counts, preview, write_users, run_import}
use sso_go.Import.Again.{Known}
use sso_go.Import.Repeat.{run_import-again}
use sso_go.Examples.State.{small_db}

abbrev ids : ℕ → Text
ids n = codes "id"

abbrev event_ids : ℕ → Text
event_ids n = codes "ev"

abbrev eve : LegacyUser
eve = record {
  old_id = pos 7;
  email = codes "eve@x";
  hash = codes "$2a$";
  name = codes "Eve";
  status = codes "approved";
  role = codes "client";
  role_id = some (pos 3);
  created_at = none;
}

abbrev before : World
before = record {
  db = record small_db { projects = record { id = main_api; name = codes "Main" } ∷ [] };
  faults = [];
  now = 10;
}

abbrev after : World
after = (run_import ids event_ids true (ok (eve ∷ [])) before).1

abbrev counts : Counts
counts = record { new = 1; existing = 0; conflicts = 0; approved = 1; inactive = 0 }

imported_lem : (run_import ids event_ids true (ok (eve ∷ [])) before).0 ≡ ok (counts, some 1)
unfolding run_import write_users preview import_users import_user add_user give_access insert_user
    insert_access account_payload audit_event run find_where any_where ◌==◌ print lower
imported_lem = refl

run_import-again_example :
    All (Known after.db) (eve ∷ [])
    × ((run_import ids event_ids true (ok (eve ∷ [])) after).1.db ≡ after.db)
run_import-again_example =
    run_import-again ids event_ids ids event_ids (eve ∷ []) before after counts 1 true imported_lem
      refl
