-- ===== src/Import/Writing.antt =====
-- The transaction of the import.
use sso_go.Prelude.{
  ℕ, ◌+◌, suc, Text, codes, ◌==◌, lower, ℤ, int_eqb, Bool, false, ◌&&◌, ◌||◌, not, Option, none,
  some, List, [], ◌∷◌, ◌++◌, unique_violation, other_violation, if◌then◌else◌, any_where,
}
use sso_go.Db.{Account, Status, active, pending, disabled, access_granted}
use sso_go.Tx.{Tx, ◌>>=◌, ◌>>◌, pure, gets, modify, check}
use sso_go.Strconv.{print_int}
use sso_go.Repo.Tables.{has_account, has_project, access_is, is_active}
use sso_go.Repo.Events.{account_payload, audit_event}
use sso_go.Import.Users.{LegacyUser}

-- projectID
abbrev pub main_api : Text
main_api = codes "main_api"

abbrev pub has_old_id : ℤ → Account → Bool
has_old_id n a = elim a.old_id [ none ↦ false | some m ↦ int_eqb m n ]

abbrev pub status_of : Text → Status
status_of s =
    if s == codes "approved" then active else if s == codes "pending" then pending else disabled

abbrev verified_of : Status → ℕ → Option ℕ
verified_of active now = some now
verified_of _ now = none

-- coalesce($8,now())
abbrev or_now : Option ℕ → ℕ → ℕ
or_now none now = now
or_now (some t) now = t

abbrev pub imported_row : Text → LegacyUser → ℕ → Account
imported_row id u now = record {
  id = id;
  email = u.email;
  login = u.email;
  password_hash = u.hash;
  name = u.name;
  given_name = [];
  family_name = [];
  avatar_url = [];
  status = status_of u.status;
  verified = verified_of (status_of u.status) now;
  global_admin = false;
  old_id = some u.old_id;
  created_at = or_now u.created_at now;
}

abbrev pub roles_for : LegacyUser → List Text
roles_for u =
    u.role ∷ elim u.role_id [ none ↦ [] | some n ↦ (codes "legacy-role-" ++ print_int n) ∷ [] ]

-- the primary key and the unique columns of accounts
abbrev pub taken_by : Text → LegacyUser → Account → Bool
taken_by id u a =
    a.id == id || a.email == u.email || lower a.login == lower u.email || has_old_id u.old_id a

-- INSERT INTO accounts
unfoldable pub insert_user : Text → LegacyUser → Tx (Unit {0})
insert_user id u = do
  check (λ d. not (any_where (taken_by id u) d.accounts)) unique_violation
  modify (λ now d. record d { accounts = d.accounts ++ imported_row id u now ∷ [] })

-- INSERT INTO project_access
unfoldable pub insert_access : Text → List Text → Tx (Unit {0})
insert_access id roles = do
  check (λ d. not (any_where (access_is id main_api) d.access)) unique_violation
  check (λ d. has_account id d && has_project main_api d) other_violation
  modify (λ _ d. record d {
    access = d.access ++ record { account_id = id; project_id = main_api; roles = roles } ∷ [];
  })

-- what an active account gets: access, and an event for it
unfoldable pub give_access : Text → Text → List Text → Tx (Unit {0})
give_access id event_id roles = do
  insert_access id roles
  payload ← account_payload id roles
  audit_event event_id [] (codes "legacy-import") main_api access_granted id payload

-- one turn of the loop for a user that is not there yet
unfoldable pub add_user : Text → Text → LegacyUser → Tx ℕ
add_user id event_id u = do
  insert_user id u
  if is_active (status_of u.status) then give_access id event_id (roles_for u) else pure tt
  pure 1

-- one turn of the loop: how many it imports
unfoldable pub import_user : Text → Text → LegacyUser → Tx ℕ
import_user id event_id u = do
  known ← gets (λ _ d. any_where (has_old_id u.old_id) d.accounts)
  if known then pure 0 else add_user id event_id u

-- the loop, with the number that it has imported
unfoldable pub import_users : (ids event_ids : ℕ → Text) → List LegacyUser → ℕ → Tx ℕ
import_users ids event_ids [] n = pure n
import_users ids event_ids (u ∷ users) n = do
  k ← import_user (ids 0) (event_ids 0) u
  import_users (λ m. ids (suc m)) (λ m. event_ids (suc m)) users (n + k)
