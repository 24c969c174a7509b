-- ===== src/Import/Running.antt =====
-- run of the import: it counts, and with -apply it writes.
use sso_go.Prelude.{
  ℕ, suc, Text, codes, ◌==◌, lower, eqb, ◌||◌, Option, none, some, List, [], ◌∷◌, import_conflict,
  missing_project, Result, Bool, if◌then◌else◌, find_where,
}
use sso_go.Db.{Account}
use sso_go.Tx.{gets}
use sso_go.Action.{Action, ◌>>=◌, ◌>>◌, pure, lift, require, mapping, run}
use sso_go.Repo.Tables.{has_project}
use sso_go.Import.Users.{LegacyUser}
use sso_go.Import.Writing.{main_api, has_old_id, import_users}

-- what the import prints
pub record Counts : Type 0 where
  pub new : ℕ
  pub existing : ℕ
  pub conflicts : ℕ
  pub approved : ℕ
  pub inactive : ℕ

-- lower(email)=$1 OR old_id=$2
abbrev pub same_user : LegacyUser → Account → Bool
same_user u a = lower a.email == u.email || has_old_id u.old_id a

abbrev pub count_status : LegacyUser → Counts → Counts
count_status u c =
    if u.status == codes "approved"
    then record c { approved = suc c.approved }
    else record c { inactive = suc c.inactive }

abbrev pub count_account : LegacyUser → Option Account → Counts → Counts
count_account u none c = record c { new = suc c.new }
count_account u (some a) c =
    if has_old_id u.old_id a
    then record c { existing = suc c.existing }
    else record c { conflicts = suc c.conflicts }

-- the loop that counts
unfoldable pub preview : List LegacyUser → Counts → Action Counts
preview [] c = pure c
preview (u ∷ users) c = do
  found ← run (gets (λ _ d. find_where (same_user u) d.accounts))
  preview users (count_account u found (count_status u c))

abbrev pub no_counts : Counts
no_counts = record { new = 0; existing = 0; conflicts = 0; approved = 0; inactive = 0 }

-- from the counts on: the writes of -apply, and how many users they import
unfoldable pub write_users : (ids event_ids : ℕ → Text) → List LegacyUser → Counts → Action ℕ
write_users ids event_ids users c = do
  require (eqb c.conflicts 0) import_conflict
  found ← mapping (λ _. missing_project) (run (gets (λ _ d. has_project main_api d)))
  require found missing_project
  run (import_users ids event_ids users 0)

abbrev some_result : ℕ → Action (Option ℕ)
some_result n = pure (some n)

-- run, for what readUsers returned
unfoldable pub run_import :
    (ids event_ids : ℕ → Text) → Bool → Result (List LegacyUser) → Action (Counts × Option ℕ)
run_import ids event_ids apply read = do
  users ← lift read
  c ← preview users no_counts
  imported ← if apply then write_users ids event_ids users c >>= some_result else pure none
  pure (c, imported)
