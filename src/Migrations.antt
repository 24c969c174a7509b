-- ===== src/Migrations.antt =====
-- Migrate of internal/repository/postgres/postgres.go.
--
-- The three scripts of migrations/postgres come as what they are named, in the order in which they
-- were executed, and as `works`, whether PostgreSQL executes one. Migrate is one transaction, so an
-- error leaves the schema as it was. Its advisory lock keeps others out.
pub mod Complete
use sso_go.Prelude.{
  ℕ, eqb, ltb, leb, Bool, true, false, ◌||◌, not, Option, none, some, List, [], ◌∷◌, ◌++◌,
  newer_schema, bad_script, unique_violation, Error, Result, ok, err, if◌then◌else◌,
}

pub data Script : Type 0 where
  initial identity legacy_ids : Script

pub record Schema : Type 0 where
  -- the rows of schema_migrations, if there is such a table
  pub versions : Option (List ℕ)
  -- the scripts that were executed
  pub executed : List Script
  -- to_regclass('public.accounts') IS NOT NULL
  pub accounts : Bool

abbrev bigger : ℕ → ℕ → ℕ
bigger a b = if ltb a b then b else a

-- coalesce(max(version),0)
unfoldable pub highest : List ℕ → ℕ
highest [] = 0
highest (v ∷ vs) = bigger v (highest vs)

abbrev pub rows_of : Option (List ℕ) → List ℕ
rows_of none = []
rows_of (some vs) = vs

abbrev pub version : Schema → ℕ
version s = highest (rows_of s.versions)

-- CREATE TABLE IF NOT EXISTS schema_migrations
abbrev pub with_table : Schema → Schema
with_table s = record s { versions = some (rows_of s.versions) }

unfoldable pub member : ℕ → List ℕ → Bool
member n [] = false
member n (v ∷ vs) = eqb v n || member n vs

-- INSERT INTO schema_migrations
abbrev pub add_version : ℕ → Schema → Result Schema
add_version n s =
    if member n (rows_of s.versions)
    then err unique_violation
    else ok (record s { versions = some (rows_of s.versions ++ n ∷ []) })

abbrev pub creates_accounts : Script → Bool → Bool
creates_accounts initial before = true
creates_accounts _ before = before

-- a statement after one that succeeded
abbrev in_turn : Result Schema → (Schema → Result Schema) → Result Schema
in_turn (ok s) f = f s
in_turn (err e) f = err e

module _ (works : Script → Bool) where
  -- tx.Exec of a script
  abbrev pub execute : Script → Schema → Result Schema
  execute x s =
      if works x
      then ok
          (record s { executed = s.executed ++ x ∷ []; accounts = creates_accounts x s.accounts })
      else err bad_script

  -- the branch for version 0: a database without migrations may have the tables already
  abbrev pub to_first : Schema → Result Schema
  to_first s = in_turn (if s.accounts then ok s else execute initial s) (add_version 1)

  abbrev pub to_second : Schema → Result Schema
  to_second s = in_turn (execute identity s) (add_version 2)

  abbrev pub to_third : Schema → Result Schema
  to_third s = in_turn (execute legacy_ids s) (add_version 3)

  -- the three branches, for the version that was read and then counted up
  unfoldable pub run_branches : ℕ → Schema → Result Schema
  run_branches v s =
      let v1 = if eqb v 0 then 1 else v in
      let v2 = if eqb v1 1 then 2 else v1 in
      in_turn (if eqb v 0 then to_first s else ok s) λ s1.
        in_turn (if eqb v1 1 then to_second s1 else ok s1)
          λ s2. if eqb v2 2 then to_third s2 else ok s2

  -- Migrate
  unfoldable pub migrate : Schema → Result Schema
  unfolding run_branches
  migrate s =
      if ltb 3 (version s) then err newer_schema else run_branches (version s) (with_table s)
