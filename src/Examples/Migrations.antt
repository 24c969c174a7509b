-- ===== src/Examples/Migrations.antt =====
-- A database from before the migrations, with its tables.
use sso_go.Prelude.{◌≡◌, refl, ◌++◌, Bool, true, none, [], ok, arith}
use sso_go.Migrations.{Script, Schema, version, highest, migrate}
use sso_go.Migrations.Complete.{missing, migrate_complete}

abbrev works : Script → Bool
works _ = true

abbrev unversioned : Schema
unversioned = record { versions = none; executed = []; accounts = true }

migrate_complete_example :
    (s' : Schema) × (migrate works unversioned ≡ ok s')
    × (version s' ≡ 3)
    × (s'.executed ≡ unversioned.executed ++ missing (version unversioned) true)
    × ((works' : Script → Bool) → migrate works' s' ≡ ok s')
unfolding highest
migrate_complete_example = migrate_complete works unversioned (λ _. refl) (omega arith)
