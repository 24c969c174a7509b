-- ===== src/Repo/Tables.antt =====
-- Tests on the tables that several files share: keys, foreign keys, and the queries of postgres.go.
pub mod Reads
use mathlib.Core.Option
use sso_go.Prelude.{
  Text, ◌==◌, Bool, true, false, ◌&&◌, is_some, Option, List, find_where, any_where,
}
use sso_go.Db.{Db, Status, active, disabled, Account, Client, Project, Access}
use sso_go.Tx.{first_row}
use sso_go.Action.{Action, run}

abbrev pub has_account : Text → Db → Bool
has_account id d = any_where (λ (a : Account). a.id == id) d.accounts

abbrev pub has_client : Text → Db → Bool
has_client id d = any_where (λ (c : Client). c.id == id) d.clients

abbrev pub has_project : Text → Db → Bool
has_project id d = any_where (λ (p : Project). p.id == id) d.projects

abbrev pub account_is : Text → Account → Bool
account_is id a = a.id == id

abbrev pub access_is : Text → Text → Access → Bool
access_is user project a = a.account_id == user && a.project_id == project

abbrev pub find_account : Text → Db → Option Account
find_account id d = find_where (account_is id) d.accounts

abbrev pub find_access : Text → Text → Db → Option Access
find_access user project d = find_where (access_is user project) d.access

abbrev pub find_client : Text → Db → Option Client
find_client id d = find_where (λ (c : Client). c.id == id) d.clients

-- DB.Client
unfoldable pub get_client : Text → Action Client
get_client id = run (first_row (λ _ d. find_client id d))

-- DB.Account
unfoldable pub get_account : Text → Action Account
get_account id = run (first_row (λ _ d. find_account id d))

abbrev pub roles_of : Text → Text → Db → Option (List Text)
roles_of user project d = Option.map (λ (a : Access). a.roles) (find_access user project d)

-- DB.Access
unfoldable pub get_access : Text → Text → Action (List Text)
get_access user project = run (first_row (λ _ d. roles_of user project d))

abbrev pub is_active : Status → Bool
is_active active = true
is_active _ = false

abbrev pub is_disabled : Status → Bool
is_disabled disabled = true
is_disabled _ = false

-- status='active' AND email_verified_at IS NOT NULL
abbrev pub active_verified : Account → Bool
active_verified a = is_active a.status && is_some a.verified
