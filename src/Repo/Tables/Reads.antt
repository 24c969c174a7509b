-- ===== src/Repo/Tables/Reads.antt =====
-- What the three lookups return, and that they write nothing.
use sso_go.Prelude.{Text, List, some, ok, ◌≡◌}
use sso_go.Db.{Account, Client}
use sso_go.Action.{World, drawn}
use sso_go.Action.Run.{run-query, run-query_ok}
use sso_go.Repo.Tables.{find_client, find_account, roles_of, get_client, get_account, get_access}

module _ (id : Text) (w : World) where
  pub get_client-ok : (c : Client) → (get_client id w).0 ≡ ok c → find_client id w.db ≡ some c
  unfolding get_client
  get_client-ok c h = run-query_ok _ w c h

  pub get_client-drawn : (get_client id w).1 ≡ drawn w
  unfolding get_client
  get_client-drawn = run-query _ w

  pub get_account-ok : (a : Account) → (get_account id w).0 ≡ ok a → find_account id w.db ≡ some a
  unfolding get_account
  get_account-ok a h = run-query_ok _ w a h

  pub get_account-drawn : (get_account id w).1 ≡ drawn w
  unfolding get_account
  get_account-drawn = run-query _ w

module _ (user project : Text) (w : World) where
  pub get_access-ok :
      (roles : List Text)
      → (get_access user project w).0 ≡ ok roles
      → roles_of user project w.db ≡ some roles
  unfolding get_access
  get_access-ok roles h = run-query_ok _ w roles h

  pub get_access-drawn : (get_access user project w).1 ≡ drawn w
  unfolding get_access
  get_access-drawn = run-query _ w
