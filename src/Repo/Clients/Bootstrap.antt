-- ===== src/Repo/Clients/Bootstrap.antt =====
-- EnsureBootstrap of internal/repository/postgres/clients.go: four statements, each by itself.
use sso_go.Prelude.{
  ℕ, Text, codes, ◌==◌, lower, Bool, true, ◌&&◌, ◌||◌, not, none, some, Option, [], ◌∷◌, ◌++◌,
  unique_violation, other_violation, if◌then◌else◌, find_where, any_where, update_where,
}
use sso_go.Db.{Account, Status}
use sso_go.Tx
use sso_go.Tx.{Tx}
use sso_go.Action.{Action, ◌>>◌, pure, run}
use sso_go.Repo.Tables.{access_is, has_project}
use sso_go.Repo.Clients.{ensure_project, ensure_client}

abbrev first_admin : Text → Text → Text → ℕ → Account
first_admin id email hash now = record {
  id = id;
  email = email;
  login = email;
  password_hash = hash;
  name = codes "Administrator";
  given_name = [];
  family_name = [];
  avatar_url = [];
  status = Status.active;
  verified = some now;
  global_admin = true;
  old_id = none;
  created_at = now;
}

abbrev verified_at : ℕ → Option ℕ → Option ℕ
verified_at now none = some now
verified_at now (some at) = some at

abbrev promote : ℕ → Account → Account
promote now a = record a {
  global_admin = true;
  status = Status.active;
  verified = verified_at now a.verified;
}

abbrev email_is : Text → Account → Bool
email_is email a = a.email == email

-- INSERT INTO accounts ... ON CONFLICT(email) DO UPDATE
unfoldable pub ensure_admin : Text → Text → Text → Tx (Unit {0})
ensure_admin id email hash =
    Tx.◌>>=◌ (Tx.gets (λ _ d. any_where (email_is email) d.accounts)) λ known.
      if known
      then Tx.modify
          (λ now d. record d { accounts = update_where (email_is email) (promote now) d.accounts })
      else Tx.◌>>◌
          (Tx.check
            (λ d.
              not (
                any_where (λ (a : Account). a.id == id || lower a.login == lower email) d.accounts))
            unique_violation)
          (Tx.modify
            (λ now d. record d { accounts = d.accounts ++ first_admin id email hash now ∷ [] }))

-- INSERT INTO project_access ... SELECT id ... ON CONFLICT DO NOTHING
unfoldable pub ensure_admin_access : Text → Text → Tx (Unit {0})
ensure_admin_access project email =
    Tx.◌>>=◌ (Tx.gets (λ _ d. find_where (email_is email) d.accounts)) λ found. elim found [
      | none ↦ Tx.pure tt
      | some a ↦ Tx.◌>>◌ (Tx.check (has_project project) other_violation) (
          Tx.modify (λ _ d. if any_where (access_is a.id project) d.access then d else record d {
            access =
                d.access
                ++ record { account_id = a.id; project_id = project; roles = codes "admin" ∷ [] }
                  ∷ [];
          }))
    ]

-- EnsureBootstrap
unfoldable pub ensure_bootstrap : Text → Text → Text → Text → Text → Text → Text → Action (Unit {0})
ensure_bootstrap project client_id secret_hash redirect admin_id admin_email admin_hash = do
  run (ensure_project project)
  if not (client_id == []) && not (secret_hash == []) && not (redirect == [])
      then run (ensure_client client_id project secret_hash redirect)
      else pure tt
  if admin_email == [] || admin_hash == [] then pure tt else do
    run (ensure_admin admin_id admin_email admin_hash)
    run (ensure_admin_access project admin_email)
