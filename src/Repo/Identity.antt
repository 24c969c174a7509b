-- ===== src/Repo/Identity.antt =====
-- internal/repository/postgres/identity.go: accounts, one-time links, sessions, passwords.
use sso_go.Prelude.{
  ℕ, ◌+◌, Text, ◌==◌, lower, Bool, true, ◌&&◌, ◌||◌, not, Option, none, some, [], ◌∷◌, ◌++◌,
  unique_violation, other_violation, is_none, ltb, if◌then◌else◌, find_where, any_where,
  update_where, delete_where,
}
use sso_go.Db.{Db, Status, Decision, Account, OneTime, Session, AccessRequest}
use sso_go.Tx.{Tx, ◌>>=◌, ◌>>◌, pure, gets, first_row, modify, check}
use sso_go.Action.{Action, run}
use sso_go.Repo.Tables.{account_is, has_account, has_project, is_disabled}

pub record PendingAccount : Type 0 where
  pub id : Text
  pub email : Text
  pub login : Text
  pub password_hash : Text
  pub name : Text
  pub given_name : Text
  pub family_name : Text
  pub verification_hash : Text

abbrev pub pending_row : PendingAccount → ℕ → Account
pending_row p now = record {
  id = p.id;
  email = p.email;
  login = p.login;
  password_hash = p.password_hash;
  name = p.name;
  given_name = p.given_name;
  family_name = p.family_name;
  avatar_url = [];
  status = Status.pending;
  verified = none;
  global_admin = Bool.false;
  old_id = none;
  created_at = now;
}

-- the primary key and the two unique indexes of accounts
abbrev pub taken : Text → Text → Text → Db → Bool
taken id email login d =
    any_where (λ (a : Account). a.id == id || a.email == email || lower a.login == lower login)
      d.accounts

abbrev pub one_time : Text → Text → ℕ → OneTime
one_time hash account expires = record {
  token_hash = hash;
  account_id = account;
  expires_at = expires;
  used_at = none;
}

abbrev pub hash_is : Text → OneTime → Bool
hash_is hash t = t.token_hash == hash

-- the insert into email_verifications: 1 hour
insert_verification : Text → Text → Tx (Unit {0})
insert_verification hash account = do
  check (λ d. not (any_where (hash_is hash) d.verifications)) unique_violation
  check (has_account account) other_violation
  modify (λ now d. record d {
    verifications = d.verifications ++ one_time hash account (now + 3600) ∷ [];
  })

-- CreatePendingAccount
unfoldable pub create_pending_account : PendingAccount → Action (Unit {0})
unfolding insert_verification
create_pending_account p = run do
  check (λ d. not (taken p.id p.email p.login d)) unique_violation
  modify (λ now d. record d { accounts = d.accounts ++ pending_row p now ∷ [] })
  insert_verification p.verification_hash p.id

-- UnverifiedAccountID
unfoldable pub unverified_account_id : Text → Action Text
unverified_account_id email = run do
  a ←
      first_row
        (λ _ d. find_where (λ (a : Account). a.email == email && is_none a.verified) d.accounts)
  pure a.id

-- AddEmailVerification
unfoldable pub add_email_verification : Text → Text → Action (Unit {0})
unfolding insert_verification
add_email_verification account hash = run (insert_verification hash account)

-- token_hash=$1 AND used_at IS NULL AND expires_at>now()
abbrev pub usable : Text → ℕ → OneTime → Bool
usable hash now t = t.token_hash == hash && is_none t.used_at && ltb now t.expires_at

abbrev pub use_up : ℕ → OneTime → OneTime
use_up now t = record t { used_at = some now }

abbrev pub verify_row : ℕ → Account → Account
verify_row now a = record a { verified = some now }

-- VerifyEmail
unfoldable pub verify_email : Text → Action (Unit {0})
verify_email hash = run do
  t ← first_row (λ now d. find_where (usable hash now) d.verifications)
  modify (λ now d. record d {
    verifications = update_where (usable hash now) (use_up now) d.verifications;
  })
  modify (λ now d. record d {
    accounts = update_where (account_is t.account_id) (verify_row now) d.accounts;
  })

pub record LoginAccount : Type 0 where
  pub id : Text
  pub password_hash : Text
  pub status : Status
  pub verified : Option ℕ

-- email=$1 OR lower(login)=$1
abbrev pub identified : Text → Account → Bool
identified identifier a = a.email == identifier || lower a.login == identifier

abbrev pub session_is : Text → Session → Bool
session_is hash s = s.token_hash == hash

-- the closure `create` of WithLogin: 7 days
unfoldable pub create_session : Text → Text → Tx (Unit {0})
create_session account hash = do
  check (λ d. not (any_where (session_is hash) d.sessions)) unique_violation
  check (has_account account) other_violation
  modify (λ now d. record d {
    sessions =
        d.sessions
        ++ record { token_hash = hash; account_id = account; expires_at = now + 604800 } ∷ [];
  })

-- WithLogin: `fn` runs in the transaction, and its error rolls it back
unfoldable pub with_login {ℓ} :
    {A : Type ℓ} → Text → (LoginAccount → (Text → Tx (Unit {0})) → Tx A) → Action A
with_login identifier fn = run do
  a ← first_row (λ _ d. find_where (identified identifier) d.accounts)
  let login : LoginAccount = record {
    id = a.id;
    password_hash = a.password_hash;
    status = a.status;
    verified = a.verified;
  }
  fn login (create_session a.id)

abbrev enabled : Text → Db → Bool
enabled account d =
    any_where (λ (a : Account). a.id == account && not (is_disabled a.status)) d.accounts

-- the join of SessionAccount
abbrev pub session_valid : Text → ℕ → Db → Session → Bool
session_valid hash now d s = s.token_hash == hash && ltb now s.expires_at && enabled s.account_id d

-- SessionAccount
unfoldable pub session_account : Text → Action Text
session_account hash =
    run do
      s ← first_row (λ now d. find_where (session_valid hash now d) d.sessions)
      pure s.account_id

-- DeleteSession
unfoldable pub delete_session : Text → Action (Unit {0})
delete_session hash =
    run (modify (λ _ d. record d { sessions = delete_where (session_is hash) d.sessions }))

abbrev pub with_password : Text → Account → Account
with_password hash a = record a { password_hash = hash }

-- UpgradePasswordHash
unfoldable pub upgrade_password_hash : Text → Text → Text → Action (Unit {0})
upgrade_password_hash id previous upgraded = run (
    modify (λ _ d. record d {
      accounts =
          update_where (λ (a : Account). a.id == id && a.password_hash == previous)
            (with_password upgraded) d.accounts;
    }))

abbrev pub request_of : Text → Text → AccessRequest → Bool
request_of user project q = q.account_id == user && q.project_id == project

abbrev pub is_pending : Decision → Bool
is_pending Decision.pending = true
is_pending Decision.approved = Bool.false

abbrev pub reopen : ℕ → AccessRequest → AccessRequest
reopen now q = record q { status = Decision.pending; created_at = now; decided_at = none }

abbrev pub reopen_requests : Text → Text → ℕ → Db → Db
reopen_requests user project now d = record d {
  requests =
      update_where (λ q. request_of user project q && not (is_pending q.status)) (reopen now)
        d.requests;
}

abbrev pub new_request : Text → Text → Text → ℕ → AccessRequest
new_request id user project now = record {
  id = id;
  account_id = user;
  project_id = project;
  status = Decision.pending;
  created_at = now;
  decided_at = none;
}

unfoldable pub insert_request : Text → Text → Text → Tx (Unit {0})
insert_request id user project = do
  check (λ d. not (any_where (λ (q : AccessRequest). q.id == id) d.requests)) unique_violation
  check (λ d. has_account user d && has_project project d) other_violation
  modify (λ now d. record d { requests = d.requests ++ new_request id user project now ∷ [] })

-- RequestAccess: INSERT ... ON CONFLICT(account_id,project_id) DO UPDATE ... WHERE
unfoldable pub request_access : Text → Text → Text → Action (Unit {0})
unfolding insert_request
request_access id user project = run do
  known ← gets (λ _ d. any_where (request_of user project) d.requests)
  if known then modify (reopen_requests user project) else insert_request id user project
