-- ===== src/Repo/Oauth.antt =====
-- internal/repository/postgres/oauth.go: authorization codes and refresh tokens.
pub mod Codes
pub mod Rotation
pub mod Families
pub mod Replay
use sso_go.Prelude.{
  ℕ, ◌+◌, ◌*◌, Text, ◌==◌, Bool, ◌&&◌, ◌||◌, not, Option, none, some, List, [], ◌∷◌, ◌++◌, Error,
  unique_violation, other_violation, token_reuse, no_rows, Result, ok, err, ltb, is_none, is_some,
  if◌then◌else◌, find_where, any_where, update_where,
}
use sso_go.Db.{Db, CodeRow, RefreshRow}
use sso_go.Repo.Tables.{has_account, has_client, has_project}
use sso_go.Tx.{Tx, ◌>>=◌, ◌>>◌, pure, fail, first_row, modify, require, check}
use sso_go.Action.{Action, run, run_committed}

pub record AuthorizationCode : Type 0 where
  pub account : Text
  pub client : Text
  pub redirect : Text
  pub nonce : Text
  pub challenge : Text
  pub scopes : List Text

abbrev pub has_code : Text → Db → Bool
has_code hash d = any_where (λ (c : CodeRow). c.code_hash == hash) d.codes

abbrev pub has_refresh : Text → Db → Bool
has_refresh hash d = any_where (λ (r : RefreshRow). r.token_hash == hash) d.refresh

abbrev pub code_row : Text → AuthorizationCode → ℕ → CodeRow
code_row hash code now = record {
  code_hash = hash;
  account_id = code.account;
  client_id = code.client;
  redirect_uri = code.redirect;
  nonce = code.nonce;
  code_challenge = code.challenge;
  scopes = code.scopes;
  expires_at = now + 120;
  used_at = none;
}

-- CreateAuthorizationCode
insert_code : Text → AuthorizationCode → Tx (Unit {0})
insert_code hash code = do
  check (λ d. not (has_code hash d)) unique_violation
  check (λ d. has_account code.account d && has_client code.client d) other_violation
  modify (λ now d. record d { codes = d.codes ++ code_row hash code now ∷ [] })

unfoldable pub create_authorization_code : Text → AuthorizationCode → Action (Unit {0})
unfolding insert_code
create_authorization_code hash code = run (insert_code hash code)

-- code_hash=$1 AND used_at IS NULL AND expires_at>now()
abbrev pub usable_code : Text → ℕ → CodeRow → Bool
usable_code hash now c = c.code_hash == hash && is_none c.used_at && ltb now c.expires_at

abbrev pub use_code : ℕ → CodeRow → CodeRow
use_code now c = record c { used_at = some now }

abbrev pub scan_code : CodeRow → AuthorizationCode
scan_code c = record {
  account = c.account_id;
  client = c.client_id;
  redirect = c.redirect_uri;
  nonce = c.nonce;
  challenge = c.code_challenge;
  scopes = c.scopes;
}

-- the transaction of ConsumeAuthorizationCode
unfoldable pub consume_code : Text → Text → Text → (Text → Bool) → Tx AuthorizationCode
consume_code hash client redirect valid_challenge = do
  row ← first_row (λ now d. find_where (usable_code hash now) d.codes)
  modify (λ now d. record d { codes = update_where (usable_code hash now) (use_code now) d.codes })
  let code = scan_code row
  require (code.client == client && code.redirect == redirect && valid_challenge code.challenge)
      no_rows
  pure code

unfoldable pub consume_authorization_code :
    Text → Text → Text → (Text → Bool) → Action AuthorizationCode
consume_authorization_code hash client redirect valid_challenge =
    run (consume_code hash client redirect valid_challenge)

pub record RefreshGrant : Type 0 where
  pub account : Text
  pub scopes : List Text

-- family_id=$1 AND revoked_at IS NULL
abbrev pub unrevoked_in : Text → RefreshRow → Bool
unrevoked_in family r = r.family_id == family && is_none r.revoked_at

abbrev pub revoke_at : ℕ → RefreshRow → RefreshRow
revoke_at now r = record r { revoked_at = some now }

abbrev pub use_at : ℕ → RefreshRow → RefreshRow
use_at now r = record r { used_at = some now }

abbrev pub successor : Text → Text → Text → RefreshRow → RefreshRow
successor hash client project r = record {
  token_hash = hash;
  family_id = r.family_id;
  account_id = r.account_id;
  client_id = client;
  project_id = project;
  scopes = r.scopes;
  expires_at = r.family_expires_at;
  family_expires_at = r.family_expires_at;
  used_at = none;
  revoked_at = none;
}

abbrev grant_of : RefreshRow → RefreshGrant
grant_of r = record { account = r.account_id; scopes = r.scopes }

-- the branch of RotateRefresh that commits and returns ErrRefreshReuse
revoke_family : RefreshRow → Tx (Result RefreshGrant)
revoke_family r = do
  modify (λ now d. record d {
    refresh = update_where (unrevoked_in r.family_id) (revoke_at now) d.refresh;
  })
  pure (err token_reuse)

-- the branch that uses the token up and inserts its successor
replace_token : Text → Text → Text → Text → RefreshRow → Tx (Result RefreshGrant)
replace_token hash next_hash client project r = do
  modify (λ now d. record d {
    refresh = update_where (λ (s : RefreshRow). s.token_hash == hash) (use_at now) d.refresh;
  })
  check (λ d. not (has_refresh next_hash d)) unique_violation
  check (λ d. has_account r.account_id d && has_client client d && has_project project d)
      other_violation
  modify (λ now d. record d { refresh = d.refresh ++ successor next_hash client project r ∷ [] })
  pure (ok (grant_of r))

-- The transaction of RotateRefresh: `app_now` is its argument now, the application's clock.
unfoldable pub rotate : Text → Text → Text → Text → ℕ → Tx (Result RefreshGrant)
unfolding revoke_family replace_token
rotate hash next_hash client project app_now = do
  r ← first_row (λ _ d. find_where (λ (s : RefreshRow). s.token_hash == hash) d.refresh)
  require (r.client_id == client && r.project_id == project) no_rows
  if is_some r.used_at || is_some r.revoked_at then revoke_family r else do
    require (ltb app_now r.expires_at && ltb app_now r.family_expires_at) no_rows
    replace_token hash next_hash client project r

unfoldable pub rotate_refresh : Text → Text → Text → Text → ℕ → Action RefreshGrant
rotate_refresh hash next_hash client project app_now =
    run_committed (rotate hash next_hash client project app_now)

-- 7 days
abbrev refresh_lifetime : ℕ
refresh_lifetime = 604800

abbrev pub first_token : Text → Text → Text → Text → Text → List Text → ℕ → RefreshRow
first_token hash family account client project scopes now = record {
  token_hash = hash;
  family_id = family;
  account_id = account;
  client_id = client;
  project_id = project;
  scopes = scopes;
  expires_at = now + refresh_lifetime;
  family_expires_at = now + refresh_lifetime;
  used_at = none;
  revoked_at = none;
}

unfoldable pub insert_refresh : Text → Text → Text → Text → Text → List Text → Tx (Unit {0})
insert_refresh hash family account client project scopes = do
  check (λ d. not (has_refresh hash d)) unique_violation
  check (λ d. has_account account d && has_client client d && has_project project d) other_violation
  modify (λ now d. record d {
    refresh = d.refresh ++ first_token hash family account client project scopes now ∷ [];
  })

unfoldable pub create_refresh : Text → Text → Text → Text → Text → List Text → Action (Unit {0})
unfolding insert_refresh
create_refresh hash family account client project scopes =
    run (insert_refresh hash family account client project scopes)
