-- ===== src/Service/Oauth/Flow.antt =====
-- The service of OAuth on a database that works: what is let in gets its tokens.
pub mod Issues
pub mod SignIn
pub mod Leaves
pub mod Renewal
use mathlib.Core.Option
use sso_go.Prelude.{
  ℕ, ◌+◌, ◌<◌, Text, codes, ◌==◌, true, false, Option, none, some, is_some, List, [], ◌∷◌, ◌++◌, ok,
  ◌≡◌, refl, sym, ap, ◌∙◌, arith, find_where, find_where_mono, update_where, find_where-append,
  any_where-find, eq_refl, order_by, Option-cases, Bool, inl, inr,
}
use sso_go.Db.{Db, Account, Client, SigningKey, CodeRow}
use sso_go.Action.{World}
use sso_go.Action.Run.{run_ok, run-query, run-query_ok, run-first_row}
use sso_go.Repo.Keys.{active_signing_key, is_current, newest_first}
use sso_go.Repo.Tables.{
  has_account, has_client, has_project, find_account, find_client, roles_of, active_verified,
  get_account, get_access,
}
use sso_go.Repo.Oauth.{
  AuthorizationCode, code_row, has_code, usable_code, create_refresh, insert_refresh, first_token,
  has_refresh, consume_authorization_code, use_code, scan_code,
}
use sso_go.Repo.Oauth.Codes.{consume_code-own_client}
use sso_go.Service.Words.{join_space, fields}
use sso_go.Service.Oauth.{
  AuthorizeInput, code_for, authorize, exchange, is_verifier, Tokens, issue, sign_tokens,
  access_claims, id_claims, management_claims,
}
use sso_go.Service.Oauth.Granting.{Authorized, authorize-Authorized}
use sso_go.Token.{Jose, JwtHeader, Claims, join_dot, stamp, sign, active}

-- a database that works from now on
abbrev pub working : Db → ℕ → World
working d now = record { db = d; faults = []; now = now }

-- the key that signs, after a write of other tables
pub same-active :
    (d d' : Db) (now later : ℕ) (k : SigningKey)
    → d'.keys ≡ d.keys
    → (active_signing_key (working d now)).0 ≡ ok k
    → (active_signing_key (working d' later)).0 ≡ ok k
unfolding active_signing_key
same-active d d' now later k same h =
    let query : ℕ → Db → Option SigningKey =
      λ _ t. find_where is_current (order_by newest_first t.keys) in
    let found : query later d' ≡ some k = rw same (run-query_ok query (working d now) k h) in
    rw (run-first_row (working d' later) refl query k found) refl

-- what a client gets that is let in
abbrev pub Answered : Text → List Text → Tokens → Type 0
Answered token scopes t = (t.refresh_token ≡ token) × (t.scope ≡ join_space scopes)
