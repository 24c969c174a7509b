-- ===== src/Service/Oauth/Flow/Issues.antt =====
-- What issue and Exchange return to a client that is let in.

use sso_go.Prelude.{
  ℕ, Text, codes, ◌==◌, true, false, some, is_some, List, [], ◌∷◌, ◌++◌, ok, ◌≡◌, refl, arith,
  find_where, update_where, eq_refl, Option-cases, Bool, inl, inr,
}
use sso_go.Db.{Db, Account, Client, SigningKey, CodeRow}
use sso_go.Action.Run.{run_ok, run-query, run-first_row}
use sso_go.Repo.Keys.{active_signing_key}
use sso_go.Repo.Tables.{
  has_account, has_client, has_project, find_account, roles_of, active_verified, get_account,
  get_access,
}
use sso_go.Repo.Oauth.{
  usable_code, create_refresh, insert_refresh, first_token, has_refresh, consume_authorization_code,
  use_code, scan_code,
}
use sso_go.Repo.Oauth.Codes.{consume_code-own_client}
use sso_go.Service.Words.{join_space}
use sso_go.Service.Oauth.{
  exchange, is_verifier, Tokens, issue, sign_tokens, access_claims, id_claims, management_claims,
}
use sso_go.Token.{Jose, JwtHeader, Claims, join_dot, stamp, sign, active}
use sso_go.Service.Oauth.Flow.{working, same-active, Answered}

module _ (jose : Jose) (issuer : Text) (d : Db) (now : ℕ) (k : SigningKey)
    (private : jose.PrivateKey) (current : (active_signing_key (working d now)).0 ≡ ok k)
    (parses : jose.parse_key k.private_pem ≡ some private)
    (signs : (m : Text) → is_some (jose.sign_digest private m) ≡ true) where
  sign-signs :
      (claims : Claims) (typ : Text)
      → (t : Text) × (sign jose issuer claims typ (working d now) ≡ (ok t, working d now))
  unfolding sign active
  sign-signs claims typ =
      let header : JwtHeader = record { alg = codes "RS256"; kid = k.kid; typ = typ } in
      let m = join_dot (jose.encode_header header) (jose.encode_claims (stamp issuer now claims)) in
      let same : (active_signing_key (working d now)).1 ≡ working d now =
        unfold active_signing_key in run-query _ (working d now) in
      elim (Option-cases (jose.sign_digest private m)) [
        | inl missing ↦ absurd (ground (arith, missing, signs m))
        | inr (sig, made) ↦ (join_dot m sig, ground (arith, current, same, parses, made))
      ]

module _ (family user : Text) (c : Client) (scopes : List Text) (hash_token : Text) (d : Db)
    (now : ℕ) where
  -- the tables with a first refresh token
  abbrev pub with_token : Db
  with_token = record d {
    refresh = d.refresh ++ first_token hash_token family user c.id c.project scopes now ∷ [];
  }

  creates :
      has_refresh hash_token d ≡ false
      → has_account user d ≡ true
      → has_client c.id d ≡ true
      → has_project c.project d ≡ true
      → create_refresh hash_token family user c.id c.project scopes (working d now)
        ≡ (ok tt, working with_token now)
  unfolding create_refresh insert_refresh
  creates free owner holder project = run_ok _ (working d now) tt with_token refl (ground arith)

module _ (hash challenge_of : Text → Text) (jose : Jose) (issuer user : Text) (c : Client)
    (nonce : Text) (scopes : List Text) (token : Text) (d : Db) (now : ℕ) (account : Account)
    (roles : List Text) (k : SigningKey) (private : jose.PrivateKey)
    (current : (active_signing_key (working d now)).0 ≡ ok k)
    (parses : jose.parse_key k.private_pem ≡ some private)
    (signs : (m : Text) → is_some (jose.sign_digest private m) ≡ true) where
  sign_tokens-signs :
      (t : Tokens) × Answered token scopes t
      × (sign_tokens hash challenge_of jose issuer user c account roles nonce scopes token
            (working d now)
          ≡ (ok t, working d now))
  unfolding sign_tokens
  sign_tokens-signs =
      let sig = sign-signs jose issuer d now k private current parses signs in
      let (t1, e1) =
        sig (access_claims hash challenge_of jose issuer user c roles scopes) (codes "at+jwt") in
      let (t2, e2) =
        sig (id_claims hash challenge_of jose issuer user c account nonce) (codes "JWT") in
      let (t3, e3) =
        sig (management_claims hash challenge_of jose issuer user c roles) (codes "at+jwt") in
      (
        record {
          access_token = t1;
          id_token = t2;
          refresh_token = token;
          management_token = t3;
          token_type = codes "Bearer";
          expires_in = 300;
          scope = join_space scopes;
        },
        (refl, refl),
        rw (e1, e2, e3) refl,
      )

module _ (hash challenge_of : Text → Text) (jose : Jose) (issuer family user : Text) (c : Client)
    (nonce : Text) (scopes : List Text) (token : Text) (d : Db) (now : ℕ) (account : Account)
    (roles : List Text) (k : SigningKey) (private : jose.PrivateKey)
    (current : (active_signing_key (working d now)).0 ≡ ok k)
    (parses : jose.parse_key k.private_pem ≡ some private)
    (signs : (m : Text) → is_some (jose.sign_digest private m) ≡ true) where
  pub issue-issues :
      find_account user d ≡ some account
      → active_verified account ≡ true
      → roles_of user c.project d ≡ some roles
      → has_refresh (hash token) d ≡ false
      → has_account user d ≡ true
      → has_client c.id d ≡ true
      → has_project c.project d ≡ true
      → (t : Tokens) × Answered token scopes t
        × (issue hash challenge_of jose issuer family user c nonce scopes token false
              (working d now)
            ≡ (ok t, working (with_token family user c scopes (hash token) d now) now))
  issue-issues known admitted access free owner holder project =
      let d' = with_token family user c scopes (hash token) d now in
      let current' : (active_signing_key (working d' now)).0 ≡ ok k =
        same-active d d' now now k refl current in
      let (t, answered, signed) =
        sign_tokens-signs hash challenge_of jose issuer user c nonce scopes token d' now account
          roles k private current' parses signs in
      let created = creates family user c scopes (hash token) d now free owner holder project in
      let a : get_account user (working d now) ≡ (ok account, working d now) =
        unfold get_account in run-first_row (working d now) refl _ account known in
      let r : get_access user c.project (working d now) ≡ (ok roles, working d now) =
        unfold get_access in run-first_row (working d now) refl _ roles access in
      (t, answered, unfold issue in ground (arith, a, r, created, signed))

  -- for a refresh token that is there already
  pub issue-again :
      find_account user d ≡ some account
      → active_verified account ≡ true
      → roles_of user c.project d ≡ some roles
      → (t : Tokens) × Answered token scopes t
        × (issue hash challenge_of jose issuer family user c nonce scopes token true (working d now)
            ≡ (ok t, working d now))
  issue-again known admitted access =
      let (t, answered, signed) =
        sign_tokens-signs hash challenge_of jose issuer user c nonce scopes token d now account
          roles k private current parses signs in
      let a : get_account user (working d now) ≡ (ok account, working d now) =
        unfold get_account in run-first_row (working d now) refl _ account known in
      let r : get_access user c.project (working d now) ≡ (ok roles, working d now) =
        unfold get_access in run-first_row (working d now) refl _ roles access in
      (t, answered, unfold issue in ground (arith, a, r, signed))

module _ (hash : Text → Text) (token family : Text) (c : Client) (code : Text) (d : Db) (now : ℕ)
    (row : CodeRow) where
  -- the tables when the code is used up
  abbrev pub without_code : Db
  without_code = record d {
    codes = update_where (usable_code (hash code) now) (use_code now) d.codes;
  }

  abbrev pub after_exchange : Db
  after_exchange = with_token family row.account_id c row.scopes (hash token) without_code now

module _ (hash challenge_of : Text → Text) (jose : Jose) (issuer token family : Text) (c : Client)
    (code redirect verifier : Text) (d : Db) (now : ℕ) (row : CodeRow) (account : Account)
    (roles : List Text) (k : SigningKey) (private : jose.PrivateKey)
    (current : (active_signing_key (working d now)).0 ≡ ok k)
    (parses : jose.parse_key k.private_pem ≡ some private)
    (signs : (m : Text) → is_some (jose.sign_digest private m) ≡ true) where
  pub exchange-issues :
      find_where (usable_code (hash code) now) d.codes ≡ some row
      → row.client_id ≡ c.id
      → row.redirect_uri ≡ redirect
      → row.code_challenge ≡ challenge_of verifier
      → is_verifier verifier ≡ true
      → find_account row.account_id d ≡ some account
      → active_verified account ≡ true
      → roles_of row.account_id c.project d ≡ some roles
      → has_refresh (hash token) d ≡ false
      → has_account row.account_id d ≡ true
      → has_client c.id d ≡ true
      → has_project c.project d ≡ true
      → (t : Tokens) × Answered token row.scopes t
        × (exchange hash challenge_of jose issuer token family c code redirect verifier
              (working d now)
            ≡ (ok t, working (after_exchange hash token family c code d now row) now))
  exchange-issues found own uri challenge form known admitted access free owner holder project =
      let used = without_code hash token family c code d now row in
      let valid : Text → Bool = λ expected. challenge_of verifier == expected in
      let consumed : consume_authorization_code (hash code) c.id redirect valid (working d now)
          ≡ (ok (scan_code row), working used now) =
        unfold consume_authorization_code in
        run_ok _ (working d now) _ _ refl (
          consume_code-own_client (hash code) c.id redirect valid now d row found own uri
            (ground (arith, challenge, eq_refl (challenge_of verifier)))) in
      let (t, answered, done) =
        issue-issues hash challenge_of jose issuer family row.account_id c row.nonce row.scopes
          token used now account roles k private (same-active d used now now k refl current) parses
          signs known admitted access free owner holder project in
      (t, answered, unfold exchange in ground (arith, form, consumed, done))
