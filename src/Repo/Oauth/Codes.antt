-- ===== src/Repo/Oauth/Codes.antt =====
-- An authorization code is used at most once, and a refused attempt does not use it up.
use sso_go.Prelude.{
  [], ◌∷◌, ◌++◌, ℕ, ◌≤◌, ◌<◌, Text, Bool, true, false, none, some, ◌≡◌, ◌≢◌, ok, err, no_rows,
  arith, find_where, find_where-some, find_where-update_none, eq_iff, update_where, inl, inr, refl,
  Option-cases,
}
use sso_go.Db.{CodeRow, Db}
use sso_go.Action.{World, fails, drawn}
use sso_go.Action.Run.{run-eq-ok, run_err, run_ok}
use sso_go.Repo.Tables.{has_account, has_client}
use sso_go.Repo.Oauth.{
  create_authorization_code, insert_code, has_code, code_row, AuthorizationCode,
  consume_authorization_code, consume_code, usable_code, use_code, scan_code,
}

-- A row that lets `client` redeem it for `code` at the time `now`.
pub record Redeems (hash client redirect : Text) (valid : Text → Bool) (now : ℕ) (row : CodeRow)
    (code : AuthorizationCode) : Type 0 where
  pub hash_eq : row.code_hash ≡ hash
  pub unused : row.used_at ≡ none
  pub unexpired : now < row.expires_at
  pub client_eq : row.client_id ≡ client
  pub redirect_eq : row.redirect_uri ≡ redirect
  pub challenge_valid : valid row.code_challenge ≡ true
  pub code_eq : code ≡ scan_code row

module _ (hash client redirect : Text) (valid : Text → Bool) where
  pub consume_code-ok :
      (w : World) (code : AuthorizationCode)
      → (consume_authorization_code hash client redirect valid w).0 ≡ ok code
      → (row : CodeRow) × (find_where (usable_code hash w.now) w.db.codes ≡ some row)
        × Redeems hash client redirect valid w.now row code
        × ((consume_authorization_code hash client redirect valid w).1.db.codes
            ≡ update_where (usable_code hash w.now) (use_code w.now) w.db.codes)
  unfolding consume_authorization_code consume_code
  consume_code-ok w code h =
      let q = usable_code hash w.now in
      let done = run-eq-ok (consume_code hash client redirect valid) w code h in
      elim (Option-cases (find_where q w.db.codes)) [
        | inl missing ↦ ground arith
        | inr (row, found) ↦ (
          row,
          found,
          ground (
            arith,
            find_where-some q w.db.codes row,
            eq_iff row.code_hash hash,
            eq_iff row.client_id client,
            eq_iff row.redirect_uri redirect,
          ),
          ground arith,
        )
      ]

  -- A used code stays used: no later attempt finds it.
  used_up :
      (w : World) (later : ℕ)
      → w.now ≤ later
      → find_where
          (usable_code hash later)
          (update_where (usable_code hash w.now) (use_code w.now) w.db.codes)
        ≡ none
  used_up w later h =
      find_where-update_none (usable_code hash later) (usable_code hash w.now) (use_code w.now)
        w.db.codes (λ r p. ground arith) (λ r p. ground arith)

-- A code that was redeemed is refused to every later attempt, whatever client, redirect URI and
-- verifier it shows, as long as no other write touches the codes.
pub consume-once :
    (hash client redirect client' redirect' : Text) (valid valid' : Text → Bool) (w w' : World)
    (code code' : AuthorizationCode)
    → (consume_authorization_code hash client redirect valid w).0 ≡ ok code
    → w'.db.codes ≡ (consume_authorization_code hash client redirect valid w).1.db.codes
    → w.now ≤ w'.now
    → (consume_authorization_code hash client' redirect' valid' w').0 ≢ ok code'
consume-once hash client redirect client' redirect' valid valid' w w' code code' h same le again =
    let before = consume_code-ok hash client redirect valid w code h in
    let after = consume_code-ok hash client' redirect' valid' w' code' again in
    let gone = used_up hash client redirect valid w w'.now le in cc (same, before.3, after.1, gone)

module _ (hash client redirect : Text) (valid : Text → Bool) (now : ℕ) (d : Db)
    (row : CodeRow) where
  consume_code-wrong_client :
      find_where (usable_code hash now) d.codes ≡ some row
      → client ≢ row.client_id
      → consume_code hash client redirect valid now d ≡ err no_rows
  unfolding consume_code
  consume_code-wrong_client found ne = ground (arith, eq_iff row.client_id client)

  pub consume_code-own_client :
      find_where (usable_code hash now) d.codes ≡ some row
      → row.client_id ≡ client
      → row.redirect_uri ≡ redirect
      → valid row.code_challenge ≡ true
      → consume_code hash client redirect valid now d
        ≡ ok (
          scan_code row,
          record d { codes = update_where (usable_code hash now) (use_code now) d.codes },
        )
  unfolding consume_code
  consume_code-own_client found c r v =
      ground (arith, eq_iff row.client_id client, eq_iff row.redirect_uri redirect)

-- A live code shown by a client that it was not issued to is refused, and the refusal does not use
-- it up: its own client redeems it next, where the database does not fail.
pub consume-wrong_client :
    (hash client redirect : Text) (valid valid' : Text → Bool) (w : World) (row : CodeRow)
    → find_where (usable_code hash w.now) w.db.codes ≡ some row
    → client ≢ row.client_id
    → valid' row.code_challenge ≡ true
    → fails w.faults ≡ false
    → fails (drawn w).faults ≡ false
    → ((consume_authorization_code hash client redirect valid w).0 ≡ err no_rows)
      × ((consume_authorization_code hash row.client_id row.redirect_uri valid'
            (consume_authorization_code hash client redirect valid w).1).0
          ≡ ok (scan_code row))
unfolding consume_authorization_code
consume-wrong_client hash client redirect valid valid' w row found ne good f0 f1 =
    let refused =
      run_err (consume_code hash client redirect valid) w no_rows f0
        (consume_code-wrong_client hash client redirect valid w.now w.db row found ne) in
    let redeemed =
      run_ok (consume_code hash row.client_id row.redirect_uri valid') (drawn w) _ _ f1 (
        consume_code-own_client hash row.client_id row.redirect_uri valid' w.now w.db row found refl
          refl good) in
    rw refused (refl, rw redeemed refl)

-- CreateAuthorizationCode, where it succeeds, appends the code's row and does nothing else.
pub create_authorization_code-ok :
    (hash : Text) (code : AuthorizationCode) (w : World)
    → (create_authorization_code hash code w).0 ≡ ok tt
    → (create_authorization_code hash code w).1.db
      ≡ record w.db { codes = w.db.codes ++ code_row hash code w.now ∷ [] }
unfolding create_authorization_code insert_code
create_authorization_code-ok hash code w h = ground (arith, run-eq-ok _ w tt h)

-- What it has tested: the hash is new, and the foreign keys hold.
pub create_authorization_code-checked :
    (hash : Text) (code : AuthorizationCode) (w : World)
    → (create_authorization_code hash code w).0 ≡ ok tt
    → (has_code hash w.db ≡ false)
      × (has_account code.account w.db ≡ true)
      × (has_client code.client w.db ≡ true)
unfolding create_authorization_code insert_code
create_authorization_code-checked hash code w h = ground (arith, run-eq-ok _ w tt h)

-- An attempt that redeems a code writes no other table.
pub db-consume :
    (hash client redirect : Text) (valid : Text → Bool) (w : World) (code : AuthorizationCode)
    → (consume_authorization_code hash client redirect valid w).0 ≡ ok code
    → (consume_authorization_code hash client redirect valid w).1.db
      ≡ record w.db { codes = update_where (usable_code hash w.now) (use_code w.now) w.db.codes }
unfolding consume_authorization_code consume_code
db-consume hash client redirect valid w code h = ground (arith, run-eq-ok _ w code h)
