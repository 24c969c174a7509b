-- ===== src/Service/Oauth/Flow/SignIn.antt =====
-- A sign-in from Authorize to Exchange.

use sso_go.Prelude.{
  ℕ, ◌+◌, ◌<◌, Text, ◌==◌, true, false, some, is_some, [], ◌∷◌, ◌++◌, ok, ◌≡◌, refl, sym, ap, ◌∙◌,
  arith, find_where, find_where_mono, find_where-append, any_where-find, eq_refl, Option-cases,
  Bool, inl, inr,
}
use sso_go.Db.{Db, Client, SigningKey, CodeRow}
use sso_go.Action.{World}
use sso_go.Repo.Keys.{active_signing_key}
use sso_go.Repo.Tables.{has_project, find_client, roles_of}
use sso_go.Repo.Oauth.{AuthorizationCode, code_row, has_code, usable_code, first_token, has_refresh}
use sso_go.Service.Words.{fields}
use sso_go.Service.Oauth.{AuthorizeInput, code_for, authorize, exchange, is_verifier, Tokens}
use sso_go.Service.Oauth.Granting.{authorize-code, code-Authorized}
use sso_go.Token.{Jose}
use sso_go.Service.Oauth.Flow.{working, same-active, Answered}
use sso_go.Service.Oauth.Flow.Issues.{exchange-issues}

-- the code that Authorize stored, as ConsumeAuthorizationCode finds it
find-code :
    (hash : Text) (code : AuthorizationCode) (now later : ℕ) (d : Db)
    → has_code hash d ≡ false
    → later < now + 120
    → find_where (usable_code hash later) (d.codes ++ code_row hash code now ∷ [])
      ≡ some (code_row hash code now)
unfolding find_where
find-code hash code now later d free lt =
    let q = usable_code hash later in
    let is_hash : CodeRow → Bool = λ c. c.code_hash == hash in
    let none_before =
      find_where_mono is_hash q d.codes (λ c g. ground arith)
        (ground (arith, free, any_where-find is_hash d.codes)) in
    ground (
      arith,
      none_before,
      any_where-find q d.codes,
      find_where-append q d.codes (code_row hash code now ∷ []),
      eq_refl hash,
    )

module _ (hash challenge_of : Text → Text) (jose : Jose) (issuer code : Text) (i : AuthorizeInput)
    (w : World) (issued : Text) (c : Client) (token family verifier : Text) (later : ℕ)
    (k : SigningKey) (private : jose.PrivateKey) where
  abbrev at_exchange : World
  at_exchange = working (authorize hash code i w).1.db later

  -- A code that Authorize returned is worth tokens: Exchange by the client that asked for it, with
  -- the redirect URI and a verifier of the challenge, within two minutes, and while nothing else is
  -- written and the database works, returns tokens with the scopes that were asked for, and stores
  -- the hash of the refresh token among them for seven days: if the hash is new, the client's
  -- project exists, and the current key parses and signs.
  pub authorize-exchange :
      (authorize hash code i w).0 ≡ ok issued
      → find_client i.client_id w.db ≡ some c
      → later < w.now + 120
      → is_verifier verifier ≡ true
      → challenge_of verifier ≡ i.challenge
      → has_refresh (hash token) w.db ≡ false
      → has_project c.project w.db ≡ true
      → (active_signing_key (working w.db later)).0 ≡ ok k
      → jose.parse_key k.private_pem ≡ some private
      → ((m : Text) → is_some (jose.sign_digest private m) ≡ true)
      → let (r, w') =
          exchange hash challenge_of jose issuer token family c issued i.redirect verifier
            at_exchange in
        (t : Tokens) × (r ≡ ok t)
        × Answered token (fields i.scope) t
        × (w'.db.refresh
            ≡ w.db.refresh
              ++ first_token (hash token) family i.user c.id c.project (fields i.scope) later ∷ [])
  authorize-exchange h client lt form challenge free project current parses signs =
      let (c', account, a) = code-Authorized hash code i w issued h in
      let one : c' ≡ c = ground (arith, a.registered) in
      let row : CodeRow = code_row (hash code) (code_for i c) w.now in
      let d : Db = record w.db { codes = w.db.codes ++ row ∷ [] } in
      let stored : (authorize hash code i w).1.db ≡ d =
        a.stored
        ∙ ap
            (λ (x : Client). record w.db {
              codes = w.db.codes ++ code_row (hash code) (code_for i x) w.now ∷ [];
            })
            one in
      elim (Option-cases (roles_of i.user c.project w.db)) [
        | inl missing ↦ absurd (ground (arith, a.has_access, one, missing))
        | inr (roles, access) ↦
            (let (t, answered, done) =
                exchange-issues hash challenge_of jose issuer token family c code i.redirect
                  verifier d later row account roles k private
                  (same-active w.db d later later k refl current) parses signs
                  (find-code (hash code) (code_for i c) w.now later w.db a.fresh lt) refl refl
                  (sym challenge) form a.known a.admitted access free a.referenced.0
                  (rw one at a.referenced.1) project in
              rw (authorize-code hash code i w issued h, stored, done) (t, refl, answered, refl))
      ]
