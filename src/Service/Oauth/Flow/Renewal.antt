-- ===== src/Service/Oauth/Flow/Renewal.antt =====
-- From Exchange to Refresh.
use sso_go.Prelude.{
  Bool, ℕ, ◌+◌, ◌<◌, Text, ◌==◌, true, false, some, is_some, List, [], ◌∷◌, ◌++◌, ok, ◌≡◌, refl,
  arith, inl, inr, Result-cases, find_where, update_where, find_where-append, eq_refl,
}
use sso_go.Db.{Db, Account, Client, SigningKey}
use sso_go.Action.{World}
use sso_go.Action.Run.{run_lem}
use sso_go.Repo.Keys.{active_signing_key}
use sso_go.Repo.Oauth.{
  consume_authorization_code, consume_code, has_refresh, first_token, use_at, successor,
}
use sso_go.Repo.Oauth.Rotation.{with_hash, rotate_refresh-renews}
use sso_go.Service.Words.{join_space}
use sso_go.Service.Oauth.{Tokens, exchange, issue, refresh}
use sso_go.Service.Oauth.Issuing.{Admitted, issue-Admitted}
use sso_go.Service.Oauth.Flow.{working, same-active}
use sso_go.Service.Oauth.Flow.Issues.{issue-again}
use sso_go.Service.Oauth.Flow.Leaves.{Issued, issue-Issued}
use sso_go.Token.{Jose}

now-consume :
    (hash client redirect : Text) (valid : Text → Bool) (w : World)
    → (consume_authorization_code hash client redirect valid w).1.now ≡ w.now
unfolding consume_authorization_code
now-consume hash client redirect valid w =
    ground (arith, run_lem (consume_code hash client redirect valid) w)

module _ (hash challenge_of : Text → Text) (jose : Jose) (issuer token family : Text) (c : Client)
    (code redirect verifier : Text) (w : World) (tokens : Tokens)
    (h : (exchange hash challenge_of jose issuer token family c code redirect verifier w).0
      ≡ ok tokens) where
  abbrev left : Db
  left = (exchange hash challenge_of jose issuer token family c code redirect verifier w).1.db

  -- who signed in, and with which scopes
  exchange-Issued :
      (user : Text) × (scopes : List Text) × (d : Db) × (account : Account) × (roles : List Text)
      × Issued (hash token) family user c scopes w.now d left
      × Admitted user c.project d account roles
      × (tokens.scope ≡ join_space scopes)
  exchange-Issued =
      let valid : Text → Bool = λ expected. challenge_of verifier == expected in
      let consume = consume_authorization_code (hash code) c.id redirect valid in
      let w1 = (consume w).1 in
      elim (Result-cases (consume w).0) [
        | inl (e, bad) ↦ absurd (unfold exchange in ground (arith, bad))
        | inr (grant, good) ↦
            (let user = grant.account in
              let issuing =
                issue hash challenge_of jose issuer family user c grant.nonce grant.scopes token
                  false w1 in
              let done : issuing.0 ≡ ok tokens = unfold exchange in ground (arith, good) in
              let whole : left ≡ issuing.1.db = unfold exchange in ground (arith, good) in
              let (issued, scope) =
                issue-Issued hash challenge_of jose issuer user c grant.nonce grant.scopes token
                  family w1 tokens done in
              let (account, roles, admitted) =
                issue-Admitted hash challenge_of jose issuer family user c grant.nonce grant.scopes
                  token false w1 tokens done in
              let now = now-consume (hash code) c.id redirect valid w in
              (
                user,
                grant.scopes,
                w1.db,
                account,
                roles,
                rw whole (rw now at issued),
                admitted,
                scope,
              ))
      ]

  -- the first refresh token, as RotateRefresh finds it
  find-first :
      (user : Text) (scopes : List Text) (d : Db)
      → Issued (hash token) family user c scopes w.now d left
      → find_where (with_hash (hash token)) left.refresh
        ≡ some (first_token (hash token) family user c.id c.project scopes w.now)
  unfolding find_where
  find-first user scopes d i =
      let q = with_hash (hash token) in
      rw i.tables (
        ground (
          arith,
          i.fresh,
          eq_refl (hash token),
          find_where-append q d.refresh
              (first_token (hash token) family user c.id c.project scopes w.now ∷ []),
        ))

  -- The refresh token that Exchange returned is worth new tokens: Refresh by the same client within
  -- seven days, and while nothing else is written and the database works, returns tokens with the
  -- same scopes and the next refresh token: if the hash of that is new, and the current key parses
  -- and signs.
  pub exchange-refresh :
      (next : Text) (later : ℕ) (k : SigningKey) (private : jose.PrivateKey)
      → (token == []) ≡ false
      → later < w.now + 604800
      → has_refresh (hash next) left ≡ false
      → (active_signing_key (working left later)).0 ≡ ok k
      → jose.parse_key k.private_pem ≡ some private
      → ((m : Text) → is_some (jose.sign_digest private m) ≡ true)
      → (t : Tokens) × ((refresh hash challenge_of jose issuer next c token (working left later)).0
          ≡ ok t)
        × (t.refresh_token ≡ next)
        × (t.scope ≡ tokens.scope)
  exchange-refresh next later k private some_token lt free current parses signs =
      let (user, scopes, d, account, roles, issued, admitted, scope) = exchange-Issued in
      let r = first_token (hash token) family user c.id c.project scopes w.now in
      let same = issued.tables in
      let rotated =
        rotate_refresh-renews (hash token) (hash next) later (working left later) r
          (find-first user scopes d issued) refl refl lt lt free (rw same issued.owner)
          (rw same issued.holder) (rw same issued.project) refl in
      let d' : Db = record left {
        refresh =
            update_where (with_hash (hash token)) (use_at later) left.refresh
            ++ successor (hash next) c.id c.project r ∷ [];
      } in
      let (t, answered, done) =
        issue-again hash challenge_of jose issuer [] user c [] scopes next d' later account roles k
          private (same-active left d' later later k refl current) parses signs
          (rw same admitted.known) admitted.admitted (rw same admitted.has_access) in
      (
        t,
        unfold refresh in ground (arith, some_token, rotated, done),
        answered.0,
        ground (arith, answered.1, scope),
      )
