-- ===== src/Service/Oauth/Flow/Leaves.antt =====
-- What issue and Exchange leave behind when they returned tokens.
use sso_go.Prelude.{
  ℕ, Result, Text, codes, true, false, List, [], ◌∷◌, ◌++◌, ok, ◌≡◌, arith, inl, inr, Result-cases,
}
use sso_go.Db.{Db, Account, Client}
use sso_go.Action.{World, drawn}
use sso_go.Action.Run.{run-query, run-eq-ok}
use sso_go.Repo.Keys.{active_signing_key}
use sso_go.Repo.Tables.{has_account, has_client, has_project, get_account, get_access}
use sso_go.Repo.Tables.Reads.{get_account-drawn, get_access-drawn}
use sso_go.Repo.Oauth.{create_refresh, insert_refresh, first_token, has_refresh}
use sso_go.Service.Words.{join_space}
use sso_go.Service.Oauth.{Tokens, issue, sign_tokens, access_claims, id_claims, management_claims}
use sso_go.Token.{Jose, Claims, sign, active}

-- The first refresh token of a sign-in: `d` are the tables that CreateRefresh found, `d'` those that
-- are left.
pub record Issued (hash_token family user : Text) (c : Client) (scopes : List Text) (now : ℕ)
    (d d' : Db) : Type 0 where
  pub fresh : has_refresh hash_token d ≡ false
  pub owner : has_account user d ≡ true
  pub holder : has_client c.id d ≡ true
  pub project : has_project c.project d ≡ true
  pub tables : d' ≡ record d {
    refresh = d.refresh ++ first_token hash_token family user c.id c.project scopes now ∷ [];
  }

create_refresh-Issued :
    (hash_token family user : Text) (c : Client) (scopes : List Text) (w : World)
    → (create_refresh hash_token family user c.id c.project scopes w).0 ≡ ok tt
    → Issued hash_token family user c scopes w.now w.db
        (create_refresh hash_token family user c.id c.project scopes w).1.db
unfolding create_refresh insert_refresh
create_refresh-Issued hash_token family user c scopes w h =
    let done = run-eq-ok (insert_refresh hash_token family user c.id c.project scopes) w tt h in
    record {
      fresh = ground arith;
      owner = ground arith;
      holder = ground arith;
      project = ground arith;
      tables = ground arith;
    }

-- Sign writes nothing.
db-sign :
    (jose : Jose) (issuer : Text) (claims : Claims) (typ : Text) (w : World)
    → (sign jose issuer claims typ w).1.db ≡ w.db
unfolding sign active
db-sign jose issuer claims typ w =
    let same : (active_signing_key w).1 ≡ drawn w = unfold active_signing_key in run-query _ w in
    ground (arith, same)

module _ (hash challenge_of : Text → Text) (jose : Jose) (issuer user : Text) (c : Client)
    (nonce : Text) (scopes : List Text) (token : Text) where
  sign_tokens-scope :
      (a : Account) (roles : List Text) (w : World) (t : Tokens)
      → (sign_tokens hash challenge_of jose issuer user c a roles nonce scopes token w).0 ≡ ok t
      → t.scope ≡ join_space scopes
  unfolding sign_tokens
  sign_tokens-scope a roles w t h = ground arith

  db-sign_tokens :
      (a : Account) (roles : List Text) (w : World)
      → (sign_tokens hash challenge_of jose issuer user c a roles nonce scopes token w).1.db ≡ w.db
  unfolding sign_tokens
  db-sign_tokens a roles w =
      let access =
        sign jose issuer (access_claims hash challenge_of jose issuer user c roles scopes)
          (codes "at+jwt") in
      let identity =
        sign jose issuer (id_claims hash challenge_of jose issuer user c a nonce) (codes "JWT") in
      let management =
        sign jose issuer (management_claims hash challenge_of jose issuer user c roles)
          (codes "at+jwt") in
      let w1 = (access w).1 in
      let w2 = (identity w1).1 in
      let quiet = db-sign jose issuer in
      let e1 : w1.db ≡ w.db = quiet _ _ w in
      let e2 : w2.db ≡ w1.db = quiet _ _ w1 in
      let e3 : (management w2).1.db ≡ w2.db = quiet _ _ w2 in
      elim (Result-cases (access w).0) [
        | inl (e, bad) ↦ ground (arith, bad, e1)
        | inr (t1, good1) ↦ elim (Result-cases (identity w1).0) [
          | inl (e, bad) ↦ ground (arith, good1, bad, e1, e2)
          | inr (t2, good2) ↦ elim (Result-cases (management w2).0) [
            | inl (e, bad) ↦ ground (arith, good1, good2, bad, e1, e2, e3)
            | inr (t3, good3) ↦ ground (arith, good1, good2, good3, e1, e2, e3)
          ]
        ]
      ]

  module _ (family : Text) (w : World) (t : Tokens) where
    abbrev issuing : Result Tokens × World
    issuing = issue hash challenge_of jose issuer family user c nonce scopes token false w

    pub issue-Issued :
        issuing.0 ≡ ok t
        → Issued (hash token) family user c scopes w.now w.db issuing.1.db
          × (t.scope ≡ join_space scopes)
    issue-Issued h = elim (Result-cases (get_account user w).0) [
      | inl (e, bad) ↦ absurd (unfold issue in ground arith)
      | inr (a, known) ↦ elim (Result-cases (get_access user c.project (drawn w)).0) [
        | inl (e, bad) ↦ absurd (unfold issue in ground (arith, known, get_account-drawn user w))
        | inr (roles, access) ↦
            (let w2 = drawn (drawn w) in
              let create = create_refresh (hash token) family user c.id c.project scopes in
              elim (Result-cases (create w2).0) [
                | inl (e, bad) ↦ absurd (
                    unfold issue in
                    ground (
                      arith,
                      known,
                      access,
                      get_account-drawn user w,
                      get_access-drawn user c.project (drawn w),
                    ))
                | inr (_, created) ↦
                    (let last =
                        sign_tokens hash challenge_of jose issuer user c a roles nonce scopes token
                          (create w2).1 in
                      let whole : issuing ≡ last =
                        unfold issue in
                        ground (
                          arith,
                          known,
                          access,
                          created,
                          get_account-drawn user w,
                          get_access-drawn user c.project (drawn w),
                        ) in
                      (
                        rw (whole, db-sign_tokens a roles (create w2).1)
                            (create_refresh-Issued (hash token) family user c scopes w2 created),
                        sign_tokens-scope a roles (create w2).1 t (rw whole at h),
                      ))
              ])
      ]
    ]
