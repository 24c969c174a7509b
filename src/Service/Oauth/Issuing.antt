-- ===== src/Service/Oauth/Issuing.antt =====
-- When the token endpoint returns tokens.
use sso_go.Prelude.{
  Text, ◌==◌, Bool, true, false, some, List, [], Result, ok, ◌≡◌, arith, inl, inr, Result-cases,
  find_where,
}
use sso_go.Db.{Db, Account, Client, CodeRow, RefreshRow}
use sso_go.Action.{World, drawn}
use sso_go.Repo.Tables.{find_account, roles_of, active_verified, get_account, get_access}
use sso_go.Repo.Tables.Reads.{get_account-ok, get_account-drawn, get_access-ok}
use sso_go.Repo.Oauth.{
  AuthorizationCode, RefreshGrant, consume_authorization_code, rotate_refresh, usable_code,
}
use sso_go.Repo.Oauth.Codes.{Redeems, consume_code-ok, db-consume}
use sso_go.Repo.Oauth.Rotation.{Renewed, with_hash, rotate_refresh-Renewed}
use sso_go.Service.Oauth.{Tokens, issue, exchange, refresh, is_verifier}
use sso_go.Token.{Jose}

-- The account is active and verified, and has access to the project.
pub record Admitted (user project : Text) (d : Db) (account : Account) (roles : List Text)
    : Type 0 where
  pub known : find_account user d ≡ some account
  pub admitted : active_verified account ≡ true
  pub has_access : roles_of user project d ≡ some roles

module _ (hash challenge_of : Text → Text) (jose : Jose) (issuer : Text) where
  pub issue-Admitted :
      (family user : Text) (c : Client) (nonce : Text) (scopes : List Text) (token : Text)
      (again : Bool) (w : World) (tokens : Tokens)
      → (issue hash challenge_of jose issuer family user c nonce scopes token again w).0 ≡ ok tokens
      → (account : Account) × (roles : List Text) × Admitted user c.project w.db account roles
  issue-Admitted family user c nonce scopes token again w tokens h =
      elim (Result-cases (get_account user w).0) [
        | inl (e, a) ↦ absurd (unfold issue in ground arith)
        | inr (account, a) ↦ elim (Result-cases (get_access user c.project (drawn w)).0) [
          | inl (e, r) ↦ absurd (unfold issue in ground (arith, a, get_account-drawn user w))
          | inr (roles, r) ↦ (
            account,
            roles,
            record {
              known = get_account-ok user w account a;
              admitted = unfold issue in ground (arith, a, get_account-drawn user w);
              has_access = get_access-ok user c.project (drawn w) roles r;
            },
          )
        ]
      ]

  module _ (token family : Text) (c : Client) (code redirect verifier : Text) (w : World)
      (tokens : Tokens) where
    abbrev pub right_verifier : Text → Bool
    right_verifier expected = challenge_of verifier == expected

    abbrev consumed : Result AuthorizationCode × World
    consumed = consume_authorization_code (hash code) c.id redirect right_verifier w

    -- Exchange returns tokens only for a live code of this client and redirect URI, whose challenge
    -- is that of the verifier, and to an active, verified account with access to the project.
    pub exchange-Redeems :
        (exchange hash challenge_of jose issuer token family c code redirect verifier w).0
          ≡ ok tokens
        → (row : CodeRow) × (grant : AuthorizationCode) × (account : Account) × (roles : List Text)
          × (find_where (usable_code (hash code) w.now) w.db.codes ≡ some row)
          × Redeems (hash code) c.id redirect right_verifier w.now row grant
          × (is_verifier verifier ≡ true)
          × Admitted grant.account c.project w.db account roles
    exchange-Redeems h = elim (Result-cases consumed.0) [
      | inl (e, g) ↦ absurd (unfold exchange in ground (arith, g))
      | inr (grant, g) ↦
          (let (row, found, redeems, _) =
              consume_code-ok (hash code) c.id redirect right_verifier w grant g in
            let issued : (issue hash challenge_of jose issuer family grant.account c grant.nonce
                  grant.scopes token false consumed.1).0
                ≡ ok tokens =
              unfold exchange in ground (arith, g) in
            let (account, roles, admitted) =
              issue-Admitted family grant.account c grant.nonce grant.scopes token false consumed.1
                tokens issued in
            let same = db-consume (hash code) c.id redirect right_verifier w grant g in
            (
              row,
              grant,
              account,
              roles,
              found,
              redeems,
              unfold exchange in ground arith,
              record {
                known = rw same at admitted.known;
                admitted = admitted.admitted;
                has_access = rw same at admitted.has_access;
              },
            ))
    ]

  module _ (next : Text) (c : Client) (raw : Text) (w : World) where
    abbrev rotated : Result RefreshGrant × World
    rotated = rotate_refresh (hash raw) (hash next) c.id c.project w.now w

    -- Refresh returns tokens only for a live token of this client, which it replaces, and to an
    -- active, verified account with access to the project.
    pub refresh-Renewed :
        (tokens : Tokens)
        → (refresh hash challenge_of jose issuer next c raw w).0 ≡ ok tokens
        → (r : RefreshRow) × (account : Account) × (roles : List Text) × (find_where
              (with_hash (hash raw))
              w.db.refresh
            ≡ some r)
          × (r.client_id ≡ c.id)
          × Renewed
              (hash raw)
              (hash next)
              c.id
              c.project
              w.now
              w.now
              w.db
              rotated.1.db
              r
              (rotated.0)
          × Admitted r.account_id c.project w.db account roles
    refresh-Renewed tokens h = elim (Result-cases rotated.0) [
      | inl (e, g) ↦ absurd (unfold refresh in ground (arith, g))
      | inr (grant, g) ↦
          (let (r, found, own, _, made) =
              rotate_refresh-Renewed (hash raw) (hash next) c.id c.project w.now w grant g in
            let issued : (issue hash challenge_of jose issuer [] grant.account c [] grant.scopes
                  next true rotated.1).0
                ≡ ok tokens =
              unfold refresh in ground (arith, g) in
            let (account, roles, admitted) =
              issue-Admitted [] grant.account c [] grant.scopes next true rotated.1 tokens issued in
            let user : grant.account ≡ r.account_id = ground (arith, made.result) in
            (
              r,
              account,
              roles,
              found,
              own,
              rw g made,
              record {
                known = rw (user, made.tables) at admitted.known;
                admitted = admitted.admitted;
                has_access = rw (user, made.tables) at admitted.has_access;
              },
            ))
    ]
