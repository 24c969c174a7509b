-- ===== src/Service/Oauth/Granting.antt =====
-- When Authorize gives out a code, and what it stores for it.
use sso_go.Prelude.{
  Text, mem, true, false, some, is_some, List, [], ◌∷◌, ◌++◌, ok, ◌≡◌, arith, inl, inr,
  Result-cases,
}
use sso_go.Db.{Db, Account, Client}
use sso_go.Action.{World, drawn}
use sso_go.Repo.Tables.{
  has_account, has_client, find_client, find_account, roles_of, active_verified, get_client,
  get_account, get_access,
}
use sso_go.Repo.Tables.Reads.{
  get_client-ok, get_client-drawn, get_account-ok, get_account-drawn, get_access-ok,
  get_access-drawn,
}
use sso_go.Repo.Oauth.{code_row, has_code, create_authorization_code}
use sso_go.Repo.Oauth.Codes.{create_authorization_code-ok, create_authorization_code-checked}
use sso_go.Service.Oauth.{AuthorizeInput, authorize, good_request, code_for}

-- What holds when Authorize returns a code: `d'` are the tables that it leaves.
pub record Authorized (hash : Text → Text) (code : Text) (i : AuthorizeInput) (w : World) (d' : Db)
    (client : Client) (account : Account) : Type 0 where
  pub well_formed : good_request i ≡ true
  pub registered : find_client i.client_id w.db ≡ some client
  pub redirect_registered : mem i.redirect client.redirects ≡ true
  pub known : find_account i.user w.db ≡ some account
  pub admitted : active_verified account ≡ true
  pub has_access : is_some (roles_of i.user client.project w.db) ≡ true
  -- no other code has this hash
  pub fresh : has_code (hash code) w.db ≡ false
  pub referenced : (has_account i.user w.db ≡ true) × (has_client client.id w.db ≡ true)
  pub stored :
      d' ≡ record w.db { codes = w.db.codes ++ code_row (hash code) (code_for i client) w.now ∷ [] }

module _ (hash : Text → Text) (code : Text) (i : AuthorizeInput) (w : World) (issued : Text)
    (h : (authorize hash code i w).0 ≡ ok issued) where
  pub authorize-code : issued ≡ code
  unfolding authorize
  authorize-code = ground arith

  allowed :
      (client : Client) (account : Account)
      → (get_client i.client_id w).0 ≡ ok client
      → (get_account i.user (drawn w)).0 ≡ ok account
      → (roles : List Text) × ((get_access i.user client.project (drawn (drawn w))).0 ≡ ok roles)
  unfolding authorize
  allowed client account c a =
      elim (Result-cases (get_access i.user client.project (drawn (drawn w))).0) [
        | inl (e, r) ↦ absurd (
            ground
              (arith, c, a, r, get_client-drawn i.client_id w, get_account-drawn i.user (drawn w)))
        | inr (roles, r) ↦ (roles, r)
      ]

  inserts :
      (client : Client) (account : Account) (roles : List Text)
      → (get_client i.client_id w).0 ≡ ok client
      → (get_account i.user (drawn w)).0 ≡ ok account
      → (get_access i.user client.project (drawn (drawn w))).0 ≡ ok roles
      → (create_authorization_code (hash code) (code_for i client) (drawn (drawn (drawn w)))).0
        ≡ ok tt
  unfolding authorize
  inserts client account roles c a r = ground (
    arith,
    c,
    a,
    r,
    get_client-drawn i.client_id w,
    get_account-drawn i.user (drawn w),
    get_access-drawn i.user client.project (drawn (drawn w)),
  )

  stores :
      (client : Client) (account : Account) (roles : List Text)
      → (get_client i.client_id w).0 ≡ ok client
      → (get_account i.user (drawn w)).0 ≡ ok account
      → (get_access i.user client.project (drawn (drawn w))).0 ≡ ok roles
      → (authorize hash code i w).1.db
        ≡ record w.db { codes = w.db.codes ++ code_row (hash code) (code_for i client) w.now ∷ [] }
  unfolding authorize
  stores client account roles c a r =
      let w' = drawn (drawn (drawn w)) in
      ground (
        arith,
        c,
        a,
        r,
        get_client-drawn i.client_id w,
        get_account-drawn i.user (drawn w),
        get_access-drawn i.user client.project (drawn (drawn w)),
        create_authorization_code-ok (hash code) (code_for i client) w',
      )

  -- the same with the code that was drawn
  pub code-Authorized :
      (client : Client) × (account : Account) × Authorized hash code i w
        (authorize hash code i w).1.db
        client
        account
  code-Authorized = elim (Result-cases (get_client i.client_id w).0) [
    | inl (e, c) ↦ absurd (unfold authorize in ground arith)
    | inr (client, c) ↦ elim (Result-cases (get_account i.user (drawn w)).0) [
      | inl (e, a) ↦ absurd (unfold authorize in ground (arith, c, get_client-drawn i.client_id w))
      | inr (account, a) ↦
          (let (roles, r) = allowed client account c a in
            let (fresh, owner, holder) =
              create_authorization_code-checked (hash code) (code_for i client)
                (drawn (drawn (drawn w))) (inserts client account roles c a r) in
            (
              client,
              account,
              record {
                well_formed = unfold authorize in ground arith;
                registered = get_client-ok i.client_id w client c;
                redirect_registered = unfold authorize in ground (arith, c);
                known = get_account-ok i.user (drawn w) account a;
                admitted =
                    unfold authorize in
                    ground (
                      arith,
                      c,
                      a,
                      get_client-drawn i.client_id w,
                      get_account-drawn i.user (drawn w),
                    );
                has_access =
                    ground (arith, get_access-ok i.user client.project (drawn (drawn w)) roles r);
                fresh = fresh;
                referenced = (owner, holder);
                stored = stores client account roles c a r;
              },
            ))
    ]
  ]

  -- Authorize returns a code only to a verified, active account with access to the client's project,
  -- for a redirect URI that is registered for the client; with them it stores the hash of the code
  -- that it returns, which no other code had.
  pub authorize-Authorized :
      (client : Client) × (account : Account) × Authorized hash issued i w
        (authorize hash code i w).1.db
        client
        account
  authorize-Authorized = rw authorize-code code-Authorized
