-- ===== src/Service/Management/Authentication.antt =====
-- Whom Authenticate lets act for a project.
use sso_go.Prelude.{
  Text, codes, Bool, true, some, List, ◌++◌, Result, ok, ◌≡◌, ◌∙◌, sym, ap, arith, inl, inr,
  Result-cases, eq_iff,
}
use sso_go.Db.{Account, Client}
use sso_go.Action.{World, drawn}
use sso_go.Repo.Tables.{
  find_client, find_account, roles_of, active_verified, get_client, get_account, get_access,
}
use sso_go.Repo.Tables.Reads.{
  get_client-ok, get_client-drawn, get_account-ok, get_account-drawn, get_access-ok,
}
use sso_go.Token.{Jose, Claims, get, is_text, verify}
use sso_go.Token.Trust.{Genuine, verify-Genuine, verify-tables}
use sso_go.Service.Management.{Actor, authenticate, subject, has_role}

-- The actor is a service with its secret, for its own project, with a genuine management token of
-- an active, verified account that has access to the project.
pub record Trusted (hash : Text → Text) (jose : Jose)
    (issuer project client_id secret bearer : Text) (admin : Bool) (w : World) (actor : Actor)
    : Type 0 where
  pub client : Client
  pub registered : find_client client_id w.db ≡ some client
  pub own_project : client.project ≡ project
  pub secret_right : client.secret_hash ≡ hash secret
  pub claims : Claims
  pub genuine :
      Genuine jose issuer bearer (issuer ++ codes "/grpc") (codes "at+jwt") w.now w.db.keys claims
  pub for_client : is_text client_id (get (codes "client_id") claims) ≡ true
  pub for_project : is_text project (get (codes "project_id") claims) ≡ true
  pub subject_eq : subject (get (codes "sub") claims) ≡ actor.user
  pub account : Account
  pub known : find_account actor.user w.db ≡ some account
  pub admitted : active_verified account ≡ true
  pub has_access : roles_of actor.user project w.db ≡ some actor.roles
  pub client_eq : actor.client ≡ client.id
  pub project_eq : actor.project ≡ project
  pub is_admin : admin ≡ true → has_role actor.roles (codes "admin") ≡ true

module _ (hash : Text → Text) (jose : Jose) (issuer project client_id secret bearer : Text)
    (admin : Bool) (w : World) (actor : Actor)
    (h : (authenticate hash jose issuer project client_id secret bearer admin w).0 ≡ ok actor) where
  abbrev checked : Result Claims × World
  checked = verify jose issuer bearer (issuer ++ codes "/grpc") (codes "at+jwt") (drawn w)

  abbrev same_tables : (checked.1.db ≡ (drawn w).db) × (checked.1.now ≡ (drawn w).now)
  same_tables =
      verify-tables jose issuer (issuer ++ codes "/grpc") (codes "at+jwt") (drawn w) bearer

  trusted :
      (c : Client) (cl : Claims) (a : Account) (roles : List Text)
      → (get_client client_id w).0 ≡ ok c
      → checked.0 ≡ ok cl
      → (get_account (subject (get (codes "sub") cl)) checked.1).0 ≡ ok a
      → (get_access (subject (get (codes "sub") cl)) project (drawn checked.1)).0 ≡ ok roles
      → Trusted hash jose issuer project client_id secret bearer admin w actor
  unfolding authenticate
  trusted c cl a roles p q r s =
      let user = subject (get (codes "sub") cl) in
      let p' = get_client-drawn client_id w in
      let r' = get_account-drawn user checked.1 in
      let who : record { user = user; client = c.id; project = project; roles = roles } ≡ actor =
        ground (arith, p, q, r, s, p', r') in
      let by : actor.user ≡ user = sym (ap (λ (x : Actor). x.user) who) in
      let allowed : roles ≡ actor.roles = ap (λ (x : Actor). x.roles) who in
      let tables : w.db ≡ checked.1.db = sym same_tables.0 in
      record {
        client = c;
        registered = get_client-ok client_id w c p;
        own_project = ground (arith, p, eq_iff c.project project);
        secret_right = ground (arith, p, eq_iff c.secret_hash (hash secret));
        claims = cl;
        genuine =
            verify-Genuine jose issuer bearer (issuer ++ codes "/grpc") (codes "at+jwt") (drawn w)
              cl q;
        for_client = ground (arith, p, q, p');
        for_project = ground (arith, p, q, p');
        subject_eq = ap (λ (x : Actor). x.user) who;
        account = a;
        known = rw (by, tables) (get_account-ok user checked.1 a r);
        admitted = ground (arith, p, q, r, p', r');
        has_access =
            rw (by, tables)
              (get_access-ok user project (drawn checked.1) roles s ∙ ap some allowed);
        client_eq = sym (ap (λ (x : Actor). x.client) who);
        project_eq = sym (ap (λ (x : Actor). x.project) who);
        is_admin = λ needed. rw (sym allowed) (ground (arith, p, q, r, s, p', r'));
      }

  rest :
      (c : Client) (cl : Claims)
      → (get_client client_id w).0 ≡ ok c
      → checked.0 ≡ ok cl
      → Trusted hash jose issuer project client_id secret bearer admin w actor
  rest c cl p q =
      let user = subject (get (codes "sub") cl) in
      let p' = get_client-drawn client_id w in
      let r' = get_account-drawn user checked.1 in
      elim (Result-cases (get_account user checked.1).0) [
        | inl (e, r) ↦ absurd (unfold authenticate in ground (arith, p, q, r, p'))
        | inr (a, r) ↦ elim (Result-cases (get_access user project (drawn checked.1)).0) [
          | inl (e, s) ↦ absurd (unfold authenticate in ground (arith, p, q, r, s, p', r'))
          | inr (roles, s) ↦ trusted c cl a roles p q r s
        ]
      ]

  -- Authenticate lets only trusted actors act.
  pub authenticate-Trusted : Trusted hash jose issuer project client_id secret bearer admin w actor
  authenticate-Trusted = elim (Result-cases (get_client client_id w).0) [
    | inl (e, p) ↦ absurd (unfold authenticate in ground (arith, p))
    | inr (c, p) ↦ elim (Result-cases checked.0) [
      | inl (e, q) ↦
          absurd (unfold authenticate in ground (arith, p, q, get_client-drawn client_id w))
      | inr (cl, q) ↦ rest c cl p q
    ]
  ]
