-- ===== src/Repo/Admin/Granted.antt =====
-- What GrantAccess and RevokeAccess leave in the tables.
use sso_go.Prelude.{
  ℕ, Text, codes, ◌&&◌, true, none, some, is_some, List, [], ◌∷◌, ok, ◌≡◌, refl, arith, inl, inr,
  Option-cases, find_where, find_where-some, Result-cases, find_where-update_keep,
  find_where-append, any_where-find, find_where-update_none, find_where-delete_none, update_where,
  delete_where, eq_refl,
}
use sso_go.Db.{access_revoked, Db, Payload, Account}
use sso_go.Action.{World}
use sso_go.Action.Run.{run-eq-ok}
use sso_go.Repo.Oauth.{revoke_at}
use sso_go.Repo.Tables.{find_account, find_access, roles_of, access_is, active_verified}
use sso_go.Repo.Events.{account_payload, user_payload}
use sso_go.Repo.Events.Frame.{Tx-cases, EventsOnly, audit_event-EventsOnly}
use sso_go.Repo.Identity.{request_of, is_pending}
use sso_go.Repo.Admin.{
  upsert_access, with_roles, approve, granted_kind, grant_access, remove_access, unrevoked_for,
}

-- After the upsert the account has exactly these roles in the project.
upsert_access-roles :
    (user project : Text) (roles : List Text) (now : ℕ) (d d' : Db)
    → upsert_access user project roles now d ≡ ok (tt, d')
    → roles_of user project d' ≡ some roles
unfolding upsert_access find_where
upsert_access-roles user project roles now d d' h =
    let q = access_is user project in
    let kept = find_where-update_keep q q (with_roles roles) d.access (λ _ _. refl) in
    let new =
      find_where-append q d.access
        (record { account_id = user; project_id = project; roles = roles } ∷ []) in
    let known = any_where-find q d.access in
    elim (Option-cases (find_where q d.access)) [
      | inl missing ↦ ground (arith, new, known, eq_refl user, eq_refl project)
      | inr (a, found) ↦ ground (arith, kept, known, find_where-some q d.access a found)
    ]

-- reading an account writes nothing
account_payload-tables :
    (user : Text) (roles : List Text) (now : ℕ) (d d' : Db) (p : Payload)
    → account_payload user roles now d ≡ ok (p, d')
    → d' ≡ d
unfolding account_payload
account_payload-tables user roles now d d' p h = ground arith

module _ (event_id actor user project : Text) (roles : List Text) (w : World)
    (h : (grant_access event_id actor user project roles w).0 ≡ ok tt) where
  -- the tables before the audit, from those after the upsert
  abbrev decided : Db → Db
  decided d = record d {
    requests =
        update_where (λ q. request_of user project q && is_pending q.status) (approve w.now)
          d.requests;
  }

  abbrev after : Db
  after = (grant_access event_id actor user project roles w).1.db

  granted_account : (a : Account) × (find_account user w.db ≡ some a) × (active_verified a ≡ true)
  unfolding grant_access
  granted_account = elim (Option-cases (find_account user w.db)) [
    | inl missing ↦ absurd (ground (arith, run-eq-ok _ w tt h))
    | inr (a, found) ↦ (a, found, ground (arith, run-eq-ok _ w tt h))
  ]

  upserted : (d1 : Db) × (upsert_access user project roles w.now w.db ≡ ok (tt, d1))
  unfolding grant_access
  upserted = elim (Tx-cases (upsert_access user project roles w.now w.db)) [
    | inl (e, bad) ↦ absurd (ground (arith, run-eq-ok _ w tt h))
    | inr good ↦ good
  ]

  audited :
      (d1 : Db)
      → upsert_access user project roles w.now w.db ≡ ok (tt, d1)
      → EventsOnly (decided d1) after
  unfolding grant_access
  audited d1 up = elim (Result-cases (account_payload user roles w.now (decided d1))) [
    | inl (e, bad) ↦ absurd (ground (arith, run-eq-ok _ w tt h))
    | inr ((payload, d3), good) ↦
        (let same = account_payload-tables user roles w.now (decided d1) d3 payload good in
          audit_event-EventsOnly event_id project user actor (codes "sso-admin")
            (granted_kind (is_some (find_access user project w.db))) payload w.now (decided d1)
            after (ground (arith, same, run-eq-ok _ w tt h)))
  ]

  -- A grant that succeeded was to an active, verified account, which then has exactly these roles.
  pub grant_access-roles :
      (a : Account) × (find_account user w.db ≡ some a)
      × (active_verified a ≡ true)
      × (roles_of user project after ≡ some roles)
  grant_access-roles =
      let (a, found, good) = granted_account in
      let (d1, up) = upserted in
      (
        a,
        found,
        good,
        rw (audited d1 up).access (upsert_access-roles user project roles w.now w.db d1 up),
      )

module _ (event_id actor client user project : Text) (now : ℕ) (d d' : Db)
    (h : remove_access event_id actor client user project now d ≡ ok (tt, d')) where
  -- Revoking leaves no access of the account to the project, and no unrevoked refresh token of it
  -- for the project.
  pub remove_access-none :
      (find_access user project d' ≡ none)
      × (find_where (unrevoked_for user project) d'.refresh ≡ none)
  remove_access-none =
      let d1 : Db = record d {
        access = delete_where (access_is user project) d.access;
        refresh = update_where (unrevoked_for user project) (revoke_at now) d.refresh;
      } in
      let same =
        audit_event-EventsOnly event_id project user actor client access_revoked (user_payload user)
          now d1 d' (unfold remove_access in ground arith) in
      (
        rw same.access (
            find_where-delete_none (access_is user project) (access_is user project) d.access
              (λ _ g. g)),
        rw same.refresh (
            find_where-update_none (unrevoked_for user project) (unrevoked_for user project)
              (revoke_at now) d.refresh (λ _ g. ground arith) (λ _ g. g)),
      )
