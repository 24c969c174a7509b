-- ===== src/Service/Admin/Deciding.antt =====
-- What an administrator's decision leaves in the tables.
use sso_go.Prelude.{
  Text, codes, true, none, some, List, ok, ◌≡◌, sym, arith, map, inl, inr, Result-cases, find_where,
}
use sso_go.Db.{Account}
use sso_go.Action.{World}
use sso_go.Action.Run.{run-eq-ok}
use sso_go.Repo.Tables.{find_account, find_access, roles_of, active_verified}
use sso_go.Repo.Admin.{grant_access, revoke_access, remove_access, unrevoked_for}
use sso_go.Repo.Admin.Granted.{grant_access-roles, remove_access-none}
use sso_go.Service.Words.{split, trim}
use sso_go.Service.Roles.{parse_roles, validate_role_slice}
use sso_go.Service.Roles.Valid.{IsRoleList, parse_roles-eq-validate, validate_role_slice_iff}
use sso_go.Service.Admin.{grant, revoke}

-- the roles that ParseRoles returns are a role list
parse_roles-IsRoleList :
    (raw : Text) (roles : List Text) → parse_roles raw ≡ ok roles → IsRoleList roles
parse_roles-IsRoleList raw roles h =
    let parts = map trim (split b',' raw) in
    let e = parse_roles-eq-validate raw in
    elim (Result-cases (validate_role_slice parts)) [
      | inl (x, bad) ↦ absurd (ground (arith, e, bad))
      | inr (t, good) ↦
          (let same : parts ≡ roles = ground (arith, e, good) in
            rw (sym same) ((validate_role_slice_iff parts).0 good))
    ]

module _ (event_id actor user project raw : Text) (w : World) where
  -- Grant succeeds only with one to ten distinct, well-formed roles for an active, verified account,
  -- which then has exactly these roles in the project.
  pub grant-roles :
      (grant event_id actor user project raw w).0 ≡ ok tt
      → (roles : List Text) × (a : Account) × (parse_roles raw ≡ ok roles)
        × IsRoleList roles
        × (find_account user w.db ≡ some a)
        × (active_verified a ≡ true)
        × (roles_of user project (grant event_id actor user project raw w).1.db ≡ some roles)
  grant-roles h = elim (Result-cases (parse_roles raw)) [
    | inl (e, bad) ↦ absurd (unfold grant in ground (arith, bad))
    | inr (roles, good) ↦
        (let (a, found, active, has) =
            grant_access-roles event_id actor user project roles w
              (unfold grant in ground (arith, good)) in
          let same : (grant event_id actor user project raw w).1
              ≡ (grant_access event_id actor user project roles w).1 =
            unfold grant in ground (arith, good) in
          (roles, a, good, parse_roles-IsRoleList raw roles good, found, active, rw same has))
  ]

module _ (event_id actor user project : Text) (w : World) where
  -- After Revoke the account has no access to the project and no unrevoked refresh token for it.
  pub revoke-none :
      (revoke event_id actor user project w).0 ≡ ok tt
      → (find_access user project (revoke event_id actor user project w).1.db ≡ none)
        × (find_where
              (unrevoked_for user project)
              (revoke event_id actor user project w).1.db.refresh
            ≡ none)
  revoke-none h =
      let done : (revoke_access event_id actor user project w).0 ≡ ok tt =
        unfold revoke in ground arith in
      let same : (revoke event_id actor user project w).1
          ≡ (revoke_access event_id actor user project w).1 =
        unfold revoke in ground arith in
      rw same (
        remove_access-none event_id actor (codes "sso-admin") user project w.now w.db
          (revoke_access event_id actor user project w).1.db
          (unfold revoke_access in
            run-eq-ok (remove_access event_id actor (codes "sso-admin") user project) w tt done))
