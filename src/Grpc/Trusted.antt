-- ===== src/Grpc/Trusted.antt =====
-- Whose calls the management service obeys.
use sso_go.Prelude.{
  refl, mem, [], ◌∷◌, ◌==◌, ℕ, Text, codes, Bool, ◌++◌, Result, ◌≡◌, ◌⊎◌, arith, inl, inr,
  Result-cases,
}
use sso_go.Action.{World, drawn}
use sso_go.Repo.Tables.{get_client}
use sso_go.Repo.Tables.Reads.{get_client-drawn, get_account-drawn, get_access-drawn}
use sso_go.Token.{Jose, Claims, get, verify}
use sso_go.Token.Trust.{verify-tables}
use sso_go.Security.Password.{trim_prefix}
use sso_go.Service.Management.{Actor, authenticate, subject}
use sso_go.Service.Management.Authentication.{Trusted, authenticate-Trusted}
use sso_go.Grpc.{
  Call, Method, name_of, get_user, update_profile, list_requests, approve, set_roles, revoke, field,
  first, needs_admin, actor, handle,
}

-- the methods that are an administrator's, by their names
abbrev pub for_admins : Method → Bool
for_admins m =
    mem (name_of m)
      (codes "ListRequests" ∷ codes "ApproveRequest" ∷ codes "SetRoles" ∷ codes "RevokeAccess" ∷ [])

for_admins_lem : (m : Method) → needs_admin m ≡ for_admins m
unfolding mem ◌==◌
for_admins_lem get_user = refl
for_admins_lem update_profile = refl
for_admins_lem list_requests = refl
for_admins_lem approve = refl
for_admins_lem set_roles = refl
for_admins_lem revoke = refl

module _ (hash : Text → Text) (jose : Jose) (issuer : Text) where
  module _ (project client_id secret bearer : Text) (admin : Bool) (w : World) where
    abbrev checked : Result Claims × World
    checked = verify jose issuer bearer (issuer ++ codes "/grpc") (codes "at+jwt") (drawn w)

    -- Authenticate changes no table.
    authenticate-tables :
        (authenticate hash jose issuer project client_id secret bearer admin w).1.db ≡ w.db
    authenticate-tables =
        let same =
          verify-tables jose issuer (issuer ++ codes "/grpc") (codes "at+jwt") (drawn w) bearer in
        let p' = get_client-drawn client_id w in
        elim (Result-cases (get_client client_id w).0) [
          | inl (e, p) ↦ unfold authenticate in ground (arith, p, p')
          | inr (c, p) ↦ elim (Result-cases checked.0) [
            | inl (e, q) ↦ unfold authenticate in ground (arith, p, q, p', same)
            | inr (cl, q) ↦
                (let user = subject (get (codes "sub") cl) in
                  let r' = get_account-drawn user checked.1 in
                  let s' = get_access-drawn user project (drawn checked.1) in
                  unfold authenticate in ground (arith, p, q, p', same, r', s'))
          ]
        ]

  -- A call changes a table only for a service that showed its secret, for its own project, and an
  -- account that its management token speaks for, with access to the project, and as an
  -- administrator for ListRequests, ApproveRequest, SetRoles and RevokeAccess.
  pub handle-Trusted :
      (event_id : Text) (ids : ℕ → Text) (m : Method) (c : Call) (w : World)
      → ((handle hash jose issuer event_id ids m c w).1.db ≡ w.db)
        ⊎ ((a : Actor) × Trusted hash jose issuer
              (field c.request (codes "project_id"))
              (first (c.metadata (codes "x-client-id")))
              (first (c.metadata (codes "x-client-secret")))
              (trim_prefix (first (c.metadata (codes "authorization"))) (codes "Bearer "))
              (for_admins m)
              w
              a)
  unfolding handle actor
  handle-Trusted event_id ids m c w =
      let project = field c.request (codes "project_id") in
      let id = first (c.metadata (codes "x-client-id")) in
      let secret = first (c.metadata (codes "x-client-secret")) in
      let bearer = trim_prefix (first (c.metadata (codes "authorization"))) (codes "Bearer ") in
      elim (Result-cases
        (authenticate hash jose issuer project id secret bearer (needs_admin m) w).0) [
          | inl (e, refused) ↦
              inl (rw refused (authenticate-tables project id secret bearer (needs_admin m) w))
          | inr (a, admitted) ↦ inr (
            a,
            rw (← for_admins_lem m) (
                authenticate-Trusted hash jose issuer project id secret bearer (needs_admin m) w a
                  admitted),
          )
        ]
