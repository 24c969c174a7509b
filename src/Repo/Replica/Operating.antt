-- ===== src/Repo/Replica/Operating.antt =====
-- GrantProjectAdmin keeps the feed true.
use sso_go.Service.Words.{trim}
use sso_go.Prelude.{
  lower, ℕ, Text, codes, some, List, [], ◌∷◌, ◌++◌, update_where, ok, find_where, ◌≡◌, refl, arith,
  Option-cases, Result-cases, inl, inr,
}
use sso_go.Db.{Db, access_granted}
use sso_go.Action.Run.{run-keeps}
use sso_go.Action.Keeps.{Keeps}
use sso_go.Repo.Tables.{find_access, access_is}
use sso_go.Repo.Events.{account_payload}
use sso_go.Repo.Clients.{
  upsert_admin, with_admin, grant_project_admin, active_email, admin_access, add_admin,
}
use sso_go.Repo.Replica.{Mirrors}
use sso_go.Repo.Replica.Replaying.{audit_event-Mirrors, Changed}
use sso_go.Repo.Replica.Access.{roles_at-update, roles_at-insert}
use sso_go.Repo.Replica.Granting.{account_payload-roles_in}

upsert_admin-Changed :
    (user project : Text) (roles : List Text) (now : ℕ) (d d' : Db)
    → upsert_admin user project now d ≡ ok (roles, d')
    → Changed user project (some roles) d d' × (d'.sync ≡ d.sync)
unfolding upsert_admin
upsert_admin-Changed user project roles now d d' h =
    elim (Option-cases (find_access user project d)) [
      | inl missing ↦
          (let rows : d'.access ≡ d.access ++ admin_access user project ∷ [] = ground arith in
            let one : roles ≡ codes "admin" ∷ [] = ground arith in
            (
              λ u p.
                  rw (rows, one)
                    (roles_at-insert user project u p d.access (codes "admin" ∷ []) missing),
              ground arith,
            ))
      | inr (a, found) ↦
          (let rows : d'.access ≡ update_where (access_is user project) with_admin d.access =
              ground arith in
            let all : roles ≡ add_admin a.roles = ground arith in
            (
              λ u p.
                  rw (rows, all)
                    (roles_at-update user project u p with_admin d.access a (λ _. refl) found),
              ground arith,
            ))
    ]

pub grant_project_admin-Mirrors :
    (event_id project email : Text) → Keeps Mirrors (grant_project_admin event_id project email)
unfolding grant_project_admin
grant_project_admin-Mirrors event_id project email w mirrors =
    run-keeps Mirrors _ w
      (λ t d' h.
        elim (Option-cases (find_where (active_email (lower (trim email))) w.db.accounts)) [
          | inl missing ↦ absurd (ground arith)
          | inr (a, found) ↦ elim (Result-cases (upsert_admin a.id project w.now w.db)) [
            | inl (e, bad) ↦ absurd (ground arith)
            | inr ((roles, d1), up) ↦ elim (Result-cases (account_payload a.id roles w.now d1)) [
              | inl (e, bad) ↦ absurd (ground arith)
              | inr ((payload, d2), good) ↦
                  (let (same, carries) =
                      account_payload-roles_in a.id roles w.now d1 d2 payload good in
                    let (changed, quiet) =
                      upsert_admin-Changed a.id project roles w.now w.db d1 up in
                    audit_event-Mirrors event_id (codes "operator") (codes "sso-cli") project
                      access_granted a.id payload w.now (some roles) w.db d1 d' mirrors changed
                      quiet refl (λ old. rw carries refl) (ground (arith, same)))
            ]
          ]
        ])
      mirrors
