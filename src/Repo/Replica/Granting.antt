-- ===== src/Repo/Replica/Granting.antt =====
-- Operations that give an account roles in a project keep the feed true.
use sso_go.Prelude.{
  ℕ, Text, codes, ◌==◌, Bool, true, false, ◌&&◌, Option, some, is_some, List, ok, find_where,
  update_where, ◌≡◌, refl, arith, Option-cases, Result-cases, inl, inr, any_where-find,
}
use sso_go.Db.{Db, access_granted, roles_changed, Payload}
use sso_go.Tx.{Tx, ◌>>◌, pure}
use sso_go.Action.Run.{run-keeps}
use sso_go.Action.Keeps.{Keeps}
use sso_go.Repo.Tables.{find_account, find_access, access_is}
use sso_go.Repo.Events.{account_payload, audit_event}
use sso_go.Repo.Events.Frame.{Tx-cases}
use sso_go.Repo.Identity.{request_of, is_pending}
use sso_go.Repo.Admin.{grant_access, granted_kind, approve, upsert_access, with_roles}
use sso_go.Repo.Management.{approve_request, decidable, set_project_roles}
use sso_go.Repo.Replica.{roles_in, apply_event, Mirrors}
use sso_go.Repo.Replica.Replaying.{audit_event-Mirrors, is_plain}
use sso_go.Repo.Replica.Access.{upsert_access-roles_of, upsert_access-sync, roles_at-update}

-- AccountPayload carries the roles.
pub account_payload-roles_in :
    (user : Text) (roles : List Text) (now : ℕ) (d d' : Db) (p : Payload)
    → account_payload user roles now d ≡ ok (p, d')
    → (d' ≡ d) × (roles_in p ≡ some roles)
unfolding account_payload roles_in ◌==◌
account_payload-roles_in user roles now d d' p h = ground arith

granted_kind-says :
    (known : Bool) (payload : Payload) (roles : List Text)
    → roles_in payload ≡ some roles
    → (is_plain (granted_kind known) ≡ true)
      × ((old : Option (List Text)) → apply_event (granted_kind known) payload old ≡ some roles)
granted_kind-says true payload roles h = (refl, λ old. rw h refl)
granted_kind-says false payload roles h = (refl, λ old. rw h refl)

pub grant_access-Mirrors :
    (event_id actor user project : Text) (roles : List Text)
    → Keeps Mirrors (grant_access event_id actor user project roles)
unfolding grant_access
grant_access-Mirrors event_id actor user project roles w mirrors =
    run-keeps Mirrors _ w
      (λ t d' h.
        let known = is_some (find_access user project w.db) in
        elim (Option-cases (find_account user w.db)) [
          | inl missing ↦ absurd (ground arith)
          | inr (a, found) ↦ elim (Tx-cases (upsert_access user project roles w.now w.db)) [
            | inl (e, bad) ↦ absurd (ground arith)
            | inr (d1, up) ↦
                (let d2 : Db = record d1 {
                  requests =
                      update_where (λ q. request_of user project q && is_pending q.status)
                        (approve w.now) d1.requests;
                } in
                  elim (Result-cases (account_payload user roles w.now d2)) [
                    | inl (e, bad) ↦ absurd (ground arith)
                    | inr ((payload, d3), good) ↦
                        (let (same, carries) =
                            account_payload-roles_in user roles w.now d2 d3 payload good in
                          let (plain, says) = granted_kind-says known payload roles carries in
                          audit_event-Mirrors event_id actor (codes "sso-admin") project
                            (granted_kind known) user payload w.now (some roles) w.db d2 d' mirrors
                            (upsert_access-roles_of user project roles w.now w.db d1 up)
                            (upsert_access-sync user project roles w.now w.db d1 up) plain says
                            (ground (arith, same)))
                  ])
          ]
        ])
      mirrors

-- a transaction that returns a value at its end
pub last_statement :
    (m : Tx (Unit {0})) (payload t : Payload) (now : ℕ) (d d' : Db)
    → (m >> pure payload) now d ≡ ok (t, d')
    → m now d ≡ ok (tt, d')
last_statement m payload t now d d' h = elim (Tx-cases (m now d)) [
  | inl (e, bad) ↦ absurd (ground arith)
  | inr (d1, good) ↦ ground arith
]

pub approve_request-Mirrors :
    (event_id actor client project request : Text) (roles : List Text)
    → Keeps Mirrors (approve_request event_id actor client project request roles)
unfolding approve_request
approve_request-Mirrors event_id actor client project request roles w mirrors =
    run-keeps Mirrors _ w
      (λ t d' h. elim (Option-cases (find_where (decidable request project) w.db.requests)) [
        | inl missing ↦ absurd (ground arith)
        | inr (q, found) ↦
            (let d1 : Db = record w.db {
              requests = update_where (decidable request project) (approve w.now) w.db.requests;
            } in
              let user = q.account_id in
              elim (Tx-cases (upsert_access user project roles w.now d1)) [
                | inl (e, bad) ↦ absurd (ground arith)
                | inr (d2, up) ↦ elim (Result-cases (account_payload user roles w.now d2)) [
                  | inl (e, bad) ↦ absurd (ground arith)
                  | inr ((payload, d3), good) ↦
                      (let (same, carries) =
                          account_payload-roles_in user roles w.now d2 d3 payload good in
                        audit_event-Mirrors event_id actor client project access_granted user
                          payload w.now (some roles) w.db d2 d' mirrors
                          (upsert_access-roles_of user project roles w.now d1 d2 up)
                          (upsert_access-sync user project roles w.now d1 d2 up) refl
                          (λ old. rw carries refl)
                          (last_statement
                            (audit_event event_id actor client project access_granted user payload)
                            payload t w.now d2 d' (ground (arith, same))))
                ]
              ])
      ])
      mirrors

pub set_project_roles-Mirrors :
    (event_id actor client project id : Text) (roles : List Text)
    → Keeps Mirrors (set_project_roles event_id actor client project id roles)
unfolding set_project_roles
set_project_roles-Mirrors event_id actor client project id roles w mirrors =
    run-keeps Mirrors _ w
      (λ t d' h.
        let known = any_where-find (access_is id project) w.db.access in
        elim (Option-cases (find_where (access_is id project) w.db.access)) [
          | inl missing ↦ absurd (ground (arith, known))
          | inr (a, found) ↦
              (let d1 : Db = record w.db {
                access = update_where (access_is id project) (with_roles roles) w.db.access;
              } in
                elim (Result-cases (account_payload id roles w.now d1)) [
                  | inl (e, bad) ↦ absurd (ground (arith, known))
                  | inr ((payload, d2), good) ↦
                      (let (same, carries) =
                          account_payload-roles_in id roles w.now d1 d2 payload good in
                        audit_event-Mirrors event_id actor client project roles_changed id payload
                          w.now (some roles) w.db d1 d' mirrors
                          (λ u p.
                            roles_at-update id project u p (with_roles roles) w.db.access a
                              (λ _. refl) found)
                          refl refl (λ old. rw carries refl)
                          (last_statement
                            (audit_event event_id actor client project roles_changed id payload)
                            payload t w.now d1 d' (ground (arith, same, known))))
                ])
        ])
      mirrors
