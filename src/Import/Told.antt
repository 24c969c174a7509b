-- ===== src/Import/Told.antt =====
-- The import keeps the sync feed true to the table of access.
use sso_go.Prelude.{
  ℕ, suc, ◌+◌, Text, codes, Bool, true, none, some, List, [], ◌∷◌, ◌++◌, Result, ok, err, ◌≡◌, ◌⊎◌,
  ◌&&◌, not, eqb, refl, arith, inl, inr, any_where, any_where-find, find_where, Bool-cases,
  Result-cases,
}
use sso_go.Db.{Db, access_granted}
use sso_go.Tx.{gets}
use sso_go.Action.{World, run, drawn, fails}
use sso_go.Action.Run.{run-keeps, run_lem}
use sso_go.Action.Keeps.{Keeps}
use sso_go.Repo.Tables.{has_project, is_active, access_is}
use sso_go.Repo.Events.{account_payload}
use sso_go.Repo.Events.Frame.{Tx-cases}
use sso_go.Repo.Replica.{Mirrors}
use sso_go.Repo.Replica.Replaying.{Mirrors-same, audit_event-Mirrors, Changed}
use sso_go.Repo.Replica.Access.{roles_at-insert}
use sso_go.Repo.Replica.Granting.{account_payload-roles_in}
use sso_go.Import.Users.{LegacyUser}
use sso_go.Import.Writing.{
  main_api, has_old_id, status_of, roles_for, insert_user, insert_access, give_access, add_user,
  import_user, import_users,
}
use sso_go.Import.Running.{Counts, no_counts, preview, write_users, run_import}
use sso_go.Import.Repeat.{db-preview}

insert_access-Changed :
    (id : Text) (roles : List Text) (now : ℕ) (d d' : Db)
    → insert_access id roles now d ≡ ok (tt, d')
    → Changed id main_api (some roles) d d' × (d'.sync ≡ d.sync)
unfolding insert_access
insert_access-Changed id roles now d d' h =
    let q = access_is id main_api in
    let missing : find_where q d.access ≡ none = ground (arith, any_where-find q d.access) in
    let rows : d'.access
        ≡ d.access ++ record { account_id = id; project_id = main_api; roles = roles } ∷ [] =
      ground arith in
    (λ u p. rw rows (roles_at-insert id main_api u p d.access roles missing), ground arith)

give_access-Mirrors :
    (id event_id : Text) (roles : List Text) (now : ℕ) (d d' : Db)
    → Mirrors d
    → give_access id event_id roles now d ≡ ok (tt, d')
    → Mirrors d'
unfolding give_access
give_access-Mirrors id event_id roles now d d' mirrors h =
    elim (Tx-cases (insert_access id roles now d)) [
      | inl (e, bad) ↦ absurd (ground arith)
      | inr (d1, put) ↦ elim (Result-cases (account_payload id roles now d1)) [
        | inl (e, bad) ↦ absurd (ground arith)
        | inr ((payload, d2), good) ↦
            (let (same, carries) = account_payload-roles_in id roles now d1 d2 payload good in
              let (changed, quiet) = insert_access-Changed id roles now d d1 put in
              audit_event-Mirrors event_id [] (codes "legacy-import") main_api access_granted id
                payload now (some roles) d d1 d' mirrors changed quiet refl (λ old. rw carries refl)
                (ground (arith, same)))
      ]
    ]

import_user-Mirrors :
    (id event_id : Text) (u : LegacyUser) (now k : ℕ) (d d' : Db)
    → Mirrors d
    → import_user id event_id u now d ≡ ok (k, d')
    → Mirrors d'
unfolding import_user add_user
import_user-Mirrors id event_id u now k d d' mirrors h =
    elim (Bool-cases (any_where (has_old_id u.old_id) d.accounts)) [
      | inl known ↦ Mirrors-same d d' (ground arith) (ground arith) mirrors
      | inr fresh ↦ elim (Tx-cases (insert_user id u now d)) [
        | inl (e, bad) ↦ absurd (ground arith)
        | inr (d1, put) ↦
            (let mirrors1 =
                Mirrors-same d d1 (unfold insert_user in ground arith)
                  (unfold insert_user in ground arith) mirrors in
              elim (Bool-cases (is_active (status_of u.status))) [
                | inl on ↦ elim (Tx-cases (give_access id event_id (roles_for u) now d1)) [
                  | inl (e, bad) ↦ absurd (ground arith)
                  | inr (d2, given) ↦
                      Mirrors-same d2 d' (ground arith) (ground arith)
                        (give_access-Mirrors id event_id (roles_for u) now d1 d2 mirrors1 given)
                ]
                | inr off ↦ Mirrors-same d1 d' (ground arith) (ground arith) mirrors1
              ])
      ]
    ]

import_users-Mirrors :
    (ids event_ids : ℕ → Text) (users : List LegacyUser) (n now m : ℕ) (d d' : Db)
    → Mirrors d
    → import_users ids event_ids users n now d ≡ ok (m, d')
    → Mirrors d'
unfolding import_users
import_users-Mirrors ids event_ids [] n now m d d' mirrors h =
    Mirrors-same d d' (ground arith) (ground arith) mirrors
import_users-Mirrors ids event_ids (u ∷ users) n now m d d' mirrors h =
    elim (Result-cases (import_user (ids 0) (event_ids 0) u now d)) [
      | inl (e, bad) ↦ absurd (ground arith)
      | inr ((k, d1), one) ↦
          import_users-Mirrors (λ i. ids (suc i)) (λ i. event_ids (suc i)) users (n + k) now m d1 d'
            (import_user-Mirrors (ids 0) (event_ids 0) u now k d d1 mirrors one) (ground arith)
    ]

-- Where the counts and the project let it, the loop runs; nothing else writes.
db-write_users :
    (ids event_ids : ℕ → Text) (users : List LegacyUser) (c : Counts) (w : World)
    → ((write_users ids event_ids users c w).1.db ≡ w.db)
      ⊎ ((write_users ids event_ids users c w).1.db
          ≡ (run (import_users ids event_ids users 0) (drawn w)).1.db)
unfolding write_users
db-write_users ids event_ids users c w =
    let query = run_lem (gets (λ _ d. has_project main_api d)) w in
    elim (Bool-cases (eqb c.conflicts 0 && not (fails w.faults) && has_project main_api w.db)) [
      | inl go ↦ inr (ground (arith, query, go))
      | inr stop ↦ inl (ground (arith, query, stop))
    ]

write_users-Mirrors :
    (ids event_ids : ℕ → Text) (users : List LegacyUser) (c : Counts)
    → Keeps Mirrors (write_users ids event_ids users c)
write_users-Mirrors ids event_ids users c w mirrors =
    let loop = import_users ids event_ids users 0 in
    elim (db-write_users ids event_ids users c w) [
      | inl same ↦ rw same mirrors
      | inr wrote ↦ rw wrote (
          run-keeps Mirrors loop (drawn w)
            (λ m d h. import_users-Mirrors ids event_ids users 0 w.now m w.db d mirrors h) mirrors)
    ]

run_import-db :
    (ids event_ids : ℕ → Text) (apply : Bool) (users : List LegacyUser) (w : World) (c : Counts)
    → (preview users no_counts w).0 ≡ ok c
    → apply ≡ true
    → (run_import ids event_ids apply (ok users) w).1.db
      ≡ (write_users ids event_ids users c (preview users no_counts w).1).1.db
run_import-db ids event_ids apply users w c good on =
    elim (Result-cases (write_users ids event_ids users c (preview users no_counts w).1).0) [
      | inl (e, bad) ↦ unfold run_import in ground (arith, good, bad, on)
      | inr (n, done) ↦ unfold run_import in ground (arith, good, done, on)
    ]

pub run_import-Mirrors :
    (ids event_ids : ℕ → Text) (apply : Bool) (read : Result (List LegacyUser))
    → Keeps Mirrors (run_import ids event_ids apply read)
run_import-Mirrors ids event_ids apply (err e) w mirrors = unfold run_import in mirrors
run_import-Mirrors ids event_ids apply (ok users) w mirrors =
    let w1 = (preview users no_counts w).1 in
    let same = db-preview users no_counts w in
    let mirrors1 : Mirrors w1.db = rw same mirrors in
    elim (Result-cases (preview users no_counts w).0) [
      | inl (e, bad) ↦
          (let d : (run_import ids event_ids apply (ok users) w).1.db ≡ w1.db =
              unfold run_import in ground (arith, bad) in
            rw d mirrors1)
      | inr (c, good) ↦
          (let wrote = write_users-Mirrors ids event_ids users c w1 mirrors1 in
            elim (Bool-cases apply) [
              | inl on ↦
                  (let d : (run_import ids event_ids apply (ok users) w).1.db
                        ≡ (write_users ids event_ids users c w1).1.db =
                      run_import-db ids event_ids apply users w c good on in
                    rw d wrote)
              | inr off ↦
                  (let d : (run_import ids event_ids apply (ok users) w).1.db ≡ w1.db =
                      unfold run_import in ground (arith, good, off) in
                    rw d mirrors1)
            ])
    ]
