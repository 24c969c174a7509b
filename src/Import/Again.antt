-- ===== src/Import/Again.antt =====
-- A second import of the same users.
use sso_go.Prelude.{
  ℕ, ◌+◌, suc, Text, codes, Bool, true, ◌||◌, List, [], ◌∷◌, ◌++◌, ok, ◌≡◌, refl, arith, All, inl,
  inr, any_where, any_where-append, Bool-cases, Result-cases,
}
use sso_go.Db.{Db, Account, access_granted}
use sso_go.Repo.Tables.{is_active}
use sso_go.Repo.Events.{account_payload}
use sso_go.Repo.Events.Frame.{Tx-cases, audit_event-EventsOnly}
use sso_go.Repo.Replica.Granting.{account_payload-roles_in}
use sso_go.Import.Users.{LegacyUser}
use sso_go.Import.Writing.{
  main_api, has_old_id, imported_row, status_of, roles_for, insert_user, insert_access, give_access,
  add_user, import_user, import_users,
}

give_access-accounts :
    (id event_id : Text) (roles : List Text) (now : ℕ) (d d' : Db)
    → give_access id event_id roles now d ≡ ok (tt, d')
    → d'.accounts ≡ d.accounts
unfolding give_access
give_access-accounts id event_id roles now d d' h = elim (Tx-cases (insert_access id roles now d)) [
  | inl (e, bad) ↦ absurd (ground arith)
  | inr (d1, put) ↦ elim (Result-cases (account_payload id roles now d1)) [
    | inl (e, bad) ↦ absurd (ground arith)
    | inr ((payload, d2), good) ↦
        (let (same, _) = account_payload-roles_in id roles now d1 d2 payload good in
          let events =
            audit_event-EventsOnly event_id main_api id [] (codes "legacy-import") access_granted
              payload now d2 d' (ground arith) in
          let kept : d1.accounts ≡ d.accounts = unfold insert_access in ground arith in
          ground (arith, events.accounts, same, kept))
  ]
]

add_user-accounts :
    (id event_id : Text) (u : LegacyUser) (now k : ℕ) (d d' : Db)
    → add_user id event_id u now d ≡ ok (k, d')
    → d'.accounts ≡ d.accounts ++ imported_row id u now ∷ []
unfolding add_user
add_user-accounts id event_id u now k d d' h = elim (Tx-cases (insert_user id u now d)) [
  | inl (e, bad) ↦ absurd (ground arith)
  | inr (d1, put) ↦
      (let rows : d1.accounts ≡ d.accounts ++ imported_row id u now ∷ [] =
          unfold insert_user in ground arith in
        elim (Bool-cases (is_active (status_of u.status))) [
          | inl on ↦ elim (Tx-cases (give_access id event_id (roles_for u) now d1)) [
            | inl (e, bad) ↦ absurd (ground arith)
            | inr (d2, given) ↦
                ground (arith, rows, give_access-accounts id event_id (roles_for u) now d1 d2 given)
          ]
          | inr off ↦ ground (arith, rows)
        ])
]

abbrev pub Known : Db → LegacyUser → Type 0
Known d u = any_where (has_old_id u.old_id) d.accounts ≡ true

abbrev pub Grows : Db → Db → Type 0
Grows d d' = (q : Account → Bool) → any_where q d.accounts ≡ true → any_where q d'.accounts ≡ true

import_user-Known :
    (id event_id : Text) (u : LegacyUser) (now k : ℕ) (d d' : Db)
    → import_user id event_id u now d ≡ ok (k, d')
    → Known d' u × Grows d d'
unfolding import_user
import_user-Known id event_id u now k d d' h =
    elim (Bool-cases (any_where (has_old_id u.old_id) d.accounts)) [
      | inl known ↦ (ground arith, λ q g. ground arith)
      | inr fresh ↦
          (let added : add_user id event_id u now d ≡ ok (k, d') = ground arith in
            let rows = add_user-accounts id event_id u now k d d' added in
            let more : (q : Account → Bool)
                → any_where q d'.accounts
                  ≡ (any_where q d.accounts || any_where q (imported_row id u now ∷ [])) =
              λ q. rw rows (any_where-append q d.accounts (imported_row id u now ∷ [])) in
            (
              unfold any_where in ground (arith, more (has_old_id u.old_id)),
              λ q g. ground (arith, more q, g),
            ))
    ]

pub import_users-Known :
    (ids event_ids : ℕ → Text) (users : List LegacyUser) (n now m : ℕ) (d d' : Db)
    → import_users ids event_ids users n now d ≡ ok (m, d')
    → All (Known d') users × Grows d d'
unfolding import_users
import_users-Known ids event_ids [] n now m d d' h = (tt, λ q g. ground arith)
import_users-Known ids event_ids (u ∷ users) n now m d d' h =
    elim (Result-cases (import_user (ids 0) (event_ids 0) u now d)) [
      | inl (e, bad) ↦ absurd (ground arith)
      | inr ((k, d1), one) ↦
          (let (here, grows) = import_user-Known (ids 0) (event_ids 0) u now k d d1 one in
            let (rest, grows') =
              import_users-Known (λ i. ids (suc i)) (λ i. event_ids (suc i)) users (n + k) now m d1
                d' (ground arith) in
            ((grows' (has_old_id u.old_id) here, rest), λ q g. grows' q (grows q g)))
    ]

-- Where every user is known, the loop imports none.
pub import_users-none :
    (ids event_ids : ℕ → Text) (users : List LegacyUser) (n now : ℕ) (d : Db)
    → All (Known d) users
    → import_users ids event_ids users n now d ≡ ok (n, d)
unfolding import_users import_user
import_users-none ids event_ids [] n now d known = refl
import_users-none ids event_ids (u ∷ users) n now d (here, rest) = ground (
  arith,
  here,
  import_users-none (λ i. ids (suc i)) (λ i. event_ids (suc i)) users (n + 0) now d rest,
)
