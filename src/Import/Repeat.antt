-- ===== src/Import/Repeat.antt =====
-- run of the import, a second time.
use sso_go.Prelude.{
  ℕ, Text, Bool, true, some, List, [], ◌∷◌, ok, ◌≡◌, refl, arith, All, inl, inr, find_where,
  Result-cases,
}
use sso_go.Db.{Db}
use sso_go.Tx.{Tx, gets}
use sso_go.Repo.Tables.{has_project}
use sso_go.Action.{World, run, drawn}
use sso_go.Action.Run.{run-eq-ok, run_lem}
use sso_go.Import.Users.{LegacyUser}
use sso_go.Import.Writing.{main_api, import_users}
use sso_go.Import.Again.{Known, import_users-Known, import_users-none}
use sso_go.Import.Running.{
  Counts, no_counts, same_user, count_account, count_status, preview, write_users, run_import,
}

-- The loop that counts writes nothing.
pub db-preview :
    (users : List LegacyUser) (c : Counts) (w : World) → (preview users c w).1.db ≡ w.db
unfolding preview
db-preview [] c w = refl
db-preview (u ∷ users) c w = ground (
  arith,
  run_lem (gets (λ _ d. find_where (same_user u) d.accounts)) w,
  db-preview users (count_account u (find_where (same_user u) w.db.accounts) (count_status u c))
      (drawn w),
)

module _ (ids event_ids : ℕ → Text) (users : List LegacyUser) (c : Counts) (w : World) where
  abbrev loop : Tx ℕ
  loop = import_users ids event_ids users 0

  -- a run that wrote has run the loop
  writes :
      (n : ℕ)
      → (write_users ids event_ids users c w).0 ≡ ok n
      → ((run loop (drawn w)).0 ≡ ok n)
        × ((write_users ids event_ids users c w).1 ≡ (run loop (drawn w)).1)
  unfolding write_users
  writes n h = ground (arith, run_lem (gets (λ _ d. has_project main_api d)) w)

  write_users-Known :
      (n : ℕ)
      → (write_users ids event_ids users c w).0 ≡ ok n
      → All (Known (write_users ids event_ids users c w).1.db) users
  write_users-Known n h =
      let (done, same) = writes n h in
      let loop_done = run-eq-ok loop (drawn w) n done in
      rw same
        (import_users-Known ids event_ids users 0 w.now n w.db (run loop (drawn w)).1.db
          loop_done).0

  write_users-none : All (Known w.db) users → (write_users ids event_ids users c w).1.db ≡ w.db
  unfolding write_users
  write_users-none known = ground (
    arith,
    run_lem (gets (λ _ d. has_project main_api d)) w,
    run_lem loop (drawn w),
    import_users-none ids event_ids users 0 w.now w.db known,
  )

Known-same :
    (users : List LegacyUser) (d d' : Db)
    → d'.accounts ≡ d.accounts
    → All (Known d) users
    → All (Known d') users
Known-same [] d d' same known = tt
Known-same (u ∷ users) d d' same (here, rest) = (rw same here, Known-same users d d' same rest)

module _ (ids event_ids : ℕ → Text) (users : List LegacyUser) (w : World) where
  -- what a run with -apply that succeeded has done: it run_inv, and wrote
  run_inv :
      (c : Counts) (n : ℕ)
      → (run_import ids event_ids true (ok users) w).0 ≡ ok (c, some n)
      → ((write_users ids event_ids users c (preview users no_counts w).1).0 ≡ ok n)
        × ((run_import ids event_ids true (ok users) w).1
            ≡ (write_users ids event_ids users c (preview users no_counts w).1).1)
  run_inv c n h = elim (Result-cases (preview users no_counts w).0) [
    | inl (e, bad) ↦ absurd (unfold run_import in ground (arith, bad))
    | inr (c', good) ↦
        (let writing = write_users ids event_ids users c' (preview users no_counts w).1 in
          elim (Result-cases writing.0) [
            | inl (e, bad) ↦ absurd (unfold run_import in ground (arith, good, bad))
            | inr (n', done) ↦ (
              unfold run_import in ground (arith, good, done),
              unfold run_import in ground (arith, good, done),
            )
          ])
  ]

  run_import-Known :
      (c : Counts) (n : ℕ)
      → (run_import ids event_ids true (ok users) w).0 ≡ ok (c, some n)
      → All (Known (run_import ids event_ids true (ok users) w).1.db) users
  run_import-Known c n h =
      let (done, same) = run_inv c n h in
      rw same (write_users-Known ids event_ids users c (preview users no_counts w).1 n done)

  run_import-none :
      (apply : Bool)
      → All (Known w.db) users
      → (run_import ids event_ids apply (ok users) w).1.db ≡ w.db
  run_import-none apply known =
      let w1 = (preview users no_counts w).1 in
      let same = db-preview users no_counts w in
      let known1 : All (Known w1.db) users = rw same known in
      elim (Result-cases (preview users no_counts w).0) [
        | inl (e, bad) ↦ unfold run_import in ground (arith, bad, same)
        | inr (c, good) ↦
            (let quiet = write_users-none ids event_ids users c w1 known1 in
              elim (Result-cases (write_users ids event_ids users c w1).0) [
                | inl (e, bad) ↦ unfold run_import in ground (arith, good, bad, same, quiet)
                | inr (n, done) ↦ unfold run_import in ground (arith, good, done, same, quiet)
              ])
      ]

-- Once a run of the import with -apply has succeeded, every user that it was given has an account
-- with their old id, and as long as the accounts stay, a further run for the same users changes no
-- table, whether it succeeds or fails.
pub run_import-again :
    (ids event_ids ids' event_ids' : ℕ → Text) (users : List LegacyUser) (w w' : World) (c : Counts)
    (n : ℕ) (apply : Bool)
    → (run_import ids event_ids true (ok users) w).0 ≡ ok (c, some n)
    → w'.db.accounts ≡ (run_import ids event_ids true (ok users) w).1.db.accounts
    → All (Known (run_import ids event_ids true (ok users) w).1.db) users
      × ((run_import ids' event_ids' apply (ok users) w').1.db ≡ w'.db)
run_import-again ids event_ids ids' event_ids' users w w' c n apply h same =
    let d = (run_import ids event_ids true (ok users) w).1.db in
    let known = run_import-Known ids event_ids users w c n h in
    (known, run_import-none ids' event_ids' users w' apply (Known-same users d w'.db same known))
