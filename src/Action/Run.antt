-- ===== src/Action/Run.antt =====
-- What one transaction does to the world, by its result.
use sso_go.Prelude.{
  ℕ, Option, some, none, no_rows, unavailable, if◌then◌else◌, ◌≡◌, refl, Result, false, Error, ok,
  err, arith,
}
use sso_go.Db.{Db}
use sso_go.Tx.{Tx, first_row, gets}
use sso_go.Action.{World, Action, ◌>>=◌, run, run_committed, fails, settle, drawn}

module _ {ℓ} {A : Type ℓ} (m : Tx A) (w : World) where
  -- A transaction that returned is the pure one on the tables that it found.
  pub run-eq-ok : (a : A) → (run m w).0 ≡ ok a → m w.now w.db ≡ ok (a, (run m w).1.db)
  unfolding run
  run-eq-ok a h = ground arith

  -- One that failed has changed no table.
  pub db-run_err : (e : Error) → (run m w).0 ≡ err e → (run m w).1.db ≡ w.db
  unfolding run
  db-run_err e h = ground arith

  -- the two outcomes of a run
  pub run_lem :
      run m w
      ≡ (if fails w.faults then (err unavailable, drawn w) else settle (drawn w) (m w.now w.db))
  unfolding run
  run_lem = refl

  -- Where the database does not fail, the run is that of the pure transaction.
  pub run_err :
      (e : Error) → fails w.faults ≡ false → m w.now w.db ≡ err e → run m w ≡ (err e, drawn w)
  unfolding run
  run_err e h k = rw (h, k)

  pub run_ok :
      (a : A) (d : Db)
      → fails w.faults ≡ false
      → m w.now w.db ≡ ok (a, d)
      → run m w ≡ (ok a, record (drawn w) { db = d })
  unfolding run
  run_ok a d h k = rw (h, k)

module _ {ℓ κ} {A : Type ℓ} (P : Db → Type κ) (m : Tx A) (w : World) where
  -- A property of the tables that the pure transaction keeps holds after the run, failed or not.
  pub run-keeps : ((a : A) (d : Db) → m w.now w.db ≡ ok (a, d) → P d) → P w.db → P (run m w).1.db
  run-keeps keep h = go (run m w).0 refl
    where
      go : (r : Result A) → (run m w).0 ≡ r → P (run m w).1.db
      go (ok a) e = keep a (run m w).1.db (run-eq-ok m w a e)
      go (err x) e = rw (db-run_err m w x e) h

module _ {ℓ} {A : Type ℓ} (m : Tx (Result A)) (w : World) where
  pub run_committed-eq-ok :
      (a : A) → (run_committed m w).0 ≡ ok a → m w.now w.db ≡ ok (ok a, (run_committed m w).1.db)
  unfolding run run_committed
  run_committed-eq-ok a h = ground arith

  pub run_committed_lem :
      (r : Result A) (d : Db)
      → fails w.faults ≡ false
      → m w.now w.db ≡ ok (r, d)
      → run_committed m w ≡ (r, record (drawn w) { db = d })
  unfolding run run_committed
  run_committed_lem r d h k = ground arith

  pub db-run_committed : (run_committed m w).1.db ≡ (run m w).1.db
  unfolding run run_committed
  db-run_committed = ground arith

module _ {ℓ} {A : Type ℓ} (w : World) (up : fails w.faults ≡ false) where
  -- A query on the pool, where the database does not fail.
  pub run-first_row :
      (f : ℕ → Db → Option A) (a : A)
      → f w.now w.db ≡ some a
      → run (first_row f) w ≡ (ok a, drawn w)
  unfolding run
  run-first_row f a h = rw (up, h, first_row)

  pub run-first_row-none :
      (f : ℕ → Db → Option A) → f w.now w.db ≡ none → run (first_row f) w ≡ (err no_rows, drawn w)
  unfolding run
  run-first_row-none f h = rw (up, h, first_row)

  pub run-gets : (f : ℕ → Db → A) → run (gets f) w ≡ (ok (f w.now w.db), drawn w)
  unfolding run
  run-gets f = rw up

module _ {ℓ κ} {A : Type ℓ} {B : Type κ} (m : Action A) (f : A → Action B) (w : World) where
  -- A sequence that returned a value went through a value of its first part.
  pub bind-ok :
      (b : B)
      → ((m >>= f) w).0 ≡ ok b
      → (a : A) × ((m w).0 ≡ ok a) × ((f a (m w).1).0 ≡ ok b) × ((f a (m w).1).1 ≡ ((m >>= f) w).1)
  bind-ok b h = ground arith

module _ {ℓ} {A : Type ℓ} (f : ℕ → Db → Option A) (w : World) where
  -- A query leaves the world as it was, but for the fault that it drew.
  pub run-query : (run (first_row f) w).1 ≡ drawn w
  unfolding run
  run-query = ground arith

  -- A query that returned a row found it.
  pub run-query_ok : (a : A) → (run (first_row f) w).0 ≡ ok a → f w.now w.db ≡ some a
  unfolding run
  run-query_ok a h = ground arith
