-- ===== src/Tx.antt =====
-- Database transactions (pgx.Tx in internal/repository/postgres).
--
-- A transaction is a function of PostgreSQL's now(), which is fixed while it runs, and of the
-- tables. An error rolls it back (the deferred tx.Rollback), so it carries no tables. A statement
-- on the pool is a transaction of one statement.
use sso_go.Prelude.{
  ℕ, Bool, Option, none, some, List, [], ◌∷◌, Error, no_rows, Result, ok, err, if◌then◌else◌,
}
use sso_go.Db.{Db}

abbrev pub Tx {ℓ} : Type ℓ → Type ℓ
Tx A = ℕ → Db → Result (A × Db)

infixl 5 ◌>>=◌ ◌>>◌
abbrev pub ◌>>=◌ {ℓ κ} : {A : Type ℓ} {B : Type κ} → Tx A → (A → Tx B) → Tx B
◌>>=◌ m f now d = elim (m now d) [ ok (a, d') ↦ f a now d' | err e ↦ err e ]

abbrev pub ◌>>◌ {ℓ} : {B : Type ℓ} → Tx (Unit {0}) → Tx B → Tx B
m >> k = m >>= λ _. k

abbrev pub pure {ℓ} : {A : Type ℓ} → A → Tx A
pure a now d = ok (a, d)

abbrev pub fail {ℓ} : {A : Type ℓ} → Error → Tx A
fail e now d = err e

-- a query, computed from the tables
abbrev pub gets {ℓ} : {A : Type ℓ} → (ℕ → Db → A) → Tx A
gets f now d = ok (f now d, d)

-- Scan of a query's first row: ErrNoRows if there is none
abbrev pub first_row {ℓ} : {A : Type ℓ} → (ℕ → Db → Option A) → Tx A
first_row f now d = elim (f now d) [ none ↦ err no_rows | some a ↦ ok (a, d) ]

-- INSERT, UPDATE, DELETE
abbrev pub modify : (ℕ → Db → Db) → Tx (Unit {0})
modify f now d = ok (tt, f now d)

-- an early return with an error, unless the test holds
abbrev pub require : Bool → Error → Tx (Unit {0})
require b e now d = if b then ok (tt, d) else err e

-- a constraint of the table that a statement writes
abbrev pub check : (Db → Bool) → Error → Tx (Unit {0})
check p e now d = if p d then ok (tt, d) else err e

-- `for _, x := range xs { if err = body(x); err != nil { return err } }`
abbrev pub for_each {ℓ} : {A : Type ℓ} → List A → (A → Tx (Unit {0})) → Tx (Unit {0})
for_each [] body = pure tt
for_each (x ∷ xs) body = body x >> for_each xs body
