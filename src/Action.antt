-- ===== src/Action.antt =====
-- Operations of the service: sequences of transactions and pure steps, over the world that they
-- share. What an operation committed before an error stays committed.
--
-- The database may fail at any call. Wherever a transaction meets a failure (Begin, a statement or
-- Commit) the code returns that error and the deferred Rollback drops its writes, so the model
-- draws one bit for each transaction; a failed Commit is taken not to have committed.
pub mod Run
pub mod Keeps
use sso_go.Prelude.{
  ℕ, Bool, true, false, List, [], ◌∷◌, Error, unavailable, no_rows, Result, ok, err, if◌then◌else◌,
}
use sso_go.Db.{Db}
use sso_go.Tx.{Tx}

pub record World : Type 0 where
  pub db : Db
  -- whether each coming transaction fails; none fails after the end of the list
  pub faults : List Bool
  -- the time, read by PostgreSQL's now() and by time.Now()
  pub now : ℕ

abbrev pub Action {ℓ} : Type ℓ → Type ℓ
Action A = World → Result A × World

abbrev pub fails : List Bool → Bool
fails [] = false
fails (b ∷ _) = b

abbrev pub later_faults : List Bool → List Bool
later_faults [] = []
later_faults (_ ∷ bs) = bs

abbrev pub drawn : World → World
drawn w = record w { faults = later_faults w.faults }

-- what a finished transaction leaves
abbrev pub settle {ℓ} : {A : Type ℓ} → World → Result (A × Db) → Result A × World
settle w (ok (a, d)) = (ok a, record w { db = d })
settle w (err e) = (err e, w)

unfoldable pub run {ℓ} : {A : Type ℓ} → Tx A → Action A
run m w = if fails w.faults then (err unavailable, drawn w) else settle (drawn w) (m w.now w.db)

abbrev continue {ℓ κ} : {A : Type ℓ} {B : Type κ} → Result A → (A → Action B) → Action B
continue (ok a) f w = f a w
continue (err e) f w = (err e, w)

infixl 5 ◌>>=◌ ◌>>◌
abbrev pub ◌>>=◌ {ℓ κ} : {A : Type ℓ} {B : Type κ} → Action A → (A → Action B) → Action B
◌>>=◌ m f w = let (r, w') = m w in continue r f w'

abbrev pub ◌>>◌ {ℓ} : {B : Type ℓ} → Action (Unit {0}) → Action B → Action B
m >> k = m >>= λ _. k

abbrev pub pure {ℓ} : {A : Type ℓ} → A → Action A
pure a w = (ok a, w)

abbrev pub fail {ℓ} : {A : Type ℓ} → Error → Action A
fail e w = (err e, w)

-- time.Now()
abbrev pub time : Action ℕ
time w = (ok w.now, w)

abbrev pub lift {ℓ} : {A : Type ℓ} → Result A → Action A
lift r w = (r, w)

abbrev pub require : Bool → Error → Action (Unit {0})
require b e w = (if b then ok tt else err e, w)

-- `if postgres.IsNotFound(err) { return e }; if err != nil { return err }`
abbrev pub or_not_found : Error → Error → Error
or_not_found e no_rows = e
or_not_found e other = other

abbrev pub map_error {ℓ} : {A : Type ℓ} → (Error → Error) → Result A → Result A
map_error g (ok a) = ok a
map_error g (err e) = err (g e)

abbrev pub mapping {ℓ} : {A : Type ℓ} → (Error → Error) → Action A → Action A
mapping g m w = let (r, w') = m w in (map_error g r, w')

-- A transaction that commits and then returns a result, which may be an error.
unfoldable pub run_committed {ℓ} : {A : Type ℓ} → Tx (Result A) → Action A
run_committed m = run m >>= lift
