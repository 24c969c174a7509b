-- ===== src/Action/Keeps.antt =====
-- Properties of the tables that an operation keeps, whether it succeeds or fails.
use sso_go.Prelude.{ℕ, ◌≡◌, refl, Result, ok, err, Bool-cases, inl, inr}
use sso_go.Db.{Db}
use sso_go.Tx.{modify}
use sso_go.Action.{World, Action, run, ◌>>◌, fails}
use sso_go.Action.Run.{run_lem}

abbrev pub Keeps {ℓ κ} : (Db → Type κ) → {A : Type ℓ} → Action A → Type κ
Keeps P m = (w : World) → P w.db → P (m w).1.db

module _ {κ} (P : Db → Type κ) where
  pub Keeps-modify :
      (f : ℕ → Db → Db) → ((now : ℕ) (d : Db) → P d → P (f now d)) → Keeps P (run (modify f))
  Keeps-modify f keep w h = elim (Bool-cases (fails w.faults)) [
    | inl down ↦ rw (run_lem, down) h
    | inr up ↦ rw (run_lem, up) (keep w.now w.db h)
  ]

  pub Keeps-then {ℓ} :
      {A : Type ℓ} (m : Action (Unit {0})) (k : Action A) → Keeps P m → Keeps P k → Keeps P (m >> k)
  Keeps-then m k keep keep' w h = go (m w).0 refl
    where
      go : (r : Result (Unit {0})) → (m w).0 ≡ r → P ((m >> k) w).1.db
      go (ok t) e = rw e (keep' (m w).1 (keep w h))
      go (err x) e = rw e (keep w h)
