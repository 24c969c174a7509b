-- ===== src/Prelude/Integers.antt =====
-- Signed numbers, over the native ℕ.
use mathlib.Core.Bool.{Bool, false}
use Prim.Native.Nat.{ℕ}
use sso_go.Prelude.Tests.{eqb}

-- negsuc n is -(n + 1)
pub data ℤ : Type 0 where
  pos : ℕ → ℤ
  negsuc : ℕ → ℤ

abbrev pub int_eqb : ℤ → ℤ → Bool
int_eqb (pos a) (pos b) = eqb a b
int_eqb (negsuc a) (negsuc b) = eqb a b
int_eqb (pos a) (negsuc b) = false
int_eqb (negsuc a) (pos b) = false
