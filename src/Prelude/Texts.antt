-- ===== src/Prelude/Texts.antt =====
-- Go strings as lists of bytes. The tests are shut: proofs use their laws.
use Prim.Native.Char.{code}
use Prim.Native.String.{String}
use Prim.Native.Nat.{ℕ, ◌+◌}
use mathlib.Core.Path.{◌≡◌, refl}
use mathlib.Core.Logic.{◌↔◌}
use mathlib.Core.Bool.{Bool, true, false, ◌&&◌, ◌||◌}
use mathlib.Core.List.{List, [], ◌∷◌}
use native.Mathlib.Omega.{arith}
use sso_go.Prelude.Tests.{ltb, leb, eqb, eqb_iff, if◌then◌else◌}

abbrev pub Text : Type 0
Text = List ℕ

-- The bytes of an ASCII literal.
abbrev pub codes : String → Text
codes String.[] = []
codes (String.◌∷◌ c s) = code c ∷ codes s

infix 50 ◌==◌
unfoldable pub ◌==◌ : Text → Text → Bool
[] == [] = true
[] == (d ∷ t) = false
(c ∷ s) == [] = false
(c ∷ s) == (d ∷ t) = eqb c d && s == t

pub eq_iff : (s t : Text) → ((s == t) ≡ true) ↔ (s ≡ t)
unfolding ◌==◌
eq_iff [] [] = ground arith
eq_iff [] (d ∷ t) = ground arith
eq_iff (c ∷ s) [] = ground arith
eq_iff (c ∷ s) (d ∷ t) = ground (arith, eq_iff s t, eqb_iff c d)

pub eq_refl : (s : Text) → (s == s) ≡ true
eq_refl s = (eq_iff s s).1 refl

unfoldable pub mem : Text → List Text → Bool
mem x [] = false
mem x (y ∷ ys) = x == y || mem x ys

-- PostgreSQL's `<` on texts, under the byte order (collation "C").
unfoldable pub text_ltb : Text → Text → Bool
text_ltb [] [] = false
text_ltb [] (d ∷ t) = true
text_ltb (c ∷ s) [] = false
text_ltb (c ∷ s) (d ∷ t) = ltb c d || eqb c d && text_ltb s t

-- lower() and strings.ToLower on ASCII; other bytes are kept.
abbrev lower_byte : ℕ → ℕ
lower_byte c = if leb 65 c && leb c 90 then c + 32 else c

unfoldable pub lower : Text → Text
lower [] = []
lower (c ∷ s) = lower_byte c ∷ lower s

pub lower_idem : (s : Text) → lower (lower s) ≡ lower s
unfolding lower
lower_idem [] = refl
lower_idem (c ∷ s) = ground (arith, lower_idem s)
