-- ===== src/Service/Words/Split.antt =====
-- strings.Split of parts that were joined.
use sso_go.Prelude.{ℕ, Text, false, [], ◌∷◌, ◌++◌, ◌≡◌, refl, arith, All, eqb, eqb_iff}
use sso_go.Service.Words.{split}

-- no byte of the text is the separator
abbrev pub IsPlain : ℕ → Text → Type 0
IsPlain sep = All (λ c. eqb c sep ≡ false)

pub split-plain : (sep : ℕ) (s : Text) → IsPlain sep s → split sep s ≡ s ∷ []
unfolding split
split-plain sep [] plain = refl
split-plain sep (c ∷ s) (ne, plain) = ground (arith, split-plain sep s plain)

pub split-join : (sep : ℕ) (s t : Text) → IsPlain sep s → split sep (s ++ sep ∷ t) ≡ s ∷ split sep t
unfolding split
split-join sep [] t plain = ground (arith, eqb_iff sep sep)
split-join sep (c ∷ s) t (ne, plain) = ground (arith, split-join sep s t plain)
