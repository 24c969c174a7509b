-- ===== src/Service/Words.antt =====
-- What the services use of Go's strings package, on ASCII text: other bytes are no white space.
pub mod Split
use sso_go.Prelude.{
  ◌++◌, ℕ, Text, Bool, true, false, ◌&&◌, ◌||◌, List, [], ◌∷◌, eqb, leb, if◌then◌else◌,
}

-- \t \n \v \f \r and the space
abbrev pub is_space : ℕ → Bool
is_space c = leb 9 c && leb c 13 || eqb c 32

unfoldable pub trim_left : Text → Text
trim_left [] = []
trim_left (c ∷ s) = let rest = trim_left s in if is_space c then rest else c ∷ s

unfoldable pub trim_right : Text → Text
trim_right [] = []
trim_right (c ∷ s) = elim (trim_right s) [
  | [] ↦ if is_space c then [] else c ∷ []
  | d ∷ t ↦ c ∷ d ∷ t
]

-- strings.TrimSpace
unfoldable pub trim : Text → Text
unfolding trim_left trim_right
trim s = trim_left (trim_right s)

abbrev push_first : ℕ → List Text → List Text
push_first c [] = (c ∷ []) ∷ []
push_first c (part ∷ parts) = (c ∷ part) ∷ parts

-- strings.Split(s, sep) for a separator of one byte
unfoldable pub split : ℕ → Text → List Text
split sep [] = [] ∷ []
split sep (c ∷ s) = let parts = split sep s in if eqb c sep then [] ∷ parts else push_first c parts

-- the parts that are not empty
abbrev pub keep_words : List Text → List Text
keep_words [] = []
keep_words ([] ∷ parts) = keep_words parts
keep_words ((c ∷ s) ∷ parts) = (c ∷ s) ∷ keep_words parts

-- every white space as a space
abbrev pub blank : Text → Text
blank [] = []
blank (c ∷ s) = (if is_space c then 32 else c) ∷ blank s

-- strings.Fields
unfoldable pub fields : Text → List Text
unfolding split
fields s = keep_words (split 32 (blank s))

-- strings.HasPrefix(s, prefix)
unfoldable pub has_prefix : Text → Text → Bool
has_prefix s [] = true
has_prefix [] (d ∷ p) = false
has_prefix (c ∷ s) (d ∷ p) = eqb c d && has_prefix s p

-- strings.Contains(s, part)
unfoldable pub contains : Text → Text → Bool
unfolding has_prefix
contains [] part = has_prefix [] part
contains (c ∷ s) part = has_prefix (c ∷ s) part || contains s part

unfoldable pub all_bytes : (ℕ → Bool) → Text → Bool
all_bytes p [] = true
all_bytes p (c ∷ s) = p c && all_bytes p s

abbrev pub is_lower : ℕ → Bool
is_lower c = leb b'a' c && leb c b'z'

abbrev pub is_upper : ℕ → Bool
is_upper c = leb b'A' c && leb c b'Z'

abbrev pub is_digit : ℕ → Bool
is_digit c = leb b'0' c && leb c b'9'

-- strings.Join(parts, " ")
unfoldable pub join_space : List Text → Text
join_space [] = []
join_space (part ∷ []) = part
join_space (part ∷ next ∷ parts) = part ++ 32 ∷ join_space (next ∷ parts)
