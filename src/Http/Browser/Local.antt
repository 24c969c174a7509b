-- ===== src/Http/Browser/Local.antt =====
-- A login never leads to another site.
use sso_go.Prelude.{All, ◌≢◌, Text, Bool, true, false, ◌&&◌, ◌||◌, not, [], ◌∷◌, eqb, ◌≡◌}
use sso_go.Http.Browser.{contains_any, unsafe_bytes}

-- A path of this site: a slash that no slash or backslash follows. A browser takes the others as the
-- name of a host.
unfoldable pub is_local : Text → Bool
is_local [] = false
is_local (c ∷ []) = false
is_local (c ∷ d ∷ s) = eqb c b'/' && not (eqb d b'/' || eqb d 92)

IsHarmless : Text → Type 0
IsHarmless s = (is_local s ≡ true) × (contains_any s unsafe_bytes ≡ false)

-- without a backslash, a carriage return and a line feed
abbrev pub IsClean : Text → Type 0
IsClean = All (λ c. (c ≢ 92) × (c ≢ 13) × (c ≢ 10))
