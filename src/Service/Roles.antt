-- ===== src/Service/Roles.antt =====
-- ParseRoles of internal/service/admin.go and validateRoleSlice of internal/service/management.go.
pub mod Valid
use sso_go.Prelude.{
  ℕ, ◌+◌, ◌≤◌, ◌<◌, Text, codes, ◌==◌, mem, Bool, true, false, ◌&&◌, ◌||◌, not, List, [], ◌∷◌, ◌++◌,
  map, ◌≡◌, Result, ok, err, bad_roles, invalid_input, length, leb, ltb, eqb, if◌then◌else◌, ◌↔◌,
  All, arith, eq_iff, Bool-cases, inl, inr,
}
use sso_go.Service.Words.{is_lower, is_digit, all_bytes, trim, split}

-- [a-z0-9._:-]
abbrev role_byte : ℕ → Bool
role_byte c = is_lower c || is_digit c || eqb c b'.' || eqb c b'_' || eqb c b':' || eqb c b'-'

-- rolePattern, ^[a-z][a-z0-9._:-]{0,63}$
unfoldable pub is_role : Text → Bool
is_role [] = false
is_role (c ∷ s) = is_lower c && all_bytes role_byte s && leb (length s) 63

-- the loop of ParseRoles; `seen` holds exactly the roles so far
unfoldable pub parse_loop : List Text → List Text → Result (List Text)
parse_loop roles [] = if eqb (length roles) 0 then err bad_roles else ok roles
parse_loop roles (part ∷ parts) =
    let role = trim part in
    let rest = parse_loop (roles ++ role ∷ []) parts in
    if not (is_role role) || mem role roles
    then err bad_roles
    else if ltb 10 (length (roles ++ role ∷ []))
    then err bad_roles
    else rest

-- ParseRoles
unfoldable pub parse_roles : Text → Result (List Text)
parse_roles raw = parse_loop [] (split b',' raw)

-- the loop of validateRoleSlice
unfoldable pub validate_loop : List Text → List Text → Result (Unit {0})
validate_loop seen [] = ok tt
validate_loop seen (role ∷ roles) =
    let rest = validate_loop (role ∷ seen) roles in
    if not (is_role role) || mem role seen then err invalid_input else rest

-- validateRoleSlice
unfoldable pub validate_role_slice : List Text → Result (Unit {0})
validate_role_slice roles =
    if eqb (length roles) 0 || ltb 10 (length roles)
    then err invalid_input
    else validate_loop [] roles
