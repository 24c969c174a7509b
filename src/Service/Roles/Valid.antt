-- ===== src/Service/Roles/Valid.antt =====
-- The two validators accept exactly the lists of one to ten distinct, well-formed roles.
use sso_go.Prelude.{
  ℕ, suc, ◌+◌, ◌≤◌, ◌<◌, Text, ◌==◌, mem, true, false, List, [], ◌∷◌, ◌++◌, map, ◌≡◌, refl, ap,
  Result, ok, err, bad_roles, length, length-append, ltb, if◌then◌else◌, ◌↔◌, All, arith, eq_iff,
  Bool-cases, inl, inr,
}
use mathlib.Core.List.{append_assoc, append-nil}
use sso_go.Service.Words.{trim, split}
use sso_go.Service.Roles.{is_role, parse_loop, parse_roles, validate_loop, validate_role_slice}

abbrev pub IsDistinct : List Text → Type 0
IsDistinct [] = Unit
IsDistinct (r ∷ rs) = (mem r rs ≡ false) × IsDistinct rs

abbrev pub AllRoles : List Text → Type 0
AllRoles = All (λ r. is_role r ≡ true)

abbrev pub AllNew : List Text → List Text → Type 0
AllNew seen = All (λ r. mem r seen ≡ false)

-- one to ten roles, well formed and distinct
abbrev pub IsRoleList : List Text → Type 0
IsRoleList roles = (0 < length roles) × (length roles ≤ 10) × AllRoles roles × IsDistinct roles

eq_sym : (s t : Text) → (s == t) ≡ (t == s)
eq_sym s t = ground (arith, eq_iff s t, eq_iff t s)

-- New with respect to one more role: new before, and the role does not occur.
pub AllNew-cons :
    (role : Text) (seen roles : List Text)
    → AllNew (role ∷ seen) roles ↔ (AllNew seen roles × (mem role roles ≡ false))
unfolding mem
AllNew-cons role seen [] = ground arith
AllNew-cons role seen (r ∷ rs) = ground (arith, AllNew-cons role seen rs, eq_sym role r)

pub AllNew-nil : (roles : List Text) → AllNew [] roles
unfolding mem
AllNew-nil [] = tt
AllNew-nil (r ∷ rs) = (refl, AllNew-nil rs)

validate_loop_iff :
    (seen roles : List Text)
    → (validate_loop seen roles ≡ ok tt) ↔ (AllRoles roles × IsDistinct roles × AllNew seen roles)
unfolding validate_loop
validate_loop_iff seen [] = ground arith
validate_loop_iff seen (r ∷ rs) =
    ground (arith, validate_loop_iff (r ∷ seen) rs, AllNew-cons r seen rs)

-- validateRoleSlice accepts a list exactly when it has one to ten roles, each matches the pattern,
-- and none occurs twice.
pub validate_role_slice_iff :
    (roles : List Text) → (validate_role_slice roles ≡ ok tt) ↔ IsRoleList roles
unfolding validate_role_slice
validate_role_slice_iff roles = ground (arith, validate_loop_iff [] roles, AllNew-nil roles)

mem-append_one : (x r : Text) (rs : List Text) → mem x (rs ++ r ∷ []) ≡ mem x (r ∷ rs)
unfolding mem
mem-append_one x r [] = ground arith
mem-append_one x r (s ∷ rs) = ground (arith, mem-append_one x r rs)

-- what ParseRoles makes of validateRoleSlice's answer
abbrev pub parsed : List Text → Result (Unit {0}) → Result (List Text)
parsed roles (ok _) = ok roles
parsed roles (err _) = err bad_roles

length-map {ℓ κ} :
    {A : Type ℓ} {B : Type κ} (f : A → B) (xs : List A) → length (map f xs) ≡ length xs
length-map f [] = refl
length-map f (x ∷ xs) = ap suc (length-map f xs)

parse_loop_lem :
    (roles parts seen : List Text)
    → ((x : Text) → mem x seen ≡ mem x roles)
    → length roles ≤ 10
    → 0 < length roles + length parts
    → parse_loop roles parts ≡ (
        if ltb 10 (length roles + length parts)
        then err bad_roles
        else parsed (roles ++ map trim parts) (validate_loop seen (map trim parts)))
unfolding parse_loop validate_loop
parse_loop_lem roles [] seen same few some_role = ground (arith, append-nil roles)
parse_loop_lem roles (part ∷ parts) seen same few some_role =
    let role = trim part in
    let grown = length-append roles (role ∷ []) in
    elim (Bool-cases (ltb 10 (length (roles ++ role ∷ [])))) [
      | inl many ↦ ground (arith, many, grown, same role)
      | inr room ↦ ground (
        arith,
        room,
        grown,
        same role,
        append_assoc roles (role ∷ []) (map trim parts),
        parse_loop_lem (roles ++ role ∷ []) parts (role ∷ seen)
            (λ x. unfold mem in ground (arith, same x, mem-append_one x role roles))
            (ground (arith, grown)) (ground (arith, grown)),
      )
    ]

length-split : (sep : ℕ) (s : Text) → 0 < length (split sep s)
unfolding split
length-split sep [] = omega arith
length-split sep (c ∷ s) = ground (arith, length-split sep s)

-- ParseRoles gives the trimmed parts of its text between commas, exactly when validateRoleSlice
-- accepts them, and otherwise an error.
pub parse_roles-eq-validate :
    (raw : Text)
    → parse_roles raw
      ≡ parsed (map trim (split b',' raw)) (validate_role_slice (map trim (split b',' raw)))
unfolding parse_roles validate_role_slice
parse_roles-eq-validate raw = ground (
  arith,
  length-split b',' raw,
  length-map trim (split b',' raw),
  parse_loop_lem [] (split b',' raw) [] (λ _. refl) (omega arith)
      (omega (arith, length-split b',' raw)),
)
