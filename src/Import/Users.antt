-- ===== src/Import/Users.antt =====
-- The users of the old system, as readUsers accepts them.
use sso_go.Prelude.{
  ℕ, ℤ, Text, codes, ◌==◌, lower, mem, Bool, false, ◌&&◌, ◌||◌, not, Option, none, some, List, [],
  ◌∷◌, bad_record, Result, ok, err, if◌then◌else◌,
}
use sso_go.Security.Password.{Crypto, is_valid_legacy_bcrypt}
use sso_go.Service.Words.{trim}

-- legacyUser
pub record LegacyUser : Type 0 where
  pub old_id : ℤ
  pub email : Text
  pub hash : Text
  pub name : Text
  pub status : Text
  pub role : Text
  pub role_id : Option ℤ
  pub created_at : Option ℕ

abbrev pub with_email : Text → LegacyUser → LegacyUser
with_email email u = record u { email = email }

abbrev parses_to : Text → Option Text → Bool
parses_to email none = false
parses_to email (some address) = address == email

abbrev is_legacy_status : Text → Bool
is_legacy_status s = s == codes "approved" || s == codes "pending" || s == codes "rejected"

abbrev is_legacy_role : Text → Bool
is_legacy_role r = r == codes "admin" || r == codes "employee" || r == codes "client"

abbrev read_next : LegacyUser → Result (List LegacyUser) → Result (List LegacyUser)
read_next u (ok users) = ok (u ∷ users)
read_next u (err e) = err e

module _ (parse_address : Text → Option Text) (crypto : Crypto) where
  -- the test on a record, after its address is normalized
  unfoldable pub good_record : List Text → LegacyUser → Bool
  good_record seen u =
      parses_to u.email (parse_address u.email)
      && not (mem u.email seen)
      && is_valid_legacy_bcrypt crypto u.hash
      && not (u.name == [])
      && is_legacy_status u.status
      && is_legacy_role u.role

  -- readUsers, from the loop on
  unfoldable pub read_users : List Text → List LegacyUser → Result (List LegacyUser)
  read_users seen [] = ok []
  read_users seen (row ∷ rows) =
      let u = with_email (lower (trim row.email)) row in
      let rest = read_users (u.email ∷ seen) rows in
      if good_record seen u then read_next u rest else err bad_record
