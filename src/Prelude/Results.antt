-- ===== src/Prelude/Results.antt =====
-- The errors that the program's functions return, and results.

use mathlib.Core.Path.{◌≡◌, refl}
use mathlib.Core.Logic.{◌⊎◌, inl, inr}

-- Those of the repository come first; then those of the service layer, which are other values.
pub data Error : Type 0 where
  no_rows unique_violation other_violation unavailable : Error
  token_reuse invalid_password : Error
  not_found conflict refresh_reuse : Error
  invalid_input invalid_credentials unverified disabled_account : Error
  pending_access invalid_client invalid_grant access_revoked : Error
  unauthenticated forbidden : Error
  own_account bad_roles missing_argument bad_token : Error
  bad_record import_conflict missing_project : Error
  missing_database bad_issuer insecure_issuer bad_port half_tls : Error
  newer_schema bad_script : Error
  empty_password no_random bcrypt_failed : Error
  hash_format hash_variant hash_version hash_params hash_salt hash_key : Error

pub data Result {ℓ} (A : Type ℓ) : Type ℓ where
  ok : A → Result A
  err : Error → Result A

pub Result-cases {ℓ} :
    {A : Type ℓ} (r : Result A) → ((e : Error) × (r ≡ err e)) ⊎ ((a : A) × (r ≡ ok a))
Result-cases (ok a) = inr (a, refl)
Result-cases (err e) = inl (e, refl)
