-- ===== src/Repo/Keys.antt =====
-- internal/repository/postgres/keys.go: the signing keys.
pub mod Single
use sso_go.Prelude.{
  ℕ, ◌+◌, Text, ◌==◌, Bool, true, false, ◌&&◌, ◌||◌, not, Option, none, some, List, [], ◌∷◌, ◌++◌,
  ltb, is_none, unique_violation, find_where, any_where, select_where, update_where, count_where,
  map, order_by,
}
use sso_go.Db.{Db, SigningKey}
use sso_go.Tx.{Tx, ◌>>=◌, ◌>>◌, gets, first_row, modify, check, pure}
use sso_go.Action.{Action, run}

abbrev pub is_current : SigningKey → Bool
is_current k = is_none k.retired_at

-- 10 minutes
abbrev pub retire : ℕ → SigningKey → SigningKey
retire now k = record k { retired_at = some now; publish_until = some (now + 600) }

abbrev new_key : Text → Text → Text → ℕ → SigningKey
new_key kid private public now = record {
  kid = kid;
  private_pem = private;
  public_jwk = public;
  created_at = now;
  retired_at = none;
  publish_until = none;
}

-- the transaction of RotateSigningKey
unfoldable pub rotate_key : Text → Text → Text → Tx (Unit {0})
rotate_key kid private public = do
  modify (λ now d. record d { keys = update_where is_current (retire now) d.keys })
  check (λ d. not (any_where (λ (k : SigningKey). k.kid == kid) d.keys)) unique_violation
  modify (λ now d. record d { keys = d.keys ++ new_key kid private public now ∷ [] })

unfoldable pub rotate_signing_key : Text → Text → Text → Action (Unit {0})
rotate_signing_key kid private public = run (rotate_key kid private public)

abbrev pub newest_first : SigningKey → SigningKey → Bool
newest_first j k = ltb k.created_at j.created_at

-- ActiveSigningKey: the kid and the private key
unfoldable pub active_signing_key : Action SigningKey
active_signing_key = run (first_row (λ _ d. find_where is_current (order_by newest_first d.keys)))

-- ActiveSigningKeyCount
unfoldable pub active_signing_key_count : Action ℕ
active_signing_key_count = run (gets (λ _ d. count_where is_current d.keys))

abbrev published : ℕ → Option ℕ → Bool
published now none = false
published now (some until) = ltb now until

-- retired_at IS NULL OR publish_until>now()
abbrev pub is_published : ℕ → SigningKey → Bool
is_published now k = is_none k.retired_at || published now k.publish_until

-- PublicSigningKeys
unfoldable pub public_signing_keys : Action (List Text)
public_signing_keys = run (
    gets (λ now d. map (λ (k : SigningKey). k.public_jwk) (select_where (is_published now) d.keys)))

abbrev pub verifies : Text → ℕ → SigningKey → Bool
verifies kid now k = k.kid == kid && is_published now k

-- VerificationKey
unfoldable pub verification_key : Text → Action Text
verification_key kid =
    run do k ← first_row (λ now d. find_where (verifies kid now) d.keys); pure k.private_pem
