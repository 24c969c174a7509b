-- ===== src/Security/Password.antt =====
-- internal/security/password.go: hashed passwords, as they are stored.
--
-- argon2 and bcrypt, of golang.org/x/crypto, come as `Crypto`. A text is also a byte slice.
pub mod RoundTrip
use sso_go.Prelude.{
  ℤ, pos, negsuc, ℕ, ◌*◌, ◌%◌, ◌^◌, eqb, Text, codes, ◌==◌, Bool, true, false, ◌&&◌, ◌||◌, not,
  Option, none, some, List, [], ◌∷◌, ◌++◌, length, Error, empty_password, no_random, bcrypt_failed,
  hash_format, hash_variant, hash_version, hash_params, hash_salt, hash_key, Result, ok, err,
  if◌then◌else◌,
}
use sso_go.Service.Words.{has_prefix, split}
use sso_go.Strconv.{print, parse_int, scan_uint, expect}
use sso_go.Security.Base64.{std, encode, decode}

-- what bcrypt.CompareHashAndPassword answers: nil, ErrMismatchedHashAndPassword, another error
pub data Compared : Type 0 where
  matched mismatched broken : Compared

pub record Crypto : Type 0 where
  -- argon2.IDKey(password, salt, time, memory, threads, keyLen)
  pub id_key : Text → Text → ℕ → ℕ → ℕ → ℕ → Text
  -- bcrypt.CompareHashAndPassword(hash, password)
  pub compare : Text → Text → Compared
  -- bcrypt.Cost(hash) has no error
  pub has_cost : Text → Bool

-- PasswordHasher
pub record PasswordHasher : Type 0 where
  pub memory : ℕ
  pub iterations : ℕ
  pub parallelism : ℕ
  pub key_length : ℕ

-- NewPasswordHasher
abbrev pub new_password_hasher : PasswordHasher
new_password_hasher = record {
  memory = 64 * 1024;
  iterations = 3;
  parallelism = 2;
  key_length = 32;
}

infixl 5 ◌>>=◌ ◌>>◌
abbrev ◌>>=◌ {ℓ κ} : {A : Type ℓ} {B : Type κ} → Result A → (A → Result B) → Result B
ok a >>= f = f a
err e >>= f = err e

abbrev ◌>>◌ {ℓ} : {B : Type ℓ} → Result (Unit {0}) → Result B → Result B
m >> k = m >>= λ _. k

abbrev require : Bool → Error → Result (Unit {0})
require b e = if b then ok tt else err e

abbrev or_error {ℓ} : {A : Type ℓ} → Error → Option A → Result A
or_error e none = err e
or_error e (some a) = ok a

-- the "m=%d,t=%d,p=%d" of Hash, in front of `rest`
unfoldable pub print_params : PasswordHasher → Text → Text
print_params h rest =
    codes "m="
    ++ print h.memory (codes ",t=" ++ print h.iterations (codes ",p=" ++ print h.parallelism rest))

-- PasswordHasher.Hash, with the salt that rand.Read gives
unfoldable pub hash : Crypto → PasswordHasher → Option Text → Text → Result Text
hash c h random password = do
  require (not (password == [])) empty_password
  salt ← or_error no_random random
  let key = c.id_key password salt h.iterations h.memory h.parallelism h.key_length
  ok (codes "$argon2id$v=19$" ++ print_params h (b'$' ∷ encode std salt ++ b'$' ∷ encode std key))

-- IsLegacyBcrypt
unfoldable pub is_legacy_bcrypt : Text → Bool
is_legacy_bcrypt s =
    has_prefix s (codes "$2a$") || has_prefix s (codes "$2b$") || has_prefix s (codes "$2y$")

-- IsValidLegacyBcrypt
unfoldable pub is_valid_legacy_bcrypt : Crypto → Text → Bool
unfolding is_legacy_bcrypt
is_valid_legacy_bcrypt c s = is_legacy_bcrypt s && c.has_cost s

abbrev is_version : ℤ → Bool
is_version (pos n) = eqb n 19
is_version (negsuc n) = false

-- strings.TrimPrefix(s, prefix)
unfoldable pub trim_prefix : Text → Text → Text
unfolding expect
trim_prefix s prefix = elim (expect prefix s) [ none ↦ s | some rest ↦ rest ]

-- fmt.Sscanf(s, "m=%d,t=%d,p=%d", &memory, &iterations, &parallelism)
unfoldable pub scan_params : Text → Option (ℕ × ℕ × ℕ)
scan_params s = elim (expect (codes "m=") s) [
  | none ↦ none
  | some s1 ↦ elim (scan_uint (2 ^ 32) s1) [
    | none ↦ none
    | some (m, s2) ↦ elim (expect (codes ",t=") s2) [
      | none ↦ none
      | some s3 ↦ elim (scan_uint (2 ^ 32) s3) [
        | none ↦ none
        | some (t, s4) ↦ elim (expect (codes ",p=") s4) [
          | none ↦ none
          | some s5 ↦ elim (scan_uint (2 ^ 8) s5) [ none ↦ none | some (p, _) ↦ some (m, t, p) ]
        ]
      ]
    ]
  ]
]

abbrev Decoded : Type 0
Decoded = PasswordHasher × Text × Text

abbrev decode_parts : List Text → Result Decoded
decode_parts (_ ∷ variant ∷ version ∷ raw_params ∷ raw_salt ∷ raw_key ∷ []) = do
  require (variant == codes "argon2id") hash_variant
  v ← or_error hash_version (parse_int (trim_prefix version (codes "v=")))
  require (is_version v) hash_version
  (m, t, p) ← or_error hash_params (scan_params raw_params)
  salt ← or_error hash_salt (decode std raw_salt)
  key ← or_error hash_key (decode std raw_key)
  ok (
    record { memory = m; iterations = t; parallelism = p; key_length = length key % 2 ^ 32 },
    salt,
    key,
  )
decode_parts _ = err hash_format

-- decodeHash
unfoldable pub decode_hash : Text → Result Decoded
unfolding scan_params trim_prefix
decode_hash encoded = decode_parts (split b'$' encoded)

abbrev of_bcrypt : Compared → Result Bool
of_bcrypt matched = ok true
of_bcrypt mismatched = ok false
of_bcrypt broken = err bcrypt_failed

-- PasswordHasher.Verify
unfoldable pub verify : Crypto → Text → Text → Result Bool
unfolding is_legacy_bcrypt
verify c password encoded =
    if is_legacy_bcrypt encoded then of_bcrypt (c.compare encoded password) else do
      (h, salt, key) ← decode_hash encoded
      ok (key == c.id_key password salt h.iterations h.memory h.parallelism h.key_length)
