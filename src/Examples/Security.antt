-- ===== src/Examples/Security.antt =====
-- Stored passwords and identifiers at concrete inputs.
use sso_go.Prelude.{
  ◌≡◌, refl, Text, codes, ◌==◌, true, some, ◌∷◌, length, ok, err, ◌%◌, hash_variant, All, text_ltb,
  arith,
}
use sso_go.Service.Words.{has_prefix, split}
use sso_go.Strconv.{print}
use sso_go.Security.Base64.{encode}
use sso_go.Security.Base64.RoundTrip.{IsByte}
use sso_go.Security.Password.{
  Crypto, matched, new_password_hasher, hash, print_params, verify, decode_hash,
}
use sso_go.Security.Password.RoundTrip.{IsHasher, verify-hash}
use sso_go.Security.Uuid.{new_uuid_v7}
use sso_go.Security.Uuid.Order.{new_uuid_v7-sorted}
use sso_go.Security.Random.{random_token}

abbrev salt : Text
salt = codes "0123456789abcdef"

-- a key of 32 bytes that starts with the number of bytes of the password
abbrev key_for : Text → Text
key_for password = length password % 256 ∷ codes "0123456789abcdef0123456789abcde"

abbrev crypto : Crypto
crypto = record {
  id_key = λ password _ _ _ _ _. key_for password;
  compare = λ _ _. matched;
  has_cost = λ _. true;
}

IsHasher-new : IsHasher new_password_hasher
IsHasher-new = record {
  memory = omega arith;
  iterations = omega arith;
  parallelism = omega arith;
  key_length = omega arith;
}

key_bytes : (password : Text) → All IsByte (key_for password) × (length (key_for password) ≡ 32)
key_bytes password = omega arith

verify-hash_example :
    (encoded : Text) × (hash crypto new_password_hasher (some salt) (codes "pass") ≡ ok encoded)
    × (verify crypto (codes "pass") encoded ≡ ok true)
    × (verify crypto (codes "word1") encoded
        ≡ ok (key_for (codes "pass") == key_for (codes "word1")))
verify-hash_example =
    verify-hash crypto new_password_hasher IsHasher-new salt (omega arith) key_bytes (codes "pass")
      (codes "word1") (λ p. ground (arith, p))

stored_hash :
    hash crypto new_password_hasher (some salt) (codes "pass")
    ≡ ok (
        codes
          "$argon2id$v=19$m=65536,t=3,p=2$MDEyMzQ1Njc4OWFiY2RlZg$BDAxMjM0NTY3ODlhYmNkZWYwMTIzNDU2Nzg5YWJjZGU")
unfolding hash print_params print encode ◌==◌
stored_hash = refl

other_variant :
    verify crypto (codes "pass") (codes "$argon2i$v=19$m=65536,t=3,p=2$MDEy$MDEy")
    ≡ err hash_variant
unfolding verify decode_hash split has_prefix ◌==◌
other_variant = refl

new_uuid_v7-sorted_example :
    (id : Text) × (id' : Text) × (new_uuid_v7 1700000000255 (some (λ i. 255)) ≡ ok id)
    × (new_uuid_v7 1700000000256 (some (λ i. 0)) ≡ ok id')
    × (length id ≡ 36)
    × (length id' ≡ 36)
    × (text_ltb id id' ≡ true)
new_uuid_v7-sorted_example =
    new_uuid_v7-sorted 1700000000255 1700000000256 (λ i. 255) (λ i. 0) (omega arith) (omega arith)

token_lem : length (random_token (codes "0123456789abcdef0123456789abcdef")) ≡ 43
unfolding random_token encode
token_lem = refl
