-- ===== src/Security/Uuid.antt =====
-- internal/security/uuidv7.go: identifiers that sort by the time at which they were made.
pub mod Order
use sso_go.Prelude.{
  ℕ, zero, suc, ◌+◌, ◌-◌, ◌/◌, ◌%◌, Text, [], ◌∷◌, ◌++◌, ltb, take, drop, Option, none, some,
  Result, ok, err, no_random, if◌then◌else◌,
}

-- the loop of NewUUIDv7: b[i] = byte(millis), millis >>= 8, from the last of `count` bytes on
unfoldable pub fill : ℕ → ℕ → Text → Text
fill zero millis rest = rest
fill (suc count) millis rest = fill count (millis / 256) ((millis % 256) ∷ rest)

unfoldable pub hex_digit : ℕ → ℕ
hex_digit v = if ltb v 10 then b'0' + v else b'a' + (v - 10)

-- hex.EncodeToString
unfoldable pub hex : Text → Text
hex [] = []
hex (b ∷ bs) = hex_digit (b / 16) ∷ hex_digit (b % 16) ∷ hex bs

-- (b & 0x0f) | 0x70 and (b & 0x3f) | 0x80 of a byte
abbrev with_version : ℕ → ℕ
with_version b = b % 16 + 0x70

abbrev with_variant : ℕ → ℕ
with_variant b = b % 64 + 0x80

-- s[from:to]
abbrev slice : ℕ → ℕ → Text → Text
slice from to s = take (to - from) (drop from s)

-- the array b of NewUUIDv7, from the random bytes by their index
unfoldable pub uuid_bytes : ℕ → (ℕ → ℕ) → Text
unfolding fill
uuid_bytes millis b = fill 6 millis (
    with_version (b 6)
    ∷ b 7
    ∷ with_variant (b 8)
    ∷ b 9
    ∷ b 10
    ∷ b 11
    ∷ b 12
    ∷ b 13
    ∷ b 14
    ∷ b 15
    ∷ [])

unfoldable pub dashed : Text → Text
dashed s =
    slice 0 8 s
    ++ b'-' ∷ slice 8 12 s
    ++ b'-' ∷ slice 12 16 s
    ++ b'-' ∷ slice 16 20 s
    ++ b'-' ∷ drop 20 s

-- NewUUIDv7, with what rand.Read fills and the milliseconds of time.Now()
unfoldable pub new_uuid_v7 : ℕ → Option (ℕ → ℕ) → Result Text
unfolding uuid_bytes hex dashed
new_uuid_v7 millis none = err no_random
new_uuid_v7 millis (some b) = ok (dashed (hex (uuid_bytes millis b)))
