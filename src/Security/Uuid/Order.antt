-- ===== src/Security/Uuid/Order.antt =====
-- Identifiers sort by time.
use sso_go.Prelude.{
  ℕ, ◌/◌, ◌%◌, ◌^◌, ◌≤◌, ◌<◌, Text, true, some, ◌∷◌, text_ltb, ok, ◌≡◌, refl, length, arith,
}
use sso_go.Security.Uuid.{hex_digit, new_uuid_v7, dashed, uuid_bytes, hex, fill}

digit_lt :
    (x y : ℕ) (s t : Text) → x < y → y < 16 → text_ltb (hex_digit x ∷ s) (hex_digit y ∷ t) ≡ true
unfolding text_ltb hex_digit
digit_lt x y s t h k = ground arith

digit_eq :
    (x y : ℕ) (s t : Text)
    → x ≡ y
    → text_ltb s t ≡ true
    → text_ltb (hex_digit x ∷ s) (hex_digit y ∷ t) ≡ true
unfolding text_ltb
digit_eq x y s t h k = rw h (ground (arith, k))

-- one byte of two numbers that agree above it
byte_lem :
    (y y' : ℕ) (s t : Text)
    → y / 256 ≡ y' / 256
    → y ≤ y'
    → (y ≡ y' → text_ltb s t ≡ true)
    → text_ltb
        (hex_digit (y % 256 / 16) ∷ hex_digit (y % 256 % 16) ∷ s)
        (hex_digit (y' % 256 / 16) ∷ hex_digit (y' % 256 % 16) ∷ t)
      ≡ true
byte_lem y y' s t same le rest =
    let low = hex_digit (y % 256 % 16) ∷ s in
    let low' = hex_digit (y' % 256 % 16) ∷ t in
    ground (
      arith,
      digit_lt (y % 256 / 16) (y' % 256 / 16) low low',
      digit_eq (y % 256 / 16) (y' % 256 / 16) low low',
      digit_lt (y % 256 % 16) (y' % 256 % 16) s t,
      digit_eq (y % 256 % 16) (y' % 256 % 16) s t,
    )

dash_lem : (s t : Text) → text_ltb s t ≡ true → text_ltb (b'-' ∷ s) (b'-' ∷ t) ≡ true
unfolding text_ltb
dash_lem s t h = h

-- Of two identifiers, the one that was made in an earlier millisecond comes first in the order of
-- texts, whatever their random bytes are, up to the year 10889. Each has 36 characters.
pub new_uuid_v7-sorted :
    (millis millis' : ℕ) (b b' : ℕ → ℕ)
    → millis < millis'
    → millis' < 2 ^ 48
    → (id : Text) × (id' : Text) × (new_uuid_v7 millis (some b) ≡ ok id)
      × (new_uuid_v7 millis' (some b') ≡ ok id')
      × (length id ≡ 36)
      × (length id' ≡ 36)
      × (text_ltb id id' ≡ true)
unfolding new_uuid_v7 dashed uuid_bytes hex fill
new_uuid_v7-sorted m m' b b' lt fits = (
  _,
  _,
  refl,
  refl,
  refl,
  refl,
  byte_lem (m / 256 / 256 / 256 / 256 / 256) (m' / 256 / 256 / 256 / 256 / 256) _ _ (omega arith)
      (omega arith)
      λ e5.
        byte_lem (m / 256 / 256 / 256 / 256) (m' / 256 / 256 / 256 / 256) _ _ e5 (omega arith) λ e4.
          byte_lem (m / 256 / 256 / 256) (m' / 256 / 256 / 256) _ _ e4 (omega arith) λ e3.
            byte_lem (m / 256 / 256) (m' / 256 / 256) _ _ e3 (omega arith) λ e2. dash_lem _ _ (
              byte_lem (m / 256) (m' / 256) _ _ e2 (omega arith)
                λ e1. byte_lem m m' _ _ e1 (omega arith) λ e0. absurd (omega arith)),
)
