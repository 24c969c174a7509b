-- ===== src/Security/Base64.antt =====
-- What internal/security uses of encoding/base64: the encodings without padding. A byte slice is a
-- list of numbers below 256.
pub mod RoundTrip
use sso_go.Prelude.{
  ℕ, ◌+◌, ◌-◌, ◌*◌, ◌/◌, ◌%◌, Text, Bool, true, false, ◌&&◌, ◌||◌, Option, none, some, List, [],
  ◌∷◌, eqb, leb, ltb, if◌then◌else◌,
}

-- the two characters in which the encodings differ: + and / in RawStdEncoding, - and _ in
-- RawURLEncoding
pub record Alphabet : Type 0 where
  pub c62 : ℕ
  pub c63 : ℕ

abbrev pub std : Alphabet
std = record { c62 = b'+'; c63 = b'/' }

abbrev pub url : Alphabet
url = record { c62 = b'-'; c63 = b'_' }

module _ (alphabet : Alphabet) where
  open alphabet use {c62, c63}

  -- the character of a number below 64
  unfoldable pub symbol : ℕ → ℕ
  symbol v =
      if ltb v 26
      then v + b'A'
      else if ltb v 52
      then v - 26 + b'a'
      else if ltb v 62
      then v - 52 + b'0'
      else if eqb v 62
      then c62
      else c63

  unfoldable pub sextet : ℕ → Option ℕ
  sextet c =
      if leb b'A' c && leb c b'Z'
      then some (c - b'A')
      else if leb b'a' c && leb c b'z'
      then some (c - b'a' + 26)
      else if leb b'0' c && leb c b'9'
      then some (c - b'0' + 52)
      else if eqb c c62
      then some 62
      else if eqb c c63
      then some 63
      else none

  -- EncodeToString
  unfoldable pub encode : Text → Text
  unfolding symbol
  encode [] = []
  encode (a ∷ []) = symbol (a / 4) ∷ symbol (a % 4 * 16) ∷ []
  encode (a ∷ b ∷ []) = symbol (a / 4) ∷ symbol (a % 4 * 16 + b / 16) ∷ symbol (b % 16 * 4) ∷ []
  encode (a ∷ b ∷ c ∷ rest) =
      symbol (a / 4)
      ∷ symbol (a % 4 * 16 + b / 16)
      ∷ symbol (b % 16 * 4 + c / 64)
      ∷ symbol (c % 64)
      ∷ encode rest

  -- the decoder skips line breaks
  unfoldable pub keep_symbols : Text → Text
  keep_symbols [] = []
  keep_symbols (c ∷ s) =
      let rest = keep_symbols s in if eqb c 10 || eqb c 13 then rest else c ∷ rest

  unfoldable pub sextets : Text → Option (List ℕ)
  unfolding sextet
  sextets [] = some []
  sextets (c ∷ s) = elim (sextet c) [
    | none ↦ none
    | some v ↦ elim (sextets s) [ none ↦ none | some vs ↦ some (v ∷ vs) ]
  ]

  -- four at a time; what is left over is two or three
  unfoldable pub join : List ℕ → Option Text
  join [] = some []
  join (u ∷ []) = none
  join (u ∷ v ∷ []) = some ((u * 4 + v / 16) ∷ [])
  join (u ∷ v ∷ x ∷ []) = some ((u * 4 + v / 16) ∷ (v % 16 * 16 + x / 4) ∷ [])
  join (u ∷ v ∷ x ∷ y ∷ rest) = elim (join rest) [
    | none ↦ none
    | some bytes ↦ some ((u * 4 + v / 16) ∷ (v % 16 * 16 + x / 4) ∷ (x % 4 * 64 + y) ∷ bytes)
  ]

  abbrev join_all : Option (List ℕ) → Option Text
  join_all none = none
  join_all (some vs) = join vs

  -- DecodeString
  unfoldable pub decode : Text → Option Text
  unfolding keep_symbols sextets join
  decode s = join_all (sextets (keep_symbols s))
