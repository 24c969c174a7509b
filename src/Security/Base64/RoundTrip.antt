-- ===== src/Security/Base64/RoundTrip.antt =====
-- What was encoded is decoded again.
use sso_go.Prelude.{
  ℕ, ◌+◌, ◌*◌, ◌/◌, ◌%◌, ◌<◌, Text, false, some, List, [], ◌∷◌, eqb, All, ◌≡◌, refl, arith,
}
use sso_go.Service.Words.Split.{IsPlain}
use sso_go.Security.Base64.{std, symbol, encode, keep_symbols, sextets, join, decode}

abbrev pub IsByte : ℕ → Type 0
IsByte b = b < 256

abbrev split : Text → List ℕ
split [] = []
split (a ∷ []) = (a / 4) ∷ (a % 4 * 16) ∷ []
split (a ∷ b ∷ []) = (a / 4) ∷ (a % 4 * 16 + b / 16) ∷ (b % 16 * 4) ∷ []
split (a ∷ b ∷ c ∷ rest) =
    (a / 4) ∷ (a % 4 * 16 + b / 16) ∷ (b % 16 * 4 + c / 64) ∷ (c % 64) ∷ split rest

-- what the decoder does with the symbol of a number in front of others
abbrev Reads : Text → List ℕ → Type 0
Reads s vs = sextets std (keep_symbols std s) ≡ some vs

Reads-symbol :
    (v : ℕ) (s : Text) (vs : List ℕ) → v < 64 → Reads s vs → Reads (symbol std v ∷ s) (v ∷ vs)
unfolding symbol sextets keep_symbols
Reads-symbol v s vs h k = ground (arith, k)

Reads-nil : Reads [] []
unfolding sextets keep_symbols
Reads-nil = refl

encode-split : (bs : Text) → All IsByte bs → Reads (encode std bs) (split bs)
unfolding encode
encode-split [] h = Reads-nil
encode-split (a ∷ []) h =
    Reads-symbol _ _ _ (omega arith) (Reads-symbol _ _ _ (omega arith) Reads-nil)
encode-split (a ∷ b ∷ []) h =
    Reads-symbol _ _ _ (omega arith)
      (Reads-symbol _ _ _ (omega arith) (Reads-symbol _ _ _ (omega arith) Reads-nil))
encode-split (a ∷ b ∷ c ∷ rest) (ha, (hb, (hc, hs))) = Reads-symbol _ _ _ (omega arith) (
    Reads-symbol _ _ _ (omega arith)
      (Reads-symbol _ _ _ (omega arith) (Reads-symbol _ _ _ (omega arith) (encode-split rest hs))))

join-split : (bs : Text) → All IsByte bs → join std (split bs) ≡ some bs
unfolding join
join-split [] h = refl
join-split (a ∷ []) h = ground arith
join-split (a ∷ b ∷ []) h = ground arith
join-split (a ∷ b ∷ c ∷ rest) (ha, (hb, (hc, hs))) = rw (join-split rest hs) (ground arith)

pub decode-encode : (bs : Text) → All IsByte bs → decode std (encode std bs) ≡ some bs
unfolding decode
decode-encode bs h = rw (encode-split bs h, join-split bs h)

symbol-ne : (v : ℕ) → v < 64 → eqb (symbol std v) b'$' ≡ false
unfolding symbol
symbol-ne v h = ground arith

-- the separator of a stored hash does not occur
pub encode-IsPlain : (bs : Text) → All IsByte bs → IsPlain b'$' (encode std bs)
unfolding encode
encode-IsPlain [] h = tt
encode-IsPlain (a ∷ []) (ha, _) =
    (symbol-ne (a / 4) (omega arith), (symbol-ne (a % 4 * 16) (omega arith), tt))
encode-IsPlain (a ∷ b ∷ []) (ha, (hb, _)) = (
  symbol-ne (a / 4) (omega arith),
  (symbol-ne (a % 4 * 16 + b / 16) (omega arith), (symbol-ne (b % 16 * 4) (omega arith), tt)),
)
encode-IsPlain (a ∷ b ∷ c ∷ rest) (ha, (hb, (hc, hs))) = (
  symbol-ne (a / 4) (omega arith),
  (
    symbol-ne (a % 4 * 16 + b / 16) (omega arith),
    (
      symbol-ne (b % 16 * 4 + c / 64) (omega arith),
      (symbol-ne (c % 64) (omega arith), encode-IsPlain rest hs),
    ),
  ),
)
