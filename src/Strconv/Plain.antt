-- ===== src/Strconv/Plain.antt =====
-- A printed number holds nothing but digits.
use sso_go.Prelude.{
  ℕ, zero, suc, ◌+◌, ◌/◌, ◌%◌, Text, false, ◌∷◌, ◌++◌, ltb, ◌≡◌, refl, arith, Bool-cases, inl, inr,
}
use sso_go.Service.Words.{is_digit}
use sso_go.Service.Words.Split.{IsPlain}
use sso_go.Strconv.{digits, print}

digits-append : (f n : ℕ) (rest more : Text) → digits f n (rest ++ more) ≡ digits f n rest ++ more
unfolding digits
digits-append zero n rest more = refl
digits-append (suc f) n rest more = elim (Bool-cases (ltb n 10)) [
  | inl small ↦ rw small refl
  | inr large ↦ rw large (digits-append f (n / 10) ((b'0' + n % 10) ∷ rest) more)
]

pub print-append : (n : ℕ) (rest more : Text) → print n (rest ++ more) ≡ print n rest ++ more
unfolding print
print-append n rest more = digits-append 20 n rest more

digits-IsPlain :
    (sep f n : ℕ) (rest : Text)
    → is_digit sep ≡ false
    → IsPlain sep rest
    → IsPlain sep (digits f n rest)
unfolding digits
digits-IsPlain sep zero n rest no_digit h = h
digits-IsPlain sep (suc f) n rest no_digit h = elim (Bool-cases (ltb n 10)) [
  | inl small ↦ rw small (ground arith, h)
  | inr large ↦
      rw large (digits-IsPlain sep f (n / 10) ((b'0' + n % 10) ∷ rest) no_digit (ground arith, h))
]

pub print-IsPlain :
    (sep n : ℕ) (rest : Text) → is_digit sep ≡ false → IsPlain sep rest → IsPlain sep (print n rest)
unfolding print
print-IsPlain sep n rest = digits-IsPlain sep 20 n rest
