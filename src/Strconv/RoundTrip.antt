-- ===== src/Strconv/RoundTrip.antt =====
-- A printed number is read back.
use sso_go.Prelude.{
  ℕ, zero, suc, ◌+◌, ◌*◌, ◌/◌, ◌%◌, ◌^◌, ◌<◌, Text, true, false, some, [], ◌∷◌, ◌++◌, eqb_iff, ltb,
  ◌≡◌, refl, sym, ◌∙◌, ap, arith, Bool-cases, inl, inr, lt→ltb,
}
use sso_go.Service.Words.{is_digit}
use sso_go.Strconv.{digits, print, scan, skip_space, scan_number, scan_uint, expect}

abbrev pow10 : ℕ → ℕ
pow10 zero = 1
pow10 (suc f) = 10 * pow10 f

scan-digit :
    (acc d : ℕ) (rest : Text) → d < 10 → scan acc ((b'0' + d) ∷ rest) ≡ scan (acc * 10 + d) rest
unfolding scan
scan-digit acc d rest h = ground arith

scan-digits : (f n : ℕ) (rest : Text) → n < pow10 f → scan 0 (digits f n rest) ≡ scan n rest
unfolding digits
scan-digits zero n rest h = rw (eq_zero h) refl
  where
    eq_zero : n < 1 → n ≡ 0
    eq_zero k = omega arith
scan-digits (suc f) n rest h = elim (Bool-cases (ltb n 10)) [
  | inl small ↦ rw small (scan-digit 0 n rest (ground arith) ∙ ap (λ m. scan m rest) (omega arith))
  | inr large ↦ rw large (
      scan-digits f (n / 10) ((b'0' + n % 10) ∷ rest) (ground arith)
      ∙ scan-digit (n / 10) (n % 10) rest (omega arith)
      ∙ ap (λ m. scan m rest) (omega arith))
]

-- a printed number starts with a digit
digits-starts :
    (f n : ℕ) (rest : Text)
    → (c : ℕ) × (s : Text) × (digits (suc f) n rest ≡ c ∷ s) × (is_digit c ≡ true)
unfolding digits
digits-starts zero n rest = elim (Bool-cases (ltb n 10)) [
  | inl small ↦ (b'0' + n, rest, rw small, ground arith)
  | inr large ↦ (b'0' + n % 10, rest, rw large, ground arith)
]
digits-starts (suc f) n rest = elim (Bool-cases (ltb n 10)) [
  | inl small ↦ (b'0' + n, rest, rw small, ground arith)
  | inr large ↦
      (let (c, s, e, d) = digits-starts f (n / 10) ((b'0' + n % 10) ∷ rest) in
        (c, s, rw large e, d))
]

skip_space-digit : (c : ℕ) (s : Text) → is_digit c ≡ true → skip_space (c ∷ s) ≡ some (c ∷ s)
unfolding skip_space
skip_space-digit c s d = ground arith

-- no digit follows
abbrev pub Stops : Text → Type 0
Stops rest = (n : ℕ) → scan n rest ≡ (n, rest)

pub Stops-nil : Stops []
unfolding scan
Stops-nil n = refl

pub Stops-cons : (c : ℕ) (s : Text) → is_digit c ≡ false → Stops (c ∷ s)
unfolding scan
Stops-cons c s d n = rw d

scan_number_lem :
    (bound n c : ℕ) (s rest : Text)
    → is_digit c ≡ true
    → scan 0 (c ∷ s) ≡ (n, rest)
    → n < bound
    → scan_number bound (some (c ∷ s)) ≡ some (n, rest)
scan_number_lem bound n c s rest d e fits = rw (d, e, lt→ltb n bound fits) refl

-- %d of Sscanf reads back what %d of Sprintf printed, if it fits the variable.
pub scan_uint-print :
    (bound n : ℕ) (rest : Text)
    → n < bound
    → n < 10 ^ 20
    → Stops rest
    → scan_uint bound (print n rest) ≡ some (n, rest)
unfolding scan_uint print
scan_uint-print bound n rest fits small stops =
    let (c, s, e, d) = digits-starts 19 n rest in
    let number : scan 0 (digits 20 n rest) ≡ (n, rest) = scan-digits 20 n rest small ∙ stops n in
    rw (e, skip_space-digit c s d)
      (scan_number_lem bound n c s rest d (ap (scan 0) (sym e) ∙ number) fits)

pub expect_lem : (literal s : Text) → expect literal (literal ++ s) ≡ some s
unfolding expect
expect_lem [] s = refl
expect_lem (c ∷ literal) s = ground (arith, eqb_iff c c, expect_lem literal s)
