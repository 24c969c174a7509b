-- ===== src/Strconv.antt =====
-- What the program uses of Go's strconv and of the %d of fmt, on ASCII text.
pub mod RoundTrip
pub mod Plain
use sso_go.Prelude.{
  ℕ, ℤ, pos, negsuc, zero, suc, ◌+◌, ◌-◌, ◌*◌, ◌/◌, ◌%◌, ◌^◌, Text, Bool, true, false, ◌&&◌, ◌||◌,
  Option, none, some, [], ◌∷◌, eqb, leb, ltb, if◌then◌else◌,
}
use sso_go.Service.Words.{is_digit, all_bytes}

-- The decimal digits of a number in front of `rest`, for a number of at most `fuel` digits.
unfoldable pub digits : ℕ → ℕ → Text → Text
digits zero n rest = rest
digits (suc fuel) n rest =
    let more = digits fuel (n / 10) ((b'0' + n % 10) ∷ rest) in
    if ltb n 10 then (b'0' + n) ∷ rest else more

-- %d of an unsigned integer, which has at most 20 digits
unfoldable pub print : ℕ → Text → Text
unfolding digits
print n rest = digits 20 n rest

-- %d of a signed integer of 64 bits
unfoldable pub print_int : ℤ → Text
unfolding print
print_int (pos n) = print n []
print_int (negsuc n) = b'-' ∷ print (suc n) []

-- reads digits as long as there are any
unfoldable pub scan : ℕ → Text → ℕ × Text
scan acc [] = (acc, [])
scan acc (c ∷ s) = if is_digit c then scan (acc * 10 + (c - b'0')) s else (acc, c ∷ s)

abbrev of_sign : Bool → ℕ → Option ℤ
of_sign false n = if ltb n (2 ^ 63) then some (pos n) else none
of_sign true zero = some (pos 0)
of_sign true (suc n) = if ltb n (2 ^ 63) then some (negsuc n) else none

abbrev parse_digits : Bool → Text → Option ℤ
parse_digits sign [] = none
parse_digits sign (c ∷ s) =
    if all_bytes is_digit (c ∷ s) then of_sign sign (scan 0 (c ∷ s)).0 else none

-- strconv.ParseInt(s, 10, 64) and strconv.Atoi
unfoldable pub parse_int : Text → Option ℤ
unfolding scan all_bytes
parse_int [] = none
parse_int (c ∷ s) =
    if eqb c b'+'
    then parse_digits false s
    else if eqb c b'-'
    then parse_digits true s
    else parse_digits false (c ∷ s)

-- SkipSpace of fmt.Sscanf, where a line break is an error
unfoldable pub skip_space : Text → Option Text
skip_space [] = some []
skip_space (c ∷ s) =
    let rest = skip_space s in
    if eqb c 10 then none else if leb 9 c && leb c 13 || eqb c 32 then rest else some (c ∷ s)

abbrev pub fit : ℕ → ℕ × Text → Option (ℕ × Text)
fit bound (n, rest) = if ltb n bound then some (n, rest) else none

abbrev pub scan_number : ℕ → Option Text → Option (ℕ × Text)
scan_number bound none = none
scan_number bound (some []) = none
scan_number bound (some (c ∷ s)) = if is_digit c then fit bound (scan 0 (c ∷ s)) else none

-- %d of fmt.Sscanf into an unsigned integer below `bound`
unfoldable pub scan_uint : ℕ → Text → Option (ℕ × Text)
unfolding scan skip_space
scan_uint bound s = scan_number bound (skip_space s)

-- a literal of the format of fmt.Sscanf
unfoldable pub expect : Text → Text → Option Text
expect [] s = some s
expect (d ∷ literal) [] = none
expect (d ∷ literal) (c ∷ s) = if eqb c d then expect literal s else none
