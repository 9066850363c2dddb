-- ===== src/Admission/Decimal.antt =====
-- internal/admission/ledger.go: `decimal`, `decimalString` and `perRequest`, the money of the
-- ledger; with `FloatString`, `RatString` and `SetString` of math/big as far as they are used.
use percentes.Base.{
  ℕ, zero, suc, ◌+◌, ◌-◌, ◌*◌, ◌/◌, ◌%◌, ◌^◌, ◌≡◌, refl, Bool, true, false, not, ◌&&◌, Option, none,
  some, List, [], ◌∷◌, ◌++◌, length, bytes, ltb, leb, ◌==◌, nat_eq, bytes_eq, if◌then◌else◌,
}
use mathlib.Core.Option
use percentes.Base.Int.{ℤ, pos, negsuc, ltb_ℤ, ◌+ℤ◌, ◌*ℤ◌}
use percentes.Base.Rat.{Rat, den, rat_of_int, ◌+q◌, ◌*q◌, quo}

unfoldable pub is_digit : ℕ → Bool
is_digit c = leb b'0' c && leb c b'9'

unfoldable pub all_digits : List ℕ → Bool
unfolding is_digit
all_digits [] = true
all_digits (c ∷ s) = is_digit c && all_digits s

-- The text before the first '.', and the text after it.
unfoldable pub cut_point : List ℕ → List ℕ × Option (List ℕ)
cut_point [] = ([], none)
cut_point (c ∷ s) =
    let (whole, frac) = cut_point s in if c == b'.' then ([], some s) else (c ∷ whole, frac)

-- 0|[1-9][0-9]*
unfoldable pub is_whole : List ℕ → Bool
unfolding all_digits
is_whole [] = false
is_whole (c ∷ s) = if c == b'0' then s == [] else leb b'1' c && leb c b'9' && all_digits s

-- (\.[0-9]+)?
unfoldable pub is_frac : Option (List ℕ) → Bool
unfolding all_digits
is_frac none = true
is_frac (some s) = not (s == []) && all_digits s

unfoldable pub digits_value : ℕ → List ℕ → ℕ
digits_value n [] = n
digits_value n (c ∷ s) = digits_value (n * 10 + (c - b'0')) s

abbrev pub frac_digits : Option (List ℕ) → List ℕ
frac_digits none = []
frac_digits (some s) = s

-- decimalRe, and SetString on what it matches.
unfoldable pub decimal : List ℕ → Option Rat
unfolding cut_point is_whole is_frac digits_value
decimal s =
    let (whole, frac) = cut_point s in
    if is_whole whole && is_frac frac
    then some (record {
      num = pos (digits_value 0 (whole ++ frac_digits frac));
      below = 10 ^ length (frac_digits frac) - 1;
    })
    else none

-- A number in decimal digits; `fuel` above it is enough.
unfoldable pub print_digits : ℕ → ℕ → List ℕ
print_digits zero n = []
print_digits (suc fuel) n = elim (ltb n 10) [
  | true ↦ (b'0' + n) ∷ []
  | false ↦ print_digits fuel (n / 10) ++ (b'0' + n % 10) ∷ []
]

abbrev pub print_nat : ℕ → List ℕ
print_nat n = print_digits (suc n) n

-- The last `p` digits of a number, with zeros in front.
unfoldable pub print_padded : ℕ → ℕ → List ℕ
print_padded zero n = []
print_padded (suc p) n = print_padded p (n / 10) ++ (b'0' + n % 10) ∷ []

abbrev pub magnitude : ℤ → ℕ
magnitude (pos n) = n
magnitude (negsuc n) = suc n

-- FloatString's value: |r| in units of 10 ^ -p, half away from zero.
unfoldable pub rounded : Rat → ℕ → ℕ
rounded r p =
    let m = magnitude r.num * 10 ^ p in
    let q = m / den r in if leb (den r) (2 * (m % den r)) then q + 1 else q

unfoldable pub float_string : Rat → ℕ → List ℕ
unfolding rounded print_digits print_padded
float_string r p =
    let units = rounded r p in
    (if ltb_ℤ r.num (pos 0) then b'-' ∷ [] else [])
    ++ (print_nat (units / 10 ^ p)
        ++ (if p == 0 then [] else b'.' ∷ print_padded p (units % 10 ^ p)))

-- v.Cmp(r) == 0 for the value v that SetString reads back from FloatString's print.
unfoldable pub is_exact : Rat → ℕ → Bool
unfolding rounded
is_exact r p = rounded r p * den r == magnitude r.num * 10 ^ p

gcd : ℕ → ℕ → ℕ → ℕ
gcd zero a b = a
gcd (suc fuel) a b = elim (b == 0) [ true ↦ a | false ↦ gcd fuel b (a % b) ]

-- RatString: a fraction in lowest terms.
unfoldable pub rat_string : Rat → List ℕ
unfolding gcd print_digits
rat_string r =
    let g = gcd (suc (den r)) (magnitude r.num) (den r) in
    (if ltb_ℤ r.num (pos 0) then b'-' ∷ [] else [])
    ++ (print_nat (magnitude r.num / g)
        ++ (if den r / g == 1 then [] else b'/' ∷ print_nat (den r / g)))

-- The loop of `decimalString` over p, with `rounds` rounds left.
unfoldable pub decimal_string_from : ℕ → ℕ → Rat → List ℕ
unfolding is_exact float_string rat_string
decimal_string_from zero p r = rat_string r
decimal_string_from (suc rounds) p r = elim (is_exact r p) [
  | true ↦ float_string r p
  | false ↦ decimal_string_from rounds (p + 1) r
]

unfoldable pub decimal_string : Rat → List ℕ
unfolding decimal_string_from
decimal_string r = decimal_string_from 64 0 r

-- The price of one request at in_tok input and out_tok output tokens.
unfoldable pub per_request : Rat → Rat → ℤ → ℤ → Rat
per_request input output in_tok out_tok =
    quo (input *q rat_of_int in_tok +q output *q rat_of_int out_tok) 1_000_000

test_decimal : Option.map decimal_string (decimal (bytes "12.3450")) ≡ some (bytes "12.345")
unfolding decimal decimal_string
test_decimal = refl

test_decimal_refused : decimal (bytes "012") ≡ none
unfolding decimal
test_decimal_refused = refl

test_per_request :
    decimal_string (
      per_request
        (record { num = pos 15; below = 99 })
        (record { num = pos 6; below = 9 })
        (pos 2000)
        (pos 256))
    ≡ bytes "0.0004536"
unfolding decimal_string per_request ◌+q◌ ◌*q◌ quo ◌+ℤ◌ ◌*ℤ◌
test_per_request = refl
