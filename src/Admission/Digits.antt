-- ===== src/Admission/Digits.antt =====
-- internal/admission/ledger.go: the digits of a number's print.
use percentes.Base.{
  ℕ, zero, suc, ◌+◌, ◌-◌, ◌*◌, ◌/◌, ◌%◌, ◌^◌, ◌≡◌, ◌<◌, inl, inr, refl, sym, ap, ◌∙◌, Bool, true,
  false, ◌&&◌, none, some, List, [], ◌∷◌, ◌++◌, length, length-append, ltb, leb, ◌==◌, nat_eq,
  bytes_eq, arith, Bool-cases,
}
use native.Mathlib.Nat.{mul_assoc, pow-suc}
use percentes.Admission.Decimal.{
  is_digit, all_digits, cut_point, is_whole, digits_value, print_digits, print_nat, print_padded,
}

pub power_positive : (p : ℕ) → 0 < 10 ^ p
power_positive zero = omega arith
power_positive (suc p) = omega (arith, power_positive p)

times_power : (k p : ℕ) → k * 10 ^ suc p ≡ 10 * (k * 10 ^ p)
times_power k p = ap (λ i. k * i) (pow-suc 10 p) ∙ (sym (mul_assoc k (10 ^ p) 10) ∙ omega arith)

pub digits_value-append :
    (k : ℕ) (s t : List ℕ) → digits_value k (s ++ t) ≡ digits_value (digits_value k s) t
unfolding digits_value
digits_value-append k [] t = refl
digits_value-append k (c ∷ s) t = digits_value-append (k * 10 + (c - b'0')) s t

all_digits-append :
    (s t : List ℕ) → all_digits s ≡ true → all_digits t ≡ true → all_digits (s ++ t) ≡ true
unfolding all_digits
all_digits-append [] t h k = k
all_digits-append (c ∷ s) t h k = ground (arith, all_digits-append s t)

all_digits-last : (d : ℕ) → d < 10 → all_digits ((b'0' + d) ∷ []) ≡ true
unfolding all_digits is_digit
all_digits-last d h = ground arith

-- A whole number's digits without zeros in front.
abbrev leads : List ℕ → Bool
leads [] = false
leads (c ∷ s) = leb b'1' c && leb c b'9'

leads-append : (s t : List ℕ) → leads s ≡ true → leads (s ++ t) ≡ true
leads-append [] t h = absurd (ground arith)
leads-append (c ∷ s) t h = h

is_whole_of_leads : (s : List ℕ) → leads s ≡ true → all_digits s ≡ true → is_whole s ≡ true
unfolding is_whole all_digits
is_whole_of_leads [] h k = absurd (ground arith)
is_whole_of_leads (c ∷ s) h k = ground arith

pub record IsPrintOf (n : ℕ) (s : List ℕ) : Type 0 where
  pub digits : all_digits s ≡ true
  pub value : digits_value 0 s ≡ n

pub print_digits-IsPrintOf : (fuel n : ℕ) → n < fuel → IsPrintOf n (print_digits fuel n)
unfolding print_digits digits_value
print_digits-IsPrintOf zero n h = absurd (omega (arith, h))
print_digits-IsPrintOf (suc fuel) n h = elim (Bool-cases (ltb n 10)) [
  | inl small ↦
      rw (small, print_digits)
        (record { digits = all_digits-last n (ground (arith, small)); value = omega arith })
  | inr large ↦
      let rest = print_digits-IsPrintOf fuel (n / 10) (ground (arith, large, h)) in
      rw (large, print_digits)
        (record {
          digits =
              all_digits-append (print_digits fuel (n / 10)) _ rest.digits
                (all_digits-last (n % 10) (omega arith));
          value =
              digits_value-append 0 (print_digits fuel (n / 10)) ((b'0' + n % 10) ∷ [])
              ∙ omega (arith, rest.value);
        })
]

print_digits-leads : (fuel n : ℕ) → n < fuel → 0 < n → leads (print_digits fuel n) ≡ true
unfolding print_digits
print_digits-leads zero n h p = absurd (omega (arith, h))
print_digits-leads (suc fuel) n h p = elim (Bool-cases (ltb n 10)) [
  | inl small ↦ rw (small, print_digits) (ground arith)
  | inr large ↦
      rw (large, print_digits)
        (leads-append (print_digits fuel (n / 10)) _
          (print_digits-leads fuel (n / 10) (ground (arith, large, h)) (ground (arith, large))))
]

pub is_whole-print : (n : ℕ) → is_whole (print_nat n) ≡ true
unfolding is_whole print_digits
is_whole-print zero = refl
is_whole-print (suc n) =
    is_whole_of_leads (print_nat (suc n))
      (print_digits-leads (suc (suc n)) (suc n) (omega arith) (omega arith))
      (print_digits-IsPrintOf (suc (suc n)) (suc n) (omega arith)).digits

pub cut_point-digits : (s : List ℕ) → all_digits s ≡ true → cut_point s ≡ (s, none)
unfolding cut_point all_digits is_digit
cut_point-digits [] h = refl
cut_point-digits (c ∷ s) h =
    let other : (c == b'.') ≡ false = ground arith in
    let rest = cut_point-digits s (ground arith) in rw (rest, other) refl

pub cut_point-point : (s t : List ℕ) → all_digits s ≡ true → cut_point (s ++ b'.' ∷ t) ≡ (s, some t)
unfolding cut_point all_digits is_digit
cut_point-point [] t h = refl
cut_point-point (c ∷ s) t h =
    let other : (c == b'.') ≡ false = ground arith in
    let rest = cut_point-point s t (ground arith) in rw (rest, other) refl

-- The last `p` digits of a number below 10 ^ p.
pub record IsPaddedOf (p n : ℕ) (s : List ℕ) : Type 0 where
  pub digits : all_digits s ≡ true
  pub long : length s ≡ p
  pub value : (k : ℕ) → digits_value k s ≡ k * 10 ^ p + n

pub print_padded-IsPaddedOf : (p n : ℕ) → n < 10 ^ p → IsPaddedOf p n (print_padded p n)
unfolding print_padded digits_value all_digits
print_padded-IsPaddedOf zero n h = record {
  digits = refl;
  long = refl;
  value = λ k. omega (arith, h);
}
print_padded-IsPaddedOf (suc p) n h =
    let rest = print_padded-IsPaddedOf p (n / 10) (omega (arith, h)) in
    let d = b'0' + n % 10 in
    record {
      digits =
          all_digits-append (print_padded p (n / 10)) _ rest.digits
            (all_digits-last (n % 10) (omega arith));
      long = length-append (print_padded p (n / 10)) (d ∷ []) ∙ omega (arith, rest.long);
      value = λ k.
          digits_value-append k (print_padded p (n / 10)) (d ∷ [])
          ∙ omega (arith, rest.value k, times_power k p);
    }
