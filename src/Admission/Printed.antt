-- ===== src/Admission/Printed.antt =====
-- internal/admission/ledger.go: what `decimal` reads of a number's print.
use percentes.Base.{
  ℕ, zero, suc, ◌+◌, ◌-◌, ◌*◌, ◌/◌, ◌%◌, ◌^◌, ◌≡◌, ◌<◌, inl, inr, refl, sym, ap, ◌∙◌, true, false,
  some, List, [], ◌∷◌, ◌++◌, length, append-nil, leb, ◌==◌, nat_eq, bytes_eq, if◌then◌else◌, arith,
  Bool-cases,
}
use native.Mathlib.Nat.{mod-lt, div-add-mod', mul-mod_left, div-eq_of_eq-mul_left}
use mathlib.Core.Path.{subst}
use percentes.Base.Int.{pos, ltb_ℤ, ◌*ℤ◌, sub_ℕ}
use percentes.Base.Rat.{Rat, den, rat_beq}
use percentes.Admission.Digits.{
  IsPrintOf, IsPaddedOf, power_positive, digits_value-append, is_whole-print, cut_point-digits,
  cut_point-point, print_digits-IsPrintOf, print_padded-IsPaddedOf,
}
use percentes.Admission.Decimal.{
  all_digits, is_whole, is_frac, digits_value, decimal, print_nat, print_padded, rounded,
  float_string, is_exact, decimal_string_from, decimal_string,
}

is_frac-padded :
    (p : ℕ) (t : List ℕ) → all_digits t ≡ true → length t ≡ suc p → is_frac (some t) ≡ true
unfolding is_frac
is_frac-padded p [] h e = absurd (omega (arith, e))
is_frac-padded p (c ∷ t) h e = ground arith

-- What reading a print of `units` with `places` places gives.
pub record Reads (units places : ℕ) (s : List ℕ) : Type 0 where
  pub amount : Rat
  pub is_read : decimal s ≡ some amount
  pub num_is : amount.num ≡ pos units
  pub den_is : den amount ≡ 10 ^ places

decimal-whole : (n : ℕ) (s : List ℕ) → is_whole s ≡ true → IsPrintOf n s → Reads n 0 s
unfolding decimal is_frac
decimal-whole n s w h =
    let e = ap (λ k. digits_value 0 k) (append-nil s) ∙ h.value in
    record {
      amount = record { num = pos n; below = 0 };
      is_read = rw (cut_point-digits s h.digits, w, e) refl;
      num_is = refl;
      den_is = refl;
    }

decimal-point :
    (n p k : ℕ) (s t : List ℕ)
    → is_whole s ≡ true
    → IsPrintOf n s
    → IsPaddedOf (suc p) k t
    → Reads (n * 10 ^ suc p + k) (suc p) (s ++ b'.' ∷ t)
unfolding decimal
decimal-point n p k s t w h q =
    let both : digits_value 0 (s ++ t) ≡ n * 10 ^ suc p + k =
      digits_value-append 0 s t ∙ ap (λ i. digits_value i t) h.value ∙ q.value n in
    record {
      amount = record { num = pos (n * 10 ^ suc p + k); below = 10 ^ suc p - 1 };
      is_read =
          rw (cut_point-point s t h.digits, w, is_frac-padded p t q.digits q.long, both, q.long)
            refl;
      num_is = refl;
      den_is = omega (arith, power_positive (suc p));
    }

-- FloatString's digits of a number of units.
abbrev printed : ℕ → ℕ → List ℕ
printed units p =
    print_nat (units / 10 ^ p) ++ (if p == 0 then [] else b'.' ∷ print_padded p (units % 10 ^ p))

printed-Reads : (units p : ℕ) → Reads units p (printed units p)
printed-Reads units zero =
    let whole : units / 1 ≡ units = omega arith in
    rw (whole, append-nil (print_nat units))
      (decimal-whole units (print_nat units) (is_whole-print units)
        (print_digits-IsPrintOf (suc units) units (omega arith)))
printed-Reads units (suc p) =
    let n = units / 10 ^ suc p in
    let k = units % 10 ^ suc p in
    let text = print_nat n ++ b'.' ∷ print_padded (suc p) k in
    let far : (suc p == 0) ≡ false = ground arith in
    rw far (
      subst (λ i. Reads i (suc p) text) (div-add-mod' units (10 ^ suc p))
        (decimal-point n p k (print_nat n) (print_padded (suc p) k) (is_whole-print n)
          (print_digits-IsPrintOf (suc n) n (omega arith))
          (print_padded-IsPaddedOf (suc p) k (mod-lt units (power_positive (suc p))))))

-- A number of no more than 63 places, as decimalString finds it.
record IsFound (r : Rat) (s : List ℕ) : Type 0 where
  places : ℕ
  exact : is_exact r places ≡ true
  is_print : s ≡ float_string r places

decimal_string_from-IsFound :
    (rounds p k : ℕ) (r : Rat)
    → k < rounds
    → is_exact r (p + k) ≡ true
    → IsFound r (decimal_string_from rounds p r)
unfolding decimal_string_from
decimal_string_from-IsFound zero p k r h e = absurd (omega (arith, h))
decimal_string_from-IsFound (suc rounds) p zero r h e =
    let from : p + 0 ≡ p = omega arith in
    let here = subst (λ i. is_exact r i ≡ true) from e in
    rw (here, decimal_string_from) (record { places = p; exact = here; is_print = refl })
decimal_string_from-IsFound (suc rounds) p (suc k) r h e = elim (Bool-cases (is_exact r p)) [
  | inl here ↦ rw (here, decimal_string_from) (record { places = p; exact = here; is_print = refl })
  | inr later ↦
      let from : p + suc k ≡ p + 1 + k = omega arith in
      let e2 = subst (λ i. is_exact r i ≡ true) from e in
      rw (later, decimal_string_from)
        (decimal_string_from-IsFound rounds (p + 1) k r (omega (arith, h)) e2)
]

abbrev pub amount_of : ℕ → ℕ → Rat
amount_of n below = record { num = pos n; below = below }

rounded-exact : (n below k p : ℕ) → n * 10 ^ p ≡ k * suc below → rounded (amount_of n below) p ≡ k
unfolding rounded
rounded-exact n below k p h =
    let no_rest : n * 10 ^ p % suc below ≡ 0 =
      ap (λ i. i % suc below) h ∙ mul-mod_left k (suc below) in
    let whole : n * 10 ^ p / suc below ≡ k = div-eq_of_eq-mul_left (omega arith) h in
    let stays : leb (suc below) (2 * 0) ≡ false = ground arith in rw (no_rest, stays, whole) refl

is_exact-exact :
    (n below k p : ℕ) → n * 10 ^ p ≡ k * suc below → is_exact (amount_of n below) p ≡ true
unfolding is_exact
is_exact-exact n below k p h = rw (rounded-exact n below k p h) (ground (arith, h))

times_pos : (a b : ℕ) → pos a *ℤ pos b ≡ pos (a * b)
unfolding ◌*ℤ◌ sub_ℕ
times_pos a b = ground arith

float_string-printed :
    (n below p : ℕ) → float_string (amount_of n below) p ≡ printed (rounded (amount_of n below) p) p
unfolding float_string
float_string-printed n below p =
    let positive : ltb_ℤ (pos n) (pos 0) ≡ false = ground arith in rw positive refl

rat_beq-Reads :
    (n below p : ℕ) (v : Rat)
    → is_exact (amount_of n below) p ≡ true
    → v.num ≡ pos (rounded (amount_of n below) p)
    → den v ≡ 10 ^ p
    → rat_beq v (amount_of n below) ≡ true
unfolding is_exact rat_beq
rat_beq-Reads n below p v h num_is den_is =
    rw (num_is, den_is, times_pos (rounded (amount_of n below) p) (suc below), times_pos n (10 ^ p))
      (ground (arith, h))

-- For an amount that is not negative and is `k` units of the `p`th place after the point, p below 64,
-- decimal reads the text that decimalString writes, as an amount equal to it.
pub decimal-decimal_string :
    (n below k p : ℕ)
    → p < 64
    → n * 10 ^ p ≡ k * suc below
    → (v : Rat) × (decimal (decimal_string (amount_of n below)) ≡ some v)
      × (rat_beq v (amount_of n below) ≡ true)
unfolding decimal_string
decimal-decimal_string n below k p h e =
    let start : 0 + p ≡ p = omega arith in
    let found = decimal_string_from-IsFound 64 0 p (amount_of n below) h (
      subst (λ i. is_exact (amount_of n below) i ≡ true) (sym start)
        (is_exact-exact n below k p e)) in
    let read = printed-Reads (rounded (amount_of n below) found.places) found.places in
    (
      read.amount,
      ap decimal (found.is_print ∙ float_string-printed n below found.places) ∙ read.is_read,
      rat_beq-Reads n below found.places read.amount found.exact read.num_is read.den_is,
    )
