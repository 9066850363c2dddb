-- ===== src/Base/Int.antt =====
-- Go's `int` and `int64`: an integer, with sums that wrap around at 64 bits.
use percentes.Base.Tests.{Eq, ltb, leb, nat_beq, if◌then◌else◌}
use Prim.Native.Nat.{ℕ, suc, ◌+◌, ◌-◌, ◌*◌, ◌/◌, ◌%◌, ◌^◌, ◌≤◌, ◌<◌}
use mathlib.Core.Path.{◌≡◌, ap, refl}
use mathlib.Core.Logic.{◌↔◌}
use mathlib.Core.Bool.{Bool, true, false}
use native.Mathlib.Omega.{arith}

-- `negsuc n` is -(n + 1).
pub data ℤ : Type 0 where
  pos : ℕ → ℤ
  negsuc : ℕ → ℤ

abbrev pub pos_part : ℤ → ℕ
pos_part (pos n) = n
pos_part (negsuc n) = 0

abbrev pub neg_part : ℤ → ℕ
neg_part (pos n) = 0
neg_part (negsuc n) = suc n

abbrev pub ltb_ℤ : ℤ → ℤ → Bool
ltb_ℤ a b = ltb (pos_part a + neg_part b) (pos_part b + neg_part a)

abbrev pub leb_ℤ : ℤ → ℤ → Bool
leb_ℤ a b = leb (pos_part a + neg_part b) (pos_part b + neg_part a)

infix 50 ◌≤ℤ◌
abbrev pub ◌≤ℤ◌ : ℤ → ℤ → Type 0
a ≤ℤ b = pos_part a + neg_part b ≤ pos_part b + neg_part a

abbrev pub int_beq : ℤ → ℤ → Bool
int_beq (pos a) (pos b) = nat_beq a b
int_beq (negsuc a) (negsuc b) = nat_beq a b
int_beq _ _ = false

pub int_beq_iff : (a b : ℤ) → (int_beq a b ≡ true) ↔ (a ≡ b)
int_beq_iff (pos a) (pos b) = ground arith
int_beq_iff (pos a) (negsuc b) = ground arith
int_beq_iff (negsuc a) (pos b) = ground arith
int_beq_iff (negsuc a) (negsuc b) = ground arith

instance abbrev pub int_eq : Eq ℤ
int_eq = record { beq = int_beq; beq_iff = int_beq_iff }

infixl 65 ◌+ℤ◌
infixl 70 ◌*ℤ◌
-- Exact sums and products, for the numerators of fractions.
unfoldable pub sub_ℕ : ℕ → ℕ → ℤ
sub_ℕ a b = if leb b a then pos (a - b) else negsuc (b - a - 1)

unfoldable pub ◌+ℤ◌ : ℤ → ℤ → ℤ
unfolding sub_ℕ
a +ℤ b = sub_ℕ (pos_part a + pos_part b) (neg_part a + neg_part b)

unfoldable pub ◌*ℤ◌ : ℤ → ℤ → ℤ
unfolding sub_ℕ
a *ℤ b =
    sub_ℕ (pos_part a * pos_part b + neg_part a * neg_part b)
      (pos_part a * neg_part b + neg_part a * pos_part b)

-- The 64 bits of an integer, and the integer that 64 bits stand for (two's complement).
abbrev pub modulus : ℕ
modulus = 2 ^ 64

unfoldable pub bits : ℤ → ℕ
bits (pos n) = n % modulus
bits (negsuc n) = modulus - 1 - n % modulus

unfoldable pub from_bits : ℕ → ℤ
from_bits x = if ltb x (2 ^ 63) then pos x else negsuc (modulus - 1 - x)

infixl 65 ◌+i◌ ◌-i◌
infixl 70 ◌*i◌
-- a + b, a - b and a * b on `int`.
unfoldable pub ◌+i◌ : ℤ → ℤ → ℤ
a +i b = from_bits ((bits a + bits b) % modulus)

unfoldable pub ◌-i◌ : ℤ → ℤ → ℤ
a -i b = from_bits ((bits a + modulus - bits b) % modulus)

unfoldable pub ◌*i◌ : ℤ → ℤ → ℤ
a *i b = from_bits ((bits a * bits b) % modulus)

-- Division of an int64 by a positive number, towards 0.
unfoldable pub quo_i : ℤ → ℕ → ℤ
quo_i (pos n) d = pos (n / d)
quo_i (negsuc n) d = let q = suc n / d in if nat_beq q 0 then pos 0 else negsuc (q - 1)

bits-from_bits : (x : ℕ) → x < modulus → bits (from_bits x) ≡ x
unfolding bits from_bits
bits-from_bits x h = ground arith

pub bits_bound : (a : ℤ) → bits a < modulus
unfolding bits
bits_bound (pos n) = omega arith
bits_bound (negsuc n) = omega arith

pub bits_add : (a b : ℤ) → bits (a +i b) ≡ (bits a + bits b) % modulus
unfolding ◌+i◌
bits_add a b = bits-from_bits _ (omega arith)

pub bits_sub : (a b : ℤ) → bits (a -i b) ≡ (bits a + modulus - bits b) % modulus
unfolding ◌-i◌
bits_sub a b = bits-from_bits _ (omega arith)

pub +i_comm : (a b : ℤ) → a +i b ≡ b +i a
unfolding ◌+i◌
+i_comm a b = ap from_bits (omega arith)

pub +i_assoc : (a b c : ℤ) → a +i b +i c ≡ a +i (b +i c)
+i_assoc a b c = unfold ◌+i◌ in ap from_bits (omega (arith, bits_add a b, bits_add b c))

-- Below 2 ^ 63 the sum is the plain one.
pub +i_exact : (a b : ℕ) → a + b < 2 ^ 63 → pos a +i pos b ≡ pos (a + b)
unfolding ◌+i◌ bits from_bits
+i_exact a b h = ground arith

pub -i_exact : (a b : ℕ) → b ≤ a → a < 2 ^ 63 → pos a -i pos b ≡ pos (a - b)
unfolding ◌-i◌ bits from_bits
-i_exact a b h k = ground arith

-- Adding b - c to a sum that already holds c, as a settlement does.
pub +i-sub_cancel : (a b c : ℤ) → a +i b +i (c -i b) ≡ a +i c
+i-sub_cancel a b c =
    unfold ◌+i◌ in
    ap from_bits
      (omega (arith, bits_add a b, bits_sub c b, bits_bound a, bits_bound b, bits_bound c))

bits_zero : bits (pos 0) ≡ 0
unfolding bits
bits_zero = refl

-- 0 is neutral in a sum of sums.
pub zero-+i : (a b : ℤ) → pos 0 +i (a +i b) ≡ a +i b
zero-+i a b = unfold ◌+i◌ in ap from_bits (omega (arith, bits_add a b, bits_zero))

pub +i-zero-+i : (a b : ℤ) → a +i (pos 0 +i b) ≡ a +i b
+i-zero-+i a b = unfold ◌+i◌ in ap from_bits (omega (arith, bits_add (pos 0) b, bits_zero))

-- Two sums are equal if their bits are.
pub eq_of_bits :
    (a b c d : ℤ) → (bits a + bits b) % modulus ≡ (bits c + bits d) % modulus → a +i b ≡ c +i d
unfolding ◌+i◌
eq_of_bits a b c d h = ap from_bits h
