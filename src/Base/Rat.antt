-- ===== src/Base/Rat.antt =====
-- math/big's `Rat`, the part that the program uses: an exact fraction, with its order.
-- `below` is the denominator less one, so that no denominator is 0. Fractions are not kept in lowest
-- terms: the program reads them only through `Cmp`, `Sign` and their decimal print.
use percentes.Base.Int.{ℤ, pos, leb_ℤ, ltb_ℤ, int_beq, ◌+ℤ◌, ◌*ℤ◌}
use Prim.Native.Nat.{ℕ, suc, ◌+◌, ◌-◌, ◌*◌}
use mathlib.Core.Path.{◌≡◌}
use mathlib.Core.Bool.{Bool, true, false}
use native.Mathlib.Omega.{arith}

pub record Rat : Type 0 where
  pub num : ℤ
  pub below : ℕ

abbrev pub den : Rat → ℕ
den r = suc r.below

-- new(big.Rat)
abbrev pub zero_rat : Rat
zero_rat = record { num = pos 0; below = 0 }

-- big.NewRat(n, 1)
abbrev pub rat_of_int : ℤ → Rat
rat_of_int n = record { num = n; below = 0 }

infixl 65 ◌+q◌
infixl 70 ◌*q◌
unfoldable pub ◌+q◌ : Rat → Rat → Rat
a +q b = record {
  num = a.num *ℤ pos (den b) +ℤ b.num *ℤ pos (den a);
  below = a.below * den b + b.below;
}

unfoldable pub ◌*q◌ : Rat → Rat → Rat
a *q b = record { num = a.num *ℤ b.num; below = a.below * den b + b.below }

-- Quo by a positive whole number.
unfoldable pub quo : Rat → ℕ → Rat
quo a k = record { num = a.num; below = den a * k - 1 }

-- a.Cmp(b) <= 0
unfoldable pub leb_rat : Rat → Rat → Bool
leb_rat a b = leb_ℤ (a.num *ℤ pos (den b)) (b.num *ℤ pos (den a))

-- a.Cmp(b) > 0
unfoldable pub gtb_rat : Rat → Rat → Bool
gtb_rat a b = ltb_ℤ (b.num *ℤ pos (den a)) (a.num *ℤ pos (den b))

-- a.Cmp(b) == 0
unfoldable pub rat_beq : Rat → Rat → Bool
rat_beq a b = int_beq (a.num *ℤ pos (den b)) (b.num *ℤ pos (den a))

-- r.Sign() == 0
abbrev pub is_zero_rat : Rat → Bool
is_zero_rat r = int_beq r.num (pos 0)

infix 50 ◌≤q◌
abbrev pub ◌≤q◌ : Rat → Rat → Type 0
a ≤q b = leb_rat a b ≡ true

pub gtb_rat-not : (a b : Rat) → gtb_rat a b ≡ false → a ≤q b
unfolding leb_rat gtb_rat
gtb_rat-not a b h = ground arith

pub leb_rat_refl : (a : Rat) → a ≤q a
unfolding leb_rat
leb_rat_refl a = ground arith

pub leb_rat_of_gtb : (a b : Rat) → gtb_rat a b ≡ true → b ≤q a
unfolding leb_rat gtb_rat
leb_rat_of_gtb a b h = ground arith
