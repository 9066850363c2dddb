-- ===== src/Base/Fractions.antt =====
-- Exact fractions in the place of floats, for runs on concrete input.
use percentes.Base.Floats.{Floats}
use percentes.Base.Int.{pos, negsuc, pos_part, ◌*ℤ◌}
use percentes.Base.Rat.{Rat, den, rat_of_int, ◌+q◌, ◌*q◌, leb_rat, gtb_rat}
use Prim.Native.Nat.{◌-◌, ◌*◌, ◌^◌}

-- A quotient is by a positive fraction, and only whole ones convert to an int.
abbrev pub fractions : Floats
fractions = record {
  Float = Rat;
  of_int = rat_of_int;
  to_int = λ a. a.num;
  literal = λ n k. record { num = pos n; below = 10 ^ k - 1 };
  times = λ a b. a *q b;
  over = λ a b. record { num = a.num *ℤ pos (den b); below = den a * pos_part b.num - 1 };
  plus = λ a b. a +q b;
  minus = λ a b. a +q record { num = b.num *ℤ negsuc 0; below = b.below };
  at_least = λ a b. leb_rat b a;
  below = λ a b. gtb_rat b a;
}
