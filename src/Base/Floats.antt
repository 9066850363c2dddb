-- ===== src/Base/Floats.antt =====
-- Go's float64, a parameter: its type, conversions from and to an int, literals, the operations, >= and <.
use percentes.Base.Int.{ℤ}
use Prim.Native.Nat.{ℕ}
use mathlib.Core.Bool.{Bool}

pub record Floats : Type 1 where
  pub Float : Type 0
  pub of_int : ℤ → Float
  -- towards 0
  pub to_int : Float → ℤ
  -- digits and how many of them stand behind the point
  pub literal : ℕ → ℕ → Float
  pub times : Float → Float → Float
  pub over : Float → Float → Float
  pub plus : Float → Float → Float
  pub minus : Float → Float → Float
  pub at_least : Float → Float → Bool
  pub below : Float → Float → Bool
