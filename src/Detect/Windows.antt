-- ===== src/Detect/Windows.antt =====
-- internal/detect/detect.go: the sums of a leading window and the verdict on it as an entry.
use percentes.Base.{
  ℕ, zero, suc, ◌+◌, ◌-◌, Bool, true, false, ◌&&◌, ◌||◌, Option, none, some, List, [], ◌∷◌, ◌==◌,
  nat_eq, if◌then◌else◌, drop, ltb,
}
use percentes.Base.Int.{ℤ, pos, int_eq, ltb_ℤ, ◌+i◌}
use percentes.Base.Floats.{Floats}
use percentes.Detect.Types.{Bucket, Component}

pub record Sums : Type 0 where
  pub num : ℤ
  pub den : ℤ
  pub observed : ℕ

-- The loop of windowSums over the buckets from the window's first on.
unfoldable pub sums_of : Component → ℕ → List Bucket → Sums → Sums
sums_of comp zero bs s = s
sums_of comp (suc n) [] s = s
sums_of comp (suc n) (b ∷ bs) s =
    let (num, den) = comp b in
    sums_of comp n bs (record { num = s.num +i num; den = s.den +i den; observed = s.observed + 1 })

-- windowSums
unfoldable pub window_sums : List Bucket → ℕ → ℕ → Component → Sums
unfolding sums_of
window_sums bs from_idx window_s comp =
    sums_of comp window_s (drop from_idx bs) (record { num = pos 0; den = pos 0; observed = 0 })

module _ (fl : Floats) where
  abbrev pub ratio_of : Sums → fl.Float
  ratio_of s = fl.over (fl.of_int s.num) (fl.of_int s.den)

  -- windowRatio
  unfoldable pub window_ratio : List Bucket → ℕ → ℕ → Component → Option fl.Float
  unfolding window_sums
  window_ratio bs from_idx window_s comp =
      let s = window_sums bs from_idx window_s comp in
      if s.den == pos 0 then none else some (ratio_of s)

  -- entryVerdict on a window's sums: whether it is a candidate, and whether it is unobserved.
  unfoldable pub verdict_on : Sums → ℕ → fl.Float → Bool × Bool
  verdict_on s window_s bar =
      let m =
        fl.over (fl.times (fl.of_int (pos (window_s - s.observed))) (fl.of_int s.den))
          (fl.of_int (pos s.observed)) in
      if s.observed == 0
      then (false, true)
      else if ltb_ℤ (pos 0) s.den && fl.at_least (ratio_of s) bar
      then (s.observed == window_s, ltb s.observed window_s)
      else if s.observed == window_s || s.den == pos 0
      then (false, false)
      else (
        false,
        fl.at_least (fl.over (fl.plus (fl.of_int s.num) m) (fl.plus (fl.of_int s.den) m)) bar,
      )

  -- entryVerdict
  unfoldable pub entry_verdict : List Bucket → ℕ → ℕ → Component → fl.Float → Bool × Bool
  unfolding window_sums verdict_on
  entry_verdict bs from_idx window_s comp bar =
      verdict_on (window_sums bs from_idx window_s comp) window_s bar
