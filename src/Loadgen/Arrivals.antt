-- ===== src/Loadgen/Arrivals.antt =====
-- The Poisson loop ends, with times of its window in ascending order.
use percentes.Base.{
  ℕ, zero, suc, ◌+◌, ◌-◌, ◌^◌, ◌≡◌, ◌≤◌, ◌<◌, refl, ap, ◌∙◌, inl, inr, ◌⊎◌, Bool, true, false, List,
  [], ◌∷◌, if◌then◌else◌, arith, Bool-cases, Result, ok, ok->>=,
}
use mathlib.Core.Path.{subst}
use percentes.Base.Int.{ℤ, pos, leb_ℤ, ◌+i◌, +i_exact}
use percentes.Base.Floats.{Floats}
use percentes.Loadgen.Ladder.{Rng, NoLadder, gap_of, poisson_from, arrivals, poisson}

-- Times from a first one on, none before the one in front of it, and below an end.
abbrev pub Ascends : ℕ → ℕ → List ℤ → Type 0
Ascends t end_ns [] = Unit
Ascends t end_ns (x ∷ xs) = (u : ℕ) × (x ≡ pos u) × (t ≤ u) × (u < end_ns) × Ascends u end_ns xs

if_true {ℓ} : {A : Type ℓ} (x y : A) (b : Bool) → b ≡ true → (if b then x else y) ≡ x
if_true x y true e = refl
if_true x y false e = absurd (ground arith)

if_false {ℓ} : {A : Type ℓ} (x y : A) (b : Bool) → b ≡ false → (if b then x else y) ≡ y
if_false x y true e = absurd (ground arith)
if_false x y false e = refl

module _ (fl : Floats) (rng : Rng fl.Float) (rate : fl.Float) where
  -- The gaps of `n` draws come to `left` nanoseconds, each below 2 ^ 62 up to the one that does.
  abbrev pub Reaches : ℕ → rng.State → ℕ → Type 0
  Reaches zero st left = ⊥
  Reaches (suc n) st left =
      (g : ℕ) × (gap_of fl rng rate st ≡ pos g)
      × (g < 2 ^ 62)
      × ((left ≤ g) ⊎ Reaches n (rng.exp_float st).1 (left - g))

  -- The loop appends ascending times of the window.
  abbrev pub Ends : ℕ → ℕ → Result NoLadder (List ℤ × rng.State) → Type 0
  Ends t b r = (xs : List ℤ) × (st : rng.State) × (r ≡ ok (xs, st)) × Ascends t b xs

  pub poisson_from-Ends :
      (n fuel t b : ℕ) (st : rng.State)
      → Reaches n st (b - t)
      → n ≤ fuel
      → b < 2 ^ 62
      → t ≤ b
      → Ends t b (poisson_from fl rng rate (pos b) fuel (pos t) st)
  unfolding poisson_from
  poisson_from-Ends zero fuel t b st reach enough small le = absurd reach
  poisson_from-Ends (suc n) zero t b st reach enough small le = absurd (omega (arith, enough))
  poisson_from-Ends (suc n) (suc fuel) t b st (g, e, high, reach) enough small le =
      let next_is : pos t +i gap_of fl rng rate st ≡ pos (t + g) =
        ap (λ z. pos t +i z) e ∙ +i_exact t g (omega (arith, small, le, high)) in
      let test_is = ap (leb_ℤ (pos b)) next_is in
      elim (Bool-cases (leb_ℤ (pos b) (pos (t + g)))) [
        | inl over ↦ ([], (rng.exp_float st).1, if_true _ _ _ (test_is ∙ over), tt)
        | inr more ↦ elim reach [
          | inl past ↦ absurd (ground (arith, past))
          | inr later ↦
              (let left_is : b - t - g ≡ b - (t + g) = omega arith in
                let (xs, st', q, asc) =
                  poisson_from-Ends n fuel (t + g) b (rng.exp_float st).1
                    (subst (Reaches n (rng.exp_float st).1) left_is later) (omega (arith, enough))
                    small (ground arith) in
                let rest_is =
                  ap (λ z. poisson_from fl rng rate (pos b) fuel z (rng.exp_float st).1) next_is
                  ∙ q in
                (
                  (pos t +i gap_of fl rng rate st) ∷ xs,
                  st',
                  if_false _ _ _ (test_is ∙ more) ∙ ok->>= _ _ rest_is refl,
                  (t + g, next_is, omega arith, ground arith, asc),
                ))
        ]
      ]

-- In a window whose ends are not negative and below 2 ^ 62 ns, the Poisson loop of arrivals ends, where
-- the gaps of some draws of its generator come to the window's length, none of them negative or
-- 2 ^ 62 ns or more; a round for each of these draws is enough. The times that it appends are not before
-- the window's start, before its end, and in order.
pub arrivals-Ends :
    (fl : Floats) (rng : Rng fl.Float) (rate : fl.Float) (n fuel a b : ℕ) (st : rng.State)
    → Reaches fl rng rate n st (b - a)
    → n ≤ fuel
    → b < 2 ^ 62
    → a ≤ b
    → Ends fl rng rate a b (arrivals fl rng fuel poisson rate (pos a) (pos b) st)
unfolding arrivals
arrivals-Ends fl rng rate n fuel a b st reach enough small le =
    poisson_from-Ends fl rng rate n fuel a b st reach enough small le
