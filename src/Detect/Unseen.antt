-- ===== src/Detect/Unseen.antt =====
-- A round is unseen only where the series ends before its window or a window of its hold.
use percentes.Base.{
  ℕ, zero, suc, ◌+◌, ◌-◌, ◌≡◌, ◌≤◌, ◌<◌, refl, inl, inr, ◌⊎◌, Bool, true, false, List, [], ◌∷◌,
  nat_eq, length, drop, leb, ltb, ◌&&◌, ◌||◌, ◌==◌, not, arith, Bool-cases,
}
use percentes.Base.Int.{pos, int_eq, ltb_ℤ}
use percentes.Base.Floats.{Floats}
use percentes.Detect.Types.{Bucket, Component, Params}
use percentes.Detect.Windows.{Sums, sums_of, window_sums, ratio_of, verdict_on, entry_verdict}
use percentes.Detect.Scan.{Hold, held, cut_off, dipped, unseen, hold_from, round_of, round_at}

observed-sums_of :
    (comp : Component) (n : ℕ) (bs : List Bucket) (s : Sums)
    → n ≤ length bs
    → (sums_of comp n bs s).observed ≡ s.observed + n
unfolding sums_of
observed-sums_of comp zero bs s le = omega arith
observed-sums_of comp (suc n) [] s le = absurd (omega (arith, le))
observed-sums_of comp (suc n) (b ∷ bs) s le =
    omega (arith, observed-sums_of comp n bs _ (omega (arith, le)))

length-drop : (i : ℕ) (bs : List Bucket) → length (drop i bs) ≡ length bs - i
length-drop zero bs = omega arith
length-drop (suc i) [] = omega arith
length-drop (suc i) (b ∷ bs) = omega (arith, length-drop i bs)

observed-le :
    (comp : Component) (n : ℕ) (bs : List Bucket) (s : Sums)
    → (sums_of comp n bs s).observed ≤ s.observed + n
unfolding sums_of
observed-le comp zero bs s = omega arith
observed-le comp (suc n) [] s = omega arith
observed-le comp (suc n) (b ∷ bs) s = omega (arith, observed-le comp n bs _)

module _ (fl : Floats) where
  -- A window of which the series has fewer buckets than its length, and which may still meet the bar:
  -- none is there, or those that are there meet it, or they would with each missing one all good, at as
  -- many requests as those have on average.
  unfoldable pub is_open : Sums → ℕ → fl.Float → Bool
  is_open s window_s bar =
      let missing =
        fl.over (fl.times (fl.of_int (pos (window_s - s.observed))) (fl.of_int s.den))
          (fl.of_int (pos s.observed)) in
      ltb s.observed window_s
      && (s.observed == 0
          || (ltb_ℤ (pos 0) s.den && fl.at_least (ratio_of fl s) bar
              || not (s.den == pos 0)
                && fl.at_least
                    (fl.over (fl.plus (fl.of_int s.num) missing)
                      (fl.plus (fl.of_int s.den) missing))
                    bar))

  verdict_on-open :
      (s : Sums) (window_s : ℕ) (bar : fl.Float)
      → 0 < window_s
      → s.observed ≤ window_s
      → (verdict_on fl s window_s bar).1 ≡ is_open s window_s bar
  unfolding verdict_on is_open
  verdict_on-open s window_s bar some_s le = ground arith

  -- What the verdict's second part says.
  pub entry_verdict-open :
      (bs : List Bucket) (i window_s : ℕ) (comp : Component) (bar : fl.Float)
      → 0 < window_s
      → (entry_verdict fl bs i window_s comp bar).1
        ≡ is_open (window_sums bs i window_s comp) window_s bar
  unfolding entry_verdict window_sums
  entry_verdict-open bs i window_s comp bar some_s =
      verdict_on-open (window_sums bs i window_s comp) window_s bar some_s (
        omega (
          arith,
          observed-le comp window_s (drop i bs) (record { num = pos 0; den = pos 0; observed = 0 }),
        ))

  verdict_on-whole :
      (s : Sums) (window_s : ℕ) (bar : fl.Float)
      → 0 < window_s
      → s.observed ≡ window_s
      → (verdict_on fl s window_s bar).1 ≡ false
  unfolding verdict_on
  verdict_on-whole s window_s bar some_s whole = ground arith

  pub entry_verdict-cut :
      (bs : List Bucket) (i window_s : ℕ) (comp : Component) (bar : fl.Float)
      → 0 < window_s
      → (entry_verdict fl bs i window_s comp bar).1 ≡ true
      → length bs < i + window_s
  unfolding entry_verdict window_sums
  entry_verdict-cut bs i window_s comp bar some_s h =
      elim (Bool-cases (leb (i + window_s) (length bs))) [
        | inl fits ↦
            let all_there =
              observed-sums_of comp window_s (drop i bs)
                (record { num = pos 0; den = pos 0; observed = 0 })
                (ground (arith, length-drop i bs)) in
            let whole =
              verdict_on-whole (window_sums bs i window_s comp) window_s bar some_s
                (omega (arith, all_there)) in
            absurd (ground (arith, whole))
        | inr past ↦ ground arith
      ]

  hold_from-cut_off :
      (bs : List Bucket) (window_s : ℕ) (comp : Component) (bar : fl.Float) (n j : ℕ)
      → hold_from fl bs window_s comp bar n j ≡ cut_off
      → (k : ℕ) × (j ≤ k) × (k < j + n) × (length bs < k + window_s)
  unfolding hold_from
  hold_from-cut_off bs window_s comp bar zero j h = absurd (ground arith)
  hold_from-cut_off bs window_s comp bar (suc n) j h =
      elim (Bool-cases (leb (j + window_s) (length bs))) [
        | inr past ↦ (j, omega arith, omega arith, ground arith)
        | inl fits ↦
            let (k, low, high, past) =
              hold_from-cut_off bs window_s comp bar n (j + 1) (ground arith) in
            (k, omega (arith, low), omega (arith, high), past)
      ]

  round_of-unseen :
      (v : Bool × Bool) (h : Hold) → round_of fl v h ≡ unseen → (v.1 ≡ true) ⊎ (h ≡ cut_off)
  round_of-unseen (c, true) h e = inl refl
  round_of-unseen (false, false) h e = absurd (ground arith)
  round_of-unseen (true, false) held e = absurd (ground arith)
  round_of-unseen (true, false) cut_off e = inr refl
  round_of-unseen (true, false) (dipped j) e = absurd (ground arith)

  pub round_at-unseen :
      (bs : List Bucket) (p : Params) (comp : Component) (bar : fl.Float) (i : ℕ)
      → 0 < p.window_s
      → round_at fl bs p comp bar i ≡ unseen
      → (k : ℕ) × (i ≤ k) × (k ≤ i + p.hold_s) × (length bs < k + p.window_s)
  unfolding round_at
  round_at-unseen bs p comp bar i some_s h = elim (round_of-unseen _ _ h) [
    | inl v ↦ (i, omega arith, omega arith, entry_verdict-cut bs i p.window_s comp bar some_s v)
    | inr c ↦
        let (k, low, high, past) = hold_from-cut_off bs p.window_s comp bar p.hold_s (i + 1) c in
        (k, omega (arith, low), omega (arith, high), past)
  ]
