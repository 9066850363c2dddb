-- ===== src/Detect/Survival.antt =====
-- The scan finds the first entry that survives, or that the series' end cuts.
use percentes.Base.{
  ℕ, zero, suc, ◌+◌, ◌≡◌, ◌≤◌, ◌<◌, refl, ◌∙◌, sym, ap, inl, inr, Bool, true, false, none, some,
  List, ◌==◌, nat_eq, if◌then◌else◌, length, ltb, arith, Bool-cases,
}
use mathlib.Core.Path.{subst}
use percentes.Base.Int.{ℤ, pos, negsuc, int_eq, ltb_ℤ}
use percentes.Base.Floats.{Floats}
use percentes.Detect.Types.{Bucket, Component, Params}
use percentes.Detect.Windows.{Sums, ratio_of, window_sums, window_ratio, verdict_on, entry_verdict}
use percentes.Detect.Unseen.{entry_verdict-open, round_at-unseen, entry_verdict-cut}
use percentes.Detect.Scan.{
  Round, unseen, no_entry, entry, canceled_at, Scanned, after_round, found, hold_cut, exhausted,
  sinks, sinks_below, round_at, scan,
}
use percentes.Detect.Rounds.{
  Survives, Unseen, Cut, NoneIn, round_at-entry, round_at-canceled_at, round_at-no_entry,
  round_at-Cut,
}

positive-nonzero : (z : ℤ) → ltb_ℤ (pos 0) z ≡ true → (z == pos 0) ≡ false
positive-nonzero (pos n) h = ground arith
positive-nonzero (negsuc n) h = ground arith

module _ (fl : Floats) (bs : List Bucket) (p : Params) (comp : Component) (bar : fl.Float) where
  -- A dip is no candidate, where < and >= of floats are never both true.
  module _ (apart : (x y : fl.Float) → fl.at_least x y ≡ true → fl.below x y ≡ false) where
    sinks_below-verdict_on :
        (s : Sums)
        → (verdict_on fl s p.window_s bar).0 ≡ true
        → sinks_below fl (if s.den == pos 0 then none else some (ratio_of fl s)) bar ≡ false
    unfolding verdict_on
    sinks_below-verdict_on s h =
        let (load, high) : (ltb_ℤ (pos 0) s.den ≡ true) × (fl.at_least (ratio_of fl s) bar ≡ true) =
          ground arith in
        rw (positive-nonzero s.den load) (apart (ratio_of fl s) bar high)

    candidate-sinks :
        (i : ℕ)
        → entry_verdict fl bs i p.window_s comp bar ≡ (true, false)
        → sinks fl bs p.window_s comp bar i ≡ false
    unfolding entry_verdict sinks window_ratio
    candidate-sinks i h =
        sinks_below-verdict_on (window_sums bs i p.window_s comp) (ap (λ v. v.0) h)

    dip-Survives :
        (m d : ℕ)
        → m ≤ d
        → d ≤ m + p.hold_s
        → sinks fl bs p.window_s comp bar d ≡ true
        → ¬ Survives fl bs p comp bar m
    dip-Survives m d le near dip s = elim (Bool-cases (ltb m d)) [
      | inl before ↦ absurd (ground (arith, s.holds d (ground arith) (ground arith)))
      | inr here ↦
          let e : m ≡ d = ground arith in
          let k = candidate-sinks m s.candidate in
          absurd (ground (arith, ap (sinks fl bs p.window_s comp bar) (sym e)))
    ]

    dip-Cut :
        (m d : ℕ)
        → 0 < p.window_s
        → m ≤ d
        → sinks fl bs p.window_s comp bar d ≡ true
        → d + p.window_s ≤ length bs
        → ¬ Cut fl bs p comp bar m
    dip-Cut m d some_s le dip fits (inl v) = absurd (
        omega (
          arith,
          fits,
          le,
          entry_verdict-cut fl bs m p.window_s comp bar some_s
              (entry_verdict-open fl bs m p.window_s comp bar some_s ∙ v),
        ))
    dip-Cut m d some_s le dip fits (inr c) = elim (Bool-cases (ltb m d)) [
      | inl before ↦
          absurd (ground (arith, c.holds d (ground arith) (omega (arith, c.past_end, fits))))
      | inr here ↦
          let e : m ≡ d = ground arith in
          let k = candidate-sinks m c.candidate in
          absurd (ground (arith, ap (sinks fl bs p.window_s comp bar) (sym e)))
    ]

    dip-NoneIn :
        (i d : ℕ)
        → 0 < p.window_s
        → d ≤ i + p.hold_s
        → sinks fl bs p.window_s comp bar d ≡ true
        → d + p.window_s ≤ length bs
        → NoneIn fl bs p comp bar i (d + 1)
    dip-NoneIn i d some_s near dip fits m low high = (
      dip-Survives m d (omega (arith, high)) (omega (arith, near, low)) dip,
      dip-Cut m d some_s (omega (arith, high)) dip fits,
    )

  -- What the end of a scan from `i` says: at an entry, the first that survives; unobserved, at an index
  -- before which none does; otherwise that none does at all.
  abbrev pub IsFirst : ℕ → ℕ → Scanned → Type 0
  IsFirst i last (found c k) =
      (i ≤ k) × (k < last) × Survives fl bs p comp bar k × NoneIn fl bs p comp bar i k
  IsFirst i last (hold_cut c) =
      (k : ℕ) × (i ≤ k)
      × (k < last)
      × (Unseen fl bs p comp bar k × Cut fl bs p comp bar k)
      × NoneIn fl bs p comp bar i k
  IsFirst i last (exhausted c) = NoneIn fl bs p comp bar i last

  NoneIn-append :
      (a b c : ℕ)
      → NoneIn fl bs p comp bar a b
      → NoneIn fl bs p comp bar b c
      → NoneIn fl bs p comp bar a c
  NoneIn-append a b c f g m low high = elim (Bool-cases (ltb m b)) [
    | inl lt ↦ f m low (ground arith)
    | inr ge ↦ g m (ground arith) high
  ]

  IsFirst-later :
      (i k last : ℕ) (r : Scanned)
      → i ≤ k
      → NoneIn fl bs p comp bar i k
      → IsFirst k last r
      → IsFirst i last r
  IsFirst-later i k last (found c m) le none_yet (low, high, s, f) =
      (omega (arith, le, low), high, s, NoneIn-append i k m none_yet f)
  IsFirst-later i k last (hold_cut c) le none_yet (m, low, high, u, f) =
      (m, omega (arith, le, low), high, u, NoneIn-append i k m none_yet f)
  IsFirst-later i k last (exhausted c) le none_yet f = NoneIn-append i k last none_yet f

  NoneIn-one :
      (i : ℕ)
      → (¬ Survives fl bs p comp bar i) × (¬ Cut fl bs p comp bar i)
      → NoneIn fl bs p comp bar i (i + 1)
  NoneIn-one i f m low high =
      let e : i ≡ m = omega (arith, low, high) in
      subst (λ x. (¬ Survives fl bs p comp bar x) × (¬ Cut fl bs p comp bar x)) e f

  module _ (some_s : 0 < p.window_s)
      (apart : (x y : fl.Float) → fl.at_least x y ≡ true → fl.below x y ≡ false) where
    after_round-IsFirst :
        (b : Bool) (r : Round) (last i c : ℕ) (go_on : ℕ → ℕ → Scanned)
        → ltb i last ≡ b
        → round_at fl bs p comp bar i ≡ r
        → ((k n : ℕ) → i < k → IsFirst k last (go_on k n))
        → IsFirst i last (after_round b r i c go_on)
    after_round-IsFirst false r last i c go_on b_is r_is rest = λ m low high. absurd (ground arith)
    after_round-IsFirst true unseen last i c go_on b_is r_is rest = (
      i,
      omega arith,
      ground arith,
      (round_at-unseen fl bs p comp bar i some_s r_is, round_at-Cut fl bs p comp bar i some_s r_is),
      λ m low high. absurd (omega (arith, low, high)),
    )
    after_round-IsFirst true no_entry last i c go_on b_is r_is rest =
        IsFirst-later i (i + 1) last _ (omega arith)
          (NoneIn-one i (round_at-no_entry fl bs p comp bar i some_s r_is))
          (rest (i + 1) c (omega arith))
    after_round-IsFirst true entry last i c go_on b_is r_is rest = (
      omega arith,
      ground arith,
      round_at-entry fl bs p comp bar i r_is,
      λ m low high. absurd (omega (arith, low, high)),
    )
    after_round-IsFirst true (canceled_at d) last i c go_on b_is r_is rest =
        let (lt, le, dip, fits) = round_at-canceled_at fl bs p comp bar i d r_is in
        IsFirst-later i (d + 1) last _ (omega (arith, lt)) (dip-NoneIn apart i d some_s le dip fits)
          (rest (d + 1) (c + 1) (omega (arith, lt)))

    -- Fuel for each index left is enough.
    pub scan-IsFirst :
        (last fuel i c : ℕ) → last ≤ i + fuel → IsFirst i last (scan fl bs p comp bar last fuel i c)
    unfolding scan
    scan-IsFirst last zero i c enough = λ m low high. absurd (omega (arith, low, high, enough))
    scan-IsFirst last (suc fuel) i c enough =
        after_round-IsFirst _ _ last i c _ refl refl
          (λ k n lt. scan-IsFirst last fuel k n (omega (arith, lt, enough)))
