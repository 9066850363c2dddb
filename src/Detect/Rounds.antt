-- ===== src/Detect/Rounds.antt =====
-- internal/detect/detect.go: the entries that the recovery rule asks for, those that the series' end cuts,
-- and what a round of the scan says of its index.
use percentes.Base.{
  ℕ, zero, suc, ◌+◌, ◌≡◌, ◌≤◌, ◌<◌, refl, ◌∙◌, sym, ap, inl, inr, ◌⊎◌, Bool, true, false, List,
  nat_eq, length, ltb, arith, Bool-cases,
}
use mathlib.Core.Path.{subst}
use percentes.Base.Int.{int_eq}
use percentes.Base.Floats.{Floats}
use percentes.Detect.Types.{Bucket, Component, Params}
use percentes.Detect.Windows.{window_sums, entry_verdict}
use percentes.Detect.Unseen.{is_open, entry_verdict-open}
use percentes.Detect.Scan.{
  Hold, held, cut_off, dipped, unseen, no_entry, entry, canceled_at, sinks, hold_from, round_of,
  round_at,
}

module _ (fl : Floats) (bs : List Bucket) (p : Params) (comp : Component) (bar : fl.Float) where
  -- A whole window of the series that meets the bar, whose hold lies in the series and never falls below the bar.
  pub record Survives (i : ℕ) : Type 0 where
    pub candidate : entry_verdict fl bs i p.window_s comp bar ≡ (true, false)
    pub holds : (j : ℕ) → i < j → j ≤ i + p.hold_s → sinks fl bs p.window_s comp bar j ≡ false
    pub inside : (j : ℕ) → i < j → j ≤ i + p.hold_s → j + p.window_s ≤ length bs

  -- The series ends before the window or the hold of an entry at `i` can be seen.
  abbrev pub Unseen : ℕ → Type 0
  Unseen i = (k : ℕ) × (i ≤ k) × (k ≤ i + p.hold_s) × (length bs < k + p.window_s)

  -- An entry at `i` whose hold does not fall below the bar before the series ends in it.
  pub record CutHold (i : ℕ) : Type 0 where
    pub candidate : entry_verdict fl bs i p.window_s comp bar ≡ (true, false)
    pub at_window : ℕ
    pub in_hold : (i < at_window) × (at_window ≤ i + p.hold_s)
    pub past_end : length bs < at_window + p.window_s
    pub holds : (j : ℕ) → i < j → j < at_window → sinks fl bs p.window_s comp bar j ≡ false

  -- The window at `i` is open, or it is an entry's whose hold is cut.
  abbrev pub Cut : ℕ → Type 0
  Cut i = (is_open fl (window_sums bs i p.window_s comp) p.window_s bar ≡ true) ⊎ CutHold i

  -- No index survives, and none is cut.
  abbrev pub NoneIn : ℕ → ℕ → Type 0
  NoneIn a b = (m : ℕ) → a ≤ m → m < b → (¬ Survives m) × (¬ Cut m)

  hold_from-held :
      (n j k : ℕ)
      → hold_from fl bs p.window_s comp bar n j ≡ held
      → j ≤ k
      → k < j + n
      → (sinks fl bs p.window_s comp bar k ≡ false) × (k + p.window_s ≤ length bs)
  unfolding hold_from
  hold_from-held zero j k h low high = absurd (omega (arith, low, high))
  hold_from-held (suc n) j k h low high =
      let (inside, high_enough, rest) : (ltb (length bs) (j + p.window_s) ≡ false)
          × (sinks fl bs p.window_s comp bar j ≡ false)
          × (hold_from fl bs p.window_s comp bar n (j + 1) ≡ held) =
        ground arith in
      elim (Bool-cases (ltb j k)) [
        | inl lt ↦ hold_from-held n (j + 1) k rest (ground arith) (ground arith)
        | inr ge ↦
            let e : j ≡ k = ground arith in
            subst (λ i. (sinks fl bs p.window_s comp bar i ≡ false) × (i + p.window_s ≤ length bs))
              e (high_enough, ground arith)
      ]

  hold_from-dipped :
      (n j d : ℕ)
      → hold_from fl bs p.window_s comp bar n j ≡ dipped d
      → (j ≤ d)
        × (d < j + n)
        × (sinks fl bs p.window_s comp bar d ≡ true)
        × (d + p.window_s ≤ length bs)
  unfolding hold_from
  hold_from-dipped zero j d h = absurd (ground arith)
  hold_from-dipped (suc n) j d h = ground (arith, hold_from-dipped n (j + 1) d)

  round_of-entry :
      (v : Bool × Bool) (h : Hold) → round_of fl v h ≡ entry → (v ≡ (true, false)) × (h ≡ held)
  round_of-entry (c, true) h e = absurd (ground arith)
  round_of-entry (false, false) h e = absurd (ground arith)
  round_of-entry (true, false) held e = (refl, refl)
  round_of-entry (true, false) cut_off e = absurd (ground arith)
  round_of-entry (true, false) (dipped j) e = absurd (ground arith)

  round_of-canceled_at :
      (v : Bool × Bool) (h : Hold) (d : ℕ) → round_of fl v h ≡ canceled_at d → h ≡ dipped d
  round_of-canceled_at (c, true) h d e = absurd (ground arith)
  round_of-canceled_at (false, false) h d e = absurd (ground arith)
  round_of-canceled_at (true, false) held d e = absurd (ground arith)
  round_of-canceled_at (true, false) cut_off d e = absurd (ground arith)
  round_of-canceled_at (true, false) (dipped j) d e = ground arith

  round_of-no_entry : (v : Bool × Bool) (h : Hold) → round_of fl v h ≡ no_entry → v ≡ (false, false)
  round_of-no_entry (c, true) h e = absurd (ground arith)
  round_of-no_entry (false, false) h e = refl
  round_of-no_entry (true, false) held e = absurd (ground arith)
  round_of-no_entry (true, false) cut_off e = absurd (ground arith)
  round_of-no_entry (true, false) (dipped j) e = absurd (ground arith)

  -- What cuts a hold, with the windows before it.
  hold_from-cut :
      (n j : ℕ)
      → hold_from fl bs p.window_s comp bar n j ≡ cut_off
      → (k : ℕ) × (j ≤ k)
        × (k < j + n)
        × (length bs < k + p.window_s)
        × ((i : ℕ) → j ≤ i → i < k → sinks fl bs p.window_s comp bar i ≡ false)
  unfolding hold_from
  hold_from-cut zero j h = absurd (ground arith)
  hold_from-cut (suc n) j h = elim (Bool-cases (ltb (length bs) (j + p.window_s))) [
    | inl past ↦
        (j, omega arith, omega arith, ground arith, λ i low high. absurd (omega (arith, low, high)))
    | inr fits ↦
        let (stays, rest) : (sinks fl bs p.window_s comp bar j ≡ false)
            × (hold_from fl bs p.window_s comp bar n (j + 1) ≡ cut_off) =
          ground arith in
        let (k, low, high, past, before) = hold_from-cut n (j + 1) rest in
        (
          k,
          omega (arith, low),
          omega (arith, high),
          past,
          λ i from to. elim (Bool-cases (ltb j i)) [
            | inl lt ↦ before i (ground arith) to
            | inr ge ↦
                let e : j ≡ i = ground arith in
                subst (λ x. sinks fl bs p.window_s comp bar x ≡ false) e stays
          ],
        )
  ]

  round_of-unseen :
      (v : Bool × Bool) (h : Hold)
      → round_of fl v h ≡ unseen
      → (v.1 ≡ true) ⊎ ((v ≡ (true, false)) × (h ≡ cut_off))
  round_of-unseen (c, true) h e = inl refl
  round_of-unseen (false, false) h e = absurd (ground arith)
  round_of-unseen (true, false) held e = absurd (ground arith)
  round_of-unseen (true, false) cut_off e = inr (refl, refl)
  round_of-unseen (true, false) (dipped j) e = absurd (ground arith)

  pub round_at-Cut : (i : ℕ) → 0 < p.window_s → round_at fl bs p comp bar i ≡ unseen → Cut i
  unfolding round_at
  round_at-Cut i some_s h = elim (round_of-unseen _ _ h) [
    | inl v ↦ inl (sym (entry_verdict-open fl bs i p.window_s comp bar some_s) ∙ v)
    | inr (v, c) ↦
        (let (k, low, high, past, before) = hold_from-cut p.hold_s (i + 1) c in
          inr (record {
            candidate = v;
            at_window = k;
            in_hold = (omega (arith, low), omega (arith, high));
            past_end = past;
            holds = λ j from to. before j (omega (arith, from)) to;
          }))
  ]

  pub round_at-entry : (i : ℕ) → round_at fl bs p comp bar i ≡ entry → Survives i
  unfolding round_at
  round_at-entry i h =
      let (v, w) = round_of-entry _ _ h in
      record {
        candidate = v;
        holds = λ j low high.
            (hold_from-held p.hold_s (i + 1) j w (omega (arith, low)) (omega (arith, high))).0;
        inside = λ j low high.
            (hold_from-held p.hold_s (i + 1) j w (omega (arith, low)) (omega (arith, high))).1;
      }

  pub round_at-canceled_at :
      (i d : ℕ)
      → round_at fl bs p comp bar i ≡ canceled_at d
      → (i < d)
        × (d ≤ i + p.hold_s)
        × (sinks fl bs p.window_s comp bar d ≡ true)
        × (d + p.window_s ≤ length bs)
  unfolding round_at
  round_at-canceled_at i d h =
      let (low, high, dip, fits) =
        hold_from-dipped p.hold_s (i + 1) d (round_of-canceled_at _ _ d h) in
      (omega (arith, low), omega (arith, high), dip, fits)

  pub round_at-no_entry :
      (i : ℕ) → 0 < p.window_s → round_at fl bs p comp bar i ≡ no_entry → (¬ Survives i) × (¬ Cut i)
  unfolding round_at
  round_at-no_entry i some_s h =
      let v = round_of-no_entry _ _ h in
      (
        λ s. absurd (ground (arith, ap (λ x. x.0) v, ap (λ x. x.0) s.candidate)),
        λ c. elim c [
          | inl seen ↦ absurd (
              ground
                (arith, ap (λ x. x.1) v, entry_verdict-open fl bs i p.window_s comp bar some_s))
          | inr cut ↦ absurd (ground (arith, ap (λ x. x.0) v, ap (λ x. x.0) cut.candidate))
        ],
      )
