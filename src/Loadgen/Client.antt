-- ===== src/Loadgen/Client.antt =====
-- What a client that passed its gate did: all requests sent, few late, the CPU and the pauses low.
use percentes.Base.{
  ℕ, zero, suc, ◌+◌, ◌*◌, ◌≡◌, ◌≤◌, ◌<◌, sym, ◌∙◌, inl, inr, Bool, true, false, not, ◌&&◌, List, [],
  ◌∷◌, ◌==◌, nat_eq, leb, if◌then◌else◌, length, drop, All, arith, Bool-cases,
}
use percentes.Base.Int.{ℤ, pos, int_eq, ◌*i◌}
use percentes.Base.Floats.{Floats}
use percentes.Traffic.Requests.{Request}
use percentes.Loadgen.Gates.{
  ClientValidity, CpuSample, count_undispatched, skews_of, samples_in, mean_of, windows_from,
  evaluate_gates,
}
use percentes.Loadgen.Order.{above, p99_of-above, max_of-above}

count_undispatched-All :
    (rs : List Request) → count_undispatched rs ≡ 0 → All (λ r. (r.dispatch_ns == pos 0) ≡ false) rs
unfolding count_undispatched
count_undispatched-All [] h = tt
count_undispatched-All (r ∷ rs) h = elim (Bool-cases (r.dispatch_ns == pos 0)) [
  | inl p ↦ absurd (ground arith)
  | inr p ↦ (p, count_undispatched-All rs (ground arith))
]

four_true :
    (a b c d e f : Bool)
    → ((a && b) && (c && (d && (not e && f)))) ≡ true
    → (a ≡ true) × (b ≡ true) × (c ≡ true) × (d ≡ true) × (e ≡ false) × (f ≡ true)
four_true a b c d e f h = ground arith

and_true : (a b : Bool) → (a && b) ≡ true → (a ≡ true) × (b ≡ true)
and_true a b h = ground arith

module _ (fl : Floats) where
  -- No window of the samples has a mean above the limit.
  abbrev all_low : ℕ → fl.Float → List fl.Float → Bool
  all_low win limit [] = true
  all_low win limit (x ∷ xs) =
      if leb win (length (x ∷ xs))
      then not (fl.below limit (mean_of fl win (x ∷ xs))) && all_low win limit xs
      else true

  windows_from-all_low :
      (win : ℕ) (limit : fl.Float) (xs : List fl.Float) (worst : fl.Float) (b : Bool)
      → (windows_from fl win limit xs (worst, b)).1 ≡ (b && all_low win limit xs)
  unfolding windows_from
  windows_from-all_low win limit [] worst b = ground arith
  windows_from-all_low win limit (x ∷ xs) worst b =
      let mean = mean_of fl win (x ∷ xs) in
      ground (
        arith,
        windows_from-all_low win limit xs (if fl.below worst mean then mean else worst)
            (if fl.below limit mean then false else b),
      )

  all_low-window :
      (win : ℕ) (limit : fl.Float) (xs : List fl.Float) (k : ℕ)
      → all_low win limit xs ≡ true
      → k < length xs
      → k + win ≤ length xs
      → fl.below limit (mean_of fl win (drop k xs)) ≡ false
  all_low-window win limit [] k h lt fits = absurd (omega (arith, lt))
  all_low-window win limit (x ∷ xs) zero h lt fits = ground arith
  all_low-window win limit (x ∷ xs) (suc k) h lt fits =
      all_low-window win limit xs k (ground arith) (omega (arith, lt)) (omega (arith, fits))

  -- At most one in a hundred of the skews in the span is above the 99th percentile's limit and none is
  -- above the highest; the span holds a window of CPU samples and each window's mean is within its
  -- limit; and the pause's upper edge is finite and below its limit.
  pub record InLimits (v : ClientValidity) (requests : List Request)
      (samples : List (CpuSample fl.Float)) (gc_hi : fl.Float) (is_inf : Bool) (start end_ns : ℤ)
      : Type 0 where
    pub all_sent : All (λ r. (r.dispatch_ns == pos 0) ≡ false) requests
    pub few_late :
        above (v.send_skew_p99_ms *i pos 1_000_000) (skews_of start end_ns requests) * 100
        ≤ length (skews_of start end_ns requests)
    pub none_later :
        above (v.send_skew_max_ms *i pos 1_000_000) (skews_of start end_ns requests) ≡ 0
    pub measured : v.cpu_window_s ≤ length (samples_in fl start end_ns samples)
    pub cpu_low :
        (k : ℕ)
        → k < length (samples_in fl start end_ns samples)
        → k + v.cpu_window_s ≤ length (samples_in fl start end_ns samples)
        → fl.below
            (fl.of_int v.max_cpu_pct)
            (mean_of fl v.cpu_window_s (drop k (samples_in fl start end_ns samples)))
          ≡ false
    pub pauses_short : (is_inf ≡ false) × (fl.below gc_hi (fl.of_int v.go_gc_pause_p99_ms) ≡ true)

-- A client that passes evaluateGates has sent every request, and kept its dispatch skews, CPU and
-- garbage collection pauses within the limits.
pub evaluate_gates-InLimits :
    (fl : Floats) (v : ClientValidity) (requests : List Request)
    (samples : List (CpuSample fl.Float)) (gc_lo gc_hi : fl.Float) (is_inf : Bool)
    (start end_ns : ℤ)
    → (evaluate_gates fl v requests samples gc_lo gc_hi is_inf start end_ns).pass ≡ true
    → InLimits fl v requests samples gc_hi is_inf start end_ns
unfolding evaluate_gates
evaluate_gates-InLimits fl v requests samples gc_lo gc_hi is_inf start end_ns h =
    let (p99, highest, sent, cpu, finite, short) = four_true _ _ _ _ _ _ h in
    let pcts = samples_in fl start end_ns samples in
    let (measured, low) =
      and_true (leb v.cpu_window_s (length pcts))
        (all_low fl v.cpu_window_s (fl.of_int v.max_cpu_pct) pcts)
        (sym (
            windows_from-all_low fl v.cpu_window_s (fl.of_int v.max_cpu_pct) pcts
              (fl.of_int (pos 0)) (leb v.cpu_window_s (length pcts)))
          ∙ cpu) in
    record {
      all_sent = count_undispatched-All requests (ground (arith, sent));
      few_late =
          p99_of-above (v.send_skew_p99_ms *i pos 1_000_000) (skews_of start end_ns requests) p99;
      none_later =
          max_of-above (v.send_skew_max_ms *i pos 1_000_000) (skews_of start end_ns requests)
            highest;
      measured = ground (arith, measured);
      cpu_low = λ k lt fits.
          all_low-window fl v.cpu_window_s (fl.of_int v.max_cpu_pct) pcts k low lt fits;
      pauses_short = (finite, short);
    }
