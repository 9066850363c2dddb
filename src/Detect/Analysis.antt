-- ===== src/Detect/Analysis.antt =====
-- internal/detect/detect.go: baselines, deficits and `RunWith`, with internal/collect's GuardStartNs.
use percentes.Base.{
  ℕ, Bool, false, not, ◌&&◌, ◌||◌, Option, none, some, List, [], ◌∷◌, ◌==◌, nat_eq, if◌then◌else◌,
}
use percentes.Base.Int.{ℤ, pos, int_eq, ltb_ℤ, leb_ℤ, ◌+i◌, ◌-i◌, ◌*i◌}
use percentes.Base.Floats.{Floats}
use percentes.Detect.Types.{Bucket, Component, Params, Detection, ns_per_sec}

-- config.RecoveryDetector and Client.HTTPTimeoutS
pub record DetectorConfig : Type 0 where
  pub params : Params
  pub sweep_entry_pct : List ℕ
  pub sweep_window_s : List ℕ
  pub sweep_hold_s : List ℕ
  pub http_timeout_s : ℕ

pub record Analysed (F : Type 0) : Type 0 where
  pub buckets : List Bucket
  pub warmup_end_ns : ℤ
  pub fire_anchor_ns : ℤ
  pub timeout_ns : ℤ
  pub pre_fault_baseline : Option F
  pub heal_ns : Option ℤ

pub record SensitivityRow (F : Type 0) : Type 0 where
  pub params : Params
  pub pre : Option F × Bool × Bool
  pub equilibrium : Option F × Bool × Bool
  pub heal : Option F × Bool × Bool

pub data EquilibriumNote : Type 0 where
  no_note no_service short_plateau : EquilibriumNote

pub record Components (F : Type 0) : Type 0 where
  pub ttft_slo : Detection F
  pub e2e_slo : Detection F
  pub error_rate : Detection F

pub record DetectResult (F : Type 0) : Type 0 where
  pub pre_fault_baseline : F
  pub equilibrium_baseline : F
  pub equilibrium_estimable : Bool
  pub equilibrium_window_start_s : F
  pub equilibrium_window_end_s : F
  pub equilibrium_note : EquilibriumNote
  pub to_pre_fault : Detection F
  pub to_equilibrium : Detection F
  pub partition_heal_recovery : Option (Detection F)
  pub heal_anchor_ns : Option ℤ
  pub deficit_to_partition_heal : Option F
  pub deficit_to_pre_fault : F
  pub deficit_to_equilibrium : F
  pub sensitivity : List (SensitivityRow F)
  pub components : Components F

-- collect.GuardStartNs
unfoldable pub guard_start_ns : ℕ → ℤ → ℤ → ℤ
guard_start_ns http_timeout_s fire_anchor measure_start =
    let start = fire_anchor -i pos http_timeout_s *i pos ns_per_sec in
    if ltb_ℤ start measure_start then measure_start else start

abbrev pub starts_in : ℤ → ℤ → Bucket → Bool
starts_in from_ns to_ns b = not (ltb_ℤ b.start_ns from_ns || leb_ℤ to_ns b.start_ns)

unfoldable pub sums_between : Component → ℤ → ℤ → List Bucket → ℤ → ℤ → ℤ × ℤ
sums_between comp from_ns to_ns [] num den = (num, den)
sums_between comp from_ns to_ns (b ∷ bs) num den =
    if starts_in from_ns to_ns b
    then sums_between comp from_ns to_ns bs (num +i (comp b).0) (den +i (comp b).1)
    else sums_between comp from_ns to_ns bs num den

-- The verdict's part of a sensitivity row.
abbrev pub verdict_of : {F : Type 0} → Detection F → Option F × Bool × Bool
verdict_of d = (d.ttr_seconds, d.not_recovered, d.hold_unobserved)

abbrev pub no_verdict : {F : Type 0} → Option F × Bool × Bool
no_verdict = (none, false, false)

abbrev pub until : {F : Type 0} → Detection F → ℤ → ℤ
until d timeout = elim d.recovered_at_ns [ none ↦ timeout | some at ↦ at ]

module _ (fl : Floats) where
  -- baselineOver
  unfoldable pub baseline_over : List Bucket → Component → ℤ → ℤ → fl.Float
  unfolding sums_between
  baseline_over bs comp from_ns to_ns =
      let (num, den) = sums_between comp from_ns to_ns bs (pos 0) (pos 0) in
      if den == pos 0 then fl.of_int (pos 0) else fl.over (fl.of_int num) (fl.of_int den)

  -- deficit, from a total on
  unfoldable pub deficit_from : List Bucket → Component → fl.Float → ℤ → ℤ → fl.Float → fl.Float
  deficit_from [] comp baseline fire_anchor until_ns total = total
  deficit_from (b ∷ bs) comp baseline fire_anchor until_ns total =
      let (n, d) = comp b in
      let gap = fl.minus baseline (fl.over (fl.of_int n) (fl.of_int d)) in
      let counts =
        starts_in fire_anchor until_ns b
        && (not (d == pos 0) && fl.below (fl.of_int (pos 0)) gap) in
      deficit_from bs comp baseline fire_anchor until_ns
        (if counts then fl.plus total gap else total)

  unfoldable pub deficit : List Bucket → Component → fl.Float → ℤ → ℤ → fl.Float
  unfolding deficit_from
  deficit bs comp baseline fire_anchor until_ns =
      deficit_from bs comp baseline fire_anchor until_ns (fl.of_int (pos 0))

  -- Detection{Baseline: b, Params: p}
  abbrev pub no_detection : fl.Float → Params → Detection fl.Float
  no_detection b p = record {
    baseline = b;
    params = p;
    ttr_seconds = none;
    recovered_at_ns = none;
    not_recovered = false;
    hold_unobserved = false;
    canceled_entries = 0;
    re_degradations = 0;
  }
