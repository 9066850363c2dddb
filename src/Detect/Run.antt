-- ===== src/Detect/Run.antt =====
-- internal/detect/detect.go: `RunWith`, the whole analysis of a run.
use percentes.Base.{
  ℕ, Bool, ◌&&◌, Option, none, some, List, [], ◌∷◌, ◌++◌, map, nat_eq, if◌then◌else◌,
}
use percentes.Base.Int.{ℤ, pos, int_eq, ltb_ℤ, leb_ℤ, ◌+i◌, ◌-i◌, ◌*i◌}
use percentes.Base.Floats.{Floats}
use percentes.Detect.Types.{
  Bucket, Component, Params, Detection, comp_goodput, comp_ttft_slo, comp_e2e_slo, comp_non_error,
  ns_per_sec,
}
use percentes.Base.Int.{quo_i}
use percentes.Detect.Scan.{start_at, detect_from, detect}
use percentes.Detect.Analysis.{
  DetectorConfig, Analysed, SensitivityRow, no_note, no_service, short_plateau, DetectResult,
  guard_start_ns, verdict_of, no_verdict, until, baseline_over, deficit, no_detection,
}

-- The three loops over the sweep's grid.
abbrev pub hold_grid : ℕ → ℕ → ℕ → List ℕ → List Params
hold_grid exit x r [] = []
hold_grid exit x r (h ∷ hs) =
    record { window_s = r; entry_pct = x; exit_pct = exit; hold_s = h } ∷ hold_grid exit x r hs

abbrev pub window_grid : ℕ → ℕ → List ℕ → List ℕ → List Params
window_grid exit x [] hs = []
window_grid exit x (r ∷ rs) hs = hold_grid exit x r hs ++ window_grid exit x rs hs

abbrev pub grid : ℕ → List ℕ → List ℕ → List ℕ → List Params
grid exit [] rs hs = []
grid exit (x ∷ xs) rs hs = window_grid exit x rs hs ++ grid exit xs rs hs

-- alignedGuardStart
unfoldable pub aligned_guard_start : ℕ → List Bucket → ℤ → ℤ → ℤ
unfolding guard_start_ns quo_i
aligned_guard_start http_timeout_s bs fire_anchor warmup_end =
    let origin = start_at bs 0 in
    origin
    +i quo_i (guard_start_ns http_timeout_s fire_anchor warmup_end -i origin) ns_per_sec
      *i pos ns_per_sec

-- The heal anchor, not before the fire anchor.
abbrev pub heal_of : ℤ → Option ℤ → Option ℤ
heal_of fire_anchor none = none
heal_of fire_anchor (some heal) = some (if ltb_ℤ heal fire_anchor then fire_anchor else heal)

module _ (fl : Floats) where
  -- The body of the sweep.
  unfoldable pub row_of :
      Analysed fl.Float → fl.Float → Bool → fl.Float → Option ℤ → Params → SensitivityRow fl.Float
  row_of i pre_fault estimable equilibrium heal sp = record {
    params = sp;
    pre = verdict_of (detect fl i.buckets comp_goodput pre_fault i.fire_anchor_ns i.timeout_ns sp);
    equilibrium =
        if estimable
        then verdict_of
            (detect fl i.buckets comp_goodput equilibrium i.fire_anchor_ns i.timeout_ns sp)
        else no_verdict;
    heal = elim heal [
      | none ↦ no_verdict
      | some h ↦
          verdict_of
            (detect_from fl i.buckets comp_goodput pre_fault i.fire_anchor_ns h i.timeout_ns sp)
    ];
  }

  -- The recovery of one component against its own level before the fault.
  unfoldable pub component_of : Analysed fl.Float → ℤ → Params → Component → Detection fl.Float
  component_of i guard p comp =
      detect fl i.buckets comp (baseline_over fl i.buckets comp i.warmup_end_ns guard)
        i.fire_anchor_ns i.timeout_ns p

  abbrev pub seconds_of : ℤ → fl.Float
  seconds_of t = fl.over (fl.of_int t) (fl.of_int (pos ns_per_sec))

  abbrev pub plateau_start : Analysed fl.Float → Params → ℤ
  plateau_start i p = i.fire_anchor_ns +i pos p.window_s *i pos ns_per_sec

  abbrev pub plateau_end : Option ℤ → ℤ → ℤ
  plateau_end none timeout = timeout
  plateau_end (some at) timeout = if ltb_ℤ at timeout then at else timeout

  -- RunWith
  unfoldable pub run_with : DetectorConfig → Analysed fl.Float → DetectResult fl.Float
  unfolding aligned_guard_start row_of component_of
  run_with cfg i =
      let p = cfg.params in
      let guard =
        aligned_guard_start cfg.http_timeout_s i.buckets i.fire_anchor_ns i.warmup_end_ns in
      let pre_fault : fl.Float = elim i.pre_fault_baseline [
        | none ↦ baseline_over fl i.buckets comp_goodput i.warmup_end_ns guard
        | some b ↦ b
      ] in
      let to_pre = detect fl i.buckets comp_goodput pre_fault i.fire_anchor_ns i.timeout_ns p in
      let heal = heal_of i.fire_anchor_ns i.heal_ns in
      let at_heal : Option (Detection fl.Float) = elim heal [
        | none ↦ none
        | some h ↦
            some (detect_from fl i.buckets comp_goodput pre_fault i.fire_anchor_ns h i.timeout_ns p)
      ] in
      let start = plateau_start i p in
      let end_ns = plateau_end to_pre.recovered_at_ns i.timeout_ns in
      let long = leb_ℤ (pos p.window_s *i pos ns_per_sec) (end_ns -i start) in
      let level =
        if long then baseline_over fl i.buckets comp_goodput start end_ns else fl.of_int (pos 0) in
      let estimable = long && fl.below (fl.of_int (pos 0)) level in
      let to_equilibrium =
        if estimable
        then detect fl i.buckets comp_goodput level i.fire_anchor_ns i.timeout_ns p
        else no_detection fl level p in
      record {
        pre_fault_baseline = pre_fault;
        equilibrium_baseline = level;
        equilibrium_estimable = estimable;
        equilibrium_window_start_s = seconds_of start;
        equilibrium_window_end_s = seconds_of end_ns;
        equilibrium_note =
            if estimable then no_note else (if long then no_service else short_plateau);
        to_pre_fault = to_pre;
        to_equilibrium = to_equilibrium;
        partition_heal_recovery = at_heal;
        heal_anchor_ns = heal;
        deficit_to_partition_heal = elim at_heal [
          | none ↦ none
          | some d ↦
              some (
                deficit fl i.buckets comp_goodput pre_fault i.fire_anchor_ns (until d i.timeout_ns))
        ];
        deficit_to_pre_fault =
            deficit fl i.buckets comp_goodput pre_fault i.fire_anchor_ns
              (until to_pre i.timeout_ns);
        deficit_to_equilibrium =
            if estimable
            then deficit fl i.buckets comp_goodput level i.fire_anchor_ns
                (until to_equilibrium i.timeout_ns)
            else fl.of_int (pos 0);
        sensitivity =
            map (row_of i pre_fault estimable level heal)
              (grid p.exit_pct cfg.sweep_entry_pct cfg.sweep_window_s cfg.sweep_hold_s);
        components = record {
          ttft_slo = component_of i guard p comp_ttft_slo;
          e2e_slo = component_of i guard p comp_e2e_slo;
          error_rate = component_of i guard p comp_non_error;
        };
      }
