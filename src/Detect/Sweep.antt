-- ===== src/Detect/Sweep.antt =====
-- The sweep of an analysis.
use percentes.Base.{
  ℕ, zero, suc, ◌≡◌, refl, sym, ap, ◌∙◌, Bool, true, false, Option, none, some, List, [], ◌∷◌, map,
  ◌⊎◌, inl, inr, if◌then◌else◌, get_elem?, arith,
}
use percentes.Base.Int.{ℤ}
use percentes.Base.Floats.{Floats}
use percentes.Detect.Types.{Params, Detection, comp_goodput}
use percentes.Detect.Scan.{detect}
use percentes.Detect.Analysis.{
  DetectorConfig, Analysed, SensitivityRow, DetectResult, verdict_of, no_verdict, no_detection,
}
use percentes.Detect.Run.{grid, row_of, run_with}

get_elem?-map {ℓ κ} :
    {A : Type ℓ} {B : Type κ} (f : A → B) (xs : List A) (k : ℕ) (y : B)
    → get_elem? (map f xs) k ≡ some y
    → (x : A) × (get_elem? xs k ≡ some x) × (y ≡ f x)
get_elem?-map f [] k y h = absurd (ground arith)
get_elem?-map f (x ∷ xs) zero y h = (x, refl, cc)
get_elem?-map f (x ∷ xs) (suc k) y h = get_elem?-map f xs k y h

-- A row at the parameters of the analysis itself says what its detections say.
pub record Agrees (fl : Floats) (row : SensitivityRow fl.Float) (r : DetectResult fl.Float)
    : Type 0 where
  pub pre : row.pre ≡ verdict_of r.to_pre_fault
  pub equilibrium : row.equilibrium ≡ verdict_of r.to_equilibrium
  pub nothing_else :
      (r.equilibrium_estimable ≡ true)
      ⊎ ((row.equilibrium ≡ (none, false, false)) × (r.to_equilibrium.recovered_at_ns ≡ none))

verdict_of-if :
    (fl : Floats) (b : Bool) (d : Detection fl.Float) (level : fl.Float) (p : Params)
    → (if b then verdict_of d else no_verdict)
      ≡ verdict_of (if b then d else no_detection fl level p)
verdict_of-if fl true d level p = refl
verdict_of-if fl false d level p = refl

row_of-verdicts :
    (fl : Floats) (i : Analysed fl.Float) (pre_fault : fl.Float) (b : Bool) (level : fl.Float)
    (heal : Option ℤ) (rows : List Params) (p : Params) (k : ℕ) (row : SensitivityRow fl.Float)
    → get_elem? (map (row_of fl i pre_fault b level heal) rows) k ≡ some row
    → row.params ≡ p
    → (row.pre
        ≡ verdict_of (detect fl i.buckets comp_goodput pre_fault i.fire_anchor_ns i.timeout_ns p))
      × (row.equilibrium
          ≡ verdict_of (
              if b
              then detect fl i.buckets comp_goodput level i.fire_anchor_ns i.timeout_ns p
              else no_detection fl level p))
unfolding row_of
row_of-verdicts fl i pre_fault b level heal rows p k row h same =
    let (sp, at, e) = get_elem?-map (row_of fl i pre_fault b level heal) rows k row h in
    let q : sp ≡ p = sym (ap (λ x. x.params) e) ∙ same in
    (
      ap (λ x. x.pre) e
          ∙ ap
              (λ s.
                verdict_of
                  (detect fl i.buckets comp_goodput pre_fault i.fire_anchor_ns i.timeout_ns s))
              q,
      ap (λ x. x.equilibrium) e
          ∙ (ap
                (λ s.
                  if b
                  then verdict_of
                      (detect fl i.buckets comp_goodput level i.fire_anchor_ns i.timeout_ns s)
                  else no_verdict)
                q
              ∙ verdict_of-if fl b
                  (detect fl i.buckets comp_goodput level i.fire_anchor_ns i.timeout_ns p) level p),
    )

nothing_else-if :
    (fl : Floats) (b : Bool) (d : Detection fl.Float) (level : fl.Float) (p : Params)
    (v : Option fl.Float × Bool × Bool)
    → v ≡ verdict_of (if b then d else no_detection fl level p)
    → (b ≡ true)
      ⊎ ((v ≡ (none, false, false))
          × ((if b then d else no_detection fl level p).recovered_at_ns ≡ none))
nothing_else-if fl true d level p v h = inl refl
nothing_else-if fl false d level p v h = inr (h, refl)

-- In the sweep of RunWith, the row at the pinned parameters says what the detections against the two
-- baselines say. Where the equilibrium is not estimable, neither it nor the equilibrium's detection says
-- anything of it: no time, not that there is no recovery, and not that it is unobserved.
pub run_with-Agrees :
    (fl : Floats) (cfg : DetectorConfig) (i : Analysed fl.Float) (k : ℕ)
    (row : SensitivityRow fl.Float)
    → get_elem? (run_with fl cfg i).sensitivity k ≡ some row
    → row.params ≡ cfg.params
    → Agrees fl row (run_with fl cfg i)
unfolding run_with
run_with-Agrees fl cfg i k row h same =
    let r = run_with fl cfg i in
    let (pre, equilibrium) =
      row_of-verdicts fl i r.pre_fault_baseline r.equilibrium_estimable r.equilibrium_baseline
        r.heal_anchor_ns
        (grid cfg.params.exit_pct cfg.sweep_entry_pct cfg.sweep_window_s cfg.sweep_hold_s)
        cfg.params k row h same in
    record {
      pre = pre;
      equilibrium = equilibrium;
      nothing_else =
          nothing_else-if fl r.equilibrium_estimable
            (detect fl i.buckets comp_goodput r.equilibrium_baseline i.fire_anchor_ns i.timeout_ns
              cfg.params)
            r.equilibrium_baseline cfg.params row.equilibrium equilibrium;
    }
