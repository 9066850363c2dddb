-- ===== src/Loadgen/Plan.antt =====
-- internal/loadgen/schedule.go: `BuildSchedule`, every intended dispatch time of a run.
use percentes.Base.{
  ℕ, zero, suc, ◌+◌, ◌^◌, ◌-◌, ◌≡◌, ◌<◌, ◌≤◌, refl, ap, ◌∙◌, Bool, false, Option, List, [], ◌∷◌,
  if◌then◌else◌, arith, Result, ok, err, ok->>=, ◌>>=◌,
}
use mathlib.Core.Path.{subst}
use percentes.Base.Int.{ℤ, pos, pos_part}
use percentes.Base.Floats.{Floats}
use percentes.Loadgen.Ladder.{
  Rng, Process, deterministic, poisson, other_process, LadderConfig, Ladder, NoLadder, no_steps,
  out_of_fuel, billion, poisson_from, build_ladder,
}
use percentes.Loadgen.Arrivals.{Reaches, Ascends, poisson_from-Ends}

-- The run's phases, its rate, process and seed, and the release's ladder where its profile is release.
pub record PlanConfig (F : Type 0) : Type 0 where
  pub is_release : Bool
  pub ladder : Option (LadderConfig F)
  pub warmup_s : F
  pub baseline_s : F
  pub fault_window_s : F
  pub cooldown_s : F
  pub rate_rps : F
  pub process : Process
  pub seed : ℤ

module _ (fl : Floats) (rng : Rng fl.Float) where
  abbrev pub total_s : PlanConfig fl.Float → fl.Float
  total_s cfg =
      fl.plus (fl.plus (fl.plus cfg.warmup_s cfg.baseline_s) cfg.fault_window_s) cfg.cooldown_s

  abbrev pub total_ns : PlanConfig fl.Float → ℤ
  total_ns cfg = fl.to_int (fl.times (total_s cfg) (billion fl rng))

  -- The loop of the deterministic process, from request `i` on.
  unfoldable pub at_interval : fl.Float → ℕ → ℕ → List ℤ
  at_interval interval i zero = []
  at_interval interval i (suc n) =
      fl.to_int (fl.times (fl.of_int (pos i)) interval) ∷ at_interval interval (i + 1) n

-- The fuel is for the rounds of a window's Poisson loop.
module _ (fl : Floats) (rng : Rng fl.Float) (fuel : ℕ) where
  abbrev pub offsets_of_process : PlanConfig fl.Float → Process → Result NoLadder (List ℤ)
  offsets_of_process cfg deterministic = ok (
      at_interval fl rng (fl.over (billion fl rng) cfg.rate_rps) 0
        (pos_part (fl.to_int (rng.floor (fl.times (total_s fl rng cfg) cfg.rate_rps)))))
  offsets_of_process cfg poisson =
      poisson_from fl rng cfg.rate_rps (total_ns fl rng cfg) fuel (pos 0) (rng.seeded cfg.seed)
      >>= λ r. ok r.0
  offsets_of_process cfg other_process = ok []

  abbrev pub offsets_of_ladder : Result NoLadder (Ladder fl.Float) → Result NoLadder (List ℤ)
  offsets_of_ladder (ok l) = ok l.offsets
  offsets_of_ladder (err no_steps) = ok []
  offsets_of_ladder (err out_of_fuel) = err out_of_fuel

  -- BuildSchedule
  unfoldable pub build_schedule : PlanConfig fl.Float → Result NoLadder (List ℤ)
  unfolding at_interval
  build_schedule cfg =
      if cfg.is_release
      then offsets_of_ladder (build_ladder fl rng fuel cfg.ladder)
      else offsets_of_process cfg cfg.process

-- BuildSchedule of a Poisson run that is no release ends, where its phases end at a time that is not
-- negative and below 2 ^ 62 ns and the gaps of some draws from its seed come to that time, none of them
-- negative or 2 ^ 62 ns or more; a round for each of these draws is enough. Its times are not negative,
-- before that end, and in order.
pub build_schedule-Ascends :
    (fl : Floats) (rng : Rng fl.Float) (n fuel : ℕ) (cfg : PlanConfig fl.Float) (b : ℕ)
    → cfg.is_release ≡ false
    → cfg.process ≡ poisson
    → total_ns fl rng cfg ≡ pos b
    → b < 2 ^ 62
    → Reaches fl rng cfg.rate_rps n (rng.seeded cfg.seed) b
    → n ≤ fuel
    → (xs : List ℤ) × (build_schedule fl rng fuel cfg ≡ ok xs) × Ascends 0 b xs
unfolding build_schedule
build_schedule-Ascends fl rng n fuel cfg b no_release is_poisson total small reach enough =
    let all_left : b ≡ b - 0 = omega arith in
    let (xs, st, e, asc) =
      poisson_from-Ends fl rng cfg.rate_rps n fuel 0 b (rng.seeded cfg.seed)
        (subst (Reaches fl rng cfg.rate_rps n (rng.seeded cfg.seed)) all_left reach) enough small
        (omega arith) in
    (
      xs,
      ap
            (λ q.
              if q
              then offsets_of_ladder fl rng fuel (build_ladder fl rng fuel cfg.ladder)
              else offsets_of_process fl rng fuel cfg cfg.process)
            no_release
          ∙ ap (offsets_of_process fl rng fuel cfg) is_poisson
          ∙ ok->>= _ _
              (ap (λ z. poisson_from fl rng cfg.rate_rps z fuel (pos 0) (rng.seeded cfg.seed)) total
                ∙ e)
              refl,
      asc,
    )
