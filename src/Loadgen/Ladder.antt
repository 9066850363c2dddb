-- ===== src/Loadgen/Ladder.antt =====
-- internal/loadgen/schedule.go: `BuildLadder` and `arrivals`.
use percentes.Base.{
  ℕ, zero, suc, ◌+◌, Option, none, some, List, [], ◌∷◌, ◌++◌, if◌then◌else◌, length, Result, ok,
  err, ◌>>=◌,
}
use percentes.Base.Int.{ℤ, pos, pos_part, leb_ℤ, ◌+i◌, ◌-i◌}
use percentes.Base.Floats.{Floats}

-- math/rand's generator and math.Floor.
pub record Rng (F : Type 0) : Type 1 where
  pub State : Type 0
  pub seeded : ℤ → State
  pub exp_float : State → F × State
  pub floor : F → F

pub data Process : Type 0 where
  deterministic poisson other_process : Process

-- The configuration: the release's ladder, the arrival process and the run's seed.
pub record LadderConfig (F : Type 0) : Type 0 where
  pub warmup_s : F
  pub step_s : F
  pub drain_s : F
  pub steps_rps : List F
  pub process : Process
  pub seed : ℤ

pub record LadderStep (F : Type 0) : Type 0 where
  pub rate_rps : F
  pub start_ns : ℤ
  pub end_ns : ℤ
  pub drain_end_ns : ℤ
  pub first : ℕ
  pub past_end : ℕ

pub record Ladder (F : Type 0) : Type 0 where
  pub offsets : List ℤ
  pub steps : List (LadderStep F)
  pub end_ns : ℤ

-- No release or no steps; or the fuel of a window's loop is used up.
pub data NoLadder : Type 0 where
  no_steps out_of_fuel : NoLadder

module _ (fl : Floats) (rng : Rng fl.Float) where
  abbrev pub billion : fl.Float
  billion = fl.literal 1_000_000_000 0

  -- secondsNs
  abbrev pub seconds_ns : fl.Float → ℤ
  seconds_ns s = fl.to_int (fl.times s billion)

  -- The loop of the deterministic process, from request `i` on.
  unfoldable pub evenly : ℤ → fl.Float → ℕ → ℕ → List ℤ
  evenly start rate i zero = []
  evenly start rate i (suc n) =
      (start +i fl.to_int (fl.over (fl.times (fl.of_int (pos i)) billion) rate))
      ∷ evenly start rate (i + 1) n

  abbrev pub gap_of : fl.Float → rng.State → ℤ
  gap_of rate st = fl.to_int (fl.times (fl.over (rng.exp_float st).0 rate) billion)

  -- The loop of the Poisson process from the time `t` on.
  unfoldable pub poisson_from :
      fl.Float → ℤ → ℕ → ℤ → rng.State → Result NoLadder (List ℤ × rng.State)
  poisson_from rate end_ns zero t st = err out_of_fuel
  poisson_from rate end_ns (suc fuel) t st =
      let next = t +i gap_of rate st in
      let rest = poisson_from rate end_ns fuel next (rng.exp_float st).1 in
      if leb_ℤ end_ns next
      then ok ([], (rng.exp_float st).1)
      else rest >>= λ r. ok (next ∷ r.0, r.1)

-- The fuel is for the rounds of one window's Poisson loop.
module _ (fl : Floats) (rng : Rng fl.Float) (fuel : ℕ) where
  -- arrivals, the times that it appends
  unfoldable pub arrivals :
      Process → fl.Float → ℤ → ℤ → rng.State → Result NoLadder (List ℤ × rng.State)
  unfolding evenly poisson_from
  arrivals deterministic rate start end_ns st =
      let n =
        fl.to_int
          (rng.floor (fl.times (fl.over (fl.of_int (end_ns -i start)) (billion fl rng)) rate)) in
      ok (evenly fl rng start rate 0 (pos_part n), st)
  arrivals poisson rate start end_ns st = poisson_from fl rng rate end_ns fuel start st
  arrivals other_process rate start end_ns st = ok ([], st)

  -- The loop over the steps, from the time `t` on.
  unfoldable pub steps_from :
      LadderConfig fl.Float
      → List fl.Float
      → ℤ
      → List ℤ
      → rng.State
      → Result NoLadder (Ladder fl.Float)
  unfolding arrivals
  steps_from cfg [] t offsets st = ok (record { offsets = offsets; steps = []; end_ns = t })
  steps_from cfg (rate ∷ rates) t offsets st = do
    let end_ns = t +i seconds_ns fl rng cfg.step_s
    let drain_end = end_ns +i seconds_ns fl rng cfg.drain_s
    r ← arrivals cfg.process rate t end_ns st
    let longer = offsets ++ r.0
    rest ← steps_from cfg rates drain_end longer r.1
    ok (record rest {
      steps =
          record {
            rate_rps = rate;
            start_ns = t;
            end_ns = end_ns;
            drain_end_ns = drain_end;
            first = length offsets;
            past_end = length longer;
          }
          ∷ rest.steps;
    })

  -- The warm-up at the first step's rate, and the steps.
  unfoldable pub ladder_of :
      LadderConfig fl.Float → List fl.Float → Result NoLadder (Ladder fl.Float)
  unfolding steps_from
  ladder_of cfg [] = err no_steps
  ladder_of cfg (rate ∷ rates) = do
    r ← arrivals cfg.process rate (pos 0) (seconds_ns fl rng cfg.warmup_s) (rng.seeded cfg.seed)
    steps_from cfg (rate ∷ rates) (seconds_ns fl rng cfg.warmup_s) r.0 r.1

  -- BuildLadder
  unfoldable pub build_ladder : Option (LadderConfig fl.Float) → Result NoLadder (Ladder fl.Float)
  unfolding ladder_of
  build_ladder none = err no_steps
  build_ladder (some cfg) = ladder_of cfg cfg.steps_rps
