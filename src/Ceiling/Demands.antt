-- ===== src/Ceiling/Demands.antt =====
-- internal/admission/ceiling.go: the demands of a step against the limits, and its binding demand.
-- `round` is big.Rat's Float64, the nearest float64 of a fraction.
use percentes.Base.{
  ◌-◌, ◌*◌, Bool, true, false, Option, none, some, List, [], ◌∷◌, ◌++◌, nat_eq, String, string_eq,
  if◌then◌else◌,
}
use percentes.Base.Int.{ℤ, pos, negsuc, ◌+i◌, ◌*i◌, ◌*ℤ◌}
use percentes.Base.Rat.{Rat, den, zero_rat, rat_of_int, ◌+q◌, ◌*q◌, quo, leb_rat}
use percentes.Ceiling.Types.{
  Dimension, rpm, rps, tpm, input_tpm, output_tpm, concurrency, rpd, tpd, spend_window, spend_month,
  reload, input_and_output, count_input, output_burndown, Limit, Config, Plan, Against, limit_of,
  unpublished_limit, route_cap, Demand, Step,
}

-- tokens
unfoldable pub tokens : Limit → ℤ → ℤ → Rat
tokens l input ceiling = elim l.counting [
  | count_input ↦ rat_of_int input
  | output_burndown ↦ rat_of_int input +q rat_of_int ceiling *q l.burndown
  | input_and_output ↦ rat_of_int (input +i ceiling)
]

-- limitDemand: the demand, and whether it is a half test.
unfoldable pub demand_by :
    Dimension → Limit → Rat → ℤ → ℤ → ℤ → ℤ → Rat → ℤ → Rat → Rat → Rat × Bool
unfolding tokens
demand_by rpm l r cell days input ceiling c timeout cell_usd edition =
    (r *q rat_of_int (pos 60), true)
demand_by rps l r cell days input ceiling c timeout cell_usd edition = (r, true)
demand_by tpm l r cell days input ceiling c timeout cell_usd edition =
    (r *q rat_of_int (pos 60) *q tokens l input ceiling, true)
demand_by input_tpm l r cell days input ceiling c timeout cell_usd edition =
    (r *q rat_of_int (pos 60) *q rat_of_int input, true)
demand_by output_tpm l r cell days input ceiling c timeout cell_usd edition =
    (r *q rat_of_int (pos 60) *q rat_of_int ceiling, true)
demand_by concurrency l r cell days input ceiling c timeout cell_usd edition =
    (r *q rat_of_int timeout, true)
demand_by rpd l r cell days input ceiling c timeout cell_usd edition =
    (rat_of_int (days *i cell), true)
demand_by tpd l r cell days input ceiling c timeout cell_usd edition =
    (rat_of_int (days *i cell) *q tokens l input ceiling, true)
demand_by spend_window l r cell days input ceiling c timeout cell_usd edition =
    (r *q l.window_s *q c, true)
demand_by spend_month l r cell days input ceiling c timeout cell_usd edition = (edition, false)
demand_by reload l r cell days input ceiling c timeout cell_usd edition = (cell_usd, false)

-- Quo by a fraction, of a demand by a limit's value, which is positive.
unfoldable pub ratio : Rat → Rat → Rat
ratio a b = record {
  num = a.num *ℤ pos (den b);
  below = elim b.num [ pos n ↦ den a * n - 1 | negsuc n ↦ 0 ];
}

-- What the tests of a step share: the route's configuration and prices, and the step's rate and costs.
pub record Costs : Type 0 where
  pub rate : Rat
  pub cell : ℤ
  pub cell_usd : Rat
  pub edition_usd : Rat

-- demand
unfoldable pub demand : (Rat → Rat) → Against → ℤ → Rat → Rat → Bool → Demand
unfolding ratio
demand round against index value d half =
    let bound = if half then quo value 2 else value in
    record {
      against = against;
      index = index;
      unpublished = false;
      confidential = false;
      source = "";
      hmac_sha256 = "";
      value = round value;
      amount = round d;
      fraction = round (ratio d value);
      half = half;
      pass = leb_rat d bound;
    }

module _ (round : Rat → Rat) (cfg : Config) (plan : Plan) (c : Rat) where
  -- The demand against one limit, less what a confidential limit keeps back.
  unfoldable pub limit_demand : ℤ → Limit → Costs → Demand
  unfolding demand demand_by
  limit_demand i l k =
      let (d, half) =
        demand_by l.dimension l k.rate k.cell plan.day_cells cfg.input_bound_tokens
          cfg.ceiling_tokens c cfg.http_timeout_s k.cell_usd k.edition_usd in
      let dm = demand round (limit_of l.dimension) i l.value d half in
      if l.is_confidential
      then record dm {
        value = zero_rat;
        fraction = zero_rat;
        confidential = true;
        source = l.source;
        hmac_sha256 = l.hmac_sha256;
      }
      else dm

  -- The loop over target.limits.
  unfoldable pub limit_demands : ℤ → List Limit → Costs → List Demand
  unfolding limit_demand
  limit_demands i [] k = []
  limit_demands i (l ∷ ls) k = limit_demand i l k ∷ limit_demands (i +i pos 1) ls k

  -- The loop over target.unpublished_limits; the cap is config.PinnedReleaseUnpublishedCapRPS.
  unfoldable pub unpublished_demands : ℤ → List String → Costs → List Demand
  unfolding demand
  unpublished_demands i [] k = []
  unpublished_demands i (u ∷ us) k =
      record (demand round (unpublished_limit u) i (quo (rat_of_int (pos 1)) 2) k.rate false) {
        unpublished = true;
      }
      ∷ unpublished_demands (i +i pos 1) us k

  -- Every demand of a step, in the order of its tests.
  unfoldable pub demands_of : Rat → Costs → List Demand
  unfolding limit_demands unpublished_demands demand
  demands_of cap k =
      limit_demands (pos 0) cfg.limits k
      ++ (unpublished_demands (pos 0) cfg.unpublished_limits k
          ++ demand round route_cap (negsuc 0) cap k.edition_usd false ∷ [])

-- The loop that finds the binding demand.
unfoldable pub bind : List Demand → Bool × Option Demand → Bool × Option Demand
bind [] s = s
bind (d ∷ ds) (admitted, none) = bind ds (if d.pass then (admitted, none) else (false, some d))
bind (d ∷ ds) (admitted, some b) = bind ds (admitted, some b)

unfoldable pub step_of : Rat → List Demand → Step
unfolding bind
step_of rate ds =
    let (admitted, binding) = bind ds (true, none) in
    record { rps = rate; admitted = admitted; binding = binding; demands = ds }
