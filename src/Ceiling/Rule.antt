-- ===== src/Ceiling/Rule.antt =====
-- internal/admission/ceiling.go: `CeilingRule` on a configuration that its Validate has passed.
use percentes.Base.{
  Bool, true, false, not, ◌||◌, List, [], ◌∷◌, ◌++◌, ◌==◌, nat_eq, string_eq, length, bytes, Result,
  ok, err, ◌>>=◌, ◌>>◌, or_fail, refuse_if,
}
use percentes.Base.Int.{ℤ, pos, ltb_ℤ, ◌+i◌, ◌*i◌}
use percentes.Base.Rat.{Rat, zero_rat, rat_of_int, ◌+q◌, ◌*q◌}
use percentes.Admission.Types.{Error}
use percentes.Admission.Decimal.{decimal, decimal_string}
use percentes.Admission.Apply.{Platform, Price, check_price}
use percentes.Ceiling.Types.{
  Config, Plan, Step, Verdict, RuleError, wrong_steps, bad_plan, bad_route_cap, bad_price,
}
use percentes.Ceiling.Demands.{Costs, demands_of, step_of}

-- What a step costs, with `cell` requests in one cell up to it.
unfoldable pub costs_of : Plan → Rat → Rat → Rat → ℤ → Costs
costs_of plan c c_probe rate cell = record {
  rate = rate;
  cell = cell;
  cell_usd = c *q rat_of_int cell;
  edition_usd = c *q rat_of_int (plan.cells *i cell) +q c_probe *q rat_of_int plan.probe_requests;
}

-- The verdict at a step that is admitted, or not.
abbrev pub with_top : Bool → Costs → Verdict → Verdict
with_top true k v = record v {
  top_rps = k.rate;
  cell_usd = decimal_string k.cell_usd;
  edition_usd = decimal_string k.edition_usd;
}
with_top false k v = v

-- The verdict with one more step.
unfoldable pub with_step : Costs → Step → Verdict → Verdict
with_step k s v = let v' = with_top s.admitted k v in record v' { steps = v'.steps ++ s ∷ [] }

-- The loop over the ladder; the plan has a request count for each step.
unfoldable pub rule_steps :
    (Rat → Rat) → Config → Plan → Rat → Rat → Rat → List Rat → List ℤ → ℤ → Verdict → Verdict
unfolding costs_of step_of demands_of with_step
rule_steps round cfg plan c c_probe cap (rate ∷ rates) (n ∷ ns) cell v =
    let k = costs_of plan c c_probe rate (cell +i n) in
    let s = step_of rate (demands_of round cfg plan c cap k) in
    rule_steps round cfg plan c c_probe cap rates ns (cell +i n) (with_step k s v)
rule_steps round cfg plan c c_probe cap _ _ cell v = v

abbrev pub any_negative : List ℤ → Bool
any_negative [] = false
any_negative (n ∷ ns) = ltb_ℤ n (pos 0) || any_negative ns

-- The highest of config.PinnedReleaseCeilings.
abbrev pub highest_ceiling : ℤ
highest_ceiling = pos 1024

abbrev pub price_result : Result Error Rat → Result RuleError Rat
price_result (ok r) = ok r
price_result (err x) = err (bad_price x)

abbrev pub probe_price : Result Error Rat → Rat
probe_price (ok r) = r
probe_price (err x) = zero_rat

-- The verdict before the first step.
abbrev pub new_verdict : Config → Rat → Rat → Verdict
new_verdict cfg c c_probe = record {
  route = cfg.target;
  input_tokens = cfg.input_bound_tokens;
  ceiling_tokens = cfg.ceiling_tokens;
  per_request_usd = decimal_string c;
  probe_usd = decimal_string c_probe;
  top_rps = zero_rat;
  cell_usd = bytes "0";
  edition_usd = bytes "0";
  steps = [];
}

-- CeilingRule, past the configuration's own checks.
unfoldable pub ceiling_rule :
    Platform → (Rat → Rat) → Config → Price → Plan → Result RuleError Verdict
unfolding rule_steps
ceiling_rule pf round cfg price plan = do
  refuse_if (not (length plan.step_requests == length cfg.steps_rps)) wrong_steps
  refuse_if
      (ltb_ℤ plan.warmup_requests (pos 0)
        || (ltb_ℤ plan.day_cells (pos 1)
            || (ltb_ℤ plan.cells plan.day_cells
                || (ltb_ℤ plan.probe_requests (pos 0) || any_negative plan.step_requests))))
      bad_plan
  let p = record price { input_tokens = cfg.input_bound_tokens; output_tokens = cfg.ceiling_tokens }
  c ← price_result (check_price pf cfg.target p)
  let c_probe =
      probe_price (check_price pf cfg.target (record p { output_tokens = highest_ceiling }))
  cap ← or_fail (decimal cfg.route_usd) bad_route_cap
  ok (
      rule_steps round cfg plan c c_probe cap cfg.steps_rps plan.step_requests plan.warmup_requests
        (new_verdict cfg c c_probe))
