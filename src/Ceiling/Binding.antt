-- ===== src/Ceiling/Binding.antt =====
-- Why a step is admitted or excluded.
use percentes.Base.{
  ◌≡◌, refl, sym, ap, ◌∙◌, Bool, true, false, Option, none, some, List, [], ◌∷◌, ◌++◌, append-nil,
  append_assoc, if◌then◌else◌, All, All-append, length, ok, result_cases, Option-cases, nat_eq, inl,
  inr, arith,
}
use mathlib.Core.Path.{subst}
use percentes.Base.Int.{ℤ, ◌+i◌}
use percentes.Admission.Apply.{Platform, Price, check_price}
use percentes.Admission.Decimal.{decimal}
use percentes.Base.Rat.{Rat, zero_rat}
use percentes.Ceiling.Types.{Demand, Step, Verdict, Config, Plan}
use percentes.Ceiling.Demands.{bind, step_of, Costs, demands_of}
use percentes.Ceiling.Tested.{with_step-steps, Tested, rule_steps-Tested}
use percentes.Ceiling.Rule.{
  with_step, with_top, rule_steps, ceiling_rule, costs_of, probe_price, new_verdict,
  highest_ceiling,
}

-- The demand passes its test.
abbrev pub Passes : Demand → Type 0
Passes d = d.pass ≡ true

-- A step is admitted and every demand passes; or it is excluded, and its binding demand is the first
-- that fails.
pub data Decided (s : Step) : Type 0 where
  admits : s.admitted ≡ true → s.binding ≡ none → All Passes s.demands → Decided s
  excludes :
      (before after : List Demand) (d : Demand)
      → s.admitted ≡ false
      → s.binding ≡ some d
      → s.demands ≡ before ++ d ∷ after
      → All Passes before
      → d.pass ≡ false
      → Decided s

bind-found : (ds : List Demand) (a : Bool) (b : Demand) → bind ds (a, some b) ≡ (a, some b)
unfolding bind
bind-found [] a b = refl
bind-found (d ∷ ds) a b = bind-found ds a b

-- What the loop finds: nothing, or the first demand that fails.
data Found (ds : List Demand) : Bool × Option Demand → Type 0 where
  all_pass : All Passes ds → Found ds (true, none)
  first_fails :
      (before after : List Demand) (d : Demand)
      → ds ≡ before ++ d ∷ after
      → All Passes before
      → d.pass ≡ false
      → Found ds (false, some d)

Found-cons :
    (d : Demand) (ds : List Demand) (r : Bool × Option Demand)
    → Passes d
    → Found ds r
    → Found (d ∷ ds) r
Found-cons d ds r p (all_pass h) = all_pass (p, h)
Found-cons d ds r p (first_fails before after e q h k) =
    first_fails (d ∷ before) after e (ap (λ x. d ∷ x) q) (p, h) k

first-Found :
    (d : Demand) (ds : List Demand) (b : Bool)
    → d.pass ≡ b
    → Found ds (bind ds (true, none))
    → Found (d ∷ ds) (bind ds (if b then (true, none) else (false, some d)))
first-Found d ds true p h = Found-cons d ds (bind ds (true, none)) p h
first-Found d ds false p h = rw (bind-found ds false d) (first_fails [] ds d refl tt p)

bind-Found : (ds : List Demand) → Found ds (bind ds (true, none))
unfolding bind
bind-Found [] = all_pass tt
bind-Found (d ∷ ds) = first-Found d ds d.pass refl (bind-Found ds)

Found-Decided :
    (rate : Rat) (ds : List Demand) (r : Bool × Option Demand)
    → Found ds r
    → Decided (record { rps = rate; admitted = r.0; binding = r.1; demands = ds })
Found-Decided rate ds r (all_pass h) = admits refl refl h
Found-Decided rate ds r (first_fails before after d q h k) = excludes before after d refl refl q h k

step_of-Decided : (rate : Rat) (ds : List Demand) → Decided (step_of rate ds)
unfolding step_of
step_of-Decided rate ds = Found-Decided rate ds (bind ds (true, none)) (bind-Found ds)

-- The rate of the last step that is admitted.
unfoldable pub last_admitted : List Step → Rat → Rat
last_admitted [] r = r
last_admitted (s ∷ ss) r = last_admitted ss (if s.admitted then s.rps else r)

last_admitted-append :
    (ss : List Step) (s : Step) (r : Rat)
    → last_admitted (ss ++ s ∷ []) r ≡ (if s.admitted then s.rps else last_admitted ss r)
unfolding last_admitted
last_admitted-append [] s r = refl
last_admitted-append (t ∷ ss) s r = last_admitted-append ss s (if t.admitted then t.rps else r)

abbrev pub rates_of : List Step → List Rat
rates_of [] = []
rates_of (s ∷ ss) = s.rps ∷ rates_of ss

rates_of-append : (ss : List Step) (s : Step) → rates_of (ss ++ s ∷ []) ≡ rates_of ss ++ s.rps ∷ []
rates_of-append [] s = refl
rates_of-append (t ∷ ss) s = ap (λ x. t.rps ∷ x) (rates_of-append ss s)

-- Each step is decided by its demands, and the top rate is that of the last admitted step.
pub record Applied (v : Verdict) (rates : List Rat) : Type 0 where
  pub decided : All Decided v.steps
  pub rates_in_order : rates_of v.steps ≡ rates
  pub top : v.top_rps ≡ last_admitted v.steps zero_rat

with_top-rate :
    (b : Bool) (k : Costs) (v : Verdict)
    → (with_top b k v).top_rps ≡ (if b then k.rate else v.top_rps)
with_top-rate true k v = refl
with_top-rate false k v = refl

with_step-Applied :
    (k : Costs) (s : Step) (v : Verdict) (past : List Rat)
    → s.rps ≡ k.rate
    → Decided s
    → Applied v past
    → Applied (with_step k s v) (past ++ k.rate ∷ [])
unfolding with_step
with_step-Applied k s v past q d h = record {
  decided =
      subst (All Decided) (sym (with_step-steps k s v))
        (All-append Decided v.steps (s ∷ []) h.decided (d, tt));
  rates_in_order =
      ap rates_of (with_step-steps k s v)
      ∙ rates_of-append v.steps s
      ∙ ap (λ x. x ++ s.rps ∷ []) h.rates_in_order
      ∙ ap (λ r. past ++ r ∷ []) q;
  top =
      with_top-rate s.admitted k v
      ∙ ap (λ r. if s.admitted then r else v.top_rps) (sym q)
      ∙ ap (λ r. if s.admitted then s.rps else r) h.top
      ∙ sym (last_admitted-append v.steps s zero_rat)
      ∙ ap (λ ss. last_admitted ss zero_rat) (sym (with_step-steps k s v));
}

rule_steps-Applied :
    (round : Rat → Rat) (cfg : Config) (plan : Plan) (c c_probe usd_cap : Rat) (rates : List Rat)
    (ns : List ℤ) (cell : ℤ) (v : Verdict) (past : List Rat)
    → length ns ≡ length rates
    → Applied v past
    → Applied (rule_steps round cfg plan c c_probe usd_cap rates ns cell v) (past ++ rates)
unfolding rule_steps costs_of step_of
rule_steps-Applied round cfg plan c c_probe usd_cap [] ns cell v past q h =
    subst (Applied v) (sym (append-nil past)) h
rule_steps-Applied round cfg plan c c_probe usd_cap (rate ∷ rates) [] cell v past q h =
    absurd (omega (arith, q))
rule_steps-Applied round cfg plan c c_probe usd_cap (rate ∷ rates) (n ∷ ns) cell v past q h =
    let k = costs_of plan c c_probe rate (cell +i n) in
    let s = step_of rate (demands_of round cfg plan c usd_cap k) in
    subst (Applied _) (append_assoc past (rate ∷ []) rates) (
      rule_steps-Applied round cfg plan c c_probe usd_cap rates ns (cell +i n) (with_step k s v)
        (past ++ rate ∷ []) (omega (arith, q))
        (with_step-Applied k s v past refl (step_of-Decided rate _) h))

-- The price of a request, and of a probe's at the highest ceiling.
abbrev pub priced : Config → Price → Price
priced cfg price = record price {
  input_tokens = cfg.input_bound_tokens;
  output_tokens = cfg.ceiling_tokens;
}

abbrev pub probed : Config → Price → Price
probed cfg price = record price {
  input_tokens = cfg.input_bound_tokens;
  output_tokens = highest_ceiling;
}

-- The steps make their tests, at the price of a request, the price of a probe's and the route's cap.
pub record MakesTests (pf : Platform) (round : Rat → Rat) (cfg : Config) (price : Price)
    (plan : Plan) (v : Verdict) : Type 0 where
  pub request_usd : Rat
  pub is_price : check_price pf cfg.target (priced cfg price) ≡ ok request_usd
  pub usd_cap : Rat
  pub is_cap : decimal cfg.route_usd ≡ some usd_cap
  pub tests :
      Tested round cfg plan request_usd
        (probe_price (check_price pf cfg.target (probed cfg price)))
        usd_cap
        plan.warmup_requests
        plan.step_requests
        cfg.steps_rps
        v.steps

-- In a verdict of `CeilingRule` there is one step for each rate of the ladder, in its order. Its demands
-- are, in this order: what the step asks of each limit of the configuration, which passes up to half the
-- limit, and of a monthly spend or a reload up to all of it; its rate for each unpublished limit, up to
-- half a request per second; and the edition's cost up to it, up to the route's usd_cap. A step is
-- admitted exactly when all its demands pass, and an excluded step's binding limit is its first failing
-- demand. The top rate is that of the last admitted step, 0 where there is none.
pub ceiling_rule-Applied :
    (pf : Platform) (round : Rat → Rat) (cfg : Config) (price : Price) (plan : Plan) (v : Verdict)
    → ceiling_rule pf round cfg price plan ≡ ok v
    → Applied v cfg.steps_rps × MakesTests pf round cfg price plan v
unfolding ceiling_rule last_admitted
ceiling_rule-Applied pf round cfg price plan v h =
    elim (result_cases (check_price pf cfg.target (priced cfg price))) [
      | inr (x, q) ↦ absurd (ground arith)
      | inl (c, q) ↦ elim (Option-cases (decimal cfg.route_usd)) [
        | inl r ↦ absurd (ground arith)
        | inr (usd_cap, r) ↦
            (let c_probe = probe_price (check_price pf cfg.target (probed cfg price)) in
              let made : rule_steps round cfg plan c c_probe usd_cap cfg.steps_rps
                    plan.step_requests plan.warmup_requests (new_verdict cfg c c_probe)
                  ≡ v =
                ground arith in
              (
                subst (λ w. Applied w cfg.steps_rps) made
                    (rule_steps-Applied round cfg plan c c_probe usd_cap cfg.steps_rps
                      plan.step_requests plan.warmup_requests (new_verdict cfg c c_probe) []
                      (ground arith) (record { decided = tt; rates_in_order = refl; top = refl })),
                record {
                  request_usd = c;
                  is_price = q;
                  usd_cap = usd_cap;
                  is_cap = r;
                  tests =
                      subst
                        (λ w.
                          Tested round cfg plan c c_probe usd_cap plan.warmup_requests
                            plan.step_requests cfg.steps_rps w.steps)
                        made
                        (rule_steps-Tested round cfg plan c c_probe usd_cap cfg.steps_rps
                          plan.step_requests plan.warmup_requests (new_verdict cfg c c_probe) refl);
                },
              ))
      ]
    ]
