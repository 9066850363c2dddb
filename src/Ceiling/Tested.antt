-- ===== src/Ceiling/Tested.antt =====
-- internal/admission/ceiling.go: what the demands of a verdict's steps are against, and what they test.
use percentes.Base.{
  ◌≡◌, refl, sym, ap, ◌∙◌, Bool, true, false, not, List, [], ◌∷◌, ◌++◌, append-nil, append_assoc,
  if◌then◌else◌, String, nat_eq,
}
use mathlib.Core.Path.{subst}
use percentes.Base.Int.{ℤ, pos, negsuc, ◌+i◌}
use percentes.Base.Rat.{Rat, rat_of_int, quo, leb_rat, zero_rat}
use percentes.Ceiling.Types.{
  Dimension, rpm, rps, tpm, input_tpm, output_tpm, concurrency, rpd, tpd, spend_window, spend_month,
  reload, Against, limit_of, unpublished_limit, route_cap, Limit, Demand, Step, Verdict, Config,
  Plan,
}
use percentes.Ceiling.Demands.{
  Costs, demand, demand_by, limit_demand, limit_demands, unpublished_demands, demands_of, step_of,
}
use percentes.Ceiling.Rule.{with_top, with_step, rule_steps, costs_of}

-- What a demand is against, and whether it passes.
abbrev pub tests_of : List Demand → List (Against × Bool)
tests_of [] = []
tests_of (d ∷ ds) = (d.against, d.pass) ∷ tests_of ds

tests_of-append : (ds es : List Demand) → tests_of (ds ++ es) ≡ tests_of ds ++ tests_of es
tests_of-append [] es = refl
tests_of-append (d ∷ ds) es = ap (λ x. (d.against, d.pass) ∷ x) (tests_of-append ds es)

-- The limits on money, which a step may use in full; of another it may use half.
abbrev pub in_full : Dimension → Bool
in_full spend_month = true
in_full reload = true
in_full _ = false

abbrev pub usable : Dimension → Rat → Rat
usable d value = if in_full d then value else quo value 2

with_top-steps : (b : Bool) (k : Costs) (v : Verdict) → (with_top b k v).steps ≡ v.steps
with_top-steps true k v = refl
with_top-steps false k v = refl

pub with_step-steps :
    (k : Costs) (s : Step) (v : Verdict) → (with_step k s v).steps ≡ v.steps ++ s ∷ []
unfolding with_step
with_step-steps k s v = ap (λ x. x ++ s ∷ []) (with_top-steps s.admitted k v)

kept_back-test :
    (b : Bool) (dm : Demand) (v f : Rat) (source mac : String)
    → tests_of (
        (if b
          then record dm {
            value = v;
            fraction = f;
            confidential = true;
            source = source;
            hmac_sha256 = mac;
          }
          else dm)
        ∷ [])
      ≡ (dm.against, dm.pass) ∷ []
kept_back-test true dm v f source mac = refl
kept_back-test false dm v f source mac = refl

module _ (round : Rat → Rat) (cfg : Config) (plan : Plan) (c : Rat) where
  -- What a step asks of a limit.
  abbrev pub asked : Limit → Costs → Rat
  asked l k =
      (demand_by l.dimension l k.rate k.cell plan.day_cells cfg.input_bound_tokens
        cfg.ceiling_tokens c cfg.http_timeout_s k.cell_usd k.edition_usd).0

  -- The tests of a step, in order: what it asks of each limit of the configuration against the part of
  -- it that is usable; its rate against half a request per second for each unpublished limit; and what
  -- the edition costs up to it against the route's cap.
  abbrev pub limit_tests : List Limit → Costs → List (Against × Bool)
  limit_tests [] k = []
  limit_tests (l ∷ ls) k =
      (limit_of l.dimension, leb_rat (asked l k) (usable l.dimension l.value)) ∷ limit_tests ls k

  abbrev pub unpublished_tests : List String → Costs → List (Against × Bool)
  unpublished_tests [] k = []
  unpublished_tests (u ∷ us) k =
      (unpublished_limit u, leb_rat k.rate (quo (rat_of_int (pos 1)) 2)) ∷ unpublished_tests us k

  abbrev pub all_tests : Rat → Costs → List (Against × Bool)
  all_tests cap k =
      limit_tests cfg.limits k
      ++ (unpublished_tests cfg.unpublished_limits k ++ (route_cap, leb_rat k.edition_usd cap) ∷ [])

  demand_by-half :
      (d : Dimension) (l : Limit) (k : Costs)
      → (demand_by d l k.rate k.cell plan.day_cells cfg.input_bound_tokens cfg.ceiling_tokens c
          cfg.http_timeout_s k.cell_usd k.edition_usd).1
        ≡ not (in_full d)
  unfolding demand_by
  demand_by-half rpm l k = refl
  demand_by-half rps l k = refl
  demand_by-half tpm l k = refl
  demand_by-half input_tpm l k = refl
  demand_by-half output_tpm l k = refl
  demand_by-half concurrency l k = refl
  demand_by-half rpd l k = refl
  demand_by-half tpd l k = refl
  demand_by-half spend_window l k = refl
  demand_by-half spend_month l k = refl
  demand_by-half reload l k = refl

  usable-not : (b : Bool) (v : Rat) → (if not b then quo v 2 else v) ≡ (if b then v else quo v 2)
  usable-not true v = refl
  usable-not false v = refl

  limit_demand-test :
      (i : ℤ) (l : Limit) (k : Costs)
      → tests_of (limit_demand round cfg plan c i l k ∷ [])
        ≡ (limit_of l.dimension, leb_rat (asked l k) (usable l.dimension l.value)) ∷ []
  unfolding limit_demand demand
  limit_demand-test i l k =
      kept_back-test l.is_confidential
        (demand round (limit_of l.dimension) i l.value (asked l k)
          (demand_by l.dimension l k.rate k.cell plan.day_cells cfg.input_bound_tokens
            cfg.ceiling_tokens c cfg.http_timeout_s k.cell_usd k.edition_usd).1)
        zero_rat zero_rat l.source l.hmac_sha256
      ∙ ap
          (λ h.
            (limit_of l.dimension, leb_rat (asked l k) (if h then quo l.value 2 else l.value)) ∷ [])
          (demand_by-half l.dimension l k)
      ∙ ap (λ v. (limit_of l.dimension, leb_rat (asked l k) v) ∷ [])
          (usable-not (in_full l.dimension) l.value)

  limit_demands-tests :
      (i : ℤ) (ls : List Limit) (k : Costs)
      → tests_of (limit_demands round cfg plan c i ls k) ≡ limit_tests ls k
  unfolding limit_demands
  limit_demands-tests i [] k = refl
  limit_demands-tests i (l ∷ ls) k =
      ap (λ x. x ++ tests_of (limit_demands round cfg plan c (i +i pos 1) ls k))
        (limit_demand-test i l k)
      ∙ ap (λ x. (limit_of l.dimension, leb_rat (asked l k) (usable l.dimension l.value)) ∷ x)
          (limit_demands-tests (i +i pos 1) ls k)

  unpublished_demands-tests :
      (i : ℤ) (us : List String) (k : Costs)
      → tests_of (unpublished_demands round cfg plan c i us k) ≡ unpublished_tests us k
  unfolding unpublished_demands demand
  unpublished_demands-tests i [] k = refl
  unpublished_demands-tests i (u ∷ us) k =
      ap (λ x. (unpublished_limit u, leb_rat k.rate (quo (rat_of_int (pos 1)) 2)) ∷ x)
        (unpublished_demands-tests (i +i pos 1) us k)

  demands_of-tests :
      (cap : Rat) (k : Costs) → tests_of (demands_of round cfg plan c cap k) ≡ all_tests cap k
  unfolding demands_of demand
  demands_of-tests cap k =
      let limits = limit_demands round cfg plan c (pos 0) cfg.limits k in
      let unpublished = unpublished_demands round cfg plan c (pos 0) cfg.unpublished_limits k in
      let last = demand round route_cap (negsuc 0) cap k.edition_usd false ∷ [] in
      tests_of-append limits (unpublished ++ last)
      ∙ ap (λ x. x ++ tests_of (unpublished ++ last)) (limit_demands-tests (pos 0) cfg.limits k)
      ∙ ap (λ x. limit_tests cfg.limits k ++ x)
          (tests_of-append unpublished last
            ∙ ap (λ x. x ++ (route_cap, leb_rat k.edition_usd cap) ∷ [])
                (unpublished_demands-tests (pos 0) cfg.unpublished_limits k))

  -- Each step makes its tests, at its rate and with the requests of one cell up to it, `cell` of them
  -- before it.
  abbrev pub Tested : Rat → Rat → ℤ → List ℤ → List Rat → List Step → Type 0
  Tested c_probe cap cell (n ∷ ns) (rate ∷ rates) (s ∷ ss) =
      (tests_of s.demands ≡ all_tests cap (costs_of plan c c_probe rate (cell +i n)))
      × Tested c_probe cap (cell +i n) ns rates ss
  Tested c_probe cap cell ns rates [] = Unit
  Tested c_probe cap cell ns rates (s ∷ ss) = ⊥

  step_list : Rat → Rat → ℤ → List ℤ → List Rat → List Step
  step_list c_probe cap cell (n ∷ ns) (rate ∷ rates) =
      step_of rate (demands_of round cfg plan c cap (costs_of plan c c_probe rate (cell +i n)))
      ∷ step_list c_probe cap (cell +i n) ns rates
  step_list c_probe cap cell _ _ = []

  step_list-Tested :
      (c_probe cap : Rat) (cell : ℤ) (ns : List ℤ) (rates : List Rat)
      → Tested c_probe cap cell ns rates (step_list c_probe cap cell ns rates)
  unfolding step_list step_of
  step_list-Tested c_probe cap cell [] rates = tt
  step_list-Tested c_probe cap cell (n ∷ ns) [] = tt
  step_list-Tested c_probe cap cell (n ∷ ns) (rate ∷ rates) = (
    demands_of-tests cap (costs_of plan c c_probe rate (cell +i n)),
    step_list-Tested c_probe cap (cell +i n) ns rates,
  )

  rule_steps-steps :
      (c_probe cap : Rat) (rates : List Rat) (ns : List ℤ) (cell : ℤ) (v : Verdict)
      → (rule_steps round cfg plan c c_probe cap rates ns cell v).steps
        ≡ v.steps ++ step_list c_probe cap cell ns rates
  unfolding rule_steps step_list
  rule_steps-steps c_probe cap [] [] cell v = sym (append-nil v.steps)
  rule_steps-steps c_probe cap [] (n ∷ ns) cell v = sym (append-nil v.steps)
  rule_steps-steps c_probe cap (rate ∷ rates) [] cell v = sym (append-nil v.steps)
  rule_steps-steps c_probe cap (rate ∷ rates) (n ∷ ns) cell v =
      let k = costs_of plan c c_probe rate (cell +i n) in
      let s = step_of rate (demands_of round cfg plan c cap k) in
      let later = step_list c_probe cap (cell +i n) ns rates in
      rule_steps-steps c_probe cap rates ns (cell +i n) (with_step k s v)
      ∙ ap (λ x. x ++ later) (with_step-steps k s v)
      ∙ append_assoc v.steps (s ∷ []) later

  pub rule_steps-Tested :
      (c_probe cap : Rat) (rates : List Rat) (ns : List ℤ) (cell : ℤ) (v : Verdict)
      → v.steps ≡ []
      → Tested c_probe cap cell ns rates
          (rule_steps round cfg plan c c_probe cap rates ns cell v).steps
  rule_steps-Tested c_probe cap rates ns cell v none_yet =
      let steps_are =
        rule_steps-steps c_probe cap rates ns cell v
        ∙ ap (λ x. x ++ step_list c_probe cap cell ns rates) none_yet in
      subst (Tested c_probe cap cell ns rates) (sym steps_are)
        (step_list-Tested c_probe cap cell ns rates)
