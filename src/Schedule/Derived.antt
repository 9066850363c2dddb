-- ===== src/Schedule/Derived.antt =====
-- What a schedule of `new_schedule` is made of: the first counter whose seed is accepted.
use percentes.Base.{
  ℕ, zero, suc, ◌+◌, ◌≡◌, ◌≤◌, ◌<◌, refl, sym, ap, ◌∙◌, Bool, true, false, List, [], ◌==◌, nat_eq,
  bytes_eq, ltb, if◌then◌else◌, arith, inl, inr, Bool-cases, Result, ok, >>=-eq-ok, refuse_if,
}
use mathlib.Core.Path.{subst}
use percentes.Schedule.Types.{Library, Input, Schedule, RouteConfig, ScheduleError, empty_seed}
use percentes.Schedule.Window.{Pools, window}
use percentes.Schedule.Configs.{bytes_ltb, route_configs}
use percentes.Base.Sort.{sort_by}
use percentes.Schedule.Derive.{derive}
use percentes.Schedule.Frame.{
  check_routes, check_ledger, starts_before, offsets_of, seed_at, try_counters, counters,
  new_schedule,
}

-- The seed of a counter draws a Saturday and a Sunday.
abbrev pub accepts : Library → Input → Pools → ℕ → Bool
accepts lib i pools counter = (derive lib (seed_at i.master_seed counter) pools).1

-- A schedule stands on the first accepted counter from `from` on.
pub record Tried (lib : Library) (i : Input) (pools : Pools) (from rounds : ℕ) (s : Schedule)
    : Type 0 where
  pub keeps_input : s.input ≡ i
  pub from_there : from ≤ s.counter
  pub in_time : s.counter < from + rounds
  pub accepted : accepts lib i pools s.counter ≡ true
  pub first_one : (k : ℕ) → from ≤ k → k < s.counter → accepts lib i pools k ≡ false
  pub has_offsets : s.offsets ≡ offsets_of lib (seed_at i.master_seed s.counter) i.routes
  pub has_cells :
      s.cells ≡ sort_by starts_before (derive lib (seed_at i.master_seed s.counter) pools).0

Tried-later :
    (lib : Library) (i : Input) (pools : Pools) (from rounds : ℕ) (s : Schedule)
    → accepts lib i pools from ≡ false
    → Tried lib i pools (from + 1) rounds s
    → Tried lib i pools from (suc rounds) s
Tried-later lib i pools from rounds s refused t = record {
  keeps_input = t.keeps_input;
  from_there = omega (arith, t.from_there);
  in_time = omega (arith, t.in_time);
  accepted = t.accepted;
  first_one = λ k low high. elim (Bool-cases (ltb from k)) [
    | inl p ↦ t.first_one k (ground arith) high
    | inr p ↦ let q : from ≡ k = ground arith in ap (accepts lib i pools) (sym q) ∙ refused
  ];
  has_offsets = t.has_offsets;
  has_cells = t.has_cells;
}

-- The schedule of one counter.
abbrev at_counter : Library → Input → Pools → ℕ → Schedule
at_counter lib i pools counter = record {
  input = i;
  counter = counter;
  offsets = offsets_of lib (seed_at i.master_seed counter) i.routes;
  cells = sort_by starts_before (derive lib (seed_at i.master_seed counter) pools).0;
}

at_counter-Tried :
    (lib : Library) (i : Input) (pools : Pools) (from rounds : ℕ)
    → accepts lib i pools from ≡ true
    → Tried lib i pools from (suc rounds) (at_counter lib i pools from)
at_counter-Tried lib i pools from rounds taken = record {
  keeps_input = refl;
  from_there = omega arith;
  in_time = omega arith;
  accepted = taken;
  first_one = λ k low high. absurd (omega (arith, low, high));
  has_offsets = refl;
  has_cells = refl;
}

try_round-Tried :
    (lib : Library) (i : Input) (pools : Pools) (rounds from : ℕ) (s : Schedule)
    (rest : Result ScheduleError Schedule) (b : Bool)
    → accepts lib i pools from ≡ b
    → (rest ≡ ok s → Tried lib i pools (from + 1) rounds s)
    → (if b then ok (at_counter lib i pools from) else rest) ≡ ok s
    → Tried lib i pools from (suc rounds) s
try_round-Tried lib i pools rounds from s rest true taken later h =
    let e : at_counter lib i pools from ≡ s = cc in
    subst (Tried lib i pools from (suc rounds)) e (at_counter-Tried lib i pools from rounds taken)
try_round-Tried lib i pools rounds from s rest false refused later h =
    Tried-later lib i pools from rounds s refused (later h)

pub try_counters-Tried :
    (lib : Library) (i : Input) (pools : Pools) (rounds from : ℕ) (s : Schedule)
    → try_counters lib i pools rounds from ≡ ok s
    → Tried lib i pools from rounds s
unfolding try_counters
try_counters-Tried lib i pools zero from s h = absurd (ground arith)
try_counters-Tried lib i pools (suc rounds) from s h =
    try_round-Tried lib i pools rounds from s _ _ refl
      (try_counters-Tried lib i pools rounds (from + 1) s) h

-- A schedule of an input: its sorted routes and configurations, the pools of its window, and the
-- first accepted counter.
pub record FromInput (lib : Library) (i : Input) (s : Schedule) : Type 0 where
  pub pools : Pools
  pub configs : List RouteConfig
  pub sorted : List (List ℕ)
  pub sorted_is : sorted ≡ sort_by bytes_ltb i.routes
  pub has_seed : refuse_if {E = ScheduleError} (i.master_seed == []) empty_seed ≡ ok tt
  pub few_routes : check_routes sorted ≡ ok tt
  pub in_window : window lib i ≡ ok pools
  pub with_configs : route_configs sorted i.configs ≡ ok configs
  pub ledger_fits : check_ledger i ≡ ok tt
  pub found :
      try_counters lib (record i { routes = sorted; configs = configs }) pools counters 0 ≡ ok s
  pub tried : Tried lib (record i { routes = sorted; configs = configs }) pools 0 counters s

pub new_schedule-FromInput :
    (lib : Library) (i : Input) (s : Schedule) → new_schedule lib i ≡ ok s → FromInput lib i s
unfolding new_schedule
new_schedule-FromInput lib i s h =
    let (_, e0, h0) = >>=-eq-ok (refuse_if (i.master_seed == []) empty_seed) _ h in
    let (_, e1, h1) = >>=-eq-ok (check_routes (sort_by bytes_ltb i.routes)) _ h0 in
    let (pools, e2, h2) = >>=-eq-ok (window lib i) _ h1 in
    let (configs, e3, h3) = >>=-eq-ok (route_configs (sort_by bytes_ltb i.routes) i.configs) _ h2 in
    let (_, e4, h4) = >>=-eq-ok (check_ledger i) _ h3 in
    record {
      pools = pools;
      configs = configs;
      sorted = sort_by bytes_ltb i.routes;
      sorted_is = refl;
      has_seed = e0;
      few_routes = e1;
      in_window = e2;
      with_configs = e3;
      ledger_fits = e4;
      found = h4;
      tried = try_counters-Tried lib _ pools counters 0 s h4;
    }
