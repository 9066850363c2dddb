-- ===== src/Schedule/Again.antt =====
-- A schedule's own input, which is sorted, derives that schedule again.
use percentes.Base.{
  ℕ, ◌≡◌, refl, sym, ap, ◌∙◌, true, false, not, ◌&&◌, ◌||◌, some, List, [], ◌∷◌, ◌==◌, nat_eq,
  bytes_eq, All, arith, ok, >>=-eq-ok, ok->>=, ==_refl, refuse_if, or_fail,
}
use mathlib.Core.Path.{subst}
use percentes.Schedule.Runs.{Json, load}
use percentes.Schedule.Window.{Pools, window}
use percentes.Schedule.Types.{
  Library, Input, Schedule, RouteConfig, ScheduleError, empty_seed, config_not_scheduled,
  bad_config_hash, bad_config_hmac, bad_host_group, same_config, not_derived,
}
use percentes.Schedule.Configs.{
  bytes_ltb, check_config, check_configs, config_ltb, config_routes, route_configs, contains,
  has_twins, is_sha256,
}
use percentes.Base.Sort.{sort_by, All-sort_by, sort_by_twice}
use percentes.Schedule.Frame.{check_ledger, check_routes, try_counters, counters, new_schedule}
use percentes.Schedule.Derived.{new_schedule-FromInput}

bytes_ltb_asym : (a b : List ℕ) → bytes_ltb a b ≡ true → bytes_ltb b a ≡ false
unfolding bytes_ltb
bytes_ltb_asym [] [] h = refl
bytes_ltb_asym [] (d ∷ t) h = refl
bytes_ltb_asym (c ∷ s) [] h = absurd (ground arith)
bytes_ltb_asym (c ∷ s) (d ∷ t) h = ground (arith, bytes_ltb_asym s t)

-- Not above is transitive.
bytes_ltb_trans :
    (a b c : List ℕ) → bytes_ltb b a ≡ false → bytes_ltb c b ≡ false → bytes_ltb c a ≡ false
unfolding bytes_ltb
bytes_ltb_trans [] b [] p q = refl
bytes_ltb_trans [] b (z ∷ c) p q = refl
bytes_ltb_trans (x ∷ a) [] c p q = absurd (ground arith)
bytes_ltb_trans (x ∷ a) (y ∷ b) [] p q = absurd (ground arith)
bytes_ltb_trans (x ∷ a) (y ∷ b) (z ∷ c) p q = ground (arith, bytes_ltb_trans a b c)

abbrev sorted_hosts : RouteConfig → RouteConfig
sorted_hosts c = record c { host_group = sort_by bytes_ltb c.host_group }

hosts_twice :
    (hosts : List (List ℕ)) → sort_by bytes_ltb (sort_by bytes_ltb hosts) ≡ sort_by bytes_ltb hosts
hosts_twice = sort_by_twice bytes_ltb bytes_ltb_asym bytes_ltb_trans

check_config-sorted_hosts :
    (routes : List (List ℕ)) (c : RouteConfig)
    → check_config routes (sorted_hosts c) ≡ check_config routes c
unfolding check_config
check_config-sorted_hosts routes c = rw (hosts_twice c.host_group) refl

check_config-ok :
    (routes : List (List ℕ)) (c d : RouteConfig) → check_config routes c ≡ ok d → sorted_hosts c ≡ d
unfolding check_config
check_config-ok routes c d h =
    let (_, _, h1) =
      >>=-eq-ok (refuse_if (not (contains routes c.route)) config_not_scheduled) _ h in
    let (_, _, h2) = >>=-eq-ok (refuse_if (not (is_sha256 c.config_sha256)) bad_config_hash) _ h1 in
    let (_, _, h3) =
      >>=-eq-ok
        (refuse_if (not (c.config_hmac_sha256 == []) && not (is_sha256 c.config_hmac_sha256))
          bad_config_hmac)
        _ h2 in
    let hosts = sort_by bytes_ltb c.host_group in
    let (_, _, h4) =
      >>=-eq-ok (refuse_if (not (contains hosts c.route) || has_twins hosts) bad_host_group) _ h3 in
    cc

-- A configuration that passed the checks passes them again, unchanged.
abbrev Passes : List (List ℕ) → RouteConfig → Type 0
Passes routes d = check_config routes d ≡ ok d

check_config-Passes :
    (routes : List (List ℕ)) (c d : RouteConfig) → check_config routes c ≡ ok d → Passes routes d
check_config-Passes routes c d h =
    let e = check_config-ok routes c d h in
    ap (check_config routes) (sym e) ∙ check_config-sorted_hosts routes c ∙ h

check_configs-Passes :
    (routes : List (List ℕ)) (cs ds : List RouteConfig)
    → check_configs routes cs ≡ ok ds
    → All (Passes routes) ds
unfolding check_configs
check_configs-Passes routes [] ds h = let e : [] ≡ ds = cc in subst (All (Passes routes)) e tt
check_configs-Passes routes (c ∷ cs) ds h =
    let (d, p, h1) = >>=-eq-ok (check_config routes c) _ h in
    let (rest, q, h2) = >>=-eq-ok (check_configs routes cs) _ h1 in
    let e : d ∷ rest ≡ ds = cc in
    subst (All (Passes routes)) e
      (check_config-Passes routes c d p, check_configs-Passes routes cs rest q)

check_configs_again :
    (routes : List (List ℕ)) (ds : List RouteConfig)
    → All (Passes routes) ds
    → check_configs routes ds ≡ ok ds
unfolding check_configs
check_configs_again routes [] ps = refl
check_configs_again routes (d ∷ ds) ps = rw (ps.0, check_configs_again routes ds ps.1) refl

route_configs_again :
    (routes : List (List ℕ)) (cs ds : List RouteConfig)
    → route_configs routes cs ≡ ok ds
    → route_configs routes ds ≡ ok ds
unfolding route_configs
route_configs_again routes cs ds h =
    let (checked, p, h1) = >>=-eq-ok (check_configs routes cs) _ h in
    let out = sort_by config_ltb checked in
    let (_, q, h2) = >>=-eq-ok (refuse_if (has_twins (config_routes out)) same_config) _ h1 in
    let e : out ≡ ds = cc in
    let passes =
      All-sort_by config_ltb (Passes routes) checked (check_configs-Passes routes cs checked p) in
    let twice =
      sort_by_twice config_ltb (λ a b. bytes_ltb_asym a.route b.route)
        (λ a b c. bytes_ltb_trans a.route b.route c.route) checked in
    let again : route_configs routes out ≡ ok out =
      rw (check_configs_again routes out passes, twice, q) refl in
    subst (λ xs. route_configs routes xs ≡ ok xs) e again

-- An input with its sorted routes and configurations.
abbrev arranged : Input → List RouteConfig → Input
arranged i configs = record i { routes = sort_by bytes_ltb i.routes; configs = configs }

window-arranged :
    (lib : Library) (i : Input) (cs : List RouteConfig) → window lib (arranged i cs) ≡ window lib i
unfolding window
window-arranged lib i cs = refl

check_ledger-arranged :
    (i : Input) (cs : List RouteConfig) → check_ledger (arranged i cs) ≡ check_ledger i
unfolding check_ledger
check_ledger-arranged i cs = refl

new_schedule-arranged :
    (lib : Library) (i : Input) (s : Schedule) (pools : Pools) (cs : List RouteConfig)
    → refuse_if {E = ScheduleError} (i.master_seed == []) empty_seed ≡ ok tt
    → check_routes (sort_by bytes_ltb i.routes) ≡ ok tt
    → window lib i ≡ ok pools
    → route_configs (sort_by bytes_ltb i.routes) i.configs ≡ ok cs
    → check_ledger i ≡ ok tt
    → try_counters lib (arranged i cs) pools counters 0 ≡ ok s
    → new_schedule lib (arranged i cs) ≡ ok s
unfolding new_schedule
new_schedule-arranged lib i s pools cs seed few win conf led found =
    let twice = hosts_twice i.routes in
    ok->>= _ _ seed (
      ok->>= _ _ (ap check_routes twice ∙ few) (
        ok->>= _ _ (window-arranged lib i cs ∙ win) (
          ok->>= _ _ (ap (λ r. route_configs r cs) twice ∙ route_configs_again _ i.configs cs conf)
            (ok->>= _ _ (check_ledger-arranged i cs ∙ led) (
              ap (λ r. try_counters lib (record i { routes = r; configs = cs }) pools counters 0)
                twice
              ∙ found)))))

-- New on the input of a schedule, whose routes and configurations are sorted, gives that schedule.
pub new_schedule_again :
    (lib : Library) (i : Input) (s : Schedule)
    → new_schedule lib i ≡ ok s
    → new_schedule lib s.input ≡ ok s
new_schedule_again lib i s h =
    let from = new_schedule-FromInput lib i s h in
    let r = sym from.sorted_is in
    let e : s.input ≡ arranged i from.configs =
      from.tried.keeps_input
      ∙ ap (λ rs. record i { routes = rs; configs = from.configs }) from.sorted_is in
    ap (new_schedule lib) e
    ∙ new_schedule-arranged lib i s from.pools from.configs from.has_seed
        (ap check_routes r ∙ from.few_routes) from.in_window
        (ap (λ rs. route_configs rs i.configs) r ∙ from.with_configs) from.ledger_fits
        (ap
            (λ rs.
              try_counters lib (record i { routes = rs; configs = from.configs }) from.pools
                counters 0)
            r
          ∙ from.found)

-- Load, on the text of a schedule that New made, gives that schedule, where encoding/json reads the
-- schedule's input back from its text.
pub load-new_schedule :
    (lib : Library) (js : Json) (i : Input) (s : Schedule)
    → js.read_input (js.print s) ≡ some s.input
    → new_schedule lib i ≡ ok s
    → load lib js (js.print s) ≡ ok s
unfolding load
load-new_schedule lib js i s reads h = ok->>= _ _ (ap (λ o. or_fail o not_derived) reads) (
    ok->>= _ _ (new_schedule_again lib i s h)
      (ok->>= _ _ (ap (λ b. refuse_if (not b) not_derived) (==_refl (js.print s))) refl))
