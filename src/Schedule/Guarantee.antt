-- ===== src/Schedule/Guarantee.antt =====
-- What a schedule promises: its cells and offsets, and that on-time runs of two cells do not overlap.
use percentes.Base.{
  ℕ, zero, suc, ◌+◌, ◌-◌, ◌*◌, ◌≡◌, ◌≤◌, ◌<◌, refl, sym, ap, ◌∙◌, inl, inr, true, Option, none,
  some, List, [], ◌∷◌, ◌==◌, bytes_eq, ltb, is_empty, length, get_elem?, All, arith, Bool-cases, ok,
  >>=-eq-ok, refuse_if,
}
use mathlib.Core.Path.{subst}
use percentes.Schedule.Types.{
  Library, Input, Offset, Attempt, Cell, Schedule, Run, no_routes, empty_route, same_route, minute,
  start_tolerance, offset_step, slot_length, cell_length,
}
use percentes.Schedule.Configs.{contains, has_twins, bytes_ltb}
use percentes.Base.Sort.{sort_by}
use percentes.Schedule.Window.{Pools}
use percentes.Schedule.Frame.{check_routes, seed_at, spaced, new_schedule}
use percentes.Schedule.Runs.{on_time, find_offset, run_of, first_runs, runs}
use percentes.Schedule.Dates.{IsDrawn, attempts_from, window-IsSplit}
use percentes.Schedule.Order.{Before, begins}
use percentes.Base.Sort.{AllPairs}
use percentes.Schedule.Derived.{FromInput, new_schedule-FromInput}
use percentes.Schedule.Cells.{All-get_elem?, IsFrame, derive-IsFrame}
use percentes.Schedule.Shuffle.{IsSpaced, count, minutes_of, offsets_of-IsSpaced}

-- A schedule's pools are those of its window, its seed is the input's with the first accepted counter.
pub record IsPlan (lib : Library) (i : Input) (s : Schedule) : Type 0 where
  pub from : FromInput lib i s
  pub frame : IsFrame lib s (seed_at i.master_seed s.counter) from.pools
  pub offsets : IsSpaced (sort_by bytes_ltb i.routes) s.offsets

pub new_schedule-IsPlan :
    (lib : Library) (i : Input) (s : Schedule) → new_schedule lib i ≡ ok s → IsPlan lib i s
new_schedule-IsPlan lib i s h =
    let from = new_schedule-FromInput lib i s h in
    record {
      from = from;
      frame =
          derive-IsFrame lib s _ from.pools (window-IsSplit lib i from.pools from.in_window)
            from.tried.accepted from.tried.has_cells;
      offsets =
          subst (λ r. IsSpaced r s.offsets) from.sorted_is
            (subst (IsSpaced from.sorted) (sym from.tried.has_offsets)
              (offsets_of-IsSpaced lib (seed_at i.master_seed s.counter) from.sorted));
    }

count-spaced_above : (a i n : ℕ) → (i + n) * 10 < a + 10 → count a (spaced i n) ≡ 0
unfolding spaced
count-spaced_above a i zero h = refl
count-spaced_above a i (suc n) h = ground (arith, count-spaced_above a (i + 1) n)

find_offset-count :
    (os : List Offset) (route : List ℕ) (off : ℕ)
    → find_offset os route ≡ ok off
    → (m : ℕ) × (off ≡ m * minute) × (0 < count m (minutes_of os))
unfolding find_offset
find_offset-count [] route off h = absurd (ground arith)
find_offset-count (o ∷ os) route off h = elim (Bool-cases (o.route == route)) [
  | inl p ↦ (o.minutes, ground arith, ground arith)
  | inr p ↦ let (m, e, f) = find_offset-count os route off (ground arith) in (m, e, ground arith)
]

check_routes_few :
    (routes : List (List ℕ))
    → check_routes routes ≡ ok tt
    → (length routes - 1) * offset_step + start_tolerance + cell_length ≤ slot_length
unfolding check_routes
check_routes_few routes h =
    let (_, _, h1) = >>=-eq-ok (refuse_if (is_empty routes) no_routes) _ h in
    let (_, _, h2) = >>=-eq-ok (refuse_if (contains routes []) empty_route) _ h1 in
    let (_, _, h3) = >>=-eq-ok (refuse_if (has_twins routes) same_route) _ h2 in ground (arith, h3)

-- A run that starts on time in a route's slot ends before four hours from the slot's start.
find_offset_bound :
    (routes : List (List ℕ)) (os : List Offset) (route : List ℕ) (off : ℕ)
    → check_routes routes ≡ ok tt
    → IsSpaced routes os
    → find_offset os route ≡ ok off
    → off + start_tolerance + cell_length ≤ slot_length
unfolding check_routes
find_offset_bound routes os route off few sp h =
    let (m, e, f) = find_offset-count os route off h in
    let few_routes : (length routes - 1) * offset_step + start_tolerance + cell_length
        ≤ slot_length =
      check_routes_few routes few in
    elim (Bool-cases (ltb (length routes * 10) (m + 10))) [
      | inl p ↦ absurd (
          omega
            (arith, f, sp.spread.as_often m, count-spaced_above m 0 (length routes) (ground arith)))
      | inr p ↦ ground (arith, e)
    ]

AllPairs-get_elem? {ℓ κ} :
    {A : Type ℓ} (R : A → A → Type κ) (xs : List A) (i j : ℕ) (x y : A)
    → AllPairs R xs
    → i < j
    → get_elem? xs i ≡ some x
    → get_elem? xs j ≡ some y
    → R x y
AllPairs-get_elem? R [] i j x y ps lt p q = absurd (ground arith)
AllPairs-get_elem? R (z ∷ zs) i zero x y ps lt p q = absurd (omega (arith, lt))
AllPairs-get_elem? R (z ∷ zs) zero (suc j) x y ps lt p q =
    let e : z ≡ x = cc in subst (λ w. R w y) e (All-get_elem? (R z) zs j y ps.0 q)
AllPairs-get_elem? R (z ∷ zs) (suc i) (suc j) x y ps lt p q =
    AllPairs-get_elem? R zs i j x y ps.1 (omega (arith, lt)) p q

first_start-run_of :
    (route : List ℕ) (off : ℕ) (c : Cell) (a : Attempt) (more : List Attempt)
    → c.attempts ≡ a ∷ more
    → (run_of route off c a).start ≡ begins c + off
unfolding run_of
first_start-run_of route off c a more e = rw e refl

attempts_from-cons :
    (lib : Library) (seed : List ℕ) (c : Cell) (d : ℕ) (o : Option ℕ)
    → (a : Attempt) × (more : List Attempt) × (attempts_from lib seed c d o ≡ a ∷ more)
attempts_from-cons lib seed c d none = (_, _, refl)
attempts_from-cons lib seed c d (some e) = (_, _, refl)

first_runs-cons :
    (route : List ℕ) (off : ℕ) (c : Cell) (cs : List Cell) (a : Attempt) (more : List Attempt)
    → c.attempts ≡ a ∷ more
    → first_runs route off (c ∷ cs) ≡ run_of route off c a ∷ first_runs route off cs
unfolding first_runs
first_runs-cons route off c cs a more e = rw e refl

get_elem?-first_runs :
    (lib : Library) (seed : List ℕ) (pools : Pools) (route : List ℕ) (off : ℕ) (cs : List Cell)
    (k : ℕ) (r : Run)
    → All (IsDrawn lib seed pools) cs
    → get_elem? (first_runs route off cs) k ≡ some r
    → (c : Cell) × (get_elem? cs k ≡ some c) × (r.start ≡ begins c + off)
get_elem?-first_runs lib seed pools route off [] k r ps h =
    absurd (unfold first_runs in ground arith)
get_elem?-first_runs lib seed pools route off (c ∷ cs) k r ps h =
    let (a, more, e) = attempts_from-cons lib seed c ps.0.first_date _ in
    let f = ps.0.attempts_are ∙ e in
    let g = sym (ap (λ xs. get_elem? xs k) (first_runs-cons route off c cs a more f)) ∙ h in
    elim k
        as (λ k.
          get_elem? (run_of route off c a ∷ first_runs route off cs) k ≡ some r
          → (d : Cell) × (get_elem? (c ∷ cs) k ≡ some d) × (r.start ≡ begins d + off)) [
            | zero ↦ λ q.
                let same : run_of route off c a ≡ r = cc in
                (c, refl, ap (λ x. x.start) (sym same) ∙ first_start-run_of route off c a more f)
            | suc j ↦ λ q. get_elem?-first_runs lib seed pools route off cs j r ps.1 q
          ]
      g

on_time_bound : (r : Run) (t : ℕ) → on_time r t ≡ true → t ≤ r.start + start_tolerance
unfolding on_time
on_time_bound r t h = ground arith

-- In a schedule, a run that starts on time in one slot has ended when the slot of a later run begins, of
-- the same route or of another one.
pub runs-Before :
    (lib : Library) (i : Input) (s : Schedule) (earlier later : List ℕ) (xs ys : List Run) (j k : ℕ)
    (x y : Run) (t : ℕ)
    → new_schedule lib i ≡ ok s
    → runs s earlier ≡ ok xs
    → runs s later ≡ ok ys
    → j < k
    → get_elem? xs j ≡ some x
    → get_elem? ys k ≡ some y
    → on_time x t ≡ true
    → t + cell_length ≤ y.start
unfolding runs
runs-Before lib i s earlier later xs ys j k x y t h p q lt u v on =
    let plan = new_schedule-IsPlan lib i s h in
    let (off, p1, p2) = >>=-eq-ok (find_offset s.offsets earlier) _ p in
    let (off', q1, q2) = >>=-eq-ok (find_offset s.offsets later) _ q in
    let xs_are : first_runs earlier off s.cells ≡ xs = cc in
    let ys_are : first_runs later off' s.cells ≡ ys = cc in
    let (c, e, f) =
      get_elem?-first_runs lib _ plan.from.pools earlier off s.cells j x plan.frame.all_drawn
        (ap (λ zs. get_elem? zs j) xs_are ∙ u) in
    let (d, e', f') =
      get_elem?-first_runs lib _ plan.from.pools later off' s.cells k y plan.frame.all_drawn
        (ap (λ zs. get_elem? zs k) ys_are ∙ v) in
    let before = AllPairs-get_elem? Before s.cells j k c d plan.frame.in_order lt e e' in
    let bound =
      find_offset_bound _ s.offsets earlier off plan.from.few_routes
        (subst (λ r. IsSpaced r s.offsets) (sym plan.from.sorted_is) plan.offsets) p1 in
    omega (arith, f, f', before, bound, on_time_bound x t on)
