-- ===== src/Schedule/Examples.antt =====
-- A schedule of two routes over a week, and the theorems at it.
use percentes.Base.{
  ℕ, zero, suc, ◌+◌, ◌%◌, ◌*◌, ◌≤◌, true, ◌≡◌, refl, none, some, List, [], ◌∷◌, get_elem?, arith,
  Result, ok, err, bytes,
}
use percentes.Base.Int.{pos}
use percentes.Admission.Decimal.{print_digits, print_padded}
use percentes.Schedule.Types.{
  Library, Input, Schedule, Run, ScheduleError, week_day, day, hour, cell_length,
}
use percentes.Schedule.Window.{window, dates_of, is_weekend_day, pools_of, has_day}
use percentes.Schedule.Configs.{bytes_ltb, contains, has_twins, check_configs, route_configs}
use percentes.Base.Sort.{put_before, sort_by}
use percentes.Schedule.Derive.{
  big_endian, draw, run_seed, labels_of, attempts_at, drawn, derive_cell, drawn_is, any_drawn,
  derive_cells, derive,
}
use percentes.Schedule.Frame.{
  check_routes, check_ledger, spaced, set, swap, shuffle, offsets_of, try_counters, new_schedule,
}
use percentes.Schedule.Runs.{on_time, find_offset, run_of, first_runs, runs, rerun, Json, load}
use percentes.Schedule.Again.{load-new_schedule}
use percentes.Schedule.Guarantee.{IsPlan, new_schedule-IsPlan, runs-Before}

abbrev sum_bytes : List ℕ → ℕ
sum_bytes [] = 0
sum_bytes (b ∷ bs) = b + sum_bytes bs

-- A date is one byte, and a hash the sum of the bytes.
abbrev week_lib : Library
week_lib = record {
  parse_date = λ s. elim s [ [] ↦ none | d ∷ ds ↦ some d ];
  format_date = λ d. d ∷ [];
  sha256 = λ s. sum_bytes s % 256 ∷ [];
}

abbrev week_input : Input
week_input = record {
  master_seed = 1 ∷ [];
  first = 14 ∷ [];
  last = 20 ∷ [];
  routes = bytes "b" ∷ bytes "a" ∷ [];
  configs = [];
  ledger_sha256 = [];
  ledger_lines = pos 0;
  ledger_head_sha256 = [];
}

abbrev given : Result ScheduleError Schedule → Schedule
given (ok s) = s
given (err e) = record { input = week_input; counter = 0; offsets = []; cells = [] }

abbrev week_schedule : Schedule
week_schedule = given (new_schedule week_lib week_input)

week_derived : new_schedule week_lib week_input ≡ ok week_schedule
unfolding new_schedule check_routes check_ledger window route_configs try_counters sort_by
    put_before contains has_twins bytes_ltb pools_of dates_of is_weekend_day has_day check_configs
    derive offsets_of derive_cells derive_cell drawn draw big_endian attempts_at run_seed any_drawn
    drawn_is labels_of week_day shuffle swap set spaced print_padded
week_derived = refl

new_schedule-IsPlan_example : IsPlan week_lib week_input week_schedule
new_schedule-IsPlan_example = new_schedule-IsPlan week_lib week_input week_schedule week_derived

abbrev given_runs : Result ScheduleError (List Run) → List Run
given_runs (ok rs) = rs
given_runs (err e) = []

abbrev runs_of : List ℕ → List Run
runs_of route = given_runs (runs week_schedule route)

abbrev no_run : Run
no_run = record { route = []; label = []; attempt = 0; date = []; start = 0; seed = 0 }

abbrev run_at : List Run → ℕ → Run
run_at [] k = no_run
run_at (r ∷ rs) zero = r
run_at (r ∷ rs) (suc k) = run_at rs k

a_runs : runs week_schedule (bytes "a") ≡ ok (runs_of (bytes "a"))
unfolding runs find_offset new_schedule bytes_ltb week_day check_configs print_digits
a_runs = refl

b_runs : runs week_schedule (bytes "b") ≡ ok (runs_of (bytes "b"))
unfolding runs find_offset new_schedule bytes_ltb week_day check_configs print_digits
b_runs = refl

a_first : get_elem? (runs_of (bytes "a")) 0 ≡ some (run_at (runs_of (bytes "a")) 0)
unfolding runs find_offset first_runs new_schedule bytes_ltb week_day check_configs print_digits
a_first = refl

b_second : get_elem? (runs_of (bytes "b")) 1 ≡ some (run_at (runs_of (bytes "b")) 1)
unfolding runs find_offset first_runs new_schedule bytes_ltb week_day check_configs print_digits
b_second = refl

a_on_time : on_time (run_at (runs_of (bytes "a")) 0) (14 * day + 12 * hour) ≡ true
unfolding on_time runs find_offset first_runs run_of new_schedule bytes_ltb week_day check_configs
    print_digits
a_on_time = refl

runs-Before_example : 14 * day + 12 * hour + cell_length ≤ (run_at (runs_of (bytes "b")) 1).start
runs-Before_example =
    runs-Before week_lib week_input week_schedule (bytes "a") (bytes "b") (runs_of (bytes "a"))
      (runs_of (bytes "b")) 0 1 (run_at (runs_of (bytes "a")) 0) (run_at (runs_of (bytes "b")) 1)
      (14 * day + 12 * hour) week_derived a_runs b_runs (omega arith) a_first b_second a_on_time

abbrev given_run : Result ScheduleError Run → Run
given_run (ok r) = r
given_run (err e) = no_run

abbrev second_noon : Run
second_noon = given_run (rerun week_schedule (bytes "a") (bytes "weekend-12") (pos 1))

-- A text of the counter, which holds no input but this one.
abbrev week_json : Json
week_json = record { print = λ s. s.counter ∷ []; read_input = λ text. some week_schedule.input }

load-new_schedule_example :
    load week_lib week_json (week_json.print week_schedule) ≡ ok week_schedule
load-new_schedule_example =
    load-new_schedule week_lib week_json week_input week_schedule refl week_derived
