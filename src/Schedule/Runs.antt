-- ===== src/Schedule/Runs.antt =====
-- internal/schedule/schedule.go: a route's runs and re-runs of a schedule.
use percentes.Base.{
  ℕ, ◌+◌, ◌*◌, Bool, not, ◌&&◌, Option, none, some, List, [], ◌∷◌, ◌==◌, nat_eq, bytes_eq, leb,
  if◌then◌else◌, Result, ok, err, ◌>>=◌, ◌>>◌, refuse_if, or_fail,
}
use percentes.Base.Int.{ℤ, pos, leb_ℤ}
use percentes.Schedule.Types.{
  Library, Input, Offset, Attempt, Cell, Schedule, Run, RouteConfig, ScheduleError, no_such_route,
  reruns_taken, no_later_date, no_such_cell, not_derived, minute, start_tolerance, max_reruns,
}
use percentes.Schedule.Frame.{new_schedule}

-- Run.OnTime
unfoldable pub on_time : Run → ℕ → Bool
on_time r t = leb r.start (t + start_tolerance) && leb t (r.start + start_tolerance)

-- Schedule.Config
unfoldable pub find_config : List RouteConfig → List ℕ → Option RouteConfig
find_config [] route = none
find_config (c ∷ cs) route = if c.route == route then some c else find_config cs route

-- Schedule.offset, in nanoseconds
unfoldable pub find_offset : List Offset → List ℕ → Result ScheduleError ℕ
find_offset [] route = err no_such_route
find_offset (o ∷ os) route =
    if o.route == route then ok (o.minutes * minute) else find_offset os route

-- Schedule.run
unfoldable pub run_of : List ℕ → ℕ → Cell → Attempt → Run
run_of route off c a = record {
  route = route;
  label = c.label;
  attempt = a.attempt;
  date = a.date;
  start = a.slot_start + off;
  seed = a.seed;
}

-- The loop of Runs: c.Attempts[0] of each cell, which every derived cell has.
unfoldable pub first_runs : List ℕ → ℕ → List Cell → List Run
unfolding run_of
first_runs route off [] = []
first_runs route off (c ∷ cs) = elim c.attempts [
  | [] ↦ first_runs route off cs
  | a ∷ more ↦ run_of route off c a ∷ first_runs route off cs
]

-- Schedule.Runs
unfoldable pub runs : Schedule → List ℕ → Result ScheduleError (List Run)
unfolding find_offset first_runs
runs s route = do off ← find_offset s.offsets route; ok (first_runs route off s.cells)

-- c.Attempts[1]
abbrev pub second_attempt : List Attempt → Result ScheduleError Attempt
second_attempt (a ∷ b ∷ more) = ok b
second_attempt _ = err no_later_date

-- The loop of Rerun.
unfoldable pub find_rerun : List ℕ → ℕ → List ℕ → List Cell → Result ScheduleError Run
unfolding run_of
find_rerun route off label [] = err no_such_cell
find_rerun route off label (c ∷ cs) =
    if c.label == label
    then (do b ← second_attempt c.attempts; ok (run_of route off c b))
    else find_rerun route off label cs

-- Schedule.Rerun
unfoldable pub rerun : Schedule → List ℕ → List ℕ → ℤ → Result ScheduleError Run
unfolding find_offset find_rerun
rerun s route label taken = do
  off ← find_offset s.offsets route
  refuse_if (leb_ℤ (pos max_reruns) taken) reruns_taken
  find_rerun route off label s.cells

-- encoding/json on a schedule: its indented form with a newline, and the input read back from such a
-- text.
pub record Json : Type 0 where
  pub print : Schedule → List ℕ
  pub read_input : List ℕ → Option Input

-- Load
unfoldable pub load : Library → Json → List ℕ → Result ScheduleError Schedule
load lib js text = do
  i ← or_fail (js.read_input text) not_derived
  want ← new_schedule lib i
  refuse_if (not (text == js.print want)) not_derived
  ok want
