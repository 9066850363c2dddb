-- ===== src/Pilot/Examples.antt =====
-- A pilot schedule over five weeks, and the theorem at it.
use percentes.Base.{ℕ, ◌+◌, ◌%◌, ◌≡◌, refl, none, some, List, [], ◌∷◌, Result, ok, err, bytes}
use percentes.Admission.Decimal.{print_digits}
use percentes.Schedule.Types.{Library, week_day}
use percentes.Pilot.Slots.{Session}
use percentes.Pilot.Plan.{ScheduleInput, PilotSchedule, PlanError, new_schedule}
use percentes.Pilot.Whole.{IsPilotPlan, new_schedule-IsPilotPlan}

abbrev sum_bytes : List ℕ → ℕ
sum_bytes [] = 0
sum_bytes (b ∷ bs) = b + sum_bytes bs

-- A date is one byte, and a hash the sum of the bytes.
abbrev byte_dates : Library
byte_dates = record {
  parse_date = λ s. elim s [ [] ↦ none | d ∷ ds ↦ some d ];
  format_date = λ d. d ∷ [];
  sha256 = λ s. sum_bytes s % 256 ∷ [];
}

abbrev five_weeks : ScheduleInput
five_weeks = record {
  master_seed = 1 ∷ [];
  freeze = 10 ∷ [];
  last = 45 ∷ [];
  exclude = (20 ∷ []) ∷ [];
  first_endpoint = bytes "a";
  second_endpoint = bytes "b";
}

abbrev given : Result PlanError PilotSchedule → PilotSchedule
given (ok s) = s
given (err e) = record { input = five_weeks; counter = 0; sessions = []; reserves = [] }

abbrev pilot_schedule : PilotSchedule
pilot_schedule = given (new_schedule byte_dates five_weeks)

pilot_derived : new_schedule byte_dates five_weeks ≡ ok pilot_schedule
unfolding new_schedule week_day print_digits
pilot_derived = refl

abbrev starts_of : List Session → List ℕ
starts_of [] = []
starts_of (s ∷ sessions) = s.start ∷ starts_of sessions

test_starts :
    starts_of pilot_schedule.sessions
    ≡ 1_540_800_000_000_000 ∷ 1_627_200_000_000_000 ∷ 1_713_600_000_000_000 ∷ 1_972_800_000_000_000
      ∷ 2_491_200_000_000_000 ∷ 2_577_600_000_000_000 ∷ []
unfolding new_schedule week_day print_digits
test_starts = refl

new_schedule-IsPilotPlan_example : IsPilotPlan byte_dates five_weeks pilot_schedule
new_schedule-IsPilotPlan_example =
    new_schedule-IsPilotPlan byte_dates five_weeks pilot_schedule pilot_derived
