-- ===== src/Pilot/Plan.antt =====
-- internal/pilot/schedule.go: `NewSchedule`.
use percentes.Base.{
  ℕ, zero, suc, ◌+◌, ◌-◌, ◌%◌, Bool, not, ◌&&◌, ◌||◌, Option, none, some, List, [], ◌∷◌, ◌++◌, ◌==◌,
  nat_eq, bytes_eq, bytes, if◌then◌else◌, length, ltb, leb, Result, ok, err, ◌>>=◌, ◌>>◌, refuse_if,
  or_fail,
}
use percentes.Base.Sort.{sort_by}
use percentes.Admission.Decimal.{print_nat}
use percentes.Schedule.Types.{Library}
use percentes.Schedule.Window.{Pools, dates_of, is_weekend_day}
use percentes.Schedule.Frame.{seed_at}
use percentes.Pilot.Slots.{Session, sessions_per_day_type, draw, shuffle, slot, is_taken, derive}

pub record ScheduleInput : Type 0 where
  pub master_seed : List ℕ
  pub freeze : List ℕ
  pub last : List ℕ
  pub exclude : List (List ℕ)
  pub first_endpoint : List ℕ
  pub second_endpoint : List ℕ

pub record PilotSchedule : Type 0 where
  pub input : ScheduleInput
  pub counter : ℕ
  pub sessions : List Session
  pub reserves : List Session

pub data PlanError : Type 0 where
  empty_seed empty_endpoint same_endpoint bad_date last_not_after_freeze too_few_dates : PlanError
  no_distinct_dates : PlanError

unfoldable pub parse_all : Library → List (List ℕ) → Result PlanError (List ℕ)
parse_all lib [] = ok []
parse_all lib (s ∷ exclude) = do
  d ← or_fail (lib.parse_date s) bad_date
  rest ← parse_all lib exclude
  ok (d ∷ rest)

-- eligible: the dates of each day type.
unfoldable pub eligible : Library → ScheduleInput → Result PlanError Pools
unfolding parse_all dates_of is_weekend_day is_taken
eligible lib i = do
  freeze ← or_fail (lib.parse_date i.freeze) bad_date
  last ← or_fail (lib.parse_date i.last) bad_date
  excluded ← parse_all lib i.exclude
  refuse_if (leb last freeze) last_not_after_freeze
  ok (record {
    weekdays =
        dates_of (λ d. not (is_taken d excluded) && not (is_weekend_day d)) (last - freeze)
          (freeze + 1);
    weekends =
        dates_of (λ d. not (is_taken d excluded) && is_weekend_day d) (last - freeze) (freeze + 1);
  })

-- ds[len(ds)-1] and ds[:len(ds)-1], where there are dates.
abbrev pub put_last : ℕ → Option (List ℕ × ℕ) → Option (List ℕ × ℕ)
put_last d none = some ([], d)
put_last d (some (pool, reserve)) = some (d ∷ pool, reserve)

unfoldable pub split_last : List ℕ → Option (List ℕ × ℕ)
split_last [] = none
split_last (d ∷ ds) = put_last d (split_last ds)

-- The round of the loop on a day type.
unfoldable pub pool_and_reserve : List ℕ → Result PlanError (List ℕ × ℕ)
unfolding split_last
pool_and_reserve ds = do
  refuse_if (ltb (length ds) (sessions_per_day_type + 1)) too_few_dates
  or_fail (split_last ds) too_few_dates

-- i % 2, for the `n` positions from `i` on.
unfoldable pub alternate : ℕ → ℕ → List ℕ
alternate i zero = []
alternate i (suc n) = i % 2 ∷ alternate (i + 1) n

abbrev pub order_draw : Library → List ℕ → ℕ → ℕ
order_draw lib seed i = draw lib (seed ++ (bytes "order/" ++ print_nat i)) (i + 1)

unfoldable pub orders : Library → List ℕ → ℕ → List ℕ
unfolding shuffle alternate draw
orders lib seed n = shuffle (order_draw lib seed) (n - 1) (alternate 0 n)

-- The order of a session's endpoints.
abbrev pub endpoints_in : ScheduleInput → ℕ → List (List ℕ)
endpoints_in i order =
    if order == 0
    then i.first_endpoint ∷ i.second_endpoint ∷ []
    else i.second_endpoint ∷ i.first_endpoint ∷ []

unfoldable pub set_orders : ScheduleInput → List ℕ → List Session → List Session
set_orders i [] sessions = sessions
set_orders i (o ∷ os) [] = []
set_orders i (o ∷ os) (s ∷ sessions) =
    record s { order = endpoints_in i o } ∷ set_orders i os sessions

abbrev pub starts_before : Session → Session → Bool
starts_before a b = ltb a.start b.start

-- The reserves, on their day types' last dates.
abbrev pub reserves_of : Library → List ℕ → ℕ → ℕ → List Session
reserves_of lib seed weekday_date weekend_date =
    slot lib seed (bytes "reserve-weekday") weekday_date
    ∷ slot lib seed (bytes "reserve-weekend") weekend_date
    ∷ []

-- The loop over the counter, with `rounds` rounds left.
module _ (lib : Library) (i : ScheduleInput) (pools : Pools) (weekday_date weekend_date : ℕ) where
  abbrev pub schedule_of : ℕ → List Session → PilotSchedule
  schedule_of counter sessions =
      let seed = seed_at i.master_seed counter in
      record {
        input = i;
        counter = counter;
        sessions =
            sort_by starts_before (set_orders i (orders lib seed (length sessions)) sessions);
        reserves = reserves_of lib seed weekday_date weekend_date;
      }

  abbrev pub take_first :
      Option (List Session) → ℕ → Result PlanError PilotSchedule → Result PlanError PilotSchedule
  take_first (some sessions) counter rest = ok (schedule_of counter sessions)
  take_first none counter rest = rest

  unfoldable pub try_counters : ℕ → ℕ → Result PlanError PilotSchedule
  unfolding derive orders set_orders sort_by slot
  try_counters zero counter = err no_distinct_dates
  try_counters (suc rounds) counter =
      let rest = try_counters rounds (counter + 1) in
      take_first (derive lib (seed_at i.master_seed counter) pools) counter rest

-- maxCounter and 0
abbrev pub counters : ℕ
counters = 10001

-- NewSchedule
unfoldable pub new_schedule : Library → ScheduleInput → Result PlanError PilotSchedule
unfolding eligible pool_and_reserve try_counters
new_schedule lib i = do
  refuse_if (i.master_seed == []) empty_seed
  refuse_if (i.first_endpoint == [] || i.second_endpoint == []) empty_endpoint
  refuse_if (i.first_endpoint == i.second_endpoint) same_endpoint
  dates ← eligible lib i
  weekdays ← pool_and_reserve dates.weekdays
  weekends ← pool_and_reserve dates.weekends
  try_counters lib i (record { weekdays = weekdays.0; weekends = weekends.0 }) weekdays.1 weekends.1
      counters 0
