-- ===== src/Schedule/Types.antt =====
-- internal/schedule/schedule.go: the schedule's input, cells and runs. A text is its bytes; a date is
-- its day number, and an instant the nanoseconds, from the first day of the year 0 in UTC.
use percentes.Base.Int.{ℤ}
use percentes.Base.{ℕ, ◌+◌, ◌*◌, ◌%◌, Bool, true, false, Option, List, nat_eq, ◌==◌}

-- What the schedule takes from Go's library: time.Parse and Format of "2006-01-02", and the bytes of
-- a SHA-256 sum.
pub record Library : Type 0 where
  pub parse_date : List ℕ → Option ℕ
  pub format_date : ℕ → List ℕ
  pub sha256 : List ℕ → List ℕ

pub data DayType : Type 0 where
  weekday weekend : DayType

abbrev pub is_weekend : DayType → Bool
is_weekend weekday = false
is_weekend weekend = true

pub record RouteConfig : Type 0 where
  pub route : List ℕ
  pub config_sha256 : List ℕ
  pub config_hmac_sha256 : List ℕ
  pub host_group : List (List ℕ)

pub record Input : Type 0 where
  pub master_seed : List ℕ
  pub first : List ℕ
  pub last : List ℕ
  pub routes : List (List ℕ)
  pub configs : List RouteConfig
  pub ledger_sha256 : List ℕ
  pub ledger_lines : ℤ
  pub ledger_head_sha256 : List ℕ

pub record Offset : Type 0 where
  pub route : List ℕ
  pub minutes : ℕ

pub record Attempt : Type 0 where
  pub attempt : ℕ
  pub date : List ℕ
  pub slot_start : ℕ
  pub seed : ℕ

-- A slot on a day type, with its attempts in order.
pub record Cell : Type 0 where
  pub label : List ℕ
  pub day_type : DayType
  pub slot_hour : ℕ
  pub attempts : List Attempt

pub record Schedule : Type 0 where
  pub input : Input
  pub counter : ℕ
  pub offsets : List Offset
  pub cells : List Cell

pub record Run : Type 0 where
  pub route : List ℕ
  pub label : List ℕ
  pub attempt : ℕ
  pub date : List ℕ
  pub start : ℕ
  pub seed : ℕ

pub data ScheduleError : Type 0 where
  empty_seed no_routes empty_route same_route too_many_routes : ScheduleError
  bad_date last_before_first window_too_long missing_day_type : ScheduleError
  config_not_scheduled bad_config_hash bad_config_hmac bad_host_group same_config : ScheduleError
  bad_ledger_hash bad_ledger_position counter_exhausted : ScheduleError
  no_such_route reruns_taken no_later_date no_such_cell not_derived : ScheduleError

-- time.Minute, time.Hour and a day, in nanoseconds
abbrev pub minute : ℕ
minute = 60_000_000_000

abbrev pub hour : ℕ
hour = 3_600_000_000_000

abbrev pub day : ℕ
day = 86_400_000_000_000

-- StartTolerance, OffsetStep, slotLength and CellLength: the warm-up of 60 s and five steps of 480 s
-- with a drain of 90 s.
abbrev pub start_tolerance : ℕ
start_tolerance = 15 * minute

abbrev pub offset_step : ℕ
offset_step = 10 * minute

abbrev pub slot_length : ℕ
slot_length = 4 * hour

abbrev pub cell_length : ℕ
cell_length = (60 + 5 * (480 + 90)) * 1_000_000_000

abbrev pub max_window_days : ℕ
max_window_days = 14

abbrev pub max_reruns : ℕ
max_reruns = 2

-- Weekday of a day number: 0 is Sunday. The first day of the year 0 is a Saturday.
unfoldable pub week_day : ℕ → ℕ
week_day d = (d + 6) % 7

abbrev pub is_saturday : ℕ → Bool
is_saturday d = week_day d == 6

abbrev pub is_sunday : ℕ → Bool
is_sunday d = week_day d == 0
