-- ===== src/Schedule/Window.antt =====
-- internal/schedule/schedule.go: `window`, the dates of a committed window by day type.
use percentes.Base.{
  ℕ, zero, suc, ◌+◌, ◌-◌, Bool, false, not, ◌||◌, List, [], ◌∷◌, ltb, if◌then◌else◌, is_empty,
  Result, ok, ◌>>=◌, ◌>>◌, refuse_if, or_fail,
}
use percentes.Schedule.Types.{
  Library, DayType, weekday, weekend, Input, ScheduleError, bad_date, last_before_first,
  window_too_long, missing_day_type, max_window_days, is_saturday, is_sunday,
}

-- dayType
unfoldable pub day_type_of : ℕ → DayType
day_type_of d = if is_saturday d || is_sunday d then weekend else weekday

-- The map of the dates of each day type.
pub record Pools : Type 0 where
  pub weekdays : List ℕ
  pub weekends : List ℕ

abbrev pub pool_of : Pools → DayType → List ℕ
pool_of p weekday = p.weekdays
pool_of p weekend = p.weekends

-- The dates of a day type among `n` days from `d` on.
unfoldable pub dates_of : (ℕ → Bool) → ℕ → ℕ → List ℕ
dates_of p zero d = []
dates_of p (suc n) d = let rest = dates_of p n (d + 1) in if p d then d ∷ rest else rest

unfoldable pub is_weekend_day : ℕ → Bool
is_weekend_day d = is_saturday d || is_sunday d

-- The loop over the window's days: one list for each day type, and whether it met either day.
unfoldable pub pools_of : ℕ → ℕ → Pools
unfolding dates_of is_weekend_day
pools_of n d = record {
  weekdays = dates_of (λ x. not (is_weekend_day x)) n d;
  weekends = dates_of is_weekend_day n d;
}

unfoldable pub has_day : (ℕ → Bool) → List ℕ → Bool
has_day p [] = false
has_day p (d ∷ ds) = p d || has_day p ds

-- window
unfoldable pub window : Library → Input → Result ScheduleError Pools
unfolding pools_of has_day
window lib i = do
  first ← or_fail (lib.parse_date i.first) bad_date
  last ← or_fail (lib.parse_date i.last) bad_date
  refuse_if (ltb last first) last_before_first
  let days = last - first + 1
  refuse_if (ltb max_window_days days) window_too_long
  let pools = pools_of days first
  refuse_if
      (is_empty pools.weekdays
        || (not (has_day is_saturday pools.weekends) || not (has_day is_sunday pools.weekends)))
      missing_day_type
  ok pools
