-- ===== src/Pilot/Whole.antt =====
-- What holds of every pilot schedule.
use percentes.Base.{
  ℕ, ◌+◌, ◌-◌, ◌≡◌, ◌<◌, refl, sym, ap, ◌∙◌, Bool, true, false, not, ◌&&◌, ◌||◌, some, List, [],
  ◌==◌, nat_eq, bytes_eq, length, arith, All, leb, ok, >>=-eq-ok, refuse_if, or_fail,
}
use mathlib.Core.Path.{subst}
use percentes.Base.Sort.{AllPairs, All-map}
use percentes.Schedule.Types.{Library, weekday, weekend}
use percentes.Schedule.Window.{Pools, day_type_of, dates_of, is_weekend_day}
use percentes.Schedule.Shuffle.{count}
use percentes.Schedule.Frame.{seed_at}
use percentes.Pilot.Slots.{is_taken}
use percentes.Pilot.Plan.{
  ScheduleInput, PilotSchedule, PlanError, parse_all, eligible, pool_and_reserve, orders,
  reserves_of, counters, new_schedule,
}
use percentes.Pilot.Drawn.{IsDrawn, derive-AreDrawn}
use percentes.Pilot.Ordered.{Before, count_led}
use percentes.Pilot.Planned.{IsEligible, IsPool, eligible-IsPool, or_fail-ok}
use percentes.Pilot.Plan.{
  empty_seed, empty_endpoint, same_endpoint, bad_date, last_not_after_freeze,
}
use percentes.Pilot.Guarantee.{
  IsSession, Found, try_counters-Found, drawn-IsSession, sorted, orders-count, length-orders,
}

-- What a schedule of NewSchedule holds.
pub record IsPilotPlan (lib : Library) (i : ScheduleInput) (s : PilotSchedule) : Type 0 where
  pub freeze : ℕ
  pub last : ℕ
  pub excluded : List ℕ
  pub weekday_date : ℕ
  pub weekend_date : ℕ
  pub freeze_read : lib.parse_date i.freeze ≡ some freeze
  pub last_read : lib.parse_date i.last ≡ some last
  pub excluded_read : parse_all lib i.exclude ≡ ok excluded
  pub weekday_eligible : IsEligible freeze last excluded weekday weekday_date
  pub weekend_eligible : IsEligible freeze last excluded weekend weekend_date
  pub reserves_are :
      s.reserves ≡ reserves_of lib (seed_at i.master_seed s.counter) weekday_date weekend_date
  pub six : length s.sessions ≡ 6
  pub in_order : AllPairs Before s.sessions
  pub each : All (IsSession lib freeze last excluded weekday_date weekend_date) s.sessions
  pub half_first : count_led i.first_endpoint s.sessions ≡ 3
  pub half_second : count_led i.second_endpoint s.sessions ≡ 3

refuse_if-ok : (b : Bool) (e : PlanError) → refuse_if b e ≡ ok tt → b ≡ false
refuse_if-ok true e h = absurd (ground arith)
refuse_if-ok false e h = refl

weekday_test :
    (excluded : List ℕ) (d : ℕ)
    → (not (is_taken d excluded) && not (is_weekend_day d)) ≡ true
    → (is_taken d excluded ≡ false) × (day_type_of d ≡ weekday)
unfolding is_weekend_day day_type_of
weekday_test excluded d h = ground arith

weekend_test :
    (excluded : List ℕ) (d : ℕ)
    → (not (is_taken d excluded) && is_weekend_day d) ≡ true
    → (is_taken d excluded ≡ false) × (day_type_of d ≡ weekend)
unfolding is_weekend_day day_type_of
weekend_test excluded d h = ground arith

-- The dates that eligible gives.
record Dates (lib : Library) (i : ScheduleInput) (dates : Pools) : Type 0 where
  freeze : ℕ
  last : ℕ
  excluded : List ℕ
  freeze_read : lib.parse_date i.freeze ≡ some freeze
  last_read : lib.parse_date i.last ≡ some last
  excluded_read : parse_all lib i.exclude ≡ ok excluded
  ordered : freeze < last
  weekdays_are :
      dates.weekdays
      ≡ dates_of
          (λ d. not (is_taken d excluded) && not (is_weekend_day d))
          (last - freeze)
          (freeze + 1)
  weekends_are :
      dates.weekends
      ≡ dates_of (λ d. not (is_taken d excluded) && is_weekend_day d) (last - freeze) (freeze + 1)

eligible-Dates :
    (lib : Library) (i : ScheduleInput) (dates : Pools)
    → eligible lib i ≡ ok dates
    → Dates lib i dates
unfolding eligible
eligible-Dates lib i dates h =
    let (freeze, e1, h1) = >>=-eq-ok (or_fail (lib.parse_date i.freeze) bad_date) _ h in
    let (last, e2, h2) = >>=-eq-ok (or_fail (lib.parse_date i.last) bad_date) _ h1 in
    let (excluded, e3, h3) = >>=-eq-ok (parse_all lib i.exclude) _ h2 in
    let (u, e4, h4) = >>=-eq-ok (refuse_if (leb last freeze) last_not_after_freeze) _ h3 in
    let later = refuse_if-ok (leb last freeze) last_not_after_freeze e4 in
    record {
      freeze = freeze;
      last = last;
      excluded = excluded;
      freeze_read = or_fail-ok bad_date (lib.parse_date i.freeze) e1;
      last_read = or_fail-ok bad_date (lib.parse_date i.last) e2;
      excluded_read = e3;
      ordered = ground arith;
      weekdays_are = cc;
      weekends_are = cc;
    }

schedule_of-IsPilotPlan :
    (lib : Library) (i : ScheduleInput) (dates pools : Pools) (weekday_date weekend_date : ℕ)
    (s : PilotSchedule) (h : Dates lib i dates)
    → (i.first_endpoint == i.second_endpoint) ≡ false
    → IsPool h.freeze h.last h.excluded weekday pools.weekdays weekday_date
    → IsPool h.freeze h.last h.excluded weekend pools.weekends weekend_date
    → Found lib i pools weekday_date weekend_date s
    → IsPilotPlan lib i s
schedule_of-IsPilotPlan lib i dates pools weekday_date weekend_date s h differ wd we found =
    let seed = seed_at i.master_seed found.counter in
    let drawn = derive-AreDrawn lib seed pools found.sessions found.from_seed in
    let os = orders lib seed (length found.sessions) in
    let each =
      All-map (IsDrawn lib seed pools [])
        (IsSession lib h.freeze h.last h.excluded weekday_date weekend_date)
        (drawn-IsSession lib h.freeze h.last h.excluded pools weekday_date weekend_date wd we seed
          [])
        found.sessions drawn.each in
    let all =
      sorted lib i h.freeze h.last h.excluded weekday_date weekend_date differ os found.sessions
        (ap (λ n. length (orders lib seed n)) drawn.one_each ∙ length-orders lib seed)
        (ap (λ n. count 0 (orders lib seed n)) drawn.one_each ∙ orders-count lib seed)
        drawn.one_each drawn.all_apart each in
    subst (IsPilotPlan lib i) (sym found.schedule_is) (record {
      freeze = h.freeze;
      last = h.last;
      excluded = h.excluded;
      weekday_date = weekday_date;
      weekend_date = weekend_date;
      freeze_read = h.freeze_read;
      last_read = h.last_read;
      excluded_read = h.excluded_read;
      weekday_eligible = wd.reserve_eligible;
      weekend_eligible = we.reserve_eligible;
      reserves_are = refl;
      six = all.six;
      in_order = all.in_order;
      each = all.each;
      half_first = all.half_first;
      half_second = all.half_second;
    })

-- A schedule that NewSchedule makes has six sessions, in the order of their starts, no two at once. Each
-- is at the slot's hour of a date after the freeze, up to the last date, that is not excluded and is
-- before the reserve of its day type, and its permutation has each case once. Three ask the first
-- endpoint first, three the second. The reserves are on such dates of their own day types.
pub new_schedule-IsPilotPlan :
    (lib : Library) (i : ScheduleInput) (s : PilotSchedule)
    → new_schedule lib i ≡ ok s
    → IsPilotPlan lib i s
unfolding new_schedule
new_schedule-IsPilotPlan lib i s h =
    let (u1, e1, h1) = >>=-eq-ok (refuse_if (i.master_seed == []) empty_seed) _ h in
    let (u2, e2, h2) =
      >>=-eq-ok (refuse_if (i.first_endpoint == [] || i.second_endpoint == []) empty_endpoint) _
        h1 in
    let (u3, e3, h3) =
      >>=-eq-ok (refuse_if (i.first_endpoint == i.second_endpoint) same_endpoint) _ h2 in
    let (dates, e4, h4) = >>=-eq-ok (eligible lib i) _ h3 in
    let (weekdays, e5, h5) = >>=-eq-ok (pool_and_reserve dates.weekdays) _ h4 in
    let (weekends, e6, h6) = >>=-eq-ok (pool_and_reserve dates.weekends) _ h5 in
    let d = eligible-Dates lib i dates e4 in
    let pools : Pools = record { weekdays = weekdays.0; weekends = weekends.0 } in
    schedule_of-IsPilotPlan lib i dates pools weekdays.1 weekends.1 s d
      (refuse_if-ok (i.first_endpoint == i.second_endpoint) same_endpoint e3)
      (eligible-IsPool d.freeze d.last d.excluded weekday
        (λ x. not (is_taken x d.excluded) && not (is_weekend_day x)) weekdays.0 weekdays.1
        (weekday_test d.excluded) d.ordered (ap pool_and_reserve (sym d.weekdays_are) ∙ e5))
      (eligible-IsPool d.freeze d.last d.excluded weekend
        (λ x. not (is_taken x d.excluded) && is_weekend_day x) weekends.0 weekends.1
        (weekend_test d.excluded) d.ordered (ap pool_and_reserve (sym d.weekends_are) ∙ e6))
      (try_counters-Found lib i pools weekdays.1 weekends.1 counters 0 s h6)
