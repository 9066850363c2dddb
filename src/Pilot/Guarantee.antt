-- ===== src/Pilot/Guarantee.antt =====
-- What a pilot schedule promises of its sessions and reserves.
use percentes.Base.{
  ℕ, zero, suc, ◌+◌, ◌*◌, ◌≡◌, ◌<◌, refl, sym, ◌∙◌, false, Option, none, some, List, ◌==◌, nat_eq,
  bytes_eq, length, get_elem?, arith, All, Result, ok,
}
use mathlib.Core.Path.{subst}
use percentes.Base.Sort.{AllPairs, All-sort_by, length-sort_by, sort_by}
use percentes.Schedule.Types.{Library, DayType, weekday, weekend, day, hour}
use percentes.Schedule.Window.{Pools, pool_of}
use percentes.Schedule.Shuffle.{SameItems, count}
use percentes.Schedule.Cells.{All-get_elem?}
use percentes.Schedule.Frame.{seed_at}
use percentes.Pilot.Slots.{Session, slot_hour, cases, numbers, slot, derive}
use percentes.Pilot.Plan.{
  ScheduleInput, PilotSchedule, PlanError, orders, order_draw, set_orders, endpoints_in,
  starts_before, schedule_of, take_first, try_counters, alternate,
}
use percentes.Pilot.Drawn.{IsDrawn, permutation-SameItems, shuffle-SameItems}
use percentes.Pilot.Ordered.{
  Before, Apart, sort_by-Before, All-set_orders, set_orders-Apart, length-set_orders, count_led,
  count_led-sort_by, count_led-first, count_led-second,
}
use percentes.Pilot.Planned.{IsEligible, IsPool}

abbrev pub reserve_of : ℕ → ℕ → DayType → ℕ
reserve_of weekday_date weekend_date weekday = weekday_date
reserve_of weekday_date weekend_date weekend = weekend_date

-- A session on an eligible date of its day type before that type's reserve, at the slot's hour, with
-- each case once.
pub record IsSession (lib : Library) (freeze last : ℕ) (excluded : List ℕ)
    (weekday_date weekend_date : ℕ) (s : Session) : Type 0 where
  pub date : ℕ
  pub date_is : s.date ≡ lib.format_date date
  pub start_is : s.start ≡ date * day + slot_hour * hour
  pub date_eligible : IsEligible freeze last excluded s.day_type date
  pub before_reserve : date < reserve_of weekday_date weekend_date s.day_type
  pub cases_are : SameItems s.permutation (numbers 0 cases)

module _ (lib : Library) (freeze last : ℕ) (excluded : List ℕ) (pools : Pools)
    (weekday_date weekend_date : ℕ)
    (weekdays_are : IsPool freeze last excluded weekday pools.weekdays weekday_date)
    (weekends_are : IsPool freeze last excluded weekend pools.weekends weekend_date) where
  from_pool :
      (dt : DayType) (k d : ℕ)
      → get_elem? (pool_of pools dt) k ≡ some d
      → IsEligible freeze last excluded dt d × (d < reserve_of weekday_date weekend_date dt)
  from_pool weekday k d e = (
    All-get_elem? (IsEligible freeze last excluded weekday) pools.weekdays k d
        weekdays_are.pool_eligible e,
    All-get_elem? (λ x. x < weekday_date) pools.weekdays k d weekdays_are.pool_before e,
  )
  from_pool weekend k d e = (
    All-get_elem? (IsEligible freeze last excluded weekend) pools.weekends k d
        weekends_are.pool_eligible e,
    All-get_elem? (λ x. x < weekend_date) pools.weekends k d weekends_are.pool_before e,
  )

  slot-IsSession :
      (seed label : List ℕ) (dt : DayType) (d : ℕ)
      → IsEligible freeze last excluded dt d
      → d < reserve_of weekday_date weekend_date dt
      → IsSession lib freeze last excluded weekday_date weekend_date (slot lib seed label d)
  unfolding slot
  slot-IsSession seed label dt d h lt = record {
    date = d;
    date_is = refl;
    start_is = refl;
    date_eligible = record {
      after = h.after;
      up_to = h.up_to;
      allowed = h.allowed;
      of_type = refl;
    };
    before_reserve = subst (λ t. d < reserve_of weekday_date weekend_date t) (sym h.of_type) lt;
    cases_are = permutation-SameItems lib seed label cases;
  }

  pub drawn-IsSession :
      (seed taken : List ℕ) (s : Session)
      → IsDrawn lib seed pools taken s
      → IsSession lib freeze last excluded weekday_date weekend_date s
  drawn-IsSession seed taken s h =
      let (ok_date, lt) = from_pool h.label.day_type h.index h.date h.in_pool in
      subst (IsSession lib freeze last excluded weekday_date weekend_date) (sym h.is_slot)
        (slot-IsSession seed h.label.label h.label.day_type h.date ok_date lt)

-- A schedule of the first counter that draws sessions on dates of their own.
pub record Found (lib : Library) (i : ScheduleInput) (pools : Pools) (weekday_date weekend_date : ℕ)
    (s : PilotSchedule) : Type 0 where
  pub counter : ℕ
  pub sessions : List Session
  pub from_seed : derive lib (seed_at i.master_seed counter) pools ≡ some sessions
  pub schedule_is : s ≡ schedule_of lib i pools weekday_date weekend_date counter sessions

module _ (lib : Library) (i : ScheduleInput) (pools : Pools) (weekday_date weekend_date : ℕ) where
  take_first-Found :
      (o : Option (List Session)) (counter : ℕ) (rest : Result PlanError PilotSchedule)
      (s : PilotSchedule)
      → derive lib (seed_at i.master_seed counter) pools ≡ o
      → (rest ≡ ok s → Found lib i pools weekday_date weekend_date s)
      → take_first lib i pools weekday_date weekend_date o counter rest ≡ ok s
      → Found lib i pools weekday_date weekend_date s
  take_first-Found none counter rest s e later h = later h
  take_first-Found (some sessions) counter rest s e later h = record {
    counter = counter;
    sessions = sessions;
    from_seed = e;
    schedule_is = cc;
  }

  pub try_counters-Found :
      (rounds counter : ℕ) (s : PilotSchedule)
      → try_counters lib i pools weekday_date weekend_date rounds counter ≡ ok s
      → Found lib i pools weekday_date weekend_date s
  unfolding try_counters
  try_counters-Found zero counter s h = absurd (ground arith)
  try_counters-Found (suc rounds) counter s h =
      take_first-Found (derive lib (seed_at i.master_seed counter) pools) counter
        (try_counters lib i pools weekday_date weekend_date rounds (counter + 1)) s refl
        (try_counters-Found rounds (counter + 1) s) h

module _ (lib : Library) (seed : List ℕ) where
  pub orders-count : count 0 (orders lib seed 6) ≡ 3
  unfolding orders alternate
  orders-count = (shuffle-SameItems (order_draw lib seed) 5 (alternate 0 6)).as_often 0

  pub length-orders : length (orders lib seed 6) ≡ 6
  unfolding orders alternate
  length-orders = (shuffle-SameItems (order_draw lib seed) 5 (alternate 0 6)).as_long

keep_order :
    (lib : Library) (i : ScheduleInput) (freeze last : ℕ) (excluded : List ℕ)
    (weekday_date weekend_date : ℕ) (s : Session) (o : ℕ)
    → IsSession lib freeze last excluded weekday_date weekend_date s
    → IsSession lib freeze last excluded weekday_date weekend_date
        (record s { order = endpoints_in i o })
keep_order lib i freeze last excluded weekday_date weekend_date s o h = record {
  date = h.date;
  date_is = h.date_is;
  start_is = h.start_is;
  date_eligible = h.date_eligible;
  before_reserve = h.before_reserve;
  cases_are = h.cases_are;
}

-- The facts that the sorted sessions have, of those that a seed draws.
pub record Sorted (lib : Library) (i : ScheduleInput) (freeze last : ℕ) (excluded : List ℕ)
    (weekday_date weekend_date : ℕ) (sessions : List Session) : Type 0 where
  pub six : length sessions ≡ 6
  pub in_order : AllPairs Before sessions
  pub each : All (IsSession lib freeze last excluded weekday_date weekend_date) sessions
  pub half_first : count_led i.first_endpoint sessions ≡ 3
  pub half_second : count_led i.second_endpoint sessions ≡ 3

module _ (lib : Library) (i : ScheduleInput) (freeze last : ℕ) (excluded : List ℕ)
    (weekday_date weekend_date : ℕ) (differ : (i.first_endpoint == i.second_endpoint) ≡ false) where
  pub sorted :
      (os : List ℕ) (drawn : List Session)
      → length os ≡ 6
      → count 0 os ≡ 3
      → length drawn ≡ 6
      → AllPairs Apart drawn
      → All (IsSession lib freeze last excluded weekday_date weekend_date) drawn
      → Sorted lib i freeze last excluded weekday_date weekend_date
          (sort_by starts_before (set_orders i os drawn))
  sorted os drawn long half six all_apart each =
      let ordered = set_orders i os drawn in
      record {
        six = length-sort_by starts_before ordered ∙ length-set_orders i os drawn ∙ six;
        in_order = sort_by-Before ordered (set_orders-Apart i os drawn all_apart);
        each =
            All-sort_by starts_before (IsSession lib freeze last excluded weekday_date weekend_date)
              ordered
              (All-set_orders i (IsSession lib freeze last excluded weekday_date weekend_date)
                (keep_order lib i freeze last excluded weekday_date weekend_date) os drawn each);
        half_first =
            count_led-sort_by i.first_endpoint ordered
            ∙ count_led-first i differ os drawn (long ∙ sym six)
            ∙ half;
        half_second = omega (
          arith,
          count_led-sort_by i.second_endpoint ordered,
          count_led-second i differ os drawn (long ∙ sym six),
          long,
          half,
        );
      }
