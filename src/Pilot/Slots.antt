-- ===== src/Pilot/Slots.antt =====
-- internal/pilot/schedule.go: the draws, and the sessions that a seed draws. Dates and instants are as
-- in the schedule of an edition: a day number, and nanoseconds.
use percentes.Base.{
  ℕ, zero, suc, ◌+◌, ◌*◌, ◌%◌, Bool, true, false, ◌||◌, Option, none, some, List, [], ◌∷◌, ◌++◌,
  ◌==◌, nat_eq, bytes, length, get_elem?,
}
use percentes.Admission.Decimal.{print_nat}
use percentes.Schedule.Types.{Library, DayType, weekday, weekend, day, hour}
use percentes.Schedule.Window.{Pools, pool_of, day_type_of}
use percentes.Schedule.Derive.{big_endian, day_type_name}
use percentes.Schedule.Frame.{swap}

pub record Session : Type 0 where
  pub label : List ℕ
  pub day_type : DayType
  pub date : List ℕ
  pub start : ℕ
  pub order : List (List ℕ)
  pub permutation : List ℕ

-- A label and its day type.
pub record SessionLabel : Type 0 where
  pub label : List ℕ
  pub day_type : DayType

-- The labels of one day type, numbered from `i` on.
unfoldable pub labels_from : DayType → ℕ → ℕ → List SessionLabel
labels_from dt i zero = []
labels_from dt i (suc n) =
    record { label = day_type_name dt ++ (b'-' ∷ print_nat i); day_type = dt }
    ∷ labels_from dt (i + 1) n

-- SessionsPerDayType
abbrev pub sessions_per_day_type : ℕ
sessions_per_day_type = 3

unfoldable pub session_labels : List SessionLabel
unfolding labels_from
session_labels =
    labels_from weekday 1 sessions_per_day_type ++ labels_from weekend 1 sessions_per_day_type

-- MeasuredPerLabel for each of the four labels of a ticket.
abbrev pub cases : ℕ
cases = 120

-- SlotHourUTC
abbrev pub slot_hour : ℕ
slot_hour = 20

-- draw
unfoldable pub draw : Library → List ℕ → ℕ → ℕ
unfolding big_endian
draw lib key n = big_endian 0 (lib.sha256 key) % n

-- The loops that swap position `i` with a drawn one, from `i` down to 1; the draw is given the position.
unfoldable pub shuffle : (ℕ → ℕ) → ℕ → List ℕ → List ℕ
unfolding swap
shuffle at zero p = p
shuffle at (suc i) p = shuffle at i (swap p (suc i) (at (suc i)))

-- The numbers from `i` on, `n` of them.
unfoldable pub numbers : ℕ → ℕ → List ℕ
numbers i zero = []
numbers i (suc n) = i ∷ numbers (i + 1) n

-- permutation, of one number at least.
unfoldable pub permutation : Library → List ℕ → List ℕ → ℕ → List ℕ
unfolding draw shuffle numbers
permutation lib seed label zero = []
permutation lib seed label (suc n) =
    shuffle (λ i. draw lib (seed ++ (label ++ (bytes "/case/" ++ print_nat i))) (i + 1)) n
      (numbers 0 (suc n))

-- slot
unfoldable pub slot : Library → List ℕ → List ℕ → ℕ → Session
unfolding permutation
slot lib seed label d = record {
  label = label;
  day_type = day_type_of d;
  date = lib.format_date d;
  start = d * day + slot_hour * hour;
  order = [];
  permutation = permutation lib seed label cases;
}

-- taken[d]
unfoldable pub is_taken : ℕ → List ℕ → Bool
is_taken d [] = false
is_taken d (e ∷ taken) = e == d || is_taken d taken

-- The loop of derive over the labels; `none` where it is not ok. The drawn index is in range, as no pool
-- is empty.
module _ (lib : Library) (seed : List ℕ) (pools : Pools) where
  unfoldable pub drawn_date : SessionLabel → Option ℕ
  unfolding draw
  drawn_date c =
      let pool = pool_of pools c.day_type in
      get_elem? pool (draw lib (seed ++ c.label) (length pool))

  abbrev pub put_session : Option (List Session) → Session → Option (List Session)
  put_session none s = none
  put_session (some rest) s = some (s ∷ rest)

  abbrev pub unless : Bool → Option (List Session) → Option (List Session)
  unless true rest = none
  unless false rest = rest

  -- The round on a label's drawn date, given the rounds after it.
  abbrev pub on_date :
      List ℕ → SessionLabel → Option ℕ → (ℕ → Option (List Session)) → Option (List Session)
  on_date taken c none rest = none
  on_date taken c (some d) rest =
      unless (is_taken d taken) (put_session (rest d) (slot lib seed c.label d))

  unfoldable pub derive_from : List ℕ → List SessionLabel → Option (List Session)
  unfolding drawn_date is_taken slot
  derive_from taken [] = some []
  derive_from taken (c ∷ labels) =
      on_date taken c (drawn_date c) (λ d. derive_from (d ∷ taken) labels)

  -- derive
  unfoldable pub derive : Option (List Session)
  unfolding derive_from session_labels
  derive = derive_from [] session_labels
