-- ===== src/Schedule/Frame.antt =====
-- internal/schedule/schedule.go: `New`, the schedule that an input derives.
use percentes.Base.{
  ℕ, zero, suc, ◌+◌, ◌-◌, ◌*◌, Bool, not, ◌&&◌, ◌||◌, Option, some, List, [], ◌∷◌, ◌++◌, ◌==◌,
  nat_eq, bytes_eq, bool_eq, ltb, if◌then◌else◌, is_empty, bytes, length, get_elem?, Result, ok,
  err, ◌>>=◌, ◌>>◌, refuse_if,
}
use percentes.Base.Int.{pos, int_eq, ltb_ℤ}
use percentes.Admission.Decimal.{print_nat}
use percentes.Schedule.Types.{
  Library, Input, Offset, Attempt, Cell, Schedule, ScheduleError, empty_seed, no_routes,
  empty_route, same_route, too_many_routes, bad_ledger_hash, bad_ledger_position, counter_exhausted,
  offset_step, start_tolerance, cell_length, slot_length,
}
use percentes.Schedule.Window.{Pools, window}
use percentes.Schedule.Configs.{bytes_ltb, contains, has_twins, is_sha256, route_configs}
use percentes.Base.Sort.{sort_by}
use percentes.Schedule.Derive.{draw, derive}

-- The checks of the sorted routes.
unfoldable pub check_routes : List (List ℕ) → Result ScheduleError (Unit {0})
unfolding contains has_twins
check_routes routes = do
  refuse_if (is_empty routes) no_routes
  refuse_if (contains routes []) empty_route
  refuse_if (has_twins routes) same_route
  refuse_if (ltb slot_length ((length routes - 1) * offset_step + start_tolerance + cell_length))
      too_many_routes

-- The checks of the frozen ledger.
unfoldable pub check_ledger : Input → Result ScheduleError (Unit {0})
check_ledger i = do
  refuse_if (not (i.ledger_sha256 == []) && not (is_sha256 i.ledger_sha256)) bad_ledger_hash
  refuse_if (not (i.ledger_head_sha256 == []) && not (is_sha256 i.ledger_head_sha256))
      bad_ledger_hash
  refuse_if
      (ltb_ℤ i.ledger_lines (pos 0)
        || not ((i.ledger_lines == pos 0) == (i.ledger_head_sha256 == [])))
      bad_ledger_position
  refuse_if (ltb_ℤ (pos 0) i.ledger_lines && i.ledger_sha256 == []) bad_ledger_position

-- Attempts[0].SlotStart; a cell of derive has an attempt.
abbrev pub first_start : List Attempt → ℕ
first_start [] = 0
first_start (a ∷ as') = a.slot_start

abbrev pub starts_before : Cell → Cell → Bool
starts_before a b = ltb (first_start a.attempts) (first_start b.attempts)

-- The minutes before the shuffle, from the `i`-th of `n` on.
unfoldable pub spaced : ℕ → ℕ → List ℕ
spaced i zero = []
spaced i (suc n) = i * 10 ∷ spaced (i + 1) n

-- xs[i] = v
unfoldable pub set : List ℕ → ℕ → ℕ → List ℕ
set [] i v = []
set (x ∷ xs) zero v = v ∷ xs
set (x ∷ xs) (suc i) v = x ∷ set xs i v

-- xs[i], xs[j] = xs[j], xs[i]
abbrev pub swap_found : List ℕ → ℕ → ℕ → Option ℕ → Option ℕ → List ℕ
swap_found xs i j (some v) (some w) = set (set xs i w) j v
swap_found xs i j _ _ = xs

unfoldable pub swap : List ℕ → ℕ → ℕ → List ℕ
unfolding set
swap xs i j = swap_found xs i j (get_elem? xs i) (get_elem? xs j)

-- The loop of the shuffle from index `i` down to 1.
unfoldable pub shuffle : Library → List ℕ → ℕ → List ℕ → List ℕ
unfolding draw swap
shuffle lib seed zero xs = xs
shuffle lib seed (suc i) xs =
    let j = draw lib (seed ++ (bytes "offset/" ++ print_nat (suc i))) (suc i + 1) in
    shuffle lib seed i (swap xs (suc i) j)

abbrev pub zip_offsets : List (List ℕ) → List ℕ → List Offset
zip_offsets (r ∷ rs) (m ∷ ms) = record { route = r; minutes = m } ∷ zip_offsets rs ms
zip_offsets _ _ = []

unfoldable pub offsets_of : Library → List ℕ → List (List ℕ) → List Offset
unfolding shuffle spaced
offsets_of lib seed routes =
    zip_offsets routes (shuffle lib seed (length routes - 1) (spaced 0 (length routes)))

-- The master seed with the counter appended.
abbrev pub seed_at : List ℕ → ℕ → List ℕ
seed_at seed counter = if counter == 0 then seed else seed ++ print_nat counter

-- The loop over the counter, with `rounds` rounds left.
unfoldable pub try_counters : Library → Input → Pools → ℕ → ℕ → Result ScheduleError Schedule
unfolding derive offsets_of
try_counters lib i pools zero counter = err counter_exhausted
try_counters lib i pools (suc rounds) counter =
    let seed = seed_at i.master_seed counter in
    let rest = try_counters lib i pools rounds (counter + 1) in
    if (derive lib seed pools).1
    then ok (record {
      input = i;
      counter = counter;
      offsets = offsets_of lib seed i.routes;
      cells = sort_by starts_before (derive lib seed pools).0;
    })
    else rest

-- maxCounter and 0
abbrev pub counters : ℕ
counters = 10001

-- New
unfoldable pub new_schedule : Library → Input → Result ScheduleError Schedule
unfolding check_routes check_ledger window route_configs try_counters sort_by
new_schedule lib i = do
  refuse_if (i.master_seed == []) empty_seed
  let routes = sort_by bytes_ltb i.routes
  check_routes routes
  pools ← window lib i
  configs ← route_configs routes i.configs
  check_ledger i
  try_counters lib (record i { routes = routes; configs = configs }) pools counters 0
