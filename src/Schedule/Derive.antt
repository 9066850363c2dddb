-- ===== src/Schedule/Derive.antt =====
-- internal/schedule/schedule.go: `draw`, `runSeed` and `derive`, the cells that a seed draws.
use percentes.Base.{
  ℕ, ◌+◌, ◌*◌, ◌%◌, ◌^◌, Bool, false, ◌&&◌, ◌||◌, List, [], ◌∷◌, ◌++◌, nat_eq, ltb, if◌then◌else◌,
  bytes, length, take, drop,
}
use percentes.Admission.Decimal.{print_nat, print_padded}
use percentes.Schedule.Types.{
  Library, DayType, weekday, weekend, is_weekend, Attempt, Cell, day, hour, is_saturday, is_sunday,
}
use percentes.Schedule.Window.{Pools, pool_of}

-- A big-endian unsigned integer.
unfoldable pub big_endian : ℕ → List ℕ → ℕ
big_endian n [] = n
big_endian n (b ∷ bs) = big_endian (n * 256 + b) bs

-- draw
unfoldable pub draw : Library → List ℕ → ℕ → ℕ
unfolding big_endian
draw lib key n = big_endian 0 (lib.sha256 key) % n

abbrev pub run_seed_suffix : List ℕ
run_seed_suffix = bytes "/run-seed"

-- runSeed
unfoldable pub run_seed : Library → List ℕ → List ℕ → ℕ → ℕ
unfolding big_endian
run_seed lib seed label attempt =
    big_endian 0 (take 8 (lib.sha256 (seed ++ (label ++ (print_nat attempt ++ run_seed_suffix)))))
    % 2 ^ 63

abbrev pub slot_hours : List ℕ
slot_hours = 0 ∷ 4 ∷ 8 ∷ 12 ∷ 16 ∷ 20 ∷ []

abbrev pub day_type_name : DayType → List ℕ
day_type_name weekday = bytes "weekday"
day_type_name weekend = bytes "weekend"

-- labels, of one day type and some slots.
unfoldable pub labels_of : DayType → List ℕ → List Cell
unfolding print_padded
labels_of dt [] = []
labels_of dt (h ∷ hs) =
    record {
      label = day_type_name dt ++ (b'-' ∷ print_padded 2 h);
      day_type = dt;
      slot_hour = h;
      attempts = [];
    }
    ∷ labels_of dt hs

abbrev pub labels : List Cell
labels = labels_of weekday slot_hours ++ labels_of weekend slot_hours

-- The inner loop of derive: attempts from number `n` on at the dates from the drawn one on; at most
-- MaxAttempts, which is 2.
unfoldable pub attempts_at : Library → List ℕ → Cell → ℕ → List ℕ → List Attempt
unfolding run_seed
attempts_at lib seed c n [] = []
attempts_at lib seed c n (d ∷ ds) =
    if ltb 2 n
    then []
    else record {
      attempt = n;
      date = lib.format_date d;
      slot_start = d * day + c.slot_hour * hour;
      seed = run_seed lib seed c.label n;
    }
      ∷ attempts_at lib seed c (n + 1) ds

-- The index drawn for a cell.
unfoldable pub drawn : Library → List ℕ → Pools → Cell → ℕ
unfolding draw
drawn lib seed pools c = draw lib (seed ++ c.label) (length (pool_of pools c.day_type))

-- The round of derive's loop on one label.
unfoldable pub derive_cell : Library → List ℕ → Pools → Cell → Cell
unfolding drawn attempts_at
derive_cell lib seed pools c = record c {
  attempts = attempts_at lib seed c 1 (drop (drawn lib seed pools c) (pool_of pools c.day_type));
}

-- weekend[...] = true: the drawn date passes a test, for a weekend cell.
unfoldable pub drawn_is : (ℕ → Bool) → Library → List ℕ → Pools → Cell → Bool
drawn_is p lib seed pools c =
    is_weekend c.day_type
    && elim (drop (drawn lib seed pools c) (pool_of pools c.day_type)) [ [] ↦ false | d ∷ ds ↦ p d ]

unfoldable pub any_drawn : (ℕ → Bool) → Library → List ℕ → Pools → List Cell → Bool
unfolding drawn_is
any_drawn p lib seed pools [] = false
any_drawn p lib seed pools (c ∷ cs) = drawn_is p lib seed pools c || any_drawn p lib seed pools cs

unfoldable pub derive_cells : Library → List ℕ → Pools → List Cell → List Cell
unfolding derive_cell
derive_cells lib seed pools [] = []
derive_cells lib seed pools (c ∷ cs) = derive_cell lib seed pools c ∷ derive_cells lib seed pools cs

-- derive
unfoldable pub derive : Library → List ℕ → Pools → List Cell × Bool
unfolding derive_cells any_drawn labels_of
derive lib seed pools = (
  derive_cells lib seed pools labels,
  any_drawn is_saturday lib seed pools labels && any_drawn is_sunday lib seed pools labels,
)
