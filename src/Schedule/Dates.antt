-- ===== src/Schedule/Dates.antt =====
-- The dates that `window` gives: each on its day type, and some of both.
use percentes.Base.{
  ℕ, zero, suc, ◌+◌, ◌-◌, ◌*◌, ◌≡◌, ◌<◌, refl, sym, ap, ◌∙◌, inl, inr, Bool, true, false, not, ◌||◌,
  Option, none, some, List, [], ◌∷◌, ◌++◌, nat_eq, ltb, is_empty, length, drop, get_elem?, All,
  arith, Bool-cases, ok, >>=-eq-ok, ◌>>◌, refuse_if, or_fail,
}
use mathlib.Core.Path.{subst}
use percentes.Schedule.Types.{
  Library, DayType, weekday, weekend, Input, Attempt, Cell, bad_date, last_before_first,
  window_too_long, missing_day_type, max_window_days, is_saturday, is_sunday, day, hour,
}
use percentes.Schedule.Window.{Pools, pool_of, dates_of, is_weekend_day, pools_of, has_day, window}
use percentes.Schedule.Derive.{draw, run_seed, attempts_at, drawn, derive_cell}

pub All-dates_of : (p : ℕ → Bool) (n d : ℕ) → All (λ x. p x ≡ true) (dates_of p n d)
unfolding dates_of
All-dates_of p zero d = tt
All-dates_of p (suc n) d = elim (Bool-cases (p d)) [
  | inl q ↦ rw q (q, All-dates_of p n (d + 1))
  | inr q ↦ rw q (All-dates_of p n (d + 1))
]

-- Whether a date is of a day type.
abbrev pub is_of : DayType → ℕ → Bool
is_of weekday d = not (is_weekend_day d)
is_of weekend d = is_weekend_day d

-- Each pool has a date, and only dates of its day type.
pub record IsSplit (pools : Pools) : Type 0 where
  pub of_type : (t : DayType) → All (λ d. is_of t d ≡ true) (pool_of pools t)
  pub has_date : (t : DayType) → 0 < length (pool_of pools t)

is_empty-length {ℓ} : {A : Type ℓ} (xs : List A) → is_empty xs ≡ false → 0 < length xs
is_empty-length [] h = absurd (ground arith)
is_empty-length (x ∷ xs) h = omega arith

has_day-length : (p : ℕ → Bool) (ds : List ℕ) → has_day p ds ≡ true → 0 < length ds
unfolding has_day
has_day-length p [] h = absurd (ground arith)
has_day-length p (d ∷ ds) h = omega arith

of_type-pools_of : (n d : ℕ) (t : DayType) → All (λ x. is_of t x ≡ true) (pool_of (pools_of n d) t)
unfolding pools_of
of_type-pools_of n d weekday = All-dates_of (λ x. not (is_weekend_day x)) n d
of_type-pools_of n d weekend = All-dates_of is_weekend_day n d

has_date-pools_of :
    (n d : ℕ)
    → is_empty (pools_of n d).weekdays ≡ false
    → has_day is_saturday (pools_of n d).weekends ≡ true
    → (t : DayType) → 0 < length (pool_of (pools_of n d) t)
has_date-pools_of n d some_day saturday weekday = is_empty-length _ some_day
has_date-pools_of n d some_day saturday weekend = has_day-length is_saturday _ saturday

-- The last step of window.
checked-IsSplit :
    (n d : ℕ) (pools : Pools)
    → (refuse_if
          (is_empty (pools_of n d).weekdays
            || (not (has_day is_saturday (pools_of n d).weekends)
                || not (has_day is_sunday (pools_of n d).weekends)))
          missing_day_type
        >> ok (pools_of n d))
      ≡ ok pools
    → IsSplit pools
checked-IsSplit n d pools h =
    let e : is_empty (pools_of n d).weekdays ≡ false = ground arith in
    let f : has_day is_saturday (pools_of n d).weekends ≡ true = ground arith in
    let g : pools_of n d ≡ pools = ground arith in
    subst IsSplit g
      (record { of_type = of_type-pools_of n d; has_date = has_date-pools_of n d e f })

pub window-IsSplit :
    (lib : Library) (i : Input) (pools : Pools) → window lib i ≡ ok pools → IsSplit pools
unfolding window
window-IsSplit lib i pools h =
    let (first, e0, h0) = >>=-eq-ok (or_fail (lib.parse_date i.first) bad_date) _ h in
    let (last, e1, h1) = >>=-eq-ok (or_fail (lib.parse_date i.last) bad_date) _ h0 in
    let (_, e2, h2) = >>=-eq-ok (refuse_if (ltb last first) last_before_first) _ h1 in
    let (_, e3, h3) =
      >>=-eq-ok (refuse_if (ltb max_window_days (last - first + 1)) window_too_long) _ h2 in
    checked-IsSplit (last - first + 1) first pools h3

draw_bound : (lib : Library) (key : List ℕ) (n : ℕ) → 0 < n → draw lib key n < n
unfolding draw
draw_bound lib key n h = omega (arith, h)

-- The attempt with a number on a date.
abbrev pub attempt_on : Library → List ℕ → Cell → ℕ → ℕ → Attempt
attempt_on lib seed c n d = record {
  attempt = n;
  date = lib.format_date d;
  slot_start = d * day + c.slot_hour * hour;
  seed = run_seed lib seed c.label n;
}

-- A first attempt, and a second one where there is a later date.
abbrev pub attempts_from : Library → List ℕ → Cell → ℕ → Option ℕ → List Attempt
attempts_from lib seed c d none = attempt_on lib seed c 1 d ∷ []
attempts_from lib seed c d (some e) = attempt_on lib seed c 1 d ∷ attempt_on lib seed c 2 e ∷ []

abbrev head? : List ℕ → Option ℕ
head? [] = none
head? (x ∷ xs) = some x

attempts_at-attempts_from :
    (lib : Library) (seed : List ℕ) (c : Cell) (d : ℕ) (ds : List ℕ)
    → attempts_at lib seed c 1 (d ∷ ds) ≡ attempts_from lib seed c d (head? ds)
unfolding attempts_at
attempts_at-attempts_from lib seed c d [] = refl
attempts_at-attempts_from lib seed c d (e ∷ []) = refl
attempts_at-attempts_from lib seed c d (e ∷ f ∷ ds) = refl

drop-get_elem? :
    (xs : List ℕ) (k : ℕ)
    → k < length xs
    → (d : ℕ) × (ds : List ℕ) × (drop k xs ≡ d ∷ ds)
      × (get_elem? xs k ≡ some d)
      × (get_elem? xs (suc k) ≡ head? ds)
drop-get_elem? [] k h = absurd (omega (arith, h))
drop-get_elem? (x ∷ []) zero h = (x, [], refl, refl, refl)
drop-get_elem? (x ∷ y ∷ xs) zero h = (x, y ∷ xs, refl, refl, refl)
drop-get_elem? (x ∷ xs) (suc k) h = drop-get_elem? xs k (omega (arith, h))

-- A cell's first attempt is on a date of the pool of its day type, and its second one on the next
-- date of that pool, where there is one.
pub record IsDrawn (lib : Library) (seed : List ℕ) (pools : Pools) (c : Cell) : Type 0 where
  pub index : ℕ
  pub first_date : ℕ
  pub in_pool : get_elem? (pool_of pools c.day_type) index ≡ some first_date
  pub attempts_are :
      c.attempts
      ≡ attempts_from lib seed c first_date (get_elem? (pool_of pools c.day_type) (suc index))

pub derive_cell-IsDrawn :
    (lib : Library) (seed : List ℕ) (pools : Pools) (c : Cell)
    → IsSplit pools
    → IsDrawn lib seed pools (derive_cell lib seed pools c)
unfolding derive_cell drawn
derive_cell-IsDrawn lib seed pools c split =
    let low = draw_bound lib (seed ++ c.label) _ (split.has_date c.day_type) in
    let (d, ds, e, f, g) = drop-get_elem? (pool_of pools c.day_type) _ low in
    record {
      index = draw lib (seed ++ c.label) (length (pool_of pools c.day_type));
      first_date = d;
      in_pool = f;
      attempts_are =
          ap (attempts_at lib seed c 1) e
          ∙ attempts_at-attempts_from lib seed c d ds
          ∙ ap (attempts_from lib seed c d) (sym g);
    }
