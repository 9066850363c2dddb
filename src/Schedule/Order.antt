-- ===== src/Schedule/Order.antt =====
-- Sorting puts cells that lie apart in order.
use percentes.Base.{ℕ, ◌+◌, ◌≤◌, ◌⊎◌, inl, inr, List, [], ◌∷◌, All, arith, Bool-cases}
use percentes.Schedule.Types.{Cell, slot_length}
use percentes.Base.Sort.{put_before, sort_by, All-put_before, All-sort_by, AllPairs, All-map}
use percentes.Schedule.Frame.{first_start, starts_before}

-- The instant at which a cell's first slot begins.
abbrev pub begins : Cell → ℕ
begins c = first_start c.attempts

-- The slots of two cells' first attempts do not overlap.
abbrev pub Apart : Cell → Cell → Type 0
Apart a b = (begins a + slot_length ≤ begins b) ⊎ (begins b + slot_length ≤ begins a)

abbrev pub Before : Cell → Cell → Type 0
Before a b = begins a + slot_length ≤ begins b

put_before-Before :
    (x : Cell) (xs : List Cell)
    → All (Apart x) xs
    → AllPairs Before xs
    → AllPairs Before (put_before starts_before x xs)
unfolding put_before
put_before-Before x [] far ps = (tt, tt)
put_before-Before x (y ∷ ys) far ps = elim (Bool-cases (starts_before y x)) [
  | inl q ↦ rw q (
    All-put_before starts_before (Before y) x ys (ground (arith, far.0)) ps.0,
    put_before-Before x ys far.1 ps.1,
  )
  | inr q ↦
      let first : Before x y = ground (arith, far.0) in
      rw q ((first, All-map (Before y) (Before x) (λ c p. omega (arith, p, first)) ys ps.0), ps)
]

pub sort_by-Before :
    (xs : List Cell) → AllPairs Apart xs → AllPairs Before (sort_by starts_before xs)
unfolding sort_by
sort_by-Before [] far = tt
sort_by-Before (x ∷ xs) far =
    put_before-Before x _ (All-sort_by starts_before (Apart x) xs far.0) (sort_by-Before xs far.1)
