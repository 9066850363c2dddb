-- ===== src/Schedule/Cells.antt =====
-- The slots of a schedule's cells lie apart, and on-time runs of different cells do not overlap.
use percentes.Base.{
  ℕ, zero, suc, ◌+◌, ◌*◌, ◌%◌, ◌≡◌, ◌≤◌, ◌⊎◌, refl, sym, ap, ◌∙◌, inl, inr, Bool, true, not, ◌&&◌,
  ◌||◌, Option, none, some, List, [], ◌∷◌, ◌==◌, nat_eq, bool_eq, bool_beq_iff, ◌≢◌, leb, length,
  get_elem?, All, arith, Bool-cases,
}
use percentes.Schedule.Types.{
  Library, DayType, weekday, weekend, is_weekend, Cell, Schedule, day, hour, slot_length,
  is_saturday, is_sunday,
}
use percentes.Schedule.Window.{Pools}
use percentes.Schedule.Derive.{labels, labels_of, derive, derive_cell, derive_cells, any_drawn}
use percentes.Schedule.Frame.{first_start, starts_before}
use percentes.Base.Sort.{sort_by}
use mathlib.Core.Path.{subst}
use percentes.Schedule.Dates.{IsSplit, IsDrawn, is_of, attempts_from, derive_cell-IsDrawn}
use percentes.Schedule.Order.{Apart, Before, begins, sort_by-Before}
use percentes.Base.Sort.{AllPairs, All-map, All-sort_by, length-sort_by}

-- The slots of `labels`: each four hours in a day, no two of one day type at one hour.
abbrev in_day : Cell → Bool
in_day c = leb c.slot_hour 20 && c.slot_hour % 4 == 0

abbrev other_slot : Cell → Cell → Bool
other_slot a b =
    not (is_weekend a.day_type == is_weekend b.day_type) || not (a.slot_hour == b.slot_hour)

abbrev all : (Cell → Bool) → List Cell → Bool
all p [] = true
all p (c ∷ cs) = p c && all p cs

abbrev all_slots : List Cell → Bool
all_slots [] = true
all_slots (c ∷ cs) = in_day c && (all (other_slot c) cs && all_slots cs)

all_slots-labels : all_slots labels ≡ true
unfolding labels_of
all_slots-labels = refl

twelve_labels : length labels ≡ 12
unfolding labels_of
twelve_labels = refl

first_start-attempts_from :
    (lib : Library) (seed : List ℕ) (c : Cell) (d : ℕ) (o : Option ℕ)
    → first_start (attempts_from lib seed c d o) ≡ d * day + c.slot_hour * hour
first_start-attempts_from lib seed c d none = refl
first_start-attempts_from lib seed c d (some e) = refl

begins-IsDrawn :
    {lib : Library} {seed : List ℕ} {pools : Pools} {c : Cell} (drawn : IsDrawn lib seed pools c)
    → begins c ≡ drawn.first_date * day + c.slot_hour * hour
begins-IsDrawn {lib} {seed} {pools} {c} drawn =
    ap first_start drawn.attempts_are ∙ first_start-attempts_from lib seed c drawn.first_date _

pub All-get_elem? {ℓ κ} :
    {A : Type ℓ} (P : A → Type κ) (xs : List A) (k : ℕ) (x : A)
    → All P xs
    → get_elem? xs k ≡ some x
    → P x
All-get_elem? P [] k x ps h = absurd (ground arith)
All-get_elem? P (y ∷ ys) zero x ps h = let e : y ≡ x = cc in subst P e ps.0
All-get_elem? P (y ∷ ys) (suc k) x ps h = All-get_elem? P ys k x ps.1 h

-- Dates of two day types differ.
is_of-differ :
    (s t : DayType) (d : ℕ) → is_of s d ≡ true → is_of t d ≡ true → is_weekend s ≡ is_weekend t
is_of-differ weekday weekday d p q = refl
is_of-differ weekday weekend d p q = ground arith
is_of-differ weekend weekday d p q = ground arith
is_of-differ weekend weekend d p q = refl

slots_apart :
    (a b h k : ℕ)
    → (h ≤ 20) × (h % 4 ≡ 0)
    → (k ≤ 20) × (k % 4 ≡ 0)
    → ((h ≢ k) ⊎ (a ≢ b))
    → (a * day + h * hour + slot_length ≤ b * day + k * hour)
      ⊎ (b * day + k * hour + slot_length ≤ a * day + h * hour)
slots_apart a b h k p q r = ground arith

-- A cell with its drawn attempts, in a slot of `labels`.
record IsSlot (lib : Library) (seed : List ℕ) (pools : Pools) (c : Cell) : Type 0 where
  drawn : IsDrawn lib seed pools c
  is_in_day : in_day c ≡ true

IsSlot-Apart :
    (lib : Library) (seed : List ℕ) (pools : Pools) (a b : Cell)
    → IsSplit pools
    → IsSlot lib seed pools a
    → IsSlot lib seed pools b
    → other_slot a b ≡ true
    → Apart a b
IsSlot-Apart lib seed pools a b split p q other =
    let of_a =
      All-get_elem? (λ d. is_of a.day_type d ≡ true) _ _ _ (split.of_type a.day_type)
        p.drawn.in_pool in
    let of_b =
      All-get_elem? (λ d. is_of b.day_type d ≡ true) _ _ _ (split.of_type b.day_type)
        q.drawn.in_pool in
    let same_type : p.drawn.first_date ≡ q.drawn.first_date
        → is_weekend a.day_type ≡ is_weekend b.day_type =
      λ e.
        is_of-differ a.day_type b.day_type q.drawn.first_date
          (subst (λ d. is_of a.day_type d ≡ true) e of_a) of_b in
    let e = begins-IsDrawn p.drawn in
    let f = begins-IsDrawn q.drawn in
    let differ : (a.slot_hour ≢ b.slot_hour) ⊎ (p.drawn.first_date ≢ q.drawn.first_date) =
      elim (Bool-cases (a.slot_hour == b.slot_hour)) [
        | inl g ↦ inr (λ k.
            ground
              (arith, same_type k, bool_beq_iff (is_weekend a.day_type) (is_weekend b.day_type)))
        | inr g ↦ inl (ground arith)
      ] in
    ground (
      arith,
      e,
      f,
      slots_apart p.drawn.first_date q.drawn.first_date a.slot_hour b.slot_hour (ground arith)
          (ground arith) differ,
    )

All-derive_cells :
    (lib : Library) (seed : List ℕ) (pools : Pools) (cs : List Cell)
    → IsSplit pools
    → all_slots cs ≡ true
    → All (IsSlot lib seed pools) (derive_cells lib seed pools cs)
unfolding derive_cells derive_cell
All-derive_cells lib seed pools [] split h = tt
All-derive_cells lib seed pools (c ∷ cs) split h = (
  record { drawn = derive_cell-IsDrawn lib seed pools c split; is_in_day = ground arith },
  All-derive_cells lib seed pools cs split (ground arith),
)

All-Apart :
    (lib : Library) (seed : List ℕ) (pools : Pools) (c : Cell) (cs : List Cell)
    → IsSplit pools
    → IsSlot lib seed pools (derive_cell lib seed pools c)
    → all (other_slot c) cs ≡ true
    → All (IsSlot lib seed pools) (derive_cells lib seed pools cs)
    → All (Apart (derive_cell lib seed pools c)) (derive_cells lib seed pools cs)
unfolding derive_cells derive_cell
All-Apart lib seed pools c [] split p h ps = tt
All-Apart lib seed pools c (d ∷ cs) split p h ps = (
  IsSlot-Apart lib seed pools _ _ split p ps.0 (ground arith),
  All-Apart lib seed pools c cs split p (ground arith) ps.1,
)

AllPairs-Apart :
    (lib : Library) (seed : List ℕ) (pools : Pools) (cs : List Cell)
    → IsSplit pools
    → all_slots cs ≡ true
    → AllPairs Apart (derive_cells lib seed pools cs)
unfolding derive_cells
AllPairs-Apart lib seed pools [] split h = tt
AllPairs-Apart lib seed pools (c ∷ cs) split h =
    let (p, ps) = All-derive_cells lib seed pools (c ∷ cs) split h in
    (
      All-Apart lib seed pools c cs split p (ground arith) ps,
      AllPairs-Apart lib seed pools cs split (ground arith),
    )

-- The cells of a schedule: twelve, each with its drawn dates, in the order of their first slots,
-- which do not overlap; a Saturday and a Sunday are among the drawn dates of the weekend slots.
pub record IsFrame (lib : Library) (s : Schedule) (seed : List ℕ) (pools : Pools) : Type 0 where
  pub twelve : length s.cells ≡ 12
  pub all_drawn : All (IsDrawn lib seed pools) s.cells
  pub in_order : AllPairs Before s.cells
  pub saturday : any_drawn is_saturday lib seed pools labels ≡ true
  pub sunday : any_drawn is_sunday lib seed pools labels ≡ true

length-derive_cells :
    (lib : Library) (seed : List ℕ) (pools : Pools) (cs : List Cell)
    → length (derive_cells lib seed pools cs) ≡ length cs
unfolding derive_cells
length-derive_cells lib seed pools [] = refl
length-derive_cells lib seed pools (c ∷ cs) = ap suc (length-derive_cells lib seed pools cs)

and_true : (a b : Bool) → (a && b) ≡ true → (a ≡ true) × (b ≡ true)
and_true a b h = ground arith

-- An accepted seed's cells, sorted.
pub derive-IsFrame :
    (lib : Library) (s : Schedule) (seed : List ℕ) (pools : Pools)
    → IsSplit pools
    → (derive lib seed pools).1 ≡ true
    → s.cells ≡ sort_by starts_before (derive lib seed pools).0
    → IsFrame lib s seed pools
unfolding derive
derive-IsFrame lib s seed pools split taken e =
    let cells = derive_cells lib seed pools labels in
    record {
      twelve =
          ap length e
          ∙ length-sort_by starts_before cells
          ∙ length-derive_cells lib seed pools labels
          ∙ twelve_labels;
      all_drawn = subst (All (IsDrawn lib seed pools)) (sym e) (
          All-sort_by starts_before (IsDrawn lib seed pools) cells (
            All-map (IsSlot lib seed pools) (IsDrawn lib seed pools) (λ c p. p.drawn) cells
              (All-derive_cells lib seed pools labels split all_slots-labels)));
      in_order =
          subst (AllPairs Before) (sym e)
            (sort_by-Before cells (AllPairs-Apart lib seed pools labels split all_slots-labels));
      saturday =
          (and_true (any_drawn is_saturday lib seed pools labels)
            (any_drawn is_sunday lib seed pools labels) taken).0;
      sunday =
          (and_true (any_drawn is_saturday lib seed pools labels)
            (any_drawn is_sunday lib seed pools labels) taken).1;
    }
