-- ===== src/Pilot/Ordered.antt =====
-- The sessions of a schedule in the order of their starts, each with its order of the endpoints.
use percentes.Base.{
  ℕ, suc, ◌+◌, ◌≡◌, refl, ap, ◌∙◌, inl, inr, Bool, true, false, not, List, [], ◌∷◌, ◌==◌, nat_eq,
  bytes_eq, bytes_beq_iff, ==_refl, length, arith, All, Bool-cases, if◌then◌else◌,
}
use percentes.Base.Sort.{AllPairs, All-map, put_before, sort_by, All-put_before, All-sort_by}
use percentes.Schedule.Shuffle.{count}
use percentes.Pilot.Slots.{Session}
use percentes.Pilot.Plan.{ScheduleInput, starts_before, set_orders, endpoints_in}

abbrev pub Apart : Session → Session → Type 0
Apart a b = (b.start == a.start) ≡ false

abbrev pub Before : Session → Session → Type 0
Before a b = starts_before a b ≡ true

Before-trans : (a b c : Session) → Before a b → Before b c → Before a c
Before-trans a b c h k = ground arith

put_before-Before :
    (x : Session) (ys : List Session)
    → All (Apart x) ys
    → AllPairs Before ys
    → AllPairs Before (put_before starts_before x ys)
unfolding put_before
put_before-Before x [] h k = (tt, tt)
put_before-Before x (y ∷ ys) h k = elim (Bool-cases (starts_before y x)) [
  | inl q ↦
      rw q (All-put_before starts_before (Before y) x ys q k.0, put_before-Before x ys h.1 k.1)
  | inr q ↦
      let first : Before x y = ground (arith, h.0) in
      rw q ((first, All-map (Before y) (Before x) (λ z. Before-trans x y z first) ys k.0), k)
]

pub sort_by-Before :
    (xs : List Session) → AllPairs Apart xs → AllPairs Before (sort_by starts_before xs)
unfolding sort_by
sort_by-Before [] h = tt
sort_by-Before (x ∷ xs) h =
    put_before-Before x (sort_by starts_before xs) (All-sort_by starts_before (Apart x) xs h.0)
      (sort_by-Before xs h.1)

module _ (i : ScheduleInput) where
  -- What does not hang on the order stays.
  pub All-set_orders :
      (P : Session → Type 0)
      → ((s : Session) (o : ℕ) → P s → P (record s { order = endpoints_in i o }))
      → (os : List ℕ) (sessions : List Session) → All P sessions
      → All P (set_orders i os sessions)
  unfolding set_orders
  All-set_orders P keep [] sessions h = h
  All-set_orders P keep (o ∷ os) [] h = tt
  All-set_orders P keep (o ∷ os) (s ∷ sessions) h =
      (keep s o h.0, All-set_orders P keep os sessions h.1)

  pub set_orders-Apart :
      (os : List ℕ) (sessions : List Session)
      → AllPairs Apart sessions
      → AllPairs Apart (set_orders i os sessions)
  unfolding set_orders
  set_orders-Apart [] sessions h = h
  set_orders-Apart (o ∷ os) [] h = tt
  set_orders-Apart (o ∷ os) (s ∷ sessions) h =
      (All-set_orders (Apart s) (λ t o k. k) os sessions h.0, set_orders-Apart os sessions h.1)

  pub length-set_orders :
      (os : List ℕ) (sessions : List Session) → length (set_orders i os sessions) ≡ length sessions
  unfolding set_orders
  length-set_orders [] sessions = refl
  length-set_orders (o ∷ os) [] = refl
  length-set_orders (o ∷ os) (s ∷ sessions) = ap suc (length-set_orders os sessions)

-- How many sessions ask an endpoint first.
abbrev leads : List ℕ → List (List ℕ) → Bool
leads name [] = false
leads name (e ∷ order) = e == name

abbrev pub count_led : List ℕ → List Session → ℕ
count_led name [] = 0
count_led name (s ∷ sessions) = (if leads name s.order then 1 else 0) + count_led name sessions

count_led-put_before :
    (name : List ℕ) (x : Session) (ys : List Session)
    → count_led name (put_before starts_before x ys) ≡ count_led name (x ∷ ys)
unfolding put_before
count_led-put_before name x [] = refl
count_led-put_before name x (y ∷ ys) = elim (Bool-cases (starts_before y x)) [
  | inl q ↦ rw q (omega (arith, count_led-put_before name x ys))
  | inr q ↦ rw q refl
]

pub count_led-sort_by :
    (name : List ℕ) (xs : List Session)
    → count_led name (sort_by starts_before xs) ≡ count_led name xs
unfolding sort_by
count_led-sort_by name [] = refl
count_led-sort_by name (x ∷ xs) =
    count_led-put_before name x (sort_by starts_before xs)
    ∙ ap (λ n. (if leads name x.order then 1 else 0) + n) (count_led-sort_by name xs)

leads-first :
    (b : Bool) (a c : List ℕ)
    → (a == c) ≡ false
    → leads a (if b then a ∷ c ∷ [] else c ∷ a ∷ []) ≡ b
leads-first true a c h = ==_refl a
leads-first false a c h = ground (arith, bytes_beq_iff a c, bytes_beq_iff c a)

leads-second :
    (b : Bool) (a c : List ℕ)
    → (a == c) ≡ false
    → leads c (if b then a ∷ c ∷ [] else c ∷ a ∷ []) ≡ not b
leads-second true a c h = h
leads-second false a c h = ==_refl c

module _ (i : ScheduleInput) (differ : (i.first_endpoint == i.second_endpoint) ≡ false) where
  first_leads : (o : ℕ) → leads i.first_endpoint (endpoints_in i o) ≡ (o == 0)
  first_leads o = leads-first (o == 0) i.first_endpoint i.second_endpoint differ

  pub count_led-first :
      (os : List ℕ) (sessions : List Session)
      → length os ≡ length sessions
      → count_led i.first_endpoint (set_orders i os sessions) ≡ count 0 os
  unfolding set_orders
  count_led-first [] [] h = refl
  count_led-first [] (s ∷ sessions) h = absurd (omega (arith, h))
  count_led-first (o ∷ os) [] h = absurd (omega (arith, h))
  count_led-first (o ∷ os) (s ∷ sessions) h =
      let ih = count_led-first os sessions (omega (arith, h)) in
      ap
        (λ (b : Bool). (if b then 1 else 0) + count_led i.first_endpoint (set_orders i os sessions))
        (first_leads o)
      ∙ ap (λ n. (if o == 0 then 1 else 0) + n) ih

  second_leads : (o : ℕ) → leads i.second_endpoint (endpoints_in i o) ≡ not (o == 0)
  second_leads o = leads-second (o == 0) i.first_endpoint i.second_endpoint differ

  pub count_led-second :
      (os : List ℕ) (sessions : List Session)
      → length os ≡ length sessions
      → count_led i.second_endpoint (set_orders i os sessions) + count 0 os ≡ length os
  unfolding set_orders
  count_led-second [] [] h = refl
  count_led-second [] (s ∷ sessions) h = absurd (omega (arith, h))
  count_led-second (o ∷ os) [] h = absurd (omega (arith, h))
  count_led-second (o ∷ os) (s ∷ sessions) h =
      let ih = count_led-second os sessions (omega (arith, h)) in
      rw (second_leads o) (ground (arith, ih))
