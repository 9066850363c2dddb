-- ===== src/Pilot/Planned.antt =====
-- What a pilot schedule holds: its dates, its order and its reserves.
use percentes.Base.{
  ℕ, zero, suc, ◌+◌, ◌-◌, ◌≡◌, ◌≢◌, ◌<◌, ◌≤◌, refl, ap, inl, inr, Bool, true, false, Option, none,
  some, List, [], ◌∷◌, ◌++◌, nat_eq, bytes_eq, length, arith, All, Bool-cases, ltb, ok, >>=-eq-ok,
  refuse_if, or_fail,
}
use mathlib.Core.Path.{subst}
use percentes.Base.Sort.{AllPairs, All-map}
use percentes.Schedule.Types.{DayType}
use percentes.Schedule.Window.{day_type_of, dates_of}
use percentes.Schedule.Dates.{All-dates_of}
use percentes.Pilot.Slots.{sessions_per_day_type, is_taken}
use percentes.Pilot.Plan.{PlanError, put_last, split_last, pool_and_reserve, too_few_dates}

-- A date after the freeze, up to the last one, that is not excluded, and of its day type.
pub record IsEligible (freeze last : ℕ) (excluded : List ℕ) (dt : DayType) (d : ℕ) : Type 0 where
  pub after : freeze < d
  pub up_to : d ≤ last
  pub allowed : is_taken d excluded ≡ false
  pub of_type : day_type_of d ≡ dt

dates_of_range : (p : ℕ → Bool) (n d : ℕ) → All (λ x. (d ≤ x) × (x < d + n)) (dates_of p n d)
unfolding dates_of
dates_of_range p zero d = tt
dates_of_range p (suc n) d =
    let later =
      All-map (λ x. (d + 1 ≤ x) × (x < d + 1 + n)) (λ x. (d ≤ x) × (x < d + suc n))
        (λ x r. (omega (arith, r.0), omega (arith, r.1))) (dates_of p n (d + 1))
        (dates_of_range p n (d + 1)) in
    elim (Bool-cases (p d)) [
      | inl e ↦ rw e ((omega arith, omega arith), later)
      | inr e ↦ rw e later
    ]

All-both :
    {A : Type 0} (P Q : A → Type 0) (xs : List A) → All P xs → All Q xs → All (λ x. P x × Q x) xs
All-both P Q [] h k = tt
All-both P Q (x ∷ xs) h k = ((h.0, k.0), All-both P Q xs h.1 k.1)

ascending : (p : ℕ → Bool) (n d : ℕ) → AllPairs ◌<◌ (dates_of p n d)
unfolding dates_of
ascending p zero d = tt
ascending p (suc n) d = elim (Bool-cases (p d)) [
  | inl e ↦ rw e (
    All-map (λ x. (d + 1 ≤ x) × (x < d + 1 + n)) (λ x. d < x) (λ x r. omega (arith, r.0)) _
        (dates_of_range p n (d + 1)),
    ascending p n (d + 1),
  )
  | inr e ↦ rw e (ascending p n (d + 1))
]

put_last-some : (d : ℕ) (o : Option (List ℕ × ℕ)) → put_last d o ≢ none
put_last-some d none h = ground arith
put_last-some d (some (pool, reserve)) h = ground arith

split_last-none : (ds : List ℕ) → split_last ds ≡ none → ds ≡ []
unfolding split_last
split_last-none [] h = refl
split_last-none (d ∷ ds) h = absurd (put_last-some d (split_last ds) h)

put_last-parts :
    (d : ℕ) (ds : List ℕ) (o : Option (List ℕ × ℕ)) (pool : List ℕ) (reserve : ℕ)
    → (o ≡ none → ds ≡ [])
    → ((pool' : List ℕ) (reserve' : ℕ) → o ≡ some (pool', reserve') → ds ≡ pool' ++ reserve' ∷ [])
    → put_last d o ≡ some (pool, reserve)
    → d ∷ ds ≡ pool ++ reserve ∷ []
put_last-parts d ds none pool reserve nil cons h =
    let e : pool ≡ [] = ground arith in
    let f : reserve ≡ d = ground arith in rw (e, f) (ap (λ x. d ∷ x) (nil refl))
put_last-parts d ds (some (pool', reserve')) pool reserve nil cons h =
    let e : pool ≡ d ∷ pool' = ground arith in
    let f : reserve ≡ reserve' = ground arith in
    rw (e, f) (ap (λ x. d ∷ x) (cons pool' reserve' refl))

-- A pool and the reserve that was taken off its end.
split_last-append :
    (ds pool : List ℕ) (reserve : ℕ)
    → split_last ds ≡ some (pool, reserve)
    → ds ≡ pool ++ reserve ∷ []
unfolding split_last
split_last-append [] pool reserve h = absurd (ground arith)
split_last-append (d ∷ ds) pool reserve h =
    put_last-parts d ds (split_last ds) pool reserve (split_last-none ds)
      (λ pool' reserve' e. split_last-append ds pool' reserve' e) h

All-append-left :
    {A : Type 0} (P : A → Type 0) (xs ys : List A) → All P (xs ++ ys) → All P xs × All P ys
All-append-left P [] ys h = (tt, h)
All-append-left P (x ∷ xs) ys h = let (l, r) = All-append-left P xs ys h.1 in ((h.0, l), r)

below_last :
    (pool : List ℕ) (reserve : ℕ)
    → AllPairs ◌<◌ (pool ++ reserve ∷ [])
    → All (λ d. d < reserve) pool
below_last [] reserve h = tt
below_last (d ∷ pool) reserve h =
    ((All-append-left (λ e. d < e) pool (reserve ∷ []) h.0).1.0, below_last pool reserve h.1)

-- A pool of a day type and its reserve: the pool's dates are eligible and before the reserve, which is
-- eligible too.
pub record IsPool (freeze last : ℕ) (excluded : List ℕ) (dt : DayType) (pool : List ℕ) (reserve : ℕ)
    : Type 0 where
  pub pool_eligible : All (IsEligible freeze last excluded dt) pool
  pub reserve_eligible : IsEligible freeze last excluded dt reserve
  pub pool_before : All (λ d. d < reserve) pool

pub or_fail-ok :
    {A : Type 0} (e : PlanError) {v : A} (o : Option A) → or_fail o e ≡ ok v → o ≡ some v
or_fail-ok e none h = absurd (ground arith)
or_fail-ok e (some a) h = ground arith

pool_and_reserve-split :
    (ds pool : List ℕ) (reserve : ℕ)
    → pool_and_reserve ds ≡ ok (pool, reserve)
    → split_last ds ≡ some (pool, reserve)
unfolding pool_and_reserve
pool_and_reserve-split ds pool reserve h =
    let (u, enough, h1) =
      >>=-eq-ok (refuse_if (ltb (length ds) (sessions_per_day_type + 1)) too_few_dates) _ h in
    or_fail-ok too_few_dates (split_last ds) h1

pub eligible-IsPool :
    (freeze last : ℕ) (excluded : List ℕ) (dt : DayType) (p : ℕ → Bool) (pool : List ℕ)
    (reserve : ℕ)
    → ((d : ℕ) → p d ≡ true → (is_taken d excluded ≡ false) × (day_type_of d ≡ dt))
    → freeze < last
    → pool_and_reserve (dates_of p (last - freeze) (freeze + 1)) ≡ ok (pool, reserve)
    → IsPool freeze last excluded dt pool reserve
eligible-IsPool freeze last excluded dt p pool reserve test lt h =
    let ds = dates_of p (last - freeze) (freeze + 1) in
    let whole = split_last-append ds pool reserve (pool_and_reserve-split ds pool reserve h) in
    let each =
      All-map (λ d. (p d ≡ true) × ((freeze + 1 ≤ d) × (d < freeze + 1 + (last - freeze))))
        (IsEligible freeze last excluded dt)
        (λ d k. record {
          after = omega (arith, k.1.0);
          up_to = omega (arith, k.1.1, lt);
          allowed = (test d k.0).0;
          of_type = (test d k.0).1;
        })
        ds
        (All-both (λ d. p d ≡ true) (λ d. (freeze + 1 ≤ d) × (d < freeze + 1 + (last - freeze))) ds
          (All-dates_of p (last - freeze) (freeze + 1))
          (dates_of_range p (last - freeze) (freeze + 1))) in
    let (in_pool, in_reserve) =
      All-append-left (IsEligible freeze last excluded dt) pool (reserve ∷ [])
        (subst (All (IsEligible freeze last excluded dt)) whole each) in
    record {
      pool_eligible = in_pool;
      reserve_eligible = in_reserve.0;
      pool_before =
          below_last pool reserve
            (subst (AllPairs ◌<◌) whole (ascending p (last - freeze) (freeze + 1)));
    }
