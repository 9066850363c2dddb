-- ===== src/Schedule/Shuffle.antt =====
-- The offsets of a schedule: the shuffle only moves them.
use percentes.Base.{
  ℕ, zero, suc, ◌+◌, ◌-◌, ◌*◌, ◌≡◌, ◌≤◌, ◌<◌, refl, ap, ◌∙◌, Option, none, some, List, [], ◌∷◌,
  ◌==◌, nat_eq, if◌then◌else◌, length, get_elem?, arith,
}
use percentes.Schedule.Types.{Library, Offset}
use percentes.Schedule.Frame.{spaced, set, swap, swap_found, shuffle, zip_offsets, offsets_of}

-- How often a number stands in a list.
abbrev pub count : ℕ → List ℕ → ℕ
count a [] = 0
count a (x ∷ xs) = (if x == a then 1 else 0) + count a xs

get_elem?-set_same :
    (xs : List ℕ) (i j w : ℕ) → get_elem? xs j ≡ some w → get_elem? (set xs i w) j ≡ some w
unfolding set
get_elem?-set_same [] i j w h = h
get_elem?-set_same (x ∷ xs) zero zero w h = refl
get_elem?-set_same (x ∷ xs) zero (suc j) w h = h
get_elem?-set_same (x ∷ xs) (suc i) zero w h = h
get_elem?-set_same (x ∷ xs) (suc i) (suc j) w h = get_elem?-set_same xs i j w h

count-set :
    (xs : List ℕ) (i v w a : ℕ)
    → get_elem? xs i ≡ some v
    → count a (set xs i w) + (if v == a then 1 else 0) ≡ count a xs + (if w == a then 1 else 0)
unfolding set
count-set [] i v w a h = absurd (ground arith)
count-set (x ∷ xs) zero v w a h = ground arith
count-set (x ∷ xs) (suc i) v w a h = omega (arith, count-set xs i v w a h)

length-set : (xs : List ℕ) (i v : ℕ) → length (set xs i v) ≡ length xs
unfolding set
length-set [] i v = refl
length-set (x ∷ xs) zero v = refl
length-set (x ∷ xs) (suc i) v = ap suc (length-set xs i v)

-- Two lists of one length hold the same numbers, each as often.
pub record SameItems (xs ys : List ℕ) : Type 0 where
  pub as_often : (a : ℕ) → count a xs ≡ count a ys
  pub as_long : length xs ≡ length ys

swap_found-SameItems :
    (xs : List ℕ) (i j : ℕ) (v w : Option ℕ)
    → get_elem? xs i ≡ v
    → get_elem? xs j ≡ w
    → SameItems (swap_found xs i j v w) xs
swap_found-SameItems xs i j none w p q = record { as_often = λ a. refl; as_long = refl }
swap_found-SameItems xs i j (some v) none p q = record { as_often = λ a. refl; as_long = refl }
swap_found-SameItems xs i j (some v) (some w) p q = record {
  as_often = λ a. omega (
    arith,
    count-set xs i v w a p,
    count-set (set xs i w) j w v a (get_elem?-set_same xs i j w q),
  );
  as_long = length-set (set xs i w) j v ∙ length-set xs i w;
}

pub swap-SameItems : (xs : List ℕ) (i j : ℕ) → SameItems (swap xs i j) xs
unfolding swap
swap-SameItems xs i j = swap_found-SameItems xs i j (get_elem? xs i) (get_elem? xs j) refl refl

pub SameItems-trans : {xs ys zs : List ℕ} → SameItems xs ys → SameItems ys zs → SameItems xs zs
SameItems-trans p q = record {
  as_often = λ a. p.as_often a ∙ q.as_often a;
  as_long = p.as_long ∙ q.as_long;
}

shuffle-SameItems :
    (lib : Library) (seed : List ℕ) (i : ℕ) (xs : List ℕ) → SameItems (shuffle lib seed i xs) xs
unfolding shuffle
shuffle-SameItems lib seed zero xs = record { as_often = λ a. refl; as_long = refl }
shuffle-SameItems lib seed (suc i) xs =
    SameItems-trans (shuffle-SameItems lib seed i _) (swap-SameItems xs (suc i) _)

abbrev pub minutes_of : List Offset → List ℕ
minutes_of [] = []
minutes_of (o ∷ os) = o.minutes ∷ minutes_of os

abbrev pub routes_of : List Offset → List (List ℕ)
routes_of [] = []
routes_of (o ∷ os) = o.route ∷ routes_of os

routes_of-zip_offsets :
    (rs : List (List ℕ)) (ms : List ℕ)
    → length ms ≡ length rs
    → (routes_of (zip_offsets rs ms) ≡ rs) × (minutes_of (zip_offsets rs ms) ≡ ms)
routes_of-zip_offsets [] [] h = (refl, refl)
routes_of-zip_offsets [] (m ∷ ms) h = absurd (omega (arith, h))
routes_of-zip_offsets (r ∷ rs) [] h = absurd (omega (arith, h))
routes_of-zip_offsets (r ∷ rs) (m ∷ ms) h =
    let (p, q) = routes_of-zip_offsets rs ms (omega (arith, h)) in
    (ap (λ x. r ∷ x) p, ap (λ x. m ∷ x) q)

length-spaced : (i n : ℕ) → length (spaced i n) ≡ n
unfolding spaced
length-spaced i zero = refl
length-spaced i (suc n) = ap suc (length-spaced (i + 1) n)

-- Each route has one offset, in the order of the routes, and the offsets are 0, 10, 20 and so on.
pub record IsSpaced (routes : List (List ℕ)) (os : List Offset) : Type 0 where
  pub each_route : routes_of os ≡ routes
  pub spread : SameItems (minutes_of os) (spaced 0 (length routes))

pub offsets_of-IsSpaced :
    (lib : Library) (seed : List ℕ) (routes : List (List ℕ))
    → IsSpaced routes (offsets_of lib seed routes)
unfolding offsets_of
offsets_of-IsSpaced lib seed routes =
    let same = shuffle-SameItems lib seed (length routes - 1) (spaced 0 (length routes)) in
    let (p, q) = routes_of-zip_offsets routes _ (same.as_long ∙ length-spaced 0 (length routes)) in
    record {
      each_route = p;
      spread = record {
        as_often = λ a. ap (count a) q ∙ same.as_often a;
        as_long = ap length q ∙ same.as_long;
      };
    }

count-spaced_below : (a i n : ℕ) → a < i * 10 → count a (spaced i n) ≡ 0
unfolding spaced
count-spaced_below a i zero h = refl
count-spaced_below a i (suc n) h = ground (arith, count-spaced_below a (i + 1) n)

count-spaced : (a i n : ℕ) → count a (spaced i n) ≤ 1
unfolding spaced
count-spaced a i zero = omega arith
count-spaced a i (suc n) = ground (arith, count-spaced a (i + 1) n, count-spaced_below a (i + 1) n)

-- No two routes have one offset.
pub IsSpaced-distinct :
    (routes : List (List ℕ)) (os : List Offset) (m : ℕ)
    → IsSpaced routes os
    → count m (minutes_of os) ≤ 1
IsSpaced-distinct routes os m h =
    omega (arith, h.spread.as_often m, count-spaced m 0 (length routes))

elem-spaced_bound : (i n j m : ℕ) → get_elem? (spaced i n) j ≡ some m → m + 10 ≤ (i + n) * 10
unfolding spaced
elem-spaced_bound i zero j m h = absurd (ground arith)
elem-spaced_bound i (suc n) zero m h = ground arith
elem-spaced_bound i (suc n) (suc j) m h = omega (arith, elem-spaced_bound (i + 1) n j m h)
