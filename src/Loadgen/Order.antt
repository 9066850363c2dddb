-- ===== src/Loadgen/Order.antt =====
-- Order statistics of sorted skews: how many may lie above one of them.
use percentes.Base.{
  ℕ, zero, suc, ◌+◌, ◌-◌, ◌*◌, ◌/◌, ◌≡◌, ◌≤◌, ◌<◌, refl, sym, ap, ◌∙◌, inl, inr, true, false, List,
  [], ◌∷◌, if◌then◌else◌, length, All, arith, Bool-cases,
}
use percentes.Base.Int.{ℤ, ltb_ℤ, leb_ℤ}
use percentes.Base.Sort.{put_before, sort_by, InOrder, sort_by-InOrder, length-sort_by}
use percentes.Loadgen.Gates.{item_at, p99_of, max_of}

ltb_ℤ_asym : (a b : ℤ) → ltb_ℤ a b ≡ true → ltb_ℤ b a ≡ false
ltb_ℤ_asym a b h = ground arith

ltb_ℤ_trans : (a b c : ℤ) → ltb_ℤ b a ≡ false → ltb_ℤ c b ≡ false → ltb_ℤ c a ≡ false
ltb_ℤ_trans a b c h k = ground arith

-- How many numbers are above a limit.
abbrev pub above : ℤ → List ℤ → ℕ
above limit [] = 0
above limit (x ∷ xs) = (if ltb_ℤ limit x then 1 else 0) + above limit xs

above-put_before :
    (limit x : ℤ) (xs : List ℤ) → above limit (put_before ltb_ℤ x xs) ≡ above limit (x ∷ xs)
unfolding put_before
above-put_before limit x [] = refl
above-put_before limit x (y ∷ ys) = elim (Bool-cases (ltb_ℤ y x)) [
  | inl q ↦ rw q (omega (arith, above-put_before limit x ys))
  | inr q ↦ rw q refl
]

above-sort_by : (limit : ℤ) (xs : List ℤ) → above limit (sort_by ltb_ℤ xs) ≡ above limit xs
unfolding sort_by
above-sort_by limit [] = refl
above-sort_by limit (x ∷ xs) =
    omega (arith, above-put_before limit x (sort_by ltb_ℤ xs), above-sort_by limit xs)

above_bound : (limit : ℤ) (xs : List ℤ) → above limit xs ≤ length xs
above_bound limit [] = omega arith
above_bound limit (x ∷ xs) = ground (arith, above_bound limit xs)

All-item_at :
    (x : ℤ) (xs : List ℤ) (k : ℕ)
    → All (λ y. ltb_ℤ y x ≡ false) xs
    → k < length xs
    → ltb_ℤ (item_at xs k) x ≡ false
All-item_at x [] k ps lt = absurd (omega (arith, lt))
All-item_at x (y ∷ ys) zero ps lt = ps.0
All-item_at x (y ∷ ys) (suc k) ps lt = All-item_at x ys k ps.1 (omega (arith, lt))

-- If the item at an index is not above the limit, only later ones can be.
InOrder-above :
    (limit : ℤ) (xs : List ℤ) (k : ℕ)
    → InOrder ltb_ℤ xs
    → k < length xs
    → leb_ℤ (item_at xs k) limit ≡ true
    → above limit xs + (k + 1) ≤ length xs
InOrder-above limit [] k ord lt h = absurd (omega (arith, lt))
InOrder-above limit (x ∷ xs) zero ord lt h = ground (arith, above_bound limit xs)
InOrder-above limit (x ∷ xs) (suc k) ord lt h = ground (
  arith,
  InOrder-above limit xs k ord.1 (omega (arith, lt)) h,
  All-item_at x xs k ord.0 (omega (arith, lt)),
)

-- The number above a limit that the item at an index of the sorted list keeps.
sorted-above :
    (limit : ℤ) (xs : List ℤ) (k : ℕ)
    → k < length xs
    → leb_ℤ (item_at (sort_by ltb_ℤ xs) k) limit ≡ true
    → above limit xs + (k + 1) ≤ length xs
sorted-above limit xs k lt h =
    let same = length-sort_by ltb_ℤ xs in
    omega (
      arith,
      above-sort_by limit xs,
      same,
      InOrder-above limit (sort_by ltb_ℤ xs) k (sort_by-InOrder ltb_ℤ ltb_ℤ_asym ltb_ℤ_trans xs)
          (omega (arith, lt, same)) h,
    )

pub p99_of-above :
    (limit : ℤ) (xs : List ℤ)
    → leb_ℤ (p99_of (sort_by ltb_ℤ xs)) limit ≡ true
    → above limit xs * 100 ≤ length xs
unfolding p99_of
p99_of-above limit [] h = omega arith
p99_of-above limit (x ∷ xs) h =
    let same = length-sort_by ltb_ℤ (x ∷ xs) in
    let k = (length (x ∷ xs) * 99 + 99) / 100 - 1 in
    let here : leb_ℤ (item_at (sort_by ltb_ℤ (x ∷ xs)) k) limit ≡ true =
      ap (λ n. leb_ℤ (item_at (sort_by ltb_ℤ (x ∷ xs)) ((n * 99 + 99) / 100 - 1)) limit) (sym same)
      ∙ h in
    omega (arith, sorted-above limit (x ∷ xs) k (omega arith) here)

pub max_of-above :
    (limit : ℤ) (xs : List ℤ) → leb_ℤ (max_of (sort_by ltb_ℤ xs)) limit ≡ true → above limit xs ≡ 0
unfolding max_of
max_of-above limit [] h = refl
max_of-above limit (x ∷ xs) h =
    let same = length-sort_by ltb_ℤ (x ∷ xs) in
    let here : leb_ℤ (item_at (sort_by ltb_ℤ (x ∷ xs)) (length (x ∷ xs) - 1)) limit ≡ true =
      ap (λ n. leb_ℤ (item_at (sort_by ltb_ℤ (x ∷ xs)) (n - 1)) limit) (sym same) ∙ h in
    omega (arith, sorted-above limit (x ∷ xs) (length (x ∷ xs) - 1) (omega arith) here)
