-- ===== src/Base/Sort.antt =====
-- Sorting, as slices.Sort, SortFunc and sort.Slice do it on items that are alike where they are equal.
use percentes.Base.Tests.{if◌then◌else◌, Bool-cases}
use percentes.Base.Lists.{length, All}
use Prim.Native.Nat.{suc}
use mathlib.Core.Path.{◌≡◌, refl, ap, ◌∙◌}
use mathlib.Core.Logic.{inl, inr}
use mathlib.Core.Bool.{Bool, true, false}
use mathlib.Core.List.{List, [], ◌∷◌}

-- Insertion before the first item that is not lower.
module _ {ℓ} {A : Type ℓ} (lower : A → A → Bool) where
  unfoldable pub put_before : A → List A → List A
  put_before x [] = x ∷ []
  put_before x (y ∷ ys) = let rest = put_before x ys in if lower y x then y ∷ rest else x ∷ y ∷ ys

  unfoldable pub sort_by : List A → List A
  unfolding put_before
  sort_by [] = []
  sort_by (x ∷ xs) = put_before x (sort_by xs)

module _ {ℓ} {A : Type ℓ} (lower : A → A → Bool) where
  pub All-put_before {κ} :
      (P : A → Type κ) (x : A) (xs : List A) → P x → All P xs → All P (put_before lower x xs)
  unfolding put_before
  All-put_before P x [] p ps = (p, tt)
  All-put_before P x (y ∷ ys) p ps = elim (Bool-cases (lower y x)) [
    | inl q ↦ rw q (ps.0, All-put_before P x ys p ps.1)
    | inr q ↦ rw q (p, ps)
  ]

  pub All-sort_by {κ} : (P : A → Type κ) (xs : List A) → All P xs → All P (sort_by lower xs)
  unfolding sort_by
  All-sort_by P [] ps = tt
  All-sort_by P (x ∷ xs) ps = All-put_before P x _ ps.0 (All-sort_by P xs ps.1)

  length-put_before : (x : A) (xs : List A) → length (put_before lower x xs) ≡ suc (length xs)
  unfolding put_before
  length-put_before x [] = refl
  length-put_before x (y ∷ ys) = elim (Bool-cases (lower y x)) [
    | inl q ↦ rw q (ap suc (length-put_before x ys))
    | inr q ↦ rw q refl
  ]

  pub length-sort_by : (xs : List A) → length (sort_by lower xs) ≡ length xs
  unfolding sort_by
  length-sort_by [] = refl
  length-sort_by (x ∷ xs) = length-put_before x (sort_by lower xs) ∙ ap suc (length-sort_by xs)

-- A relation between each item and all that follow it.
abbrev pub AllPairs {ℓ κ} : {A : Type ℓ} → (A → A → Type κ) → List A → Type κ
AllPairs R [] = Unit
AllPairs R (x ∷ xs) = All (R x) xs × AllPairs R xs

pub All-map {ℓ κ μ} :
    {A : Type ℓ} (P : A → Type κ) (Q : A → Type μ)
    → ((a : A) → P a → Q a)
    → (xs : List A) → All P xs
    → All Q xs
All-map P Q f [] ps = tt
All-map P Q f (x ∷ xs) ps = (f x ps.0, All-map P Q f xs ps.1)

module _ {ℓ} {A : Type ℓ} (lower : A → A → Bool) where
  -- No later item is lower.
  abbrev pub InOrder : List A → Type 0
  InOrder = AllPairs (λ x y. lower y x ≡ false)

  sort_by-InOrder_same : (xs : List A) → InOrder xs → sort_by lower xs ≡ xs
  unfolding sort_by put_before
  sort_by-InOrder_same [] h = refl
  sort_by-InOrder_same (x ∷ []) h = refl
  sort_by-InOrder_same (x ∷ y ∷ xs) h =
      ap (put_before lower x) (sort_by-InOrder_same (y ∷ xs) h.1) ∙ rw h.0.0 refl

  module _ (asym : (x y : A) → lower x y ≡ true → lower y x ≡ false)
      (trans : (x y z : A) → lower y x ≡ false → lower z y ≡ false → lower z x ≡ false) where
    put_before-InOrder : (x : A) (xs : List A) → InOrder xs → InOrder (put_before lower x xs)
    unfolding put_before
    put_before-InOrder x [] h = (tt, tt)
    put_before-InOrder x (y ∷ ys) h = elim (Bool-cases (lower y x)) [
      | inl q ↦ rw q (
        All-put_before lower (λ z. lower z y ≡ false) x ys (asym y x q) h.0,
        put_before-InOrder x ys h.1,
      )
      | inr q ↦ rw q (
        (q, All-map (λ z. lower z y ≡ false) (λ z. lower z x ≡ false) (λ z. trans x y z q) ys h.0),
        h,
      )
    ]

    pub sort_by-InOrder : (xs : List A) → InOrder (sort_by lower xs)
    unfolding sort_by
    sort_by-InOrder [] = tt
    sort_by-InOrder (x ∷ xs) = put_before-InOrder x _ (sort_by-InOrder xs)

    pub sort_by_twice : (xs : List A) → sort_by lower (sort_by lower xs) ≡ sort_by lower xs
    sort_by_twice xs = sort_by-InOrder_same _ (sort_by-InOrder xs)
