-- ===== src/Stream/Covering.antt =====
-- When an entry of a list of headers is covered by another, and what is recorded of a header.
use percentes.Base.{
  ℕ, ◌≡◌, ◌↔◌, refl, sym, ap, ◌∙◌, inl, inr, Bool, true, false, not, ◌&&◌, ◌||◌, Option, none, some,
  List, [], ◌∷◌, ◌++◌, ◌==◌, nat_eq, arith, Bool-cases, ==_refl, append-nil,
}
use percentes.Stream.Headers.{
  fold, equal_fold, cut_star, begins_with, header_match, header_covers, match_cut, covers_cut,
}

-- A name begins with a text, in any case.
abbrev folds : List ℕ → List ℕ → Bool
folds [] name = true
folds (c ∷ p) [] = false
folds (c ∷ p) (d ∷ name) = (fold d == fold c) && folds p name

begins_with-folds : (p name : List ℕ) → begins_with p name ≡ folds p name
unfolding equal_fold
begins_with-folds [] name = ground arith
begins_with-folds (c ∷ p) [] = ground arith
begins_with-folds (c ∷ p) (d ∷ name) = ground (arith, begins_with-folds p name)

and_parts : (a b : Bool) → (a && b) ≡ true → (a ≡ true) × (b ≡ true)
and_parts true b h = (refl, h)
and_parts false b h = cc

and_both : {a b : Bool} → a ≡ true → b ≡ true → (a && b) ≡ true
and_both h k = rw (h, k) refl

same_trans : (a b c : ℕ) → (a == b) ≡ true → (b == c) ≡ true → (a == c) ≡ true
same_trans a b c h k = ground arith

same_back : (a b c : ℕ) → (b == a) ≡ true → (b == c) ≡ true → (c == a) ≡ true
same_back a b c h k = ground arith

equal_fold_refl : (s : List ℕ) → equal_fold s s ≡ true
unfolding equal_fold
equal_fold_refl [] = refl
equal_fold_refl (c ∷ s) = ground (arith, equal_fold_refl s)

equal_fold_trans :
    (r s t : List ℕ) → equal_fold r s ≡ true → equal_fold s t ≡ true → equal_fold r t ≡ true
unfolding equal_fold
equal_fold_trans [] [] t h k = k
equal_fold_trans [] (d ∷ s) t h k = absurd (ground arith)
equal_fold_trans (c ∷ r) [] t h k = absurd (ground arith)
equal_fold_trans (c ∷ r) (d ∷ s) [] h k = k
equal_fold_trans (c ∷ r) (d ∷ s) (e ∷ t) h k =
    let (h1, h2) = and_parts (fold c == fold d) (equal_fold r s) h in
    let (k1, k2) = and_parts (fold d == fold e) (equal_fold s t) k in
    and_both (same_trans (fold c) (fold d) (fold e) h1 k1) (equal_fold_trans r s t h2 k2)

folds_refl : (p rest : List ℕ) → folds p (p ++ rest) ≡ true
folds_refl [] rest = refl
folds_refl (c ∷ p) rest = and_both (==_refl (fold c)) (folds_refl p rest)

folds_trans : (p q name : List ℕ) → folds p q ≡ true → folds q name ≡ true → folds p name ≡ true
folds_trans [] q name h k = refl
folds_trans (c ∷ p) [] name h k = absurd (ground arith)
folds_trans (c ∷ p) (d ∷ q) [] h k = k
folds_trans (c ∷ p) (d ∷ q) (e ∷ name) h k =
    let (h1, h2) = and_parts (fold d == fold c) (folds p q) h in
    let (k1, k2) = and_parts (fold e == fold d) (folds q name) k in
    and_both (same_trans (fold e) (fold d) (fold c) k1 h1) (folds_trans p q name h2 k2)

folds-equal_fold :
    (p q name : List ℕ) → folds p q ≡ true → equal_fold q name ≡ true → folds p name ≡ true
unfolding equal_fold
folds-equal_fold [] q name h k = refl
folds-equal_fold (c ∷ p) [] name h k = absurd (ground arith)
folds-equal_fold (c ∷ p) (d ∷ q) [] h k = k
folds-equal_fold (c ∷ p) (d ∷ q) (e ∷ name) h k =
    let (h1, h2) = and_parts (fold d == fold c) (folds p q) h in
    let (k1, k2) = and_parts (fold d == fold e) (equal_fold q name) k in
    and_both (same_back (fold c) (fold d) (fold e) h1 k1) (folds-equal_fold p q name h2 k2)

-- One byte more is another name.
equal_fold-longer :
    (s t : List ℕ) (c : ℕ) → equal_fold s t ≡ true → equal_fold s (t ++ c ∷ []) ≡ false
unfolding equal_fold
equal_fold-longer [] [] c h = refl
equal_fold-longer [] (d ∷ t) c h = refl
equal_fold-longer (b ∷ s) [] c h = absurd (ground arith)
equal_fold-longer (b ∷ s) (d ∷ t) c h =
    let (h1, h2) = and_parts (fold b == fold d) (equal_fold s t) h in
    rw (h1, equal_fold-longer s t c h2) refl

covers_cut_sound :
    (i j : Option (List ℕ)) (a entry name : List ℕ)
    → covers_cut i j a entry ≡ true
    → match_cut j entry name ≡ true
    → match_cut i a name ≡ true
covers_cut_sound (some p) (some q) a entry name h k =
    begins_with-folds p name
    ∙ folds_trans p q name (sym (begins_with-folds p q) ∙ h) (sym (begins_with-folds q name) ∙ k)
covers_cut_sound (some p) none a entry name h k =
    begins_with-folds p name ∙ folds-equal_fold p entry name (sym (begins_with-folds p entry) ∙ h) k
covers_cut_sound none (some q) a entry name h k = absurd (ground arith)
covers_cut_sound none none a entry name h k = equal_fold_trans a entry name h k

begins_with_refl : (q : List ℕ) → begins_with q (q ++ []) ≡ true
begins_with_refl q = begins_with-folds q (q ++ []) ∙ folds_refl q []

covers_cut_complete :
    (i j : Option (List ℕ)) (a entry : List ℕ)
    → covers_cut i j a entry ≡ false
    → (name : List ℕ) × (match_cut j entry name ≡ true) × (match_cut i a name ≡ false)
covers_cut_complete (some p) (some q) a entry h =
    (q, ap (begins_with q) (sym (append-nil q)) ∙ begins_with_refl q, h)
covers_cut_complete (some p) none a entry h = (entry, equal_fold_refl entry, h)
covers_cut_complete none (some q) a entry h = elim (Bool-cases (equal_fold a q)) [
  | inl same ↦ (
    q ++ b'x' ∷ [],
    begins_with-folds q (q ++ b'x' ∷ []) ∙ folds_refl q (b'x' ∷ []),
    equal_fold-longer a q b'x' same,
  )
  | inr other ↦ (q, ap (begins_with q) (sym (append-nil q)) ∙ begins_with_refl q, other)
]
covers_cut_complete none none a entry h = (entry, equal_fold_refl entry, h)

header_covers_sound :
    (a entry name : List ℕ)
    → header_covers a entry ≡ true
    → (not (header_match entry name) || header_match a name) ≡ true
unfolding header_covers header_match
header_covers_sound a entry name h = elim (Bool-cases (header_match entry name)) [
  | inl k ↦ rw (covers_cut_sound (cut_star a) (cut_star entry) a entry name h k) (ground arith)
  | inr k ↦ rw k refl
]

-- An allowlist entry covers another exactly when it matches every name that the other matches.
pub header_covers_iff :
    (a entry : List ℕ)
    → (header_covers a entry ≡ true)
      ↔ ((name : List ℕ) → (not (header_match entry name) || header_match a name) ≡ true)
unfolding header_covers header_match
header_covers_iff a entry = (
  λ h name. header_covers_sound a entry name h,
  λ all. elim (Bool-cases (header_covers a entry)) [
    | inl h ↦ h
    | inr h ↦
        let (name, in_entry, not_in) =
          covers_cut_complete (cut_star a) (cut_star entry) a entry h in
        let included = all name in absurd (ground arith)
  ],
)
