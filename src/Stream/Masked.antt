-- ===== src/Stream/Masked.antt =====
-- internal/loadgen/sse_client.go: which bytes of a body masking leaves, and which places it masks.
use percentes.Base.{
  ℕ, zero, suc, ◌+◌, ◌-◌, ◌≡◌, ◌<◌, ◌≤◌, refl, ap, ◌∙◌, ◌⊎◌, inl, inr, Bool, true, false, some,
  List, [], ◌∷◌, nat_eq, if◌then◌else◌, arith, length, drop, get_elem?, leb, Bool-cases,
}
use percentes.Stream.Secrets.{starts_with, mask_from, mask, mask_all, asterisk}

-- Byte by byte, the same or an asterisk.
abbrev pub Covers : List ℕ → List ℕ → Type 0
Covers [] [] = Unit
Covers [] (c ∷ b) = ⊥
Covers (c ∷ b) [] = ⊥
Covers (c ∷ b) (m ∷ masked) = ((m ≡ asterisk) ⊎ (m ≡ c)) × Covers b masked

covered :
    (found : Bool) (c : ℕ)
    → ((if found then asterisk else c) ≡ asterisk) ⊎ ((if found then asterisk else c) ≡ c)
covered true c = inl refl
covered false c = inr refl

Covers-refl : (b : List ℕ) → Covers b b
Covers-refl [] = tt
Covers-refl (c ∷ b) = (inr refl, Covers-refl b)

mask_from-Covers : (s : List ℕ) (n : ℕ) (b : List ℕ) → Covers b (mask_from s n b)
unfolding mask_from
mask_from-Covers s n [] = tt
mask_from-Covers s (suc k) (c ∷ b) = (inl refl, mask_from-Covers s k b)
mask_from-Covers s zero (c ∷ b) = (
  covered (starts_with s (c ∷ b)) c,
  mask_from-Covers s (if starts_with s (c ∷ b) then length s - 1 else 0) b,
)

mask-Covers : (s b : List ℕ) → Covers b (mask s b)
unfolding mask
mask-Covers [] b = Covers-refl b
mask-Covers (c ∷ s) b = mask_from-Covers (c ∷ s) 0 b

one_covered :
    {m n c : ℕ} → (m ≡ asterisk) ⊎ (m ≡ c) → (n ≡ asterisk) ⊎ (n ≡ m) → (n ≡ asterisk) ⊎ (n ≡ c)
one_covered h (inl e) = inl e
one_covered (inl p) (inr e) = inl (e ∙ p)
one_covered (inr p) (inr e) = inr (e ∙ p)

Covers-trans : (a b c : List ℕ) → Covers a b → Covers b c → Covers a c
Covers-trans [] [] [] h k = tt
Covers-trans [] [] (z ∷ c) h k = k
Covers-trans [] (y ∷ b) c h k = absurd h
Covers-trans (x ∷ a) [] c h k = absurd h
Covers-trans (x ∷ a) (y ∷ b) [] h k = k
Covers-trans (x ∷ a) (y ∷ b) (z ∷ c) h k = (one_covered h.0 k.0, Covers-trans a b c h.1 k.1)

pub mask_all-Covers : (secrets : List (List ℕ)) (b : List ℕ) → Covers b (mask_all secrets b)
unfolding mask_all
mask_all-Covers [] b = Covers-refl b
mask_all-Covers (s ∷ secrets) b =
    Covers-trans b (mask s b) (mask_all secrets (mask s b)) (mask-Covers s b)
      (mask_all-Covers secrets (mask s b))

pub Covers-length : (a b : List ℕ) → Covers a b → length b ≡ length a
Covers-length [] [] h = refl
Covers-length [] (y ∷ b) h = absurd h
Covers-length (x ∷ a) [] h = absurd h
Covers-length (x ∷ a) (y ∷ b) h = ap suc (Covers-length a b h.1)

Covers-drop : (i : ℕ) (a b : List ℕ) → Covers a b → Covers (drop i a) (drop i b)
Covers-drop zero a b h = h
Covers-drop (suc i) [] [] h = tt
Covers-drop (suc i) [] (y ∷ b) h = absurd h
Covers-drop (suc i) (x ∷ a) [] h = absurd h
Covers-drop (suc i) (x ∷ a) (y ∷ b) h = Covers-drop i a b h.1

-- An asterisk stays one.
pub Covers-asterisk :
    (j : ℕ) (a b : List ℕ)
    → Covers a b
    → get_elem? a j ≡ some asterisk
    → get_elem? b j ≡ some asterisk
Covers-asterisk j [] b h e = absurd (ground arith)
Covers-asterisk j (x ∷ a) [] h e = absurd h
Covers-asterisk zero (x ∷ a) (y ∷ b) (inl p, h) e = ap some p
Covers-asterisk zero (x ∷ a) (y ∷ b) (inr p, h) e = ap some p ∙ e
Covers-asterisk (suc j) (x ∷ a) (y ∷ b) h e = Covers-asterisk j a b h.1 e

-- The `n` bytes from `j` on are asterisks.
abbrev pub IsMasked : ℕ → ℕ → List ℕ → Type 0
IsMasked j n b = (t : ℕ) → j ≤ t → t < j + n → get_elem? b t ≡ some asterisk

-- A byte at `i` of a masked body is of a place where `s` occurs in the body, and all that place is masked.
pub record InPlace (s b masked : List ℕ) (i : ℕ) : Type 0 where
  pub place : ℕ
  pub around : (place ≤ i) × (i < place + length s)
  pub occurs : starts_with s (drop place b) ≡ true
  pub is_masked : IsMasked place (length s) masked

IsMasked-later :
    (j n : ℕ) (b : List ℕ) (m t : ℕ)
    → IsMasked j n b
    → suc j ≤ t
    → t < suc j + n
    → get_elem? (m ∷ b) t ≡ some asterisk
IsMasked-later j n b m zero h low high = absurd (omega (arith, low))
IsMasked-later j n b m (suc t) h low high = h t (omega (arith, low)) (omega (arith, high))

InPlace-later :
    (s b masked : List ℕ) (c m i : ℕ)
    → InPlace s b masked i
    → InPlace s (c ∷ b) (m ∷ masked) (suc i)
InPlace-later s b masked c m i h = record {
  place = suc h.place;
  around = (omega (arith, h.around), omega (arith, h.around));
  occurs = h.occurs;
  is_masked = λ t low high. IsMasked-later h.place (length s) masked m t h.is_masked low high;
}

starts_with-length : (s b : List ℕ) → starts_with s b ≡ true → length s ≤ length b
unfolding starts_with
starts_with-length [] b h = omega arith
starts_with-length (p ∷ s) [] h = absurd (ground arith)
starts_with-length (p ∷ s) (c ∷ b) h = ground (arith, starts_with-length s b (ground arith))

mask_from-IsMasked :
    (s : List ℕ) (n : ℕ) (b : List ℕ) (t : ℕ)
    → n ≤ length b
    → t < n
    → get_elem? (mask_from s n b) t ≡ some asterisk
unfolding mask_from
mask_from-IsMasked s zero b t le lt = absurd (omega (arith, lt))
mask_from-IsMasked s (suc n) [] t le lt = absurd (omega (arith, le))
mask_from-IsMasked s (suc n) (c ∷ b) zero le lt = refl
mask_from-IsMasked s (suc n) (c ∷ b) (suc t) le lt =
    mask_from-IsMasked s n b t (omega (arith, le)) (omega (arith, lt))

front-IsMasked :
    (c : ℕ) (s : List ℕ) (x : ℕ) (b : List ℕ)
    → starts_with (c ∷ s) (x ∷ b) ≡ true
    → IsMasked 0 (length (c ∷ s)) (mask_from (c ∷ s) 0 (x ∷ b))
unfolding mask_from
front-IsMasked c s x b h zero low high = rw h refl
front-IsMasked c s x b h (suc t) low high =
    let fits = starts_with-length (c ∷ s) (x ∷ b) h in
    rw h (
      mask_from-IsMasked (c ∷ s) (length (c ∷ s) - 1) b t (omega (arith, fits))
        (omega (arith, high)))

-- An occurrence at the front is masked whole.
front-InPlace :
    (c : ℕ) (s : List ℕ) (x : ℕ) (b : List ℕ) (i : ℕ)
    → starts_with (c ∷ s) (x ∷ b) ≡ true
    → i < length (c ∷ s)
    → InPlace (c ∷ s) (x ∷ b) (mask_from (c ∷ s) 0 (x ∷ b)) i
front-InPlace c s x b i h lt = record {
  place = 0;
  around = (omega arith, omega (arith, lt));
  occurs = h;
  is_masked = front-IsMasked c s x b h;
}

-- A byte stays and starts no occurrence, or it is in a masked place.
abbrev pub StaysOrMasked : List ℕ → List ℕ → List ℕ → ℕ → Type 0
StaysOrMasked s b masked i =
    ((get_elem? masked i ≡ get_elem? b i) × (starts_with s (drop i b) ≡ false))
    ⊎ InPlace s b masked i

StaysOrMasked-later :
    (s b masked : List ℕ) (c m i : ℕ)
    → StaysOrMasked s b masked i
    → StaysOrMasked s (c ∷ b) (m ∷ masked) (suc i)
StaysOrMasked-later s b masked c m i (inl h) = inl h
StaysOrMasked-later s b masked c m i (inr h) = inr (InPlace-later s b masked c m i h)

mask_from-StaysOrMasked :
    (c : ℕ) (s : List ℕ) (n : ℕ) (b : List ℕ) (i : ℕ)
    → n ≤ i
    → StaysOrMasked (c ∷ s) b (mask_from (c ∷ s) n b) i
unfolding mask_from
mask_from-StaysOrMasked c s n [] zero le =
    inl (unfold mask_from in refl, unfold starts_with in refl)
mask_from-StaysOrMasked c s n [] (suc i) le = inl (refl, unfold starts_with in refl)
mask_from-StaysOrMasked c s (suc n) (x ∷ b) zero le = absurd (omega (arith, le))
mask_from-StaysOrMasked c s (suc n) (x ∷ b) (suc i) le =
    StaysOrMasked-later (c ∷ s) b (mask_from (c ∷ s) n b) x asterisk i
      (mask_from-StaysOrMasked c s n b i (omega (arith, le)))
mask_from-StaysOrMasked c s zero (x ∷ b) zero le = elim (Bool-cases (starts_with (c ∷ s) (x ∷ b))) [
  | inl found ↦ inr (front-InPlace c s x b 0 found (omega arith))
  | inr other ↦ inl (rw other refl, other)
]
mask_from-StaysOrMasked c s zero (x ∷ b) (suc i) le =
    let found = starts_with (c ∷ s) (x ∷ b) in
    let covered = if found then length (c ∷ s) - 1 else 0 in
    let rest = mask_from-StaysOrMasked c s covered b i in
    elim (Bool-cases (leb covered i)) [
      | inl past ↦
          StaysOrMasked-later (c ∷ s) b (mask_from (c ∷ s) covered b) x
            (if found then asterisk else x) i (rest (ground (arith, past)))
      | inr inside ↦
          inr (front-InPlace c s x b (suc i) (ground (arith, inside)) (ground (arith, inside)))
    ]

pub mask-StaysOrMasked : (c : ℕ) (s b : List ℕ) (i : ℕ) → StaysOrMasked (c ∷ s) b (mask (c ∷ s) b) i
unfolding mask
mask-StaysOrMasked c s b i = mask_from-StaysOrMasked c s 0 b i (omega arith)

-- Each byte that an occurrence starts with is in a masked place.
pub mask-InPlace :
    (c : ℕ) (s b : List ℕ) (i : ℕ)
    → starts_with (c ∷ s) (drop i b) ≡ true
    → InPlace (c ∷ s) b (mask (c ∷ s) b) i
mask-InPlace c s b i h = elim (mask-StaysOrMasked c s b i) [
  | inl (same, other) ↦ absurd (ground (arith, other))
  | inr found ↦ found
]
