-- ===== src/Stream/Hidden.antt =====
-- internal/loadgen/sse_client.go: what masking leaves of the secrets in a body.
use percentes.Base.{
  ℕ, zero, suc, ◌+◌, ◌≡◌, ◌<◌, ◌≤◌, refl, ◌∙◌, ◌⊎◌, inl, inr, true, some, List, [], ◌∷◌, nat_eq,
  arith, length, take, drop, get_elem?,
}
use mathlib.Core.Path.{subst}
use percentes.Stream.Secrets.{starts_with, mask, mask_all}
use percentes.Stream.Masked.{
  Covers-asterisk, mask_all-Covers, IsMasked, InPlace, mask-StaysOrMasked, mask-InPlace,
}

starts_with-first :
    (p : ℕ) (s : List ℕ) (i : ℕ) (b : List ℕ)
    → starts_with (p ∷ s) (drop i b) ≡ true
    → (get_elem? b i ≡ some p) × (starts_with s (drop (suc i) b) ≡ true)
unfolding starts_with
starts_with-first p s zero [] h = absurd (ground arith)
starts_with-first p s zero (x ∷ b) h = ground arith
starts_with-first p s (suc i) [] h = absurd (ground arith)
starts_with-first p s (suc i) (x ∷ b) h = starts_with-first p s i b h

starts_with-cons :
    (p : ℕ) (s : List ℕ) (i : ℕ) (b : List ℕ)
    → get_elem? b i ≡ some p
    → starts_with s (drop (suc i) b) ≡ true
    → starts_with (p ∷ s) (drop i b) ≡ true
unfolding starts_with
starts_with-cons p s zero [] h k = absurd (ground arith)
starts_with-cons p s zero (x ∷ b) h k = ground arith
starts_with-cons p s (suc i) [] h k = absurd (ground arith)
starts_with-cons p s (suc i) (x ∷ b) h k = starts_with-cons p s i b h k

-- Of `n` bytes from `i` on, one is in a masked place of `r`.
abbrev Touched : List ℕ → List ℕ → List ℕ → ℕ → ℕ → Type 0
Touched r b masked i n = (t : ℕ) × (i ≤ t) × (t < i + n) × InPlace r b masked t

-- An occurrence stays, or a byte of it is in a masked place.
mask-starts_with :
    (c : ℕ) (r s b : List ℕ) (i : ℕ)
    → starts_with s (drop i b) ≡ true
    → (starts_with s (drop i (mask (c ∷ r) b)) ≡ true)
      ⊎ Touched (c ∷ r) b (mask (c ∷ r) b) i (length s)
mask-starts_with c r [] b i h = inl (unfold starts_with in refl)
mask-starts_with c r (p ∷ s) b i h =
    let (here, later) = starts_with-first p s i b h in
    elim (mask-StaysOrMasked c r b i) [
      | inr found ↦ inr (i, omega arith, omega arith, found)
      | inl (same, other) ↦ elim (mask-starts_with c r s b (suc i) later) [
        | inl rest ↦ inl (starts_with-cons p s i (mask (c ∷ r) b) (same ∙ here) rest)
        | inr (t, low, high, found) ↦ inr (t, omega (arith, low), omega (arith, high), found)
      ]
    ]

pub IsMasked-mask_all :
    (secrets : List (List ℕ)) (j n : ℕ) (b : List ℕ)
    → IsMasked j n b
    → IsMasked j n (mask_all secrets b)
IsMasked-mask_all secrets j n b h t low high =
    Covers-asterisk t b (mask_all secrets b) (mask_all-Covers secrets b) (h t low high)

-- The `n` bytes from `i` on meet a place where a secret occurs, once those before it are masked, and that
-- place is masked whole.
pub record IsHidden (secrets : List (List ℕ)) (b : List ℕ) (i n : ℕ) : Type 0 where
  pub index : ℕ
  pub secret : List ℕ
  pub is_secret : get_elem? secrets index ≡ some secret
  pub place : ℕ
  pub meets : (place < i + n) × (i < place + length secret)
  pub occurs : starts_with secret (drop place (mask_all (take index secrets) b)) ≡ true
  pub is_masked : IsMasked place (length secret) (mask_all secrets b)

IsHidden-first :
    (r : List ℕ) (secrets : List (List ℕ)) (b : List ℕ) (i n : ℕ)
    → Touched r b (mask r b) i n
    → IsHidden (r ∷ secrets) b i n
unfolding mask_all
IsHidden-first r secrets b i n (t, low, high, found) = record {
  index = 0;
  secret = r;
  is_secret = refl;
  place = found.place;
  meets = (omega (arith, found.around, high), omega (arith, found.around, low));
  occurs = found.occurs;
  is_masked = IsMasked-mask_all secrets found.place (length r) (mask r b) found.is_masked;
}

IsHidden-later :
    (r : List ℕ) (secrets : List (List ℕ)) (b : List ℕ) (i n : ℕ)
    → IsHidden secrets (mask r b) i n
    → IsHidden (r ∷ secrets) b i n
unfolding mask_all
IsHidden-later r secrets b i n h = record {
  index = suc h.index;
  secret = h.secret;
  is_secret = h.is_secret;
  place = h.place;
  meets = h.meets;
  occurs = h.occurs;
  is_masked = h.is_masked;
}

-- Where a secret that is not empty occurs in a body, its bytes meet a place where a secret of the list
-- occurs, once those before it in the list are masked, and every byte of that place is an asterisk in the
-- masked body.
pub mask_all-IsHidden :
    (secrets : List (List ℕ)) (k c : ℕ) (s : List ℕ) (b : List ℕ) (i : ℕ)
    → get_elem? secrets k ≡ some (c ∷ s)
    → starts_with (c ∷ s) (drop i b) ≡ true
    → IsHidden secrets b i (length (c ∷ s))
mask_all-IsHidden [] k c s b i at found = absurd (ground arith)
mask_all-IsHidden (r ∷ secrets) zero c s b i at found =
    let same : c ∷ s ≡ r = cc in
    subst (λ x. IsHidden (x ∷ secrets) b i (length (c ∷ s))) same
      (IsHidden-first (c ∷ s) secrets b i (length (c ∷ s))
        (i, omega arith, omega arith, mask-InPlace c s b i found))
mask_all-IsHidden ([] ∷ secrets) (suc k) c s b i at found =
    IsHidden-later [] secrets b i (length (c ∷ s))
      (mask_all-IsHidden secrets k c s (mask [] b) i at (unfold mask in found))
mask_all-IsHidden ((x ∷ r) ∷ secrets) (suc k) c s b i at found =
    elim (mask-starts_with x r (c ∷ s) b i found) [
      | inl stays ↦
          IsHidden-later (x ∷ r) secrets b i (length (c ∷ s))
            (mask_all-IsHidden secrets k c s (mask (x ∷ r) b) i at stays)
      | inr touched ↦ IsHidden-first (x ∷ r) secrets b i (length (c ∷ s)) touched
    ]
