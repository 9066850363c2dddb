-- ===== src/Stream/Errors.antt =====
-- What is left of the longest credential in an error body.
use percentes.Base.{
  ℕ, zero, suc, ◌+◌, ◌≡◌, ◌<◌, ◌≤◌, ◌∙◌, refl, true, some, List, [], ◌∷◌, arith, length, take, drop,
  get_elem?,
}
use percentes.Stream.Secrets.{
  starts_with, mask, mask_all, asterisk, read_error_body, error_body_limit,
}
use percentes.Stream.Masked.{mask-InPlace}
use percentes.Stream.Hidden.{IsMasked-mask_all}

starts_with-take :
    (s : List ℕ) (n : ℕ) (b : List ℕ)
    → starts_with s b ≡ true
    → length s ≤ n
    → starts_with s (take n b) ≡ true
unfolding starts_with
starts_with-take [] n b h fits = refl
starts_with-take (p ∷ s) zero b h fits = absurd (omega (arith, fits))
starts_with-take (p ∷ s) (suc n) [] h fits = h
starts_with-take (p ∷ s) (suc n) (x ∷ b) h fits =
    ground (arith, starts_with-take s n b (ground arith) (omega (arith, fits)))

starts_with-drop-take :
    (s : List ℕ) (i n : ℕ) (b : List ℕ)
    → starts_with s (drop i b) ≡ true
    → i + length s ≤ n
    → starts_with s (drop i (take n b)) ≡ true
starts_with-drop-take s zero n b h fits = starts_with-take s n b h (omega (arith, fits))
starts_with-drop-take s (suc i) zero b h fits = absurd (omega (arith, fits))
starts_with-drop-take s (suc i) (suc n) [] h fits = h
starts_with-drop-take s (suc i) (suc n) (x ∷ b) h fits =
    starts_with-drop-take s i n b h (omega (arith, fits))

get_elem?-take : (n j : ℕ) (b : List ℕ) → j < n → get_elem? (take n b) j ≡ get_elem? b j
get_elem?-take zero j b h = elim h [ ]
get_elem?-take (suc n) j [] h = refl
get_elem?-take (suc n) zero (x ∷ b) h = refl
get_elem?-take (suc n) (suc j) (x ∷ b) h = get_elem?-take n j b (omega (arith, h))

starts_with-untake :
    (s : List ℕ) (n : ℕ) (b : List ℕ) → starts_with s (take n b) ≡ true → starts_with s b ≡ true
unfolding starts_with
starts_with-untake [] n b h = refl
starts_with-untake (p ∷ s) zero b h = absurd (ground arith)
starts_with-untake (p ∷ s) (suc n) [] h = h
starts_with-untake (p ∷ s) (suc n) (x ∷ b) h = ground (arith, starts_with-untake s n b)

starts_with-drop-untake :
    (s : List ℕ) (i n : ℕ) (b : List ℕ)
    → starts_with s (drop i (take n b)) ≡ true
    → starts_with s (drop i b) ≡ true
starts_with-drop-untake s zero n b h = starts_with-untake s n b h
starts_with-drop-untake [] (suc i) n b h = unfold starts_with in refl
starts_with-drop-untake (p ∷ s) (suc i) zero b h = absurd (unfold starts_with in ground arith)
starts_with-drop-untake (p ∷ s) (suc i) (suc n) [] h = h
starts_with-drop-untake (p ∷ s) (suc i) (suc n) (x ∷ b) h = starts_with-drop-untake (p ∷ s) i n b h

-- The byte at `i` is of a place where a secret occurs in a body, and every byte of that place which the
-- kept body has is an asterisk there.
pub record IsCovered (s body kept : List ℕ) (i : ℕ) : Type 0 where
  pub place : ℕ
  pub around : (place ≤ i) × (i < place + length s)
  pub occurs : starts_with s (drop place body) ≡ true
  pub covers :
      (t : ℕ)
      → place ≤ t
      → t < place + length s
      → t < error_body_limit
      → get_elem? kept t ≡ some asterisk

-- Where the longest secret starts in the kept bytes, that byte is of a place where the secret occurs in
-- the body, and each kept byte of that place is an asterisk, also where the limit cuts the place.
pub read_error_body-IsCovered :
    (body : List ℕ) (c : ℕ) (s : List ℕ) (secrets : List (List ℕ)) (i : ℕ)
    → i < error_body_limit
    → starts_with (c ∷ s) (drop i body) ≡ true
    → IsCovered (c ∷ s) body (read_error_body body ((c ∷ s) ∷ secrets)) i
unfolding read_error_body mask_all
read_error_body-IsCovered body c s secrets i lt found =
    let n = error_body_limit + length (c ∷ s) in
    let whole = starts_with-drop-take (c ∷ s) i n body found (omega (arith, lt)) in
    let h = mask-InPlace c s (take n body) i whole in
    record {
      place = h.place;
      around = h.around;
      occurs = starts_with-drop-untake (c ∷ s) h.place n body h.occurs;
      covers = λ t low high kept.
          get_elem?-take error_body_limit t (mask_all ((c ∷ s) ∷ secrets) (take n body)) kept
          ∙ IsMasked-mask_all secrets h.place (length (c ∷ s)) (mask (c ∷ s) (take n body))
              h.is_masked t low high;
    }
