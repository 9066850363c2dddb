-- ===== src/Sse/Rest.antt =====
-- internal/sse/sse.go: a rest of the data from which `SplitLines` takes no line.
use percentes.Base.{
  ℕ, suc, ◌+◌, ◌≡◌, ◌≤◌, refl, ap, ◌∙◌, Bool, true, false, List, [], ◌∷◌, ◌++◌, ◌==◌, nat_eq,
  bytes_eq, Bool-cases, inl, inr, length, arith,
}
use percentes.Sse.Split.{Split, more, token, push, after_return, split_from, split_line}
use percentes.Sse.Lines.{
  lines_of, start_line, lines_of-return, lines_of-return_last, lines_of-other,
}

-- The first line of a stream that `cs` begins has all its bytes, but at most one.
abbrev pub StartsLine : List ℕ → List ℕ → Type 0
StartsLine cs rest =
    (l : List ℕ) × (others : List (List ℕ)) × (lines_of (cs ++ rest) ≡ l ∷ others)
    × (length cs ≤ length l + 1)

push-more : (c : ℕ) (r : Split) → push c r ≡ more → r ≡ more
push-more c more h = refl
push-more c (token n l) h = absurd (ground arith)

start_line-first :
    (c : ℕ) (ls : List (List ℕ))
    → (l : List ℕ) × (others : List (List ℕ)) × (start_line c ls ≡ (c ∷ l) ∷ others)
start_line-first c [] = ([], [], refl)
start_line-first c (l ∷ ls) = (l, ls, refl)

return-StartsLine :
    (c : ℕ) (rest : List ℕ) → (c == b'\n') ≡ false → (c == b'\r') ≡ true → StartsLine (c ∷ []) rest
return-StartsLine c [] h k = ([], [], lines_of-return_last c h k, omega arith)
return-StartsLine c (d ∷ rest) h k = elim (Bool-cases (d == b'\n')) [
  | inl f ↦ ([], lines_of rest, lines_of-return c d rest h k ∙ rw f refl, omega arith)
  | inr f ↦ ([], lines_of (d ∷ rest), lines_of-return c d rest h k ∙ rw f refl, omega arith)
]

other-StartsLine :
    (c : ℕ) (cs rest : List ℕ)
    → (c == b'\n') ≡ false
    → (c == b'\r') ≡ false
    → StartsLine cs rest
    → StartsLine (c ∷ cs) rest
other-StartsLine c cs rest h k (l, others, e, long) =
    (c ∷ l, others, lines_of-other c (cs ++ rest) h k ∙ ap (start_line c) e, omega (arith, long))

last-StartsLine :
    (c : ℕ) (rest : List ℕ) → (c == b'\n') ≡ false → (c == b'\r') ≡ false → StartsLine (c ∷ []) rest
last-StartsLine c rest h k =
    let (l, others, e) = start_line-first c (lines_of rest) in
    (c ∷ l, others, lines_of-other c rest h k ∙ e, omega arith)

feed-token : (c : ℕ) (cs : List ℕ) → (c == b'\n') ≡ true → split_from (c ∷ cs) false ≡ token 1 []
unfolding split_from
feed-token c cs h = rw h refl

split_from-more :
    (c : ℕ) (cs rest : List ℕ) → split_from (c ∷ cs) false ≡ more → StartsLine (c ∷ cs) rest
unfolding split_from after_return
split_from-more c [] rest h = elim (Bool-cases (c == b'\n')) [
  | inl f ↦ absurd (ground arith)
  | inr f ↦ elim (Bool-cases (c == b'\r')) [
    | inl k ↦ return-StartsLine c rest f k
    | inr k ↦ last-StartsLine c rest f k
  ]
]
split_from-more c (d ∷ cs) rest h = elim (Bool-cases (c == b'\n')) [
  | inl f ↦ absurd (ground arith)
  | inr f ↦ elim (Bool-cases (c == b'\r')) [
    | inl k ↦ absurd (ground arith)
    | inr k ↦
        let pushed : push c (split_from (d ∷ cs) false) ≡ more = ground arith in
        other-StartsLine c (d ∷ cs) rest f k (split_from-more d cs rest (push-more c _ pushed))
  ]
]

pub split_line-more :
    (c : ℕ) (cs rest : List ℕ) → split_line (c ∷ cs) false ≡ more → StartsLine (c ∷ cs) rest
unfolding split_line
split_line-more c cs rest h = split_from-more c cs rest h

-- How many bytes more than its line a token takes of the data at least.
abbrev pub ends : Bool → ℕ
ends true = 0
ends false = 1

abbrev pub Spans : Bool → ℕ → Split → Type 0
Spans at_eof size more = Unit
Spans at_eof size (token n l) = length l + ends at_eof ≤ size

push-Spans :
    (c : ℕ) (at_eof : Bool) (size : ℕ) (r : Split)
    → Spans at_eof size r
    → Spans at_eof (suc size) (push c r)
push-Spans c at_eof size more h = tt
push-Spans c at_eof size (token n l) h = omega (arith, h)

empty-Spans : (at_eof : Bool) (size n : ℕ) → Spans at_eof (suc size) (token n [])
empty-Spans true size n = omega arith
empty-Spans false size n = omega arith

after_return-Spans :
    (cs : List ℕ) (at_eof : Bool) (size : ℕ) → Spans at_eof (suc size) (after_return cs at_eof)
unfolding after_return
after_return-Spans [] true size = omega arith
after_return-Spans [] false size = tt
after_return-Spans (d ∷ cs) at_eof size = elim (Bool-cases (d == b'\n')) [
  | inl f ↦ rw f (empty-Spans at_eof size 2)
  | inr f ↦ rw f (empty-Spans at_eof size 1)
]

split_from-Spans : (cs : List ℕ) (at_eof : Bool) → Spans at_eof (length cs) (split_from cs at_eof)
unfolding split_from
split_from-Spans [] true = omega arith
split_from-Spans [] false = tt
split_from-Spans (c ∷ cs) at_eof = elim (Bool-cases (c == b'\n')) [
  | inl f ↦ rw f (empty-Spans at_eof (length cs) 1)
  | inr f ↦ elim (Bool-cases (c == b'\r')) [
    | inl k ↦ rw (f, k) (after_return-Spans cs at_eof (length cs))
    | inr k ↦
        rw (f, k)
          (push-Spans c at_eof (length cs) (split_from cs at_eof) (split_from-Spans cs at_eof))
  ]
]

-- A token has a line no longer than the data, and shorter where the data is not the end.
pub split_line-Spans :
    (cs : List ℕ) (at_eof : Bool) → Spans at_eof (length cs) (split_line cs at_eof)
unfolding split_line split_from
split_line-Spans [] true = tt
split_line-Spans [] false = tt
split_line-Spans (c ∷ cs) true = split_from-Spans (c ∷ cs) true
split_line-Spans (c ∷ cs) false = split_from-Spans (c ∷ cs) false
