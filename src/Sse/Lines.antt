-- ===== src/Sse/Lines.antt =====
-- The lines that the scanner finds with `SplitLines`, against the lines of the whole stream.
use percentes.Base.{
  ℕ, ◌≡◌, ap, ◌∙◌, ◌⊎◌, ◌<◌, ◌≤◌, Bool, true, false, List, [], ◌∷◌, ◌++◌, ◌==◌, nat_eq, bytes_eq,
  if◌then◌else◌, Bool-cases, inl, inr, length, drop, arith,
}
use percentes.Sse.Split.{Split, more, token, push, after_return, split_from, split_line}

-- The lines of a stream: each ends at a line feed, a carriage return and a line feed, or a carriage
-- return; a rest with no terminator is a last line.
abbrev pub start_line : ℕ → List (List ℕ) → List (List ℕ)
start_line c [] = (c ∷ []) ∷ []
start_line c (l ∷ ls) = (c ∷ l) ∷ ls

unfoldable pub lines_of : List ℕ → List (List ℕ)
lines_of [] = []
lines_of (c ∷ []) = if c == b'\n' then [] ∷ [] else if c == b'\r' then [] ∷ [] else (c ∷ []) ∷ []
lines_of (c ∷ d ∷ cs) =
    let rest = lines_of (d ∷ cs) in
    let past = lines_of cs in
    if c == b'\n'
    then [] ∷ rest
    else if c == b'\r'
    then (if d == b'\n' then [] ∷ past else [] ∷ rest)
    else start_line c rest

lines_of-feed : (c : ℕ) (cs : List ℕ) → (c == b'\n') ≡ true → lines_of (c ∷ cs) ≡ [] ∷ lines_of cs
unfolding lines_of
lines_of-feed c [] h = ground arith
lines_of-feed c (d ∷ cs) h = ground arith

pub lines_of-return :
    (c d : ℕ) (cs : List ℕ)
    → (c == b'\n') ≡ false
    → (c == b'\r') ≡ true
    → lines_of (c ∷ d ∷ cs) ≡ (if d == b'\n' then [] ∷ lines_of cs else [] ∷ lines_of (d ∷ cs))
unfolding lines_of
lines_of-return c d cs h k = ground arith

pub lines_of-return_last :
    (c : ℕ) → (c == b'\n') ≡ false → (c == b'\r') ≡ true → lines_of (c ∷ []) ≡ [] ∷ []
unfolding lines_of
lines_of-return_last c h k = ground arith

pub lines_of-other :
    (c : ℕ) (cs : List ℕ)
    → (c == b'\n') ≡ false
    → (c == b'\r') ≡ false
    → lines_of (c ∷ cs) ≡ start_line c (lines_of cs)
unfolding lines_of
lines_of-other c [] h k = ground arith
lines_of-other c (d ∷ cs) h k = ground arith

-- A token takes its bytes, at least one, off the front, and is the first line of the data, whatever
-- `rest` the stream goes on with.
pub record IsLine (cs rest : List ℕ) (n : ℕ) (l : List ℕ) : Type 0 where
  pub first : lines_of (cs ++ rest) ≡ l ∷ lines_of (drop n cs ++ rest)
  pub some_byte : 0 < n
  pub within : n ≤ length cs

abbrev pub Takes : List ℕ → List ℕ → Split → Type 0
Takes cs rest more = Unit
Takes cs rest (token n l) = IsLine cs rest n l

push-Takes :
    (c : ℕ) (cs rest : List ℕ) (r : Split)
    → (c == b'\n') ≡ false
    → (c == b'\r') ≡ false
    → Takes cs rest r
    → Takes (c ∷ cs) rest (push c r)
push-Takes c cs rest more h k t = tt
push-Takes c cs rest (token n l) h k t = record {
  first = lines_of-other c (cs ++ rest) h k ∙ ap (start_line c) t.first;
  some_byte = omega arith;
  within = omega (arith, t.within);
}

-- The data is not the whole stream, or nothing follows it.
abbrev pub EndsAt : Bool → List ℕ → Type 0
EndsAt at_eof rest = (at_eof ≡ false) ⊎ (rest ≡ [])

return-Takes :
    (c : ℕ) (cs rest : List ℕ) (at_eof : Bool)
    → (c == b'\n') ≡ false
    → (c == b'\r') ≡ true
    → EndsAt at_eof rest
    → Takes (c ∷ cs) rest (after_return cs at_eof)
unfolding after_return lines_of
return-Takes c [] rest false h k e = tt
return-Takes c [] rest true h k (inl n) = absurd (ground arith)
return-Takes c [] rest true h k (inr n) = record {
  first = rw n (lines_of-return_last c h k);
  some_byte = omega arith;
  within = omega arith;
}
return-Takes c (d ∷ cs) rest at_eof h k e = elim (Bool-cases (d == b'\n')) [
  | inl f ↦ rw f (record {
    first = lines_of-return c d (cs ++ rest) h k ∙ ground arith;
    some_byte = omega arith;
    within = omega arith;
  })
  | inr f ↦ rw f (record {
    first = lines_of-return c d (cs ++ rest) h k ∙ ground arith;
    some_byte = omega arith;
    within = omega arith;
  })
]

-- The last byte of the data.
other_last-Takes :
    (c : ℕ) (rest : List ℕ) (at_eof : Bool)
    → (c == b'\n') ≡ false
    → (c == b'\r') ≡ false
    → EndsAt at_eof rest
    → Takes (c ∷ []) rest (push c (split_from [] at_eof))
unfolding split_from lines_of
other_last-Takes c rest false h k e = tt
other_last-Takes c rest true h k (inl n) = absurd (ground arith)
other_last-Takes c rest true h k (inr n) = record {
  first = rw n (lines_of-other c [] h k);
  some_byte = omega arith;
  within = omega arith;
}

split_first-Takes :
    (c : ℕ) (cs rest : List ℕ) (at_eof : Bool)
    → EndsAt at_eof rest
    → ((c == b'\n') ≡ false
        → (c == b'\r') ≡ false
        → Takes (c ∷ cs) rest (push c (split_from cs at_eof)))
    → Takes (c ∷ cs) rest (split_from (c ∷ cs) at_eof)
unfolding split_from
split_first-Takes c cs rest at_eof e other = elim (Bool-cases (c == b'\n')) [
  | inl h ↦ rw h (record {
    first = lines_of-feed c (cs ++ rest) h;
    some_byte = omega arith;
    within = omega arith;
  })
  | inr h ↦ elim (Bool-cases (c == b'\r')) [
    | inl k ↦ rw (h, k) (return-Takes c cs rest at_eof h k e)
    | inr k ↦ rw (h, k) (other h k)
  ]
]

split_from-Takes :
    (c : ℕ) (cs rest : List ℕ) (at_eof : Bool)
    → EndsAt at_eof rest
    → Takes (c ∷ cs) rest (split_from (c ∷ cs) at_eof)
split_from-Takes c [] rest at_eof e =
    split_first-Takes c [] rest at_eof e (λ h k. other_last-Takes c rest at_eof h k e)
split_from-Takes c (d ∷ cs) rest at_eof e =
    split_first-Takes c (d ∷ cs) rest at_eof e
      (λ h k. push-Takes c (d ∷ cs) rest _ h k (split_from-Takes d cs rest at_eof e))

pub split_line-Takes :
    (cs rest : List ℕ) (at_eof : Bool) → EndsAt at_eof rest → Takes cs rest (split_line cs at_eof)
unfolding split_line split_from
split_line-Takes [] rest true e = tt
split_line-Takes [] rest false e = tt
split_line-Takes (c ∷ cs) rest true e = split_from-Takes c cs rest true e
split_line-Takes (c ∷ cs) rest false e = split_from-Takes c cs rest false e
