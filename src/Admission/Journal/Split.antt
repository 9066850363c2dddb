-- ===== src/Admission/Journal/Split.antt =====
-- The lines of a file that ends in a newline.
use percentes.Base.{
  ℕ, ◌≡◌, refl, ◌⊎◌, true, false, List, [], ◌∷◌, ◌++◌, ◌==◌, nat_eq, arith, Bool-cases, inl, inr,
  All,
}
use percentes.Base.Int.{ℤ, pos, ◌+i◌}
use percentes.Admission.Parsing.{split_lines, ends_line, end_line, prepend}
use percentes.Admission.Operations.{count_lines}

-- The file is empty, or its last byte is a newline.
abbrev pub IsClosed : List ℕ → Type 0
IsClosed b = (b ≡ []) ⊎ (ends_line b ≡ true)

abbrev pub NoNewline : List ℕ → Type 0
NoNewline = All (λ c. (c == b'\n') ≡ false)

-- The bytes of a list of lines.
unfoldable pub join_lines : List (List ℕ) → List ℕ
join_lines [] = []
join_lines (l ∷ ls) = end_line l ++ join_lines ls

-- Its length as an `int`.
unfoldable pub int_length : List (List ℕ) → ℤ
int_length [] = pos 0
int_length (l ∷ ls) = int_length ls +i pos 1

split_lines-end_line : (l : List ℕ) → NoNewline l → split_lines (end_line l) ≡ l ∷ []
unfolding split_lines
split_lines-end_line [] h = refl
split_lines-end_line (c ∷ l) h = ground (arith, split_lines-end_line l h.1)

prepend-cons :
    (c : ℕ) (ls : List (List ℕ)) → (l : List ℕ) × (ms : List (List ℕ)) × (prepend c ls ≡ l ∷ ms)
prepend-cons c [] = (c ∷ [], [], refl)
prepend-cons c (l ∷ ls) = (c ∷ l, ls, refl)

split_lines-cons :
    (c : ℕ) (b : List ℕ) → (l : List ℕ) × (ls : List (List ℕ)) × (split_lines (c ∷ b) ≡ l ∷ ls)
unfolding split_lines
split_lines-cons c b = elim (Bool-cases (c == b'\n')) [
  | inl e ↦ ([], split_lines b, ground arith)
  | inr e ↦ rw e (prepend-cons c (split_lines b))
]

pub ends_line-append : (b l : List ℕ) → ends_line (b ++ end_line l) ≡ true
unfolding ends_line
ends_line-append [] [] = refl
ends_line-append [] (c ∷ []) = refl
ends_line-append [] (c ∷ d ∷ l) = ends_line-append [] (d ∷ l)
ends_line-append (c ∷ []) [] = refl
ends_line-append (c ∷ []) (d ∷ l) = ends_line-append [] (d ∷ l)
ends_line-append (c ∷ d ∷ b) l = ends_line-append (d ∷ b) l

split_lines-append_closed :
    (b l : List ℕ)
    → ends_line b ≡ true
    → NoNewline l
    → split_lines (b ++ end_line l) ≡ split_lines b ++ l ∷ []
unfolding split_lines ends_line
split_lines-append_closed [] l h k = ground arith
split_lines-append_closed (c ∷ []) l h k = ground (arith, split_lines-end_line l k)
split_lines-append_closed (c ∷ d ∷ b) l h k =
    let (y, ys, q) = split_lines-cons d b in
    ground (arith, split_lines-append_closed (d ∷ b) l h k, q)

-- Appending a line to a closed file adds that line to its lines.
pub split_lines-append :
    (b l : List ℕ)
    → IsClosed b
    → NoNewline l
    → split_lines (b ++ end_line l) ≡ split_lines b ++ l ∷ []
split_lines-append b l (inl e) k = rw e (unfold split_lines in split_lines-end_line l k)
split_lines-append b l (inr h) k = split_lines-append_closed b l h k

join_lines-split_closed : (b : List ℕ) → ends_line b ≡ true → join_lines (split_lines b) ≡ b
unfolding split_lines ends_line join_lines
join_lines-split_closed [] h = refl
join_lines-split_closed (c ∷ []) h = ground arith
join_lines-split_closed (c ∷ d ∷ b) h =
    let (y, ys, q) = split_lines-cons d b in ground (arith, join_lines-split_closed (d ∷ b) h, q)

-- The lines of a closed file are all of it.
pub join_lines-split_lines : (b : List ℕ) → IsClosed b → join_lines (split_lines b) ≡ b
join_lines-split_lines b (inl e) = rw e (unfold split_lines join_lines in refl)
join_lines-split_lines b (inr h) = join_lines-split_closed b h

count_lines-closed : (b : List ℕ) → ends_line b ≡ true → count_lines b ≡ int_length (split_lines b)
unfolding split_lines ends_line count_lines int_length
count_lines-closed [] h = refl
count_lines-closed (c ∷ []) h = ground arith
count_lines-closed (c ∷ d ∷ b) h =
    let (y, ys, q) = split_lines-cons d b in ground (arith, count_lines-closed (d ∷ b) h, q)

-- `append` counts the lines that `Parse` reads.
pub count_lines-split_lines : (b : List ℕ) → IsClosed b → count_lines b ≡ int_length (split_lines b)
count_lines-split_lines b (inl e) = rw e (unfold split_lines count_lines int_length in refl)
count_lines-split_lines b (inr h) = count_lines-closed b h
