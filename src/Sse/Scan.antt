-- ===== src/Sse/Scan.antt =====
-- internal/sse/sse.go: the scanner of `Events`, bufio's loop around `SplitLines`, and its lines.
use percentes.Base.{
  ℕ, zero, suc, ◌≡◌, refl, ap, ◌∙◌, ◌<◌, ◌≤◌, Bool, true, false, List, [], ◌∷◌, ◌++◌, ◌==◌, nat_eq,
  bytes_eq, Bool-cases, inl, inr, length, drop, arith, leb, ltb, if◌then◌else◌,
}
use percentes.Sse.Split.{Split, more, token, push, after_return, split_from, split_line}
use percentes.Sse.Lines.{lines_of, EndsAt, Takes, split_line-Takes}

-- The lines of the buffer, and the bytes that are left; fuel of the buffer's length is enough.
unfoldable pub drain : ℕ → List ℕ → Bool → List (List ℕ) × List ℕ
unfolding split_line
drain zero buf at_eof = ([], buf)
drain (suc fuel) buf at_eof = elim (split_line buf at_eof) [
  | more ↦ ([], buf)
  | token n l ↦ let (ls, left) = drain fuel (drop n buf) at_eof in (l ∷ ls, left)
]

-- The scanner's buffer starts with 4096 bytes and grows up to the limit.
abbrev pub room : ℕ → ℕ
room limit = if ltb limit 4096 then 4096 else limit

-- The lines of a stream that arrives in chunks, behind the bytes in the buffer, and whether the scan ends
-- with ErrTooLong: where the bytes that are left fill the buffer. A chunk is what one Read puts into the
-- rest of the buffer.
unfoldable pub scan : ℕ → List ℕ → List (List ℕ) → List (List ℕ) × Bool
unfolding drain
scan limit buf [] = ((drain (length buf) buf true).0, false)
scan limit buf (chunk ∷ chunks) =
    let (ls, left) = drain (length (buf ++ chunk)) (buf ++ chunk) false in
    let (rest, is_long) = scan limit left chunks in
    if leb (room limit) (length left) then (ls, true) else (ls ++ rest, is_long)

abbrev pub concat : List (List ℕ) → List ℕ
concat [] = []
concat (c ∷ cs) = c ++ concat cs

drained-lines_of :
    (fuel : ℕ) (buf rest : List ℕ) (at_eof : Bool) (r : Split)
    → ((next : List ℕ)
        → lines_of (next ++ rest)
          ≡ (drain fuel next at_eof).0 ++ lines_of ((drain fuel next at_eof).1 ++ rest))
    → split_line buf at_eof ≡ r
    → Takes buf rest r
    → lines_of (buf ++ rest)
      ≡ (drain (suc fuel) buf at_eof).0 ++ lines_of ((drain (suc fuel) buf at_eof).1 ++ rest)
unfolding drain
drained-lines_of fuel buf rest at_eof more ih q t = rw (q, drain) refl
drained-lines_of fuel buf rest at_eof (token n l) ih q t =
    rw (q, drain, ◌++◌) (t.first ∙ ap (λ x. l ∷ x) (ih (drop n buf)))

pub drain-lines_of :
    (fuel : ℕ) (buf rest : List ℕ) (at_eof : Bool)
    → EndsAt at_eof rest
    → lines_of (buf ++ rest)
      ≡ (drain fuel buf at_eof).0 ++ lines_of ((drain fuel buf at_eof).1 ++ rest)
unfolding drain
drain-lines_of zero buf rest at_eof e = refl
drain-lines_of (suc fuel) buf rest at_eof e =
    drained-lines_of fuel buf rest at_eof (split_line buf at_eof)
      (λ next. drain-lines_of fuel next rest at_eof e) refl (split_line-Takes buf rest at_eof e)

abbrev is_token : Split → Bool
is_token more = false
is_token (token n l) = true

is_token-push : (c : ℕ) (r : Split) → is_token (push c r) ≡ is_token r
is_token-push c more = refl
is_token-push c (token n l) = refl

is_token-after_return : (cs : List ℕ) → is_token (after_return cs true) ≡ true
unfolding after_return
is_token-after_return [] = refl
is_token-after_return (d ∷ cs) = ground arith

is_token-split_from : (cs : List ℕ) → is_token (split_from cs true) ≡ true
unfolding split_from
is_token-split_from [] = refl
is_token-split_from (c ∷ cs) = elim (Bool-cases (c == b'\n')) [
  | inl h ↦ rw h refl
  | inr h ↦ elim (Bool-cases (c == b'\r')) [
    | inl k ↦ rw (h, k) (is_token-after_return cs)
    | inr k ↦ rw (h, k) (is_token-push c (split_from cs true) ∙ is_token-split_from cs)
  ]
]

pub length-drop : (n : ℕ) (cs : List ℕ) → 0 < n → n ≤ length cs → length (drop n cs) < length cs
length-drop zero cs h k = absurd (omega arith)
length-drop (suc n) [] h k = absurd (omega arith)
length-drop (suc zero) (c ∷ cs) h k = omega arith
length-drop (suc (suc n)) (c ∷ cs) h k = omega (arith, length-drop (suc n) cs)

pub length-drop_le : (n : ℕ) (cs : List ℕ) → length (drop n cs) ≤ length cs
length-drop_le zero cs = omega arith
length-drop_le (suc n) [] = omega arith
length-drop_le (suc n) (c ∷ cs) = omega (arith, length-drop_le n cs)

drained-empty :
    (fuel : ℕ) (c : ℕ) (cs : List ℕ) (r : Split)
    → ((next : List ℕ) → length next ≤ fuel → (drain fuel next true).1 ≡ [])
    → length cs ≤ fuel
    → split_line (c ∷ cs) true ≡ r
    → is_token r ≡ true
    → Takes (c ∷ cs) [] r
    → (drain (suc fuel) (c ∷ cs) true).1 ≡ []
unfolding drain
drained-empty fuel c cs more ih h q k t = absurd (ground arith)
drained-empty fuel c cs (token n l) ih h q k t =
    rw (q, drain)
      (ih (drop n (c ∷ cs)) (omega (arith, length-drop n (c ∷ cs) t.some_byte t.within)))

-- Fuel of the buffer's length drains it at the end of the stream.
pub drain-empty : (fuel : ℕ) (buf : List ℕ) → length buf ≤ fuel → (drain fuel buf true).1 ≡ []
unfolding drain split_line
drain-empty zero [] h = refl
drain-empty zero (c ∷ cs) h = absurd (omega arith)
drain-empty (suc fuel) [] h = refl
drain-empty (suc fuel) (c ∷ cs) h =
    drained-empty fuel c cs (split_line (c ∷ cs) true) (λ next. drain-empty fuel next)
      (omega (arith, h)) refl (is_token-split_from (c ∷ cs))
      (split_line-Takes (c ∷ cs) [] true (inr refl))
