-- ===== src/Sse/Limit.antt =====
-- internal/sse/sse.go: what the scanner's lines are, and when a line does not fit its buffer.
use percentes.Base.{
  ℕ, zero, suc, ◌+◌, ◌≡◌, refl, sym, ap, ◌∙◌, ◌<◌, ◌≤◌, Bool, true, false, List, [], ◌∷◌, ◌++◌,
  nat_eq, bytes_eq, Bool-cases, inl, inr, length, drop, append_assoc, append-nil, arith, All,
  All-append, ◌⊎◌, length-append, leb,
}
use mathlib.Core.Path.{subst}
use percentes.Sse.Split.{Split, more, token, split_from, split_line}
use percentes.Sse.Lines.{lines_of, Takes, split_line-Takes}
use percentes.Sse.Rest.{split_line-more, Spans, ends, split_line-Spans}
use percentes.Sse.Scan.{
  drain, room, scan, concat, drain-lines_of, length-drop, length-drop_le, drain-empty,
}

drained-more :
    (fuel : ℕ) (buf : List ℕ) (r : Split)
    → ((next : List ℕ) → length next ≤ fuel → split_line (drain fuel next false).1 false ≡ more)
    → length buf ≤ suc fuel
    → split_line buf false ≡ r
    → Takes buf [] r
    → split_line (drain (suc fuel) buf false).1 false ≡ more
unfolding drain
drained-more fuel buf more ih h q t = rw (q, drain) q
drained-more fuel buf (token n l) ih h q t =
    rw (q, drain) (ih (drop n buf) (omega (arith, h, length-drop n buf t.some_byte t.within)))

-- Fuel of the buffer's length leaves a rest from which the split function takes no line.
drain-more :
    (fuel : ℕ) (buf : List ℕ) → length buf ≤ fuel → split_line (drain fuel buf false).1 false ≡ more
unfolding drain split_line split_from
drain-more zero [] h = refl
drain-more zero (c ∷ cs) h = absurd (omega arith)
drain-more (suc fuel) buf h =
    drained-more fuel buf (split_line buf false) (λ next. drain-more fuel next) h refl
      (split_line-Takes buf [] false (inl refl))

abbrev pub IsShort : ℕ → List ℕ → Type 0
IsShort n l = length l < n

drained-AreShort :
    (fuel : ℕ) (buf : List ℕ) (at_eof : Bool) (n : ℕ) (r : Split)
    → ((next : List ℕ) → length next ≤ length buf → All (IsShort n) (drain fuel next at_eof).0)
    → length buf + 1 ≤ n + ends at_eof
    → split_line buf at_eof ≡ r
    → Spans at_eof (length buf) r
    → All (IsShort n) (drain (suc fuel) buf at_eof).0
unfolding drain
drained-AreShort fuel buf at_eof n more ih h q t = rw (q, drain) tt
drained-AreShort fuel buf at_eof n (token k l) ih h q t =
    rw (q, drain) (omega (arith, h, t), ih (drop k buf) (length-drop_le k buf))

drain-AreShort :
    (fuel : ℕ) (buf : List ℕ) (at_eof : Bool) (n : ℕ)
    → length buf + 1 ≤ n + ends at_eof
    → All (IsShort n) (drain fuel buf at_eof).0
unfolding drain
drain-AreShort zero buf at_eof n h = tt
drain-AreShort (suc fuel) buf at_eof n h =
    drained-AreShort fuel buf at_eof n (split_line buf at_eof)
      (λ next le. drain-AreShort fuel next at_eof n (omega (arith, le, h))) h refl
      (split_line-Spans buf at_eof)

-- What the scanner's lines and its ErrTooLong say of all the lines of the stream: the lines are all of
-- them, or those before one that does not fit the buffer with its terminator.
abbrev pub IsScan : ℕ → List (List ℕ) → List (List ℕ) × Bool → Type 0
IsScan limit all (ls, false) = ls ≡ all
IsScan limit all (ls, true) =
    (l : List ℕ) × (others : List (List ℕ)) × (all ≡ ls ++ l ∷ others) × (room limit ≤ length l + 1)

IsScan-append :
    (limit : ℕ) (ls all : List (List ℕ)) (r : List (List ℕ) × Bool)
    → IsScan limit all r
    → IsScan limit (ls ++ all) (ls ++ r.0, r.1)
IsScan-append limit ls all (found, false) h = ap (λ x. ls ++ x) h
IsScan-append limit ls all (found, true) (l, others, e, long) =
    (l, others, ap (λ x. ls ++ x) e ∙ sym (append_assoc ls found (l ∷ others)), long)

filled-IsScan :
    (limit : ℕ) (ls : List (List ℕ)) (left rest : List ℕ)
    → split_line left false ≡ more
    → room limit ≤ length left
    → IsScan limit (ls ++ lines_of (left ++ rest)) (ls, true)
filled-IsScan limit ls [] rest h full = absurd (ground (arith, full))
filled-IsScan limit ls (c ∷ cs) rest h full =
    let (l, others, e, long) = split_line-more c cs rest h in
    (l, others, ap (λ x. ls ++ x) e, omega (arith, full, long))

scan-IsScan :
    (limit : ℕ) (buf : List ℕ) (chunks : List (List ℕ))
    → IsScan limit (lines_of (buf ++ concat chunks)) (scan limit buf chunks)
unfolding scan lines_of
scan-IsScan limit buf [] = sym (
    drain-lines_of (length buf) buf [] true (inr refl)
    ∙ ap (λ x. (drain (length buf) buf true).0 ++ lines_of (x ++ []))
        (drain-empty (length buf) buf (omega arith))
    ∙ append-nil _)
scan-IsScan limit buf (chunk ∷ chunks) =
    let d = drain (length (buf ++ chunk)) (buf ++ chunk) false in
    let whole : d.0 ++ lines_of (d.1 ++ concat chunks)
        ≡ lines_of (buf ++ (chunk ++ concat chunks)) =
      sym (drain-lines_of (length (buf ++ chunk)) (buf ++ chunk) (concat chunks) false (inl refl))
      ∙ ap lines_of (append_assoc buf chunk (concat chunks)) in
    elim (Bool-cases (leb (room limit) (length d.1))) [
      | inl full ↦ rw full (
          subst (λ x. IsScan limit x (d.0, true)) whole
            (filled-IsScan limit d.0 d.1 (concat chunks)
              (drain-more (length (buf ++ chunk)) (buf ++ chunk) (omega arith))
              (ground (arith, full))))
      | inr fits ↦ rw fits (
          subst (λ x. IsScan limit x (d.0 ++ (scan limit d.1 chunks).0, (scan limit d.1 chunks).1))
            whole
            (IsScan-append limit d.0 (lines_of (d.1 ++ concat chunks)) (scan limit d.1 chunks)
              (scan-IsScan limit d.1 chunks)))
    ]

-- Each chunk has room in the buffer, behind what is left in it, as long as the scan goes on.
abbrev pub Fits : ℕ → List ℕ → List (List ℕ) → Type 0
Fits limit buf [] = Unit
Fits limit buf (chunk ∷ chunks) =
    let left = (drain (length (buf ++ chunk)) (buf ++ chunk) false).1 in
    (length buf + length chunk ≤ room limit) × ((room limit ≤ length left) ⊎ Fits limit left chunks)

scan-AreShort :
    (limit : ℕ) (buf : List ℕ) (chunks : List (List ℕ))
    → length buf < room limit
    → Fits limit buf chunks
    → All (IsShort (room limit)) (scan limit buf chunks).0
unfolding scan
scan-AreShort limit buf [] h fits =
    drain-AreShort (length buf) buf true (room limit) (omega (arith, h))
scan-AreShort limit buf (chunk ∷ chunks) h (room_left, rest) =
    let d = drain (length (buf ++ chunk)) (buf ++ chunk) false in
    let short =
      drain-AreShort (length (buf ++ chunk)) (buf ++ chunk) false (room limit)
        (omega (arith, room_left, length-append buf chunk)) in
    elim (Bool-cases (leb (room limit) (length d.1))) [
      | inl full ↦ rw full short
      | inr some_room ↦ elim rest [
        | inl full ↦ absurd (ground (arith, full))
        | inr later ↦ rw some_room (
            All-append (IsShort (room limit)) d.0 (scan limit d.1 chunks).0 short
              (scan-AreShort limit d.1 chunks (ground (arith, some_room)) later))
      ]
    ]

-- However a stream is cut into chunks that the buffer has room for, the bytes in it in front: without
-- ErrTooLong the scanner's lines under SplitLines are those of the whole stream, each shorter than the
-- buffer; with it they are the lines before one whose bytes and one more are no fewer than the buffer's,
-- each shorter than the buffer.
pub scan-lines_of :
    (limit : ℕ) (buf : List ℕ) (chunks : List (List ℕ))
    → length buf < room limit
    → Fits limit buf chunks
    → IsScan limit (lines_of (buf ++ concat chunks)) (scan limit buf chunks)
      × All (IsShort (room limit)) (scan limit buf chunks).0
scan-lines_of limit buf chunks h fits =
    (scan-IsScan limit buf chunks, scan-AreShort limit buf chunks h fits)
