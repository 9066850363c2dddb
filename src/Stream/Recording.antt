-- ===== src/Stream/Recording.antt =====
-- The frames of a body.
use percentes.Base.{
  ℕ, zero, suc, ◌+◌, ◌-◌, ◌≡◌, ◌≤◌, refl, sym, ap, ◌∙◌, inl, inr, List, [], ◌∷◌, ◌++◌, nat_eq,
  arith, ltb, length, length-append, take, drop, Bool-cases,
}
use percentes.Base.Int.{ℤ}
use percentes.Stream.Secrets.{mask_all}
use percentes.Stream.Masked.{mask_all-Covers, Covers-length}
use percentes.Stream.Tail.{length-mask_secret_prefix_tail}
use percentes.Stream.Frames.{Frame, FrameRecorder, new_recorder, read_all, cut, result, masked_buf}
use percentes.Stream.Kept.{kept_reads, bytes_of, times_of, ends_of, read_all-Holds}

-- The bytes cut into frames as long as the reads.
unfoldable pub frames_of : List ℕ → List (List ℕ × ℤ) → List Frame
frames_of b [] = []
frames_of b ((bytes, t) ∷ reads) =
    record { ns = t; bytes_ = take (length bytes) b } ∷ frames_of (drop (length bytes) b) reads

drop-nil : (n : ℕ) → drop {A = ℕ} n [] ≡ []
drop-nil zero = refl
drop-nil (suc n) = refl

drop-drop : (m n : ℕ) (b : List ℕ) → drop (m + n) b ≡ drop n (drop m b)
drop-drop zero n b = let e : 0 + n ≡ n = omega arith in ap (λ k. drop k b) e
drop-drop (suc m) n [] = drop-nil (suc m + n) ∙ sym (drop-nil n)
drop-drop (suc m) n (c ∷ b) =
    let e : suc m + n ≡ suc (m + n) = omega arith in ap (λ k. drop k (c ∷ b)) e ∙ drop-drop m n b

cut-frames_of :
    (b : List ℕ) (start : ℕ) (kept : List (List ℕ × ℤ))
    → cut b start (ends_of start kept) (times_of kept) ≡ frames_of (drop start b) kept
unfolding cut frames_of
cut-frames_of b start [] = refl
cut-frames_of b start ((bytes, t) ∷ kept) =
    let e : start + length bytes - start ≡ length bytes = omega arith in
    let rest = cut b (start + length bytes) (ends_of (start + length bytes) kept) (times_of kept) in
    ap (λ n. record { ns = t; bytes_ = take n (drop start b) } ∷ rest) e
    ∙ ap (λ frames. record { ns = t; bytes_ = take (length bytes) (drop start b) } ∷ frames)
        (cut-frames_of b (start + length bytes) kept
          ∙ ap (λ x. frames_of x kept) (drop-drop start (length bytes) b))

-- The bytes of some frames, in order.
abbrev pub joined : List Frame → List ℕ
joined [] = []
joined (f ∷ frames) = f.bytes_ ++ joined frames

take-append-drop : (n : ℕ) (b : List ℕ) → take n b ++ drop n b ≡ b
take-append-drop zero b = refl
take-append-drop (suc n) [] = refl
take-append-drop (suc n) (c ∷ b) = ap (λ x. c ∷ x) (take-append-drop n b)

length-drop : (n : ℕ) (b : List ℕ) → length (drop n b) ≡ length b - n
length-drop zero b = omega arith
length-drop (suc n) [] = omega arith
length-drop (suc n) (c ∷ b) = omega (arith, length-drop n b)

joined-frames_of :
    (b : List ℕ) (kept : List (List ℕ × ℤ))
    → length b ≡ length (bytes_of kept)
    → joined (frames_of b kept) ≡ b
unfolding frames_of
joined-frames_of [] [] h = refl
joined-frames_of (c ∷ b) [] h = absurd (omega (arith, h))
joined-frames_of b ((bytes, t) ∷ kept) h =
    ap (λ x. take (length bytes) b ++ x)
      (joined-frames_of (drop (length bytes) b) kept
        (omega (arith, h, length-drop (length bytes) b, length-append bytes (bytes_of kept))))
    ∙ take-append-drop (length bytes) b

kept_reads_bound :
    (reads : List (List ℕ × ℤ)) (limit held : ℕ)
    → held ≤ limit
    → held + length (bytes_of (kept_reads limit held reads)) ≤ limit
unfolding kept_reads
kept_reads_bound [] limit held h = omega (arith, h)
kept_reads_bound (([], t) ∷ reads) limit held h =
    let e : held + 0 ≡ held = omega arith in rw e (kept_reads_bound reads limit held h)
kept_reads_bound ((c ∷ bytes, t) ∷ reads) limit held h =
    let n = held + length (c ∷ bytes) in
    elim (Bool-cases (ltb limit n)) [
      | inl over ↦ rw over (omega (arith, h))
      | inr fits ↦ rw fits (
          omega (
            arith,
            kept_reads_bound reads limit n (ground arith),
            length-append (c ∷ bytes) (bytes_of (kept_reads limit n reads)),
          ))
    ]

length-masked_buf :
    (f : FrameRecorder) (secrets : List (List ℕ)) → length (masked_buf f secrets) ≡ length f.buf
unfolding masked_buf
length-masked_buf f secrets =
    let b = mask_all secrets f.buf in
    let same = Covers-length f.buf b (mask_all-Covers secrets f.buf) in
    elim (Bool-cases (ltb 0 f.dropped)) [
      | inl cut ↦ rw cut (length-mask_secret_prefix_tail b secrets ∙ same)
      | inr whole ↦ rw whole same
    ]

-- The frames of a body and the reads that they are of.
pub record IsRecording (limit : ℕ) (reads : List (List ℕ × ℤ)) (secrets : List (List ℕ))
    (f : FrameRecorder) : Type 0 where
  pub buf_kept : f.buf ≡ bytes_of (kept_reads limit 0 reads)
  pub one_each : (result f secrets).0 ≡ frames_of (masked_buf f secrets) (kept_reads limit 0 reads)
  pub whole : joined (result f secrets).0 ≡ masked_buf f secrets
  pub rest_counted : (result f secrets).1 + length f.buf ≡ length (bytes_of reads)
  pub bounded : length f.buf ≤ limit

-- A recorder keeps the reads of a body that have bytes, up to the first with which they pass its limit,
-- and its buffer is within the limit. Its frames are those reads, with their times and lengths, and
-- their bytes joined are the buffer, masked. The bytes that it dropped are all the others.
pub read_all-IsRecording :
    (reads : List (List ℕ × ℤ)) (limit : ℕ) (secrets : List (List ℕ))
    → IsRecording limit reads secrets (read_all reads (new_recorder limit))
unfolding result
read_all-IsRecording reads limit secrets =
    let f = read_all reads (new_recorder limit) in
    let kept = kept_reads limit 0 reads in
    let h = read_all-Holds reads limit [] [] [] in
    let b = masked_buf f secrets in
    let frames : cut b 0 f.ends f.ns ≡ frames_of b kept =
      ap (λ ends. cut b 0 ends f.ns) h.ends_is
      ∙ ap (cut b 0 (ends_of 0 kept)) h.ns_is
      ∙ cut-frames_of b 0 kept in
    record {
      buf_kept = h.buf_is;
      one_each = frames;
      whole =
          ap joined frames
          ∙ joined-frames_of b kept (length-masked_buf f secrets ∙ ap length h.buf_is);
      rest_counted = ap (λ n. f.dropped + n) (ap length h.buf_is) ∙ h.rest_dropped;
      bounded = omega (arith, ap length h.buf_is, kept_reads_bound reads limit 0 (omega arith));
    }
