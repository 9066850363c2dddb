-- ===== src/Stream/Kept.antt =====
-- What a frame recorder holds of a body.
use percentes.Base.{
  ℕ, ◌+◌, ◌≡◌, refl, sym, ap, ◌∙◌, Bool, true, false, List, [], ◌∷◌, ◌++◌, nat_eq, if◌then◌else◌,
  arith, is_empty, ltb, length, length-append, append_assoc, append-nil,
}
use mathlib.Core.Path.{subst}
use percentes.Base.Int.{ℤ}
use percentes.Stream.Frames.{FrameRecorder, read, read_all}

-- The reads with bytes, up to the first with which they pass the limit; `held` bytes come before.
unfoldable pub kept_reads : ℕ → ℕ → List (List ℕ × ℤ) → List (List ℕ × ℤ)
kept_reads limit held [] = []
kept_reads limit held ((bytes, t) ∷ reads) =
    let rest = kept_reads limit (held + length bytes) reads in
    if is_empty bytes
    then rest
    else if ltb limit (held + length bytes)
    then []
    else (bytes, t) ∷ rest

abbrev pub bytes_of : List (List ℕ × ℤ) → List ℕ
bytes_of [] = []
bytes_of ((bytes, t) ∷ reads) = bytes ++ bytes_of reads

abbrev pub times_of : List (List ℕ × ℤ) → List ℤ
times_of [] = []
times_of ((bytes, t) ∷ reads) = t ∷ times_of reads

-- The ends of the reads, after `held` bytes.
abbrev pub ends_of : ℕ → List (List ℕ × ℤ) → List ℕ
ends_of held [] = []
ends_of held ((bytes, t) ∷ reads) = (held + length bytes) ∷ ends_of (held + length bytes) reads

-- A recorder of a limit, some frames and dropped bytes.
abbrev pub recorder : ℕ → List ℕ → List ℕ → List ℤ → Bool → ℕ → FrameRecorder
recorder limit buf ends ns full dropped = record {
  limit = limit;
  buf = buf;
  ends = ends;
  ns = ns;
  full = full;
  dropped = dropped;
}

-- A full recorder only counts.
read-full :
    (bytes : List ℕ) (t : ℤ) (limit : ℕ) (buf ends : List ℕ) (ns : List ℤ) (dropped : ℕ)
    → read bytes t (recorder limit buf ends ns true dropped)
      ≡ recorder limit buf ends ns true (dropped + length bytes)
unfolding read
read-full [] t limit buf ends ns dropped = ap (recorder limit buf ends ns true) (omega arith)
read-full (c ∷ bytes) t limit buf ends ns dropped = refl

read_all-full :
    (reads : List (List ℕ × ℤ)) (limit : ℕ) (buf ends : List ℕ) (ns : List ℤ) (dropped : ℕ)
    → read_all reads (recorder limit buf ends ns true dropped)
      ≡ recorder limit buf ends ns true (dropped + length (bytes_of reads))
unfolding read_all
read_all-full [] limit buf ends ns dropped = ap (recorder limit buf ends ns true) (omega arith)
read_all-full ((bytes, t) ∷ reads) limit buf ends ns dropped =
    ap (read_all reads) (read-full bytes t limit buf ends ns dropped)
    ∙ read_all-full reads limit buf ends ns (dropped + length bytes)
    ∙ ap (recorder limit buf ends ns true) (omega (arith, length-append bytes (bytes_of reads)))

-- The recorder after some reads: what it kept of them follows what it had, the rest it counted.
pub record Holds (buf ends : List ℕ) (ns : List ℤ) (kept reads : List (List ℕ × ℤ))
    (f : FrameRecorder) : Type 0 where
  pub buf_is : f.buf ≡ buf ++ bytes_of kept
  pub ends_is : f.ends ≡ ends ++ ends_of (length buf) kept
  pub ns_is : f.ns ≡ ns ++ times_of kept
  pub rest_dropped : f.dropped + length (bytes_of kept) ≡ length (bytes_of reads)

-- Of a read that is kept.
Holds-cons :
    (bytes : List ℕ) (t : ℤ) (buf ends : List ℕ) (ns : List ℤ) (kept reads : List (List ℕ × ℤ))
    (f : FrameRecorder)
    → Holds (buf ++ bytes) (ends ++ length (buf ++ bytes) ∷ []) (ns ++ t ∷ []) kept reads f
    → Holds buf ends ns ((bytes, t) ∷ kept) ((bytes, t) ∷ reads) f
Holds-cons bytes t buf ends ns kept reads f h = record {
  buf_is = h.buf_is ∙ append_assoc buf bytes (bytes_of kept);
  ends_is =
      h.ends_is
      ∙ append_assoc ends (length (buf ++ bytes) ∷ []) (ends_of (length (buf ++ bytes)) kept)
      ∙ ap (λ n. ends ++ n ∷ ends_of n kept) (length-append buf bytes);
  ns_is = h.ns_is ∙ append_assoc ns (t ∷ []) (times_of kept);
  rest_dropped = omega (
    arith,
    h.rest_dropped,
    length-append bytes (bytes_of kept),
    length-append bytes (bytes_of reads),
  );
}

Holds-full :
    (bytes : List ℕ) (t : ℤ) (buf ends : List ℕ) (ns : List ℤ) (reads : List (List ℕ × ℤ))
    (limit : ℕ)
    → Holds buf ends ns []
        ((bytes, t) ∷ reads)
        (read_all reads (recorder limit buf ends ns true (0 + length bytes)))
Holds-full bytes t buf ends ns reads limit =
    subst (Holds buf ends ns [] ((bytes, t) ∷ reads))
      (sym (read_all-full reads limit buf ends ns (0 + length bytes)))
      (record {
        buf_is = sym (append-nil buf);
        ends_is = sym (append-nil ends);
        ns_is = sym (append-nil ns);
        rest_dropped = omega (arith, length-append bytes (bytes_of reads));
      })

Holds-if :
    (over : Bool) (bytes : List ℕ) (t : ℤ) (buf ends : List ℕ) (ns : List ℤ)
    (kept reads : List (List ℕ × ℤ)) (limit : ℕ)
    → Holds (buf ++ bytes) (ends ++ length (buf ++ bytes) ∷ []) (ns ++ t ∷ []) kept reads (
        read_all reads (
          recorder limit
            (buf ++ bytes)
            (ends ++ length (buf ++ bytes) ∷ [])
            (ns ++ t ∷ [])
            false
            0))
    → Holds buf ends ns (if over then [] else (bytes, t) ∷ kept) ((bytes, t) ∷ reads) (
        read_all reads (
          if over
          then recorder limit buf ends ns true (0 + length bytes)
          else recorder limit
              (buf ++ bytes)
              (ends ++ length (buf ++ bytes) ∷ [])
              (ns ++ t ∷ [])
              false
              0))
Holds-if true bytes t buf ends ns kept reads limit h = Holds-full bytes t buf ends ns reads limit
Holds-if false bytes t buf ends ns kept reads limit h =
    Holds-cons bytes t buf ends ns kept reads _ h

pub read_all-Holds :
    (reads : List (List ℕ × ℤ)) (limit : ℕ) (buf ends : List ℕ) (ns : List ℤ)
    → Holds buf ends ns
        (kept_reads limit (length buf) reads)
        reads
        (read_all reads (recorder limit buf ends ns false 0))
unfolding read_all kept_reads read
read_all-Holds [] limit buf ends ns = record {
  buf_is = sym (append-nil buf);
  ends_is = sym (append-nil ends);
  ns_is = sym (append-nil ns);
  rest_dropped = refl;
}
read_all-Holds (([], t) ∷ reads) limit buf ends ns =
    let h = read_all-Holds reads limit buf ends ns in
    let e : length buf + 0 ≡ length buf = omega arith in
    rw e (record {
      buf_is = h.buf_is;
      ends_is = h.ends_is;
      ns_is = h.ns_is;
      rest_dropped = h.rest_dropped;
    })
read_all-Holds ((c ∷ bytes, t) ∷ reads) limit buf ends ns =
    let h =
      read_all-Holds reads limit (buf ++ c ∷ bytes) (ends ++ length (buf ++ c ∷ bytes) ∷ [])
        (ns ++ t ∷ []) in
    Holds-if (ltb limit (length buf + length (c ∷ bytes))) (c ∷ bytes) t buf ends ns
      (kept_reads limit (length buf + length (c ∷ bytes)) reads) reads limit
      (subst
        (λ n.
          Holds (buf ++ c ∷ bytes) (ends ++ length (buf ++ c ∷ bytes) ∷ []) (ns ++ t ∷ [])
            (kept_reads limit n reads) reads
            (read_all reads (
              recorder limit (buf ++ c ∷ bytes) (ends ++ length (buf ++ c ∷ bytes) ∷ [])
                (ns ++ t ∷ []) false 0)))
        (length-append buf (c ∷ bytes)) h)
