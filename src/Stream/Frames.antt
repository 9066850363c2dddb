-- ===== src/Stream/Frames.antt =====
-- internal/loadgen/sse_client.go: frameRecorder, which keeps the timed reads of a body. The reads are
-- the bytes that each call of Read returned and the clock's value then. Lengths are below the bound of
-- an `int`.
use percentes.Base.{
  ℕ, zero, suc, ◌+◌, ◌-◌, Bool, true, false, ◌&&◌, ◌||◌, List, [], ◌∷◌, ◌++◌, ◌==◌, bytes_eq,
  if◌then◌else◌, is_empty, length, take, drop, ltb, leb,
}
use percentes.Base.Int.{ℤ}
use percentes.Stream.Secrets.{asterisk, mask_all}

pub record Frame : Type 0 where
  pub ns : ℤ
  pub bytes_ : List ℕ

pub record FrameRecorder : Type 0 where
  pub limit : ℕ
  pub buf : List ℕ
  pub ends : List ℕ
  pub ns : List ℤ
  pub full : Bool
  pub dropped : ℕ

abbrev pub frame_limit : ℕ
frame_limit = 8_388_608

abbrev pub new_recorder : ℕ → FrameRecorder
new_recorder limit = record {
  limit = limit;
  buf = [];
  ends = [];
  ns = [];
  full = false;
  dropped = 0;
}

-- frameRecorder.Read, once the reader below returned some bytes.
unfoldable pub read : List ℕ → ℤ → FrameRecorder → FrameRecorder
read bytes t f =
    if is_empty bytes
    then f
    else if f.full || ltb f.limit (length f.buf + length bytes)
    then record f { full = true; dropped = f.dropped + length bytes }
    else record f {
      buf = f.buf ++ bytes;
      ends = f.ends ++ length (f.buf ++ bytes) ∷ [];
      ns = f.ns ++ t ∷ [];
    }

unfoldable pub read_all : List (List ℕ × ℤ) → FrameRecorder → FrameRecorder
unfolding read
read_all [] f = f
read_all ((bytes, t) ∷ reads) f = read_all reads (read bytes t f)

-- bytes.HasSuffix(b, suffix), the suffix first.
unfoldable pub has_suffix : List ℕ → List ℕ → Bool
has_suffix suffix b = leb (length suffix) (length b) && drop (length b - length suffix) b == suffix

-- The inner loop of maskSecretPrefixTail, at k.
unfoldable pub tail_from : List ℕ → List ℕ → ℕ → ℕ → ℕ
unfolding has_suffix
tail_from s b longest zero = longest
tail_from s b longest (suc k) =
    let below = tail_from s b longest k in
    if ltb longest (suc k) then if has_suffix (take (suc k) s) b then suc k else below else longest

-- Its outer loop.
unfoldable pub longest_tail : List (List ℕ) → List ℕ → ℕ → ℕ
unfolding tail_from
longest_tail [] b longest = longest
longest_tail (s ∷ secrets) b longest = longest_tail secrets b (tail_from s b longest (length s - 1))

unfoldable pub asterisks : ℕ → List ℕ
asterisks zero = []
asterisks (suc n) = asterisk ∷ asterisks n

-- maskSecretPrefixTail
unfoldable pub mask_secret_prefix_tail : List ℕ → List (List ℕ) → List ℕ
unfolding longest_tail asterisks
mask_secret_prefix_tail b secrets =
    let longest = longest_tail secrets b 0 in take (length b - longest) b ++ asterisks longest

-- The loop of result over the ends, from `start` on; the two lists have one length.
unfoldable pub cut : List ℕ → ℕ → List ℕ → List ℤ → List Frame
cut b start [] ns = []
cut b start (end ∷ ends) [] = []
cut b start (end ∷ ends) (t ∷ ns) =
    record { ns = t; bytes_ = take (end - start) (drop start b) } ∷ cut b end ends ns

-- The bytes of result's frames.
unfoldable pub masked_buf : FrameRecorder → List (List ℕ) → List ℕ
unfolding mask_all mask_secret_prefix_tail
masked_buf f secrets =
    let b = mask_all secrets f.buf in
    if ltb 0 f.dropped then mask_secret_prefix_tail b secrets else b

-- frameRecorder.result
unfoldable pub result : FrameRecorder → List (List ℕ) → List Frame × ℕ
unfolding masked_buf cut
result f secrets = (cut (masked_buf f secrets) 0 f.ends f.ns, f.dropped)
