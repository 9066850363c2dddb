-- ===== src/Stream/Counts.antt =====
-- What a request has of its tokens when its stream has been read.
use percentes.Base.{
  ℕ, suc, ◌+◌, ◌≡◌, refl, ap, ◌∙◌, Bool, true, false, Option, none, some, List, [], ◌∷◌, ◌++◌, ◌==◌,
  if◌then◌else◌, is_empty, length, arith, append_assoc, append-nil,
}
use percentes.Base.Int.{ℤ, pos, negsuc, int_eq, ltb_ℤ, ◌-i◌, quo_i}
use percentes.Sse.Events.{events}
use percentes.Stream.Json.{Raw, Decoder}
use percentes.Stream.Chunk.{Chunk, ResponseShape}
use percentes.Stream.Reply.{Request, Target, Times, record_chunk}
use percentes.Stream.Read.{
  Progress, StreamError, start, decode, fails, add_token, add_content, add_chunk, on_chunk,
  read_payloads, read_body, settle, stops_at, event_limit, complete, classify_stream_err,
}
use percentes.Stream.Tokens.{
  gaps, first_or_zero, text_of, token_times, whole_text, Tally, tally_at, count_times, last_of,
  read_payloads-tally_at,
}

-- Every time is set.
abbrev pub AllSet : List ℤ → Type 0
AllSet [] = Unit
AllSet (now ∷ times) = ((now == pos 0) ≡ false) × AllSet times

tally_eq :
    {m n : ℕ} {first prev : ℤ} {xs ys : List ℤ}
    → m ≡ n
    → xs ≡ ys
    → ◌≡◌ {A = Tally}
        (record { tokens = m; first_ns = first; prev_ns = prev; gaps_us = xs })
        (record { tokens = n; first_ns = first; prev_ns = prev; gaps_us = ys })
tally_eq e f = cc

AllSet-if :
    (skip : Bool) (now : ℤ) (times : List ℤ)
    → ltb_ℤ (pos 0) now ≡ true
    → AllSet times
    → AllSet (if skip then times else now ∷ times)
AllSet-if true now times h k = k
AllSet-if false (pos n) times h k = (ground arith, k)
AllSet-if false (negsuc n) times h k = (ground arith, k)

-- The clock's values are above 0.
pub record IsRunning (clock : ℕ → Times) : Type 0 where
  pub token_set : (n : ℕ) → ltb_ℤ (pos 0) (clock n).token_ns ≡ true
  pub error_set : (n : ℕ) → ltb_ℤ (pos 0) (clock n).error_ns ≡ true

-- After a token at `prev`.
count_times-later :
    (times : List ℤ) (tokens : ℕ) (first prev : ℤ) (before : List ℤ)
    → (first == pos 0) ≡ false
    → count_times times
        (record { tokens = tokens; first_ns = first; prev_ns = prev; gaps_us = before })
      ≡ record {
        tokens = tokens + length times;
        first_ns = first;
        prev_ns = last_of prev times;
        gaps_us = before ++ gaps (prev ∷ times);
      }
unfolding gaps
count_times-later [] tokens first prev before h = ground (arith, append-nil before)
count_times-later (now ∷ times) tokens first prev before h = rw h (
    count_times-later times (tokens + 1) first now (before ++ quo_i (now -i prev) 1000 ∷ []) h
    ∙ tally_eq (omega arith) (append_assoc before _ _))

-- The loop's counts of some times.
pub record IsCounted (times : List ℤ) (r : Request) : Type 0 where
  pub one_each : r.tokens ≡ length times
  pub first_kept : r.first_tok_ns ≡ first_or_zero times
  pub gaps_kept : r.itls_us ≡ gaps times

-- A request that has read nothing.
pub record Unread (r : Request) : Type 0 where
  pub no_tokens : r.tokens ≡ 0
  pub no_first : r.first_tok_ns ≡ pos 0
  pub no_gaps : r.itls_us ≡ []

abbrev tally_of : List ℤ → Tally
tally_of times = record {
  tokens = length times;
  first_ns = first_or_zero times;
  prev_ns = last_of (pos 0) times;
  gaps_us = gaps times;
}

count_times-none :
    (times : List ℤ)
    → AllSet times
    → count_times times (record { tokens = 0; first_ns = pos 0; prev_ns = pos 0; gaps_us = [] })
      ≡ tally_of times
unfolding gaps
count_times-none [] h = refl
count_times-none (now ∷ times) h =
    count_times-later times 1 now now [] h.0 ∙ tally_eq (omega arith) refl

module _ (d : Decoder) (t : Target) (sh : ResponseShape) where
  pub read_payloads-IsCounted :
      (clock : ℕ → Times) (payloads : List Raw) (r : Request)
      → Unread r
      → AllSet (token_times d t sh clock 0 payloads)
      → IsCounted
          (token_times d t sh clock 0 payloads)
          (read_payloads d t sh clock 0 payloads (start r)).request
  read_payloads-IsCounted clock payloads r u h =
      let times = token_times d t sh clock 0 payloads in
      let begun : tally_at (start r)
          ≡ record { tokens = 0; first_ns = pos 0; prev_ns = pos 0; gaps_us = [] } =
        cc in
      let e =
        read_payloads-tally_at d t sh clock 0 payloads (start r)
        ∙ ap (count_times times) begun
        ∙ count_times-none times h in
      record {
        one_each = ap (λ (a : Tally). a.tokens) e;
        first_kept = ap (λ (a : Tally). a.first_ns) e;
        gaps_kept = ap (λ (a : Tally). a.gaps_us) e;
      }

  add_content-content :
      (now : ℤ) (text : List ℕ) (p : Progress)
      → (add_content d t sh now text p).content
        ≡ (if t.hosted then p.content ++ text else p.content)
  unfolding add_content add_token
  add_content-content now [] p = ground (arith, append-nil p.content)
  add_content-content now (b ∷ text) p = ground arith

  content-if :
      (end failed : Bool) (now : ℤ) (text : List ℕ) (p q : Progress)
      → q.content ≡ (if t.hosted then p.content ++ text else p.content)
      → (if end
          then record p { saw_done = true }
          else if failed
          then record q { in_band_ns = now }
          else q).content
        ≡ (if t.hosted then p.content ++ (if end then [] else text) else p.content)
  content-if true failed now text p q h = ground (arith, append-nil p.content)
  content-if false true now text p q h = h
  content-if false false now text p q h = h

  on_chunk-content :
      (at : Times) (o : Option Chunk) (p : Progress)
      → (on_chunk d t sh at o p).content ≡ (if t.hosted then p.content ++ text_of o else p.content)
  unfolding add_chunk
  on_chunk-content at none p = ground (arith, append-nil p.content)
  on_chunk-content at (some c) p =
      let recorded = record p {
        request = record_chunk d t at.reasoning_ns c p.request;
        reasoning = if t.hosted then p.reasoning ++ c.reasoning else p.reasoning;
      } in
      content-if c.end (fails d t sh c) at.error_ns c.content p
        (add_content d t sh at.token_ns c.content recorded)
        (add_content-content at.token_ns c.content recorded)

  read_payloads-content :
      (clock : ℕ → Times) (n : ℕ) (payloads : List Raw) (p : Progress)
      → (read_payloads d t sh clock n payloads p).content
        ≡ (if t.hosted then p.content ++ whole_text d t sh payloads else p.content)
  unfolding read_payloads whole_text
  read_payloads-content clock n [] p = ground (arith, append-nil p.content)
  read_payloads-content clock n (payload ∷ payloads) p =
      let o = decode d t sh payload in
      let p' = on_chunk d t sh (clock n) o p in
      ground (
        arith,
        read_payloads-content clock (suc n) payloads p',
        on_chunk-content (clock n) o p,
        append_assoc p.content (text_of o) (whole_text d t sh payloads),
      )

  settle-IsCounted :
      (failure : Option StreamError) (dropped : ℕ) (now : ℤ) (p : Progress) (r : Request)
      (times : List ℤ)
      → IsCounted times r
      → IsCounted times (settle d t sh failure dropped now p r)
  unfolding complete classify_stream_err
  settle-IsCounted (some e) dropped now p r times h = ground arith
  settle-IsCounted none dropped now p r times h = ground arith

  settle-content :
      (failure : Option StreamError) (dropped : ℕ) (now : ℤ) (p : Progress) (r : Request)
      → (settle d t sh failure dropped now p r).content ≡ r.content
  unfolding complete classify_stream_err
  settle-content (some e) dropped now p r = ground arith
  settle-content none dropped now p r = ground arith

  pub times-AllSet :
      (clock : ℕ → Times)
      → IsRunning clock
      → (n : ℕ) (payloads : List Raw) → AllSet (token_times d t sh clock n payloads)
  unfolding token_times
  times-AllSet clock h n [] = tt
  times-AllSet clock h n (payload ∷ payloads) =
      AllSet-if (is_empty (text_of (decode d t sh payload))) (clock n).token_ns
        (token_times d t sh clock (suc n) payloads) (h.token_set n)
        (times-AllSet clock h (suc n) payloads)

  -- For a request that has read nothing, where the clock's values are above 0: when `execute` has read
  -- the body, whatever ended it, there is a token for each delivered payload that decodes to a chunk
  -- with content and is not the end; the first token's time is that of the first of them, the gaps are
  -- the differences of their times in microseconds, and the content is, for a hosted target, their
  -- texts joined, for another empty.
  pub read_body-IsCounted :
      (clock : ℕ → Times) (ls : List (List ℕ)) (failure : Option StreamError) (now : ℤ)
      (r : Request)
      → Unread r
      → IsRunning clock
      → IsCounted
          (token_times d t sh clock 0 (events (stops_at d t sh) event_limit ls).payloads)
          (read_body d t sh clock ls failure now r)
        × ((read_body d t sh clock ls failure now r).content ≡ (
            if t.hosted
            then whole_text d t sh (events (stops_at d t sh) event_limit ls).payloads
            else []))
  unfolding read_body
  read_body-IsCounted clock ls failure now r u h =
      let out = events (stops_at d t sh) event_limit ls in
      let p = read_payloads d t sh clock 0 out.payloads (start r) in
      let k =
        read_payloads-IsCounted clock out.payloads r u (times-AllSet clock h 0 out.payloads) in
      let closed = record p.request { content = p.content; reasoning = p.reasoning } in
      (
        settle-IsCounted failure out.dropped now p closed _
            (record { one_each = k.one_each; first_kept = k.first_kept; gaps_kept = k.gaps_kept }),
        settle-content failure out.dropped now p closed
            ∙ read_payloads-content clock 0 out.payloads (start r),
      )
