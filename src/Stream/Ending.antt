-- ===== src/Stream/Ending.antt =====
-- How a stream that was read ends its request.
use percentes.Base.{
  ℕ, suc, ◌≡◌, ◌≢◌, ◌↔◌, refl, ap, ◌∙◌, Bool, true, false, not, ◌&&◌, ◌||◌, Option, none, some,
  List, [], ◌∷◌, ◌++◌, ◌==◌, if◌then◌else◌, is_empty, arith,
}
use percentes.Base.Int.{ℤ, pos, negsuc, int_eq, ltb_ℤ}
use percentes.Traffic.Requests.{completed, censored}
use percentes.Sse.Events.{events, Outcome}
use percentes.Stream.Json.{Raw, Decoder}
use percentes.Stream.Chunk.{Chunk, ResponseShape}
use percentes.Stream.Reply.{Request, Target, Times, record_chunk}
use percentes.Stream.Read.{
  Progress, StreamError, start, decode, fails, add_token, add_content, add_chunk, on_chunk,
  read_payloads, read_body, settle, stops_at, event_limit, complete, classify_stream_err,
}
use percentes.Stream.Tokens.{text_of, token_times, first_or_zero}
use percentes.Stream.Counts.{Unread, IsRunning, read_payloads-IsCounted, times-AllSet}

abbrev pub is_bad : Option Chunk → Bool
is_bad none = true
is_bad (some c) = false

abbrev pub is_end : Option Chunk → Bool
is_end none = false
is_end (some c) = c.end

abbrev pub has_text : Option Chunk → Bool
has_text o = not (is_empty (text_of o))

or_assoc : (a b c : Bool) → ((a || b) || c) ≡ (a || (b || c))
or_assoc a b c = ground arith

first-if :
    (skip : Bool) (now : ℤ) (times : List ℤ) (later : Bool)
    → ltb_ℤ (pos 0) now ≡ true
    → (first_or_zero times == pos 0) ≡ not later
    → (first_or_zero (if skip then times else now ∷ times) == pos 0) ≡ not (not skip || later)
first-if true now times later h k = k
first-if false (pos n) times later h k = ground arith
first-if false (negsuc n) times later h k = ground arith

module _ (d : Decoder) (t : Target) (sh : ResponseShape) where
  abbrev pub is_failed : Option Chunk → Bool
  is_failed none = false
  is_failed (some c) = not c.end && fails d t sh c

  -- A payload that decodes to one that passes a test.
  abbrev pub any : (Option Chunk → Bool) → List Raw → Bool
  any test [] = false
  any test (payload ∷ payloads) = test (decode d t sh payload) || any test payloads

  -- What the switch after the loop tests.
  record Flags (bad end failed : Bool) (p : Progress) : Type 0 where
    bad_is : p.malformed ≡ bad
    end_is : p.saw_done ≡ end
    failed_is : ltb_ℤ (pos 0) p.in_band_ns ≡ failed

  add_content-Flags :
      (now : ℤ) (text : List ℕ) (p : Progress) (bad end failed : Bool)
      → Flags bad end failed p
      → Flags bad end failed (add_content d t sh now text p)
  unfolding add_content add_token
  add_content-Flags now [] p bad end failed h = h
  add_content-Flags now (b ∷ text) p bad end failed h = record {
    bad_is = h.bad_is;
    end_is = h.end_is;
    failed_is = h.failed_is;
  }

  Flags-if :
      (at_end fail : Bool) (now : ℤ) (p q : Progress) (bad end failed : Bool)
      → ltb_ℤ (pos 0) now ≡ true
      → Flags bad end failed p
      → Flags bad end failed q
      → Flags (bad || false) (end || at_end) (failed || (not at_end && fail)) (
          if at_end
          then record p { saw_done = true }
          else if fail
          then record q { in_band_ns = now }
          else q)
  Flags-if true fail now p q bad end failed set h k = record {
    bad_is = h.bad_is ∙ ground arith;
    end_is = ground arith;
    failed_is = h.failed_is ∙ ground arith;
  }
  Flags-if false true now p q bad end failed set h k = record {
    bad_is = k.bad_is ∙ ground arith;
    end_is = k.end_is ∙ ground arith;
    failed_is = set ∙ ground arith;
  }
  Flags-if false false now p q bad end failed set h k = record {
    bad_is = k.bad_is ∙ ground arith;
    end_is = k.end_is ∙ ground arith;
    failed_is = k.failed_is ∙ ground arith;
  }

  on_chunk-Flags :
      (at : Times) (o : Option Chunk) (p : Progress) (bad end failed : Bool)
      → ltb_ℤ (pos 0) at.error_ns ≡ true
      → Flags bad end failed p
      → Flags (bad || is_bad o) (end || is_end o) (failed || is_failed o) (on_chunk d t sh at o p)
  unfolding add_chunk
  on_chunk-Flags at none p bad end failed set h = record {
    bad_is = ground arith;
    end_is = h.end_is ∙ ground arith;
    failed_is = h.failed_is ∙ ground arith;
  }
  on_chunk-Flags at (some c) p bad end failed set h =
      let recorded = record p {
        request = record_chunk d t at.reasoning_ns c p.request;
        reasoning = if t.hosted then p.reasoning ++ c.reasoning else p.reasoning;
      } in
      Flags-if c.end (fails d t sh c) at.error_ns p
        (add_content d t sh at.token_ns c.content recorded) bad end failed set h
        (add_content-Flags at.token_ns c.content recorded bad end failed
          (record { bad_is = h.bad_is; end_is = h.end_is; failed_is = h.failed_is }))

  read_payloads-Flags :
      (clock : ℕ → Times)
      → IsRunning clock
      → (n : ℕ) (payloads : List Raw) (p : Progress) (bad end failed : Bool)
      → Flags bad end failed p
      → Flags
          (bad || any is_bad payloads)
          (end || any is_end payloads)
          (failed || any is_failed payloads)
          (read_payloads d t sh clock n payloads p)
  unfolding read_payloads
  read_payloads-Flags clock run n [] p bad end failed h = record {
    bad_is = h.bad_is ∙ ground arith;
    end_is = h.end_is ∙ ground arith;
    failed_is = h.failed_is ∙ ground arith;
  }
  read_payloads-Flags clock run n (payload ∷ payloads) p bad end failed h =
      let o = decode d t sh payload in
      let k =
        read_payloads-Flags clock run (suc n) payloads (on_chunk d t sh (clock n) o p)
          (bad || is_bad o) (end || is_end o) (failed || is_failed o)
          (on_chunk-Flags (clock n) o p bad end failed (run.error_set n) h) in
      record {
        bad_is = k.bad_is ∙ or_assoc bad _ _;
        end_is = k.end_is ∙ or_assoc end _ _;
        failed_is = k.failed_is ∙ or_assoc failed _ _;
      }

  -- The first token's time is set exactly where a payload has a text.
  times-has_text :
      (clock : ℕ → Times)
      → IsRunning clock
      → (n : ℕ) (payloads : List Raw)
      → (first_or_zero (token_times d t sh clock n payloads) == pos 0) ≡ not (any has_text payloads)
  unfolding token_times
  times-has_text clock run n [] = refl
  times-has_text clock run n (payload ∷ payloads) =
      first-if (is_empty (text_of (decode d t sh payload))) (clock n).token_ns
        (token_times d t sh clock (suc n) payloads) (any has_text payloads) (run.token_set n)
        (times-has_text clock run (suc n) payloads)

  -- A stream that ended well: it was read without an error and with no event too long, its terminator
  -- came, each of its payloads decodes, none is an error that ends a hosted stream, and one has a text.
  pub record EndsWell (failure : Option StreamError) (out : Outcome) : Type 0 where
    pub no_failure : failure ≡ none
    pub none_dropped : out.dropped ≡ 0
    pub none_bad : any is_bad out.payloads ≡ false
    pub terminated : any is_end out.payloads ≡ true
    pub none_failed : any is_failed out.payloads ≡ false
    pub answered : any has_text out.payloads ≡ true

  -- How a request stands when its body has been read.
  pub record IsSettled (failure : Option StreamError) (out : Outcome) (r : Request) : Type 0 where
    pub completed_iff : (r.outcome ≡ some completed) ↔ EndsWell failure out
    pub censored_iff :
        (r.outcome ≡ some censored)
        ↔ ((e : StreamError) × (failure ≡ some e) × (e.deadline_exceeded ≡ true))
    pub terminal : r.outcome ≢ none

  settle-IsSettled :
      (failure : Option StreamError) (out : Outcome) (now : ℤ) (p : Progress) (r : Request)
      → Flags (any is_bad out.payloads) (any is_end out.payloads) (any is_failed out.payloads) p
      → (r.first_tok_ns == pos 0) ≡ not (any has_text out.payloads)
      → IsSettled failure out (settle d t sh failure out.dropped now p r)
  unfolding complete classify_stream_err
  settle-IsSettled (some e) out now p r h k = record {
    completed_iff = (λ q. absurd (ground arith), λ w. absurd (ground (arith, w.no_failure)));
    censored_iff = (λ q. (e, refl, ground arith), λ (f, same, late). ground arith);
    terminal = λ q. ground arith;
  }
  settle-IsSettled none out now p r h k = record {
    completed_iff = (
      λ q. record {
        no_failure = refl;
        none_dropped = ground arith;
        none_bad = ground arith;
        terminated = ground arith;
        none_failed = ground arith;
        answered = ground arith;
      },
      λ w. ground arith,
    );
    censored_iff = (λ q. absurd (ground arith), λ (f, same, late). absurd (ground arith));
    terminal = λ q. ground arith;
  }

  -- For a request that has read nothing, where the clock's values are above 0: when `execute` has read
  -- the body, the request is settled. It is completed exactly where the body was read without an error
  -- and with no event too long, its terminator came, each delivered payload decodes, none is an error
  -- that ends a hosted stream, and one has content; and censored exactly where the reading failed
  -- with a deadline's error.
  pub read_body-IsSettled :
      (clock : ℕ → Times) (ls : List (List ℕ)) (failure : Option StreamError) (now : ℤ)
      (r : Request)
      → Unread r
      → IsRunning clock
      → IsSettled failure
          (events (stops_at d t sh) event_limit ls)
          (read_body d t sh clock ls failure now r)
  unfolding read_body
  read_body-IsSettled clock ls failure now r u run =
      let out = events (stops_at d t sh) event_limit ls in
      let p = read_payloads d t sh clock 0 out.payloads (start r) in
      let counts =
        read_payloads-IsCounted d t sh clock out.payloads r u
          (times-AllSet d t sh clock run 0 out.payloads) in
      settle-IsSettled failure out now p
        (record p.request { content = p.content; reasoning = p.reasoning })
        (read_payloads-Flags clock run 0 out.payloads (start r) false false false
          (record { bad_is = refl; end_is = refl; failed_is = refl }))
        (ap (λ (n : ℤ). n == pos 0) counts.first_kept ∙ times-has_text clock run 0 out.payloads)
