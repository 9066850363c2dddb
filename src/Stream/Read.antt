-- ===== src/Stream/Read.antt =====
-- internal/loadgen/sse_client.go: `execute` on the stream of a 200 response. Draining the body after
-- the terminator changes no record.
use percentes.Base.{
  ℕ, suc, ◌+◌, Bool, true, false, not, ◌&&◌, ◌||◌, Option, none, some, List, [], ◌∷◌, ◌++◌, ◌==◌,
  bytes_eq, bytes, if◌then◌else◌, ltb,
}
use percentes.Base.Int.{ℤ, pos, int_eq, ltb_ℤ, ◌-i◌, ◌*i◌, quo_i}
use percentes.Traffic.Requests.{completed, errored, censored}
use percentes.Sse.Events.{events}
use percentes.Stream.Json.{Raw, Decoder, is_some}
use percentes.Stream.Chunk.{Chunk, ResponseShape, no_chunk, parse_chunk}
use percentes.Stream.Messages.{parse_messages_event}
use percentes.Stream.Reply.{
  ErrClass, reset, malformed_stream, empty_stream, Request, Target, Times, record_chunk,
}

-- The request and the variables of the loop.
pub record Progress : Type 0 where
  pub request : Request
  pub content : List ℕ
  pub reasoning : List ℕ
  pub malformed : Bool
  pub saw_done : Bool
  pub prev_tok_ns : ℤ
  pub in_band_ns : ℤ

abbrev pub start : Request → Progress
start r = record {
  request = r;
  content = [];
  reasoning = [];
  malformed = false;
  saw_done = false;
  prev_tok_ns = pos 0;
  in_band_ns = pos 0;
}

-- An error of the stream: whether it is a deadline's or a reset connection's, and its redacted text.
pub record StreamError : Type 0 where
  pub deadline_exceeded : Bool
  pub is_reset : Bool
  pub text : List ℕ

abbrev pub event_limit : ℕ
event_limit = 1_048_576

-- releaseDeadline, of whether the profile is the release's and the shape's deadline in seconds.
unfoldable pub release_deadline : Bool → Option ℤ → ℤ
release_deadline false deadline_s = pos 0
release_deadline true none = pos 0
release_deadline true (some s) = s *i pos 1_000_000_000

module _ (d : Decoder) (t : Target) (sh : ResponseShape) where
  -- The switch of the function that Events calls.
  unfoldable pub decode : Raw → Option Chunk
  unfolding parse_chunk parse_messages_event
  decode payload =
      if t.messages
      then parse_messages_event d payload
      else if d.trim_space payload == bytes "[DONE]"
      then some (record no_chunk { end = true })
      else parse_chunk d sh payload

  -- A hosted stream's in-band error.
  abbrev pub fails : Chunk → Bool
  fails c = is_some c.err && t.hosted

  abbrev pub chunk_stops : Option Chunk → Bool
  chunk_stops none = true
  chunk_stops (some c) = c.end || fails c

  -- Whether that function ends the reading.
  unfoldable pub stops_at : Raw → Bool
  unfolding decode
  stops_at payload = chunk_stops (decode payload)

  -- A token's arrival.
  unfoldable pub add_token : ℤ → Progress → Progress
  add_token now p =
      let r = p.request in
      let timed =
        if r.first_tok_ns == pos 0
        then record r { tokens = r.tokens + 1; first_tok_ns = now }
        else record r {
          tokens = r.tokens + 1;
          itls_us = r.itls_us ++ quo_i (now -i p.prev_tok_ns) 1000 ∷ [];
        } in
      record p { request = timed; prev_tok_ns = now }

  unfoldable pub add_content : ℤ → List ℕ → Progress → Progress
  unfolding add_token
  add_content now [] p = p
  add_content now (b ∷ text) p =
      let p' = add_token now p in
      record p' { content = if t.hosted then p.content ++ b ∷ text else p.content }

  unfoldable pub add_chunk : Times → Chunk → Progress → Progress
  unfolding add_content record_chunk
  add_chunk at c p =
      let recorded = record p {
        request = record_chunk d t at.reasoning_ns c p.request;
        reasoning = if t.hosted then p.reasoning ++ c.reasoning else p.reasoning;
      } in
      let counted = add_content at.token_ns c.content recorded in
      if fails c then record counted { in_band_ns = at.error_ns } else counted

  abbrev pub on_chunk : Times → Option Chunk → Progress → Progress
  on_chunk at none p = record p { malformed = true }
  on_chunk at (some c) p = if c.end then record p { saw_done = true } else add_chunk at c p

  -- The calls on the payloads that are delivered; the number counts them.
  unfoldable pub read_payloads : (ℕ → Times) → ℕ → List Raw → Progress → Progress
  unfolding decode add_chunk
  read_payloads clock n [] p = p
  read_payloads clock n (payload ∷ payloads) p =
      read_payloads clock (suc n) payloads (on_chunk (clock n) (decode payload) p)

  -- classifyStreamErr
  unfoldable pub classify_stream_err : StreamError → ℤ → Request → Request
  classify_stream_err e now r =
      let told = record r { done_ns = now; err_text = e.text } in
      if e.deadline_exceeded
      then record told { outcome = some censored }
      else if e.is_reset
      then record told { outcome = some errored; err_class = reset }
      else record told { outcome = some errored; err_class = malformed_stream }

  -- The last case of the switch: the stream ended.
  unfoldable pub complete : ℤ → Request → Request
  complete now r =
      let done = record r { outcome = some completed; done_ns = now } in
      if ltb_ℤ (pos 0) t.deadline_ns
      then record done { late = ltb_ℤ t.deadline_ns (now -i r.intended_ns) }
      else done

  abbrev pub end_errored : ErrClass → ℤ → Request → Request
  end_errored class now r = record r { outcome = some errored; err_class = class; done_ns = now }

  -- The switch after the loop, given the error of Events.
  abbrev pub settle : Option StreamError → ℕ → ℤ → Progress → Request → Request
  settle (some e) dropped now p r = classify_stream_err e now r
  settle none dropped now p r =
      if ltb_ℤ (pos 0) p.in_band_ns
      then end_errored malformed_stream p.in_band_ns r
      else if p.malformed || (ltb 0 dropped || not p.saw_done)
      then end_errored malformed_stream now r
      else if r.first_tok_ns == pos 0
      then end_errored empty_stream now r
      else complete now r

  -- `execute` from the first byte of the body on, on the lines that the scanner finds and its error.
  unfoldable pub read_body :
      (ℕ → Times) → List (List ℕ) → Option StreamError → ℤ → Request → Request
  unfolding read_payloads stops_at classify_stream_err complete
  read_body clock ls failure now r =
      let out = events stops_at event_limit ls in
      let p = read_payloads clock 0 out.payloads (start r) in
      settle failure out.dropped now p
        (record p.request { content = p.content; reasoning = p.reasoning })
