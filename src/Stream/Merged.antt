-- ===== src/Stream/Merged.antt =====
-- The usage of a request: the usage objects of its stream, laid over one another.
use percentes.Base.{
  ℕ, suc, ◌≡◌, refl, sym, ap, ◌∙◌, Bool, true, false, Option, none, some, List, [], ◌∷◌, ◌+◌, ◌++◌,
  bytes_eq, if◌then◌else◌, arith, All,
}
use mathlib.Core.Option
use percentes.Base.Int.{ℤ}
use percentes.Sse.Events.{events}
use percentes.Stream.Json.{Raw, Decoder}
use percentes.Stream.Chunk.{Chunk, ResponseShape}
use percentes.Stream.Usage.{merge_usage}
use percentes.Stream.Reply.{
  Request, Target, Times, record_chunk, record_usage, record_names, record_texts,
}
use percentes.Stream.Read.{
  Progress, StreamError, start, decode, fails, add_token, add_content, add_chunk, on_chunk,
  read_payloads, read_body, settle, stops_at, event_limit, complete, classify_stream_err,
}
use percentes.Stream.Json.{completion_tokens}
use percentes.Stream.Reply.{count_tokens, add_usage}
use percentes.Stream.Overlay.{
  or_else, IsJson, value_at, last_value, IsObject, merge_all, value_at-merge_all, value_at-nil,
  or_else-none,
}

-- The usage objects of the payloads that decode to a chunk which is not the end.
abbrev pub usage_in : Option Chunk → Option Raw
usage_in none = none
usage_in (some c) = if c.end then none else c.usage

abbrev pub put_some : Option Raw → List Raw → List Raw
put_some none us = us
put_some (some u) us = u ∷ us

module _ (d : Decoder) (t : Target) (sh : ResponseShape) where
  unfoldable pub usages : List Raw → List Raw
  usages [] = []
  usages (payload ∷ payloads) = put_some (usage_in (decode d t sh payload)) (usages payloads)

  count_tokens-usage :
      (n : Option ℤ) (messages : Bool) (r : Request)
      → (count_tokens d t n messages r).usage ≡ r.usage
  count_tokens-usage (some n) true r = refl
  count_tokens-usage (some n) false r = refl
  count_tokens-usage none messages r = refl

  add_usage-usage :
      (o : Option Raw) (messages : Bool) (r : Request)
      → (add_usage d t o messages r).usage ≡ merge_all d r.usage (put_some o [])
  unfolding merge_all
  add_usage-usage none messages r = refl
  add_usage-usage (some u) messages r =
      count_tokens-usage (completion_tokens d u) messages
        (record r { usage = some (merge_usage d r.usage u) })

  usage-if :
      (seen : Bool) (n : ℤ) (r : Request)
      → (if seen then record r { completion_tokens = n; usage_seen = true } else r).usage ≡ r.usage
  usage-if true n r = refl
  usage-if false n r = refl

  unknown-if :
      (known : Bool) (r : Request)
      → (if known then r else record r { unknown_events = r.unknown_events + 1 }).usage ≡ r.usage
  unknown-if true r = refl
  unknown-if false r = refl

  record_chunk-usage :
      (now : ℤ) (c : Chunk) (r : Request)
      → (record_chunk d t now c r).usage ≡ merge_all d r.usage (put_some c.usage [])
  unfolding record_chunk record_names record_texts record_usage
  record_chunk-usage now c r =
      let counted = if c.known then r else record r { unknown_events = r.unknown_events + 1 } in
      usage-if c.output_seen c.output_tokens (add_usage d t c.usage c.messages counted)
      ∙ add_usage-usage c.usage c.messages counted
      ∙ ap (λ o. merge_all d o (put_some c.usage [])) (unknown-if c.known r)

  add_content-usage :
      (now : ℤ) (text : List ℕ) (p : Progress)
      → (add_content d t sh now text p).request.usage ≡ p.request.usage
  unfolding add_content add_token
  add_content-usage now [] p = refl
  add_content-usage now (b ∷ text) p = ground arith

  progress-if :
      (end failed : Bool) (now : ℤ) (o : Option Raw) (p q : Progress)
      → q.request.usage ≡ merge_all d p.request.usage (put_some o [])
      → (if end
          then record p { saw_done = true }
          else if failed
          then record q { in_band_ns = now }
          else q).request.usage
        ≡ merge_all d p.request.usage (put_some (if end then none else o) [])
  unfolding merge_all
  progress-if true failed now o p q h = refl
  progress-if false true now o p q h = h
  progress-if false false now o p q h = h

  on_chunk-usage :
      (at : Times) (o : Option Chunk) (p : Progress)
      → (on_chunk d t sh at o p).request.usage
        ≡ merge_all d p.request.usage (put_some (usage_in o) [])
  unfolding add_chunk merge_all
  on_chunk-usage at none p = refl
  on_chunk-usage at (some c) p =
      let recorded = record p {
        request = record_chunk d t at.reasoning_ns c p.request;
        reasoning = if t.hosted then p.reasoning ++ c.reasoning else p.reasoning;
      } in
      progress-if c.end (fails d t sh c) at.error_ns c.usage p
        (add_content d t sh at.token_ns c.content recorded)
        (add_content-usage at.token_ns c.content recorded
          ∙ record_chunk-usage at.reasoning_ns c p.request)

  merge_all-put_some :
      (prev o : Option Raw) (us : List Raw)
      → merge_all d (merge_all d prev (put_some o [])) us ≡ merge_all d prev (put_some o us)
  unfolding merge_all
  merge_all-put_some prev none us = refl
  merge_all-put_some prev (some u) us = refl

  read_payloads-usage :
      (clock : ℕ → Times) (n : ℕ) (payloads : List Raw) (p : Progress)
      → (read_payloads d t sh clock n payloads p).request.usage
        ≡ merge_all d p.request.usage (usages payloads)
  unfolding read_payloads usages
  read_payloads-usage clock n [] p = unfold merge_all in refl
  read_payloads-usage clock n (payload ∷ payloads) p =
      let o = decode d t sh payload in
      read_payloads-usage clock (suc n) payloads (on_chunk d t sh (clock n) o p)
      ∙ ap (λ u. merge_all d u (usages payloads)) (on_chunk-usage (clock n) o p)
      ∙ merge_all-put_some p.request.usage (usage_in o) (usages payloads)

  settle-usage :
      (failure : Option StreamError) (dropped : ℕ) (now : ℤ) (p : Progress) (r : Request)
      → (settle d t sh failure dropped now p r).usage ≡ r.usage
  unfolding complete classify_stream_err
  settle-usage (some e) dropped now p r = ground arith
  settle-usage none dropped now p r = ground arith

  -- For a request that has no usage yet, where encoding/json writes what it reads: if each usage object
  -- of the delivered payloads is a JSON object or null, then when `execute` has read the body the
  -- request's usage has at each key the last value of theirs that is not null, as Marshal writes it, and
  -- no other key.
  pub read_body-usage :
      (js : IsJson d) (clock : ℕ → Times) (ls : List (List ℕ)) (failure : Option StreamError)
      (now : ℤ) (r : Request) (k : List ℕ)
      → r.usage ≡ none
      → All (IsObject d) (usages (events (stops_at d t sh) event_limit ls).payloads)
      → value_at d k (read_body d t sh clock ls failure now r).usage
        ≡ Option.map js.stored
            (last_value d k (usages (events (stops_at d t sh) event_limit ls).payloads))
  unfolding read_body
  read_body-usage js clock ls failure now r k fresh objects =
      let out = events (stops_at d t sh) event_limit ls in
      let p = read_payloads d t sh clock 0 out.payloads (start r) in
      let us = usages out.payloads in
      let nil : value_at d k none ≡ none = value_at-nil d js k in
      ap (value_at d k) (
        settle-usage failure out.dropped now p
          (record p.request { content = p.content; reasoning = p.reasoning })
        ∙ read_payloads-usage clock 0 out.payloads (start r)
        ∙ ap (λ u. merge_all d u us) fresh)
      ∙ value_at-merge_all d js k none us objects (ap (Option.map js.stored) nil ∙ sym nil)
      ∙ ap (or_else (Option.map js.stored (last_value d k us))) nil
      ∙ or_else-none _
