-- ===== src/Stream/Reply.antt =====
-- internal/loadgen/sse_client.go: what a request keeps of the chunks of its stream. IsCounted and lengths
-- are below the bound of an `int`; a time that is 0 is not set.
use percentes.Base.{
  ℕ, ◌+◌, Bool, true, false, not, ◌&&◌, ◌||◌, Option, none, some, List, [], ◌∷◌, ◌++◌, ◌==◌,
  bytes_eq, if◌then◌else◌, is_empty, length, ltb,
}
use percentes.Base.Int.{ℤ, pos, int_eq}
use percentes.Stream.Json.{Raw, Decoder, completion_tokens}
use percentes.Stream.Chunk.{Chunk}
use percentes.Stream.Usage.{merge_usage}
use percentes.Stream.Secrets.{read_error_body}
use percentes.Traffic.Requests.{RequestOutcome}

pub data ErrClass : Type 0 where
  no_class status_other reset malformed_stream connect empty_stream status_429 : ErrClass

-- The fields of loadgen.Request that a 200 response's stream sets, and those that they are read with.
pub record Request : Type 0 where
  pub intended_ns : ℤ
  pub first_tok_ns : ℤ
  pub done_ns : ℤ
  pub outcome : Option RequestOutcome
  pub err_class : ErrClass
  pub tokens : ℕ
  pub late : Bool
  pub completion_tokens : ℤ
  pub usage_seen : Bool
  pub usage : Option Raw
  pub finish_reason : List ℕ
  pub reported_model : List ℕ
  pub system_fingerprint : List ℕ
  pub model_mismatch : List (List ℕ)
  pub stream_error : List ℕ
  pub reasoning_chunks : ℕ
  pub first_reasoning_ns : ℤ
  pub unknown_events : ℕ
  pub content : List ℕ
  pub reasoning : List ℕ
  pub refusal : List ℕ
  pub refusal_bytes : ℕ
  pub itls_us : List ℤ
  pub err_text : List ℕ

-- What the generator's configuration says of the target, the model ids and the secrets of `gen`, and
-- the release deadline, 0 where there is none.
pub record Target : Type 0 where
  pub hosted : Bool
  pub messages : Bool
  pub expected : List ℕ
  pub model : List ℕ
  pub secrets : List (List ℕ)
  pub deadline_ns : ℤ

-- The clock's values at the calls of g.now on one payload, where they are made: for the first reasoning,
-- for a token, and for an error that ends the stream.
pub record Times : Type 0 where
  pub reasoning_ns : ℤ
  pub token_ns : ℤ
  pub error_ns : ℤ

abbrev pub model_mismatch_limit : ℕ
model_mismatch_limit = 4

-- slices.Contains
unfoldable pub contains_text : List (List ℕ) → List ℕ → Bool
contains_text [] v = false
contains_text (x ∷ xs) v = x == v || contains_text xs v

-- v, where it is set and the field is not yet.
abbrev pub first_set : List ℕ → List ℕ → List ℕ
first_set held [] = held
first_set [] (c ∷ v) = c ∷ v
first_set (h ∷ held) (c ∷ v) = h ∷ held

-- v, where it is set.
abbrev pub last_set : List ℕ → List ℕ → List ℕ
last_set held [] = held
last_set held (c ∷ v) = c ∷ v

abbrev pub expected_model : List ℕ → List ℕ → List ℕ
expected_model [] model = model
expected_model (c ∷ expected) model = c ∷ expected

module _ (d : Decoder) (t : Target) where
  abbrev pub count_tokens : Option ℤ → Bool → Request → Request
  count_tokens (some n) false r = record r { completion_tokens = n; usage_seen = true }
  count_tokens (some n) true r = r
  count_tokens none messages r = r

  abbrev pub add_usage : Option Raw → Bool → Request → Request
  add_usage none messages r = r
  add_usage (some u) messages r =
      count_tokens (completion_tokens d u) messages
        (record r { usage = some (merge_usage d r.usage u) })

  unfoldable pub record_usage : Chunk → Request → Request
  unfolding completion_tokens merge_usage
  record_usage c r =
      let r' = add_usage c.usage c.messages r in
      if c.output_seen
      then record r' { completion_tokens = c.output_tokens; usage_seen = true }
      else r'

  -- ModelMismatch
  unfoldable pub add_mismatch : List ℕ → List (List ℕ) → List (List ℕ)
  unfolding contains_text
  add_mismatch model seen =
      if not (is_empty model)
        && (not (model == expected_model t.expected t.model)
            && (ltb (length seen) model_mismatch_limit && not (contains_text seen model)))
      then seen ++ model ∷ []
      else seen

  abbrev pub error_text : List ℕ → Option Raw → List ℕ
  error_text [] (some e) = read_error_body (d.compact e) t.secrets
  error_text held other = held

  unfoldable pub record_names : Chunk → Request → Request
  unfolding add_mismatch read_error_body
  record_names c r = record r {
    finish_reason = last_set r.finish_reason c.finish;
    reported_model = first_set r.reported_model c.model;
    system_fingerprint = first_set r.system_fingerprint c.fingerprint;
    model_mismatch = add_mismatch c.model r.model_mismatch;
    stream_error = error_text r.stream_error c.err;
  }

  unfoldable pub record_texts : ℤ → Chunk → Request → Request
  record_texts now c r = record r {
    refusal_bytes = r.refusal_bytes + length c.refusal;
    refusal = if t.hosted then r.refusal ++ c.refusal else r.refusal;
    reasoning_chunks = if is_empty c.reasoning then r.reasoning_chunks else r.reasoning_chunks + 1;
    first_reasoning_ns =
        if is_empty c.reasoning
        then r.first_reasoning_ns
        else if r.first_reasoning_ns == pos 0
        then now
        else r.first_reasoning_ns;
  }

  -- recordChunk
  unfoldable pub record_chunk : ℤ → Chunk → Request → Request
  unfolding record_usage record_names record_texts
  record_chunk now c r =
      let counted = if c.known then r else record r { unknown_events = r.unknown_events + 1 } in
      record_texts now c (record_names c (record_usage c counted))
