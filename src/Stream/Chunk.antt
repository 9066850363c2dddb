-- ===== src/Stream/Chunk.antt =====
-- internal/loadgen/sse_client.go: a chat-completion chunk.
use percentes.Base.{
  ℕ, Bool, true, false, Option, none, some, List, [], ◌∷◌, ◌++◌, bytes, if◌then◌else◌,
}
use percentes.Base.Int.{ℤ, pos}
use percentes.Stream.Json.{
  Raw, Fields, Decoder, ◌>>=◌, field, or_null, at_path, string_field, string_or_empty,
}

-- config.ResponseShape, defaults filled in.
pub record ResponseShape : Type 0 where
  pub content : List ℕ
  pub reasoning : List (List ℕ)
  pub model : List ℕ
  pub usage : List (List ℕ)
  pub error : List (List ℕ)
  pub refusal : List (List ℕ)

abbrev pub or_default : List ℕ → List ℕ → List ℕ
or_default [] default = default
or_default (c ∷ name) default = c ∷ name

abbrev pub or_defaults : List (List ℕ) → List (List ℕ) → List (List ℕ)
or_defaults [] defaults = defaults
or_defaults (p ∷ paths) defaults = p ∷ paths

-- Target.Shape; `none` is a nil response shape.
unfoldable pub shape : Option ResponseShape → ResponseShape
shape none = record {
  content = bytes "content";
  reasoning = [];
  model = bytes "model";
  usage = bytes "usage" ∷ [];
  error = bytes "error" ∷ [];
  refusal = [];
}
shape (some r) = record {
  content = or_default r.content (bytes "content");
  reasoning = r.reasoning;
  model = or_default r.model (bytes "model");
  usage = or_defaults r.usage (bytes "usage" ∷ []);
  error = or_defaults r.error (bytes "error" ∷ []);
  refusal = r.refusal;
}

-- One stream event, the fields of the Messages adapter included.
pub record Chunk : Type 0 where
  pub content : List ℕ
  pub reasoning : List ℕ
  pub finish : List ℕ
  pub model : List ℕ
  pub fingerprint : List ℕ
  pub usage : Option Raw
  pub err : Option Raw
  pub refusal : List ℕ
  pub known : Bool
  pub end : Bool
  pub messages : Bool
  pub output_tokens : ℤ
  pub output_seen : Bool

abbrev pub no_chunk : Chunk
no_chunk = record {
  content = [];
  reasoning = [];
  finish = [];
  model = [];
  fingerprint = [];
  usage = none;
  err = none;
  refusal = [];
  known = false;
  end = false;
  messages = false;
  output_tokens = pos 0;
  output_seen = false;
}

module _ (d : Decoder) (sh : ResponseShape) where
  -- The texts at some keys, joined.
  unfoldable pub join_fields : List (List ℕ) → Option Fields → Option (List ℕ)
  unfolding string_field
  join_fields [] delta = some []
  join_fields (k ∷ ks) delta = do
    s ← string_field d (field k delta)
    rest ← join_fields ks delta
    some (s ++ rest)

  -- The content and the reasoning of a choice.
  unfoldable pub read_choice : Option Fields → Option (List ℕ × List ℕ)
  unfolding join_fields string_field
  read_choice choice = do
    delta ← d.object (or_null (field (bytes "delta") choice))
    content ← string_field d (field sh.content delta)
    reasoning ← join_fields sh.reasoning delta
    some (content, reasoning)

  -- What the first choice sets.
  unfoldable pub set_choice : Option Fields → List ℕ × List ℕ → Chunk → Chunk
  unfolding string_or_empty
  set_choice choice (content, reasoning) c = record c {
    content = content;
    reasoning = reasoning;
    finish = string_or_empty d (field (bytes "finish_reason") choice);
  }

  -- The loop over the choices; the flag says whether the next one is the first.
  unfoldable pub read_choices : Bool → List (Option Fields) → Chunk → Option Chunk
  unfolding read_choice set_choice
  read_choices first [] c = some c
  read_choices first (choice ∷ choices) c = do
    texts ← read_choice choice
    read_choices false choices (if first then set_choice choice texts c else c)

  unfoldable pub add_choices : Option Raw → Chunk → Option Chunk
  unfolding read_choices
  add_choices none c = some c
  add_choices (some raw) c = do
    choices ← d.objects raw
    read_choices true choices (record c { known = true })

  abbrev pub take_usage : Option Raw → Chunk → Chunk
  take_usage none c = c
  take_usage (some v) c = record c { usage = some v; known = true }

  unfoldable pub add_usage : Option Fields → List (List ℕ) → Chunk → Chunk
  unfolding at_path
  add_usage root [] c = c
  add_usage root (p ∷ ps) c = add_usage root ps (take_usage (at_path d root p) c)

  -- The second argument is the error found before.
  abbrev pub set_error : Option Raw → Option Raw → Chunk → Chunk
  set_error none held c = c
  set_error (some v) (some e) c = c
  set_error (some v) none c = record c { err = some v; known = true }

  unfoldable pub add_error : Option Fields → List (List ℕ) → Chunk → Chunk
  unfolding at_path
  add_error root [] c = c
  add_error root (p ∷ ps) c = add_error root ps (set_error (at_path d root p) c.err c)

  abbrev pub set_refusal : Option Raw → Chunk → Option Chunk
  set_refusal none c = some c
  set_refusal (some v) c = do
    s ← string_field d (some v)
    some (record c { refusal = c.refusal ++ s; known = true })

  unfoldable pub add_refusal : Option Fields → List (List ℕ) → Chunk → Option Chunk
  unfolding at_path string_field
  add_refusal root [] c = some c
  add_refusal root (p ∷ ps) c = do c' ← set_refusal (at_path d root p) c; add_refusal root ps c'

  unfoldable pub set_names : Option Fields → Chunk → Chunk
  unfolding at_path string_or_empty
  set_names root c = record c {
    model = string_or_empty d (at_path d root sh.model);
    fingerprint = string_or_empty d (field (bytes "system_fingerprint") root);
  }

  -- parseChunk; `none` where it is not ok.
  unfoldable pub parse_chunk : Raw → Option Chunk
  unfolding add_choices add_usage add_error add_refusal set_names
  parse_chunk payload = do
    root ← d.object payload
    c ← add_choices (field (bytes "choices") root) no_chunk
    add_refusal root sh.refusal
        (add_error root sh.error (add_usage root sh.usage (set_names root c)))
