-- ===== src/Stream/Messages.antt =====
-- internal/loadgen/sse_client.go: an event of a Messages stream.
use percentes.Base.{ℕ, true, Option, none, some, List, [], ◌==◌, bytes_eq, bytes, if◌then◌else◌}
use percentes.Stream.Json.{Raw, Fields, Decoder, ◌>>=◌, field, or_null, at_path, string_field}
use percentes.Stream.Chunk.{Chunk, no_chunk}

-- The switch on the type of an event, and on that of a delta.
pub data EventType : Type 0 where
  message_start content_block_start content_block_delta message_delta : EventType
  error message_stop content_block_stop ping other_event : EventType

pub data DeltaType : Type 0 where
  text_delta thinking_delta signature_delta other_delta : DeltaType

unfoldable pub event_type : List ℕ → EventType
event_type t =
    if t == bytes "message_start"
    then message_start
    else if t == bytes "content_block_start"
    then content_block_start
    else if t == bytes "content_block_delta"
    then content_block_delta
    else if t == bytes "message_delta"
    then message_delta
    else if t == bytes "error"
    then error
    else if t == bytes "message_stop"
    then message_stop
    else if t == bytes "content_block_stop"
    then content_block_stop
    else if t == bytes "ping"
    then ping
    else other_event

unfoldable pub delta_type : List ℕ → DeltaType
delta_type t =
    if t == bytes "text_delta"
    then text_delta
    else if t == bytes "thinking_delta"
    then thinking_delta
    else if t == bytes "signature_delta"
    then signature_delta
    else other_delta

abbrev pub known_chunk : Chunk
known_chunk = record no_chunk { known = true }

module _ (d : Decoder) where
  -- object(raw)
  unfoldable pub object : Option Raw → Option (Option Fields)
  object raw = d.object (or_null raw)

  -- A binding of `decoded`, the object or nil, goes on only where it is not nil.
  unfoldable pub on_start : Option Fields → Option Chunk
  unfolding object string_field at_path
  on_start root = do
    decoded ← object (field (bytes "message") root)
    m ← decoded
    model ← string_field d (field (bytes "model") (some m))
    let usage = at_path d (some m) (bytes "usage")
    u ← object usage
    some (record known_chunk { model = model; usage = usage; messages = true })

  unfoldable pub on_block_start : Option Fields → Option Chunk
  unfolding object string_field
  on_block_start root = do
    decoded ← object (field (bytes "content_block") root)
    b ← decoded
    content ← string_field d (field (bytes "text") (some b))
    reasoning ← string_field d (field (bytes "thinking") (some b))
    some (record known_chunk { content = content; reasoning = reasoning })

  unfoldable pub on_delta : DeltaType → Fields → Option Chunk
  unfolding string_field
  on_delta text_delta delta = do
    content ← string_field d (field (bytes "text") (some delta))
    some (record known_chunk { content = content })
  on_delta thinking_delta delta = do
    reasoning ← string_field d (field (bytes "thinking") (some delta))
    some (record known_chunk { reasoning = reasoning })
  on_delta signature_delta delta = some known_chunk
  on_delta other_delta delta = some no_chunk

  unfoldable pub on_block_delta : Option Fields → Option Chunk
  unfolding object string_field on_delta delta_type
  on_block_delta root = do
    decoded ← object (field (bytes "delta") root)
    delta ← decoded
    t ← string_field d (field (bytes "type") (some delta))
    on_delta (delta_type t) delta

  -- The output tokens of a usage object.
  abbrev pub set_output : Option Raw → Chunk → Option Chunk
  set_output none c = some c
  set_output (some v) c = do n ← d.int v; some (record c { output_tokens = n; output_seen = true })

  unfoldable pub on_message_delta : Option Fields → Option Chunk
  unfolding object string_field at_path
  on_message_delta root = do
    delta ← object (field (bytes "delta") root)
    finish ← string_field d (field (bytes "stop_reason") delta)
    let usage = at_path d root (bytes "usage")
    u ← object usage
    set_output (at_path d u (bytes "output_tokens"))
        (record known_chunk { finish = finish; usage = usage; messages = true })

  abbrev pub or_payload : Raw → Option Raw → Raw
  or_payload payload none = payload
  or_payload payload (some v) = v

  unfoldable pub on_event : Raw → Option Fields → EventType → Option Chunk
  unfolding on_start on_block_start on_block_delta on_message_delta at_path
  on_event payload root message_start = on_start root
  on_event payload root content_block_start = on_block_start root
  on_event payload root content_block_delta = on_block_delta root
  on_event payload root message_delta = on_message_delta root
  on_event payload root error =
      some (record known_chunk { err = some (or_payload payload (at_path d root (bytes "error"))) })
  on_event payload root message_stop = some (record known_chunk { end = true })
  on_event payload root content_block_stop = some known_chunk
  on_event payload root ping = some known_chunk
  on_event payload root other_event = some no_chunk

  -- parseMessagesEvent; `none` where it is not ok.
  unfoldable pub parse_messages_event : Raw → Option Chunk
  unfolding on_event event_type string_field
  parse_messages_event payload = do
    root ← d.object payload
    t ← string_field d (field (bytes "type") root)
    if t == [] then none else on_event payload root (event_type t)
