-- ===== src/Stream/Usage.antt =====
-- internal/loadgen/sse_client.go: the usage objects of a stream, merged.
use percentes.Base.{Option, none, some, [], ◌∷◌, ◌==◌, bytes_eq, if◌then◌else◌}
use percentes.Base.Maps.{insert}
use percentes.Stream.Json.{Raw, Fields, Decoder, null}
use percentes.Stream.Messages.{object}

-- The loop over the new fields.
unfoldable pub lay_over : Fields → Fields → Fields
lay_over [] m = m
lay_over ((k, v) ∷ n) m = lay_over n (if v == null then m else insert k v m)

abbrev pub fields_or_empty : Option (Option Fields) → Fields
fields_or_empty none = []
fields_or_empty (some none) = []
fields_or_empty (some (some m)) = m

abbrev pub fields_of : Option Fields → Fields
fields_of none = []
fields_of (some m) = m

module _ (d : Decoder) where
  abbrev pub merge_into : Option Raw → Raw → Option (Option Fields) → Raw
  merge_into prev next none = next
  merge_into prev next (some n) =
      d.marshal (lay_over (fields_of n) (fields_or_empty (object d prev)))

  -- mergeUsage
  unfoldable pub merge_usage : Option Raw → Raw → Raw
  unfolding lay_over object
  merge_usage prev next = merge_into prev next (object d (some next))
