-- ===== src/Sse/Events.antt =====
-- internal/sse/sse.go: `Events`, on the lines that its scanner finds. The function that it calls is a
-- test on a payload; the payloads that it is called on are kept in order. Lengths and counts are
-- below the bound of an `int`, so they are natural numbers here; the limit is not negative.
use percentes.Base.{
  ℕ, ◌+◌, Bool, true, false, not, ◌&&◌, Option, none, some, List, [], ◌∷◌, ◌++◌, ◌==◌, nat_eq,
  bytes_eq, if◌then◌else◌, length, ltb, bytes,
}

-- bytes.CutPrefix(s, prefix)
unfoldable pub cut_prefix : List ℕ → List ℕ → Option (List ℕ)
cut_prefix [] s = some s
cut_prefix (p ∷ ps) [] = none
cut_prefix (p ∷ ps) (c ∷ s) = if p == c then cut_prefix ps s else none

-- bytes.TrimPrefix(s, prefix)
abbrev pub trim_found : List ℕ → Option (List ℕ) → List ℕ
trim_found s none = s
trim_found s (some t) = t

unfoldable pub trim_prefix : List ℕ → List ℕ → List ℕ
unfolding cut_prefix
trim_prefix p s = trim_found s (cut_prefix p s)

-- bytes.TrimSuffix(s, "\n")
unfoldable pub trim_feed : List ℕ → List ℕ
trim_feed [] = []
trim_feed (c ∷ []) = if c == b'\n' then [] else c ∷ []
trim_feed (c ∷ d ∷ s) = c ∷ trim_feed (d ∷ s)

-- sawData, dropped, and the payloads that fn was called on.
pub record Outcome : Type 0 where
  pub saw_data : Bool
  pub dropped : ℕ
  pub payloads : List (List ℕ)

abbrev pub no_outcome : Outcome
no_outcome = record { saw_data = false; dropped = 0; payloads = [] }

-- The event that is being read.
pub record Event : Type 0 where
  pub data_ : List ℕ
  pub overflow : Bool

abbrev pub no_event : Event
no_event = record { data_ = []; overflow = false }

-- fn's call at an event's end, where there is a payload to call it on.
unfoldable pub deliver : Event → Outcome → Outcome
deliver ev out =
    let payload = trim_feed ev.data_ in
    if not ev.overflow && not (payload == [])
    then record out { payloads = out.payloads ++ payload ∷ [] }
    else out

-- stop
unfoldable pub stops : (List ℕ → Bool) → Event → Bool
stops fn ev =
    let payload = trim_feed ev.data_ in not ev.overflow && (not (payload == []) && fn payload)

-- The round of the loop on a data field.
unfoldable pub add_data : ℕ → List ℕ → Event → Outcome → Event × Outcome
add_data limit value ev out =
    let saw = record out { saw_data = true } in
    let v = trim_prefix (b' ' ∷ []) value in
    if ev.overflow
    then (ev, saw)
    else if ltb limit (length ev.data_ + length v + 1)
    then (record { data_ = []; overflow = true }, record saw { dropped = saw.dropped + 1 })
    else (record ev { data_ = (ev.data_ ++ v) ++ b'\n' ∷ [] }, saw)

abbrev pub field_name : List ℕ
field_name = bytes "data:"

-- The loop over the lines, and the delivery after it.
unfoldable pub read_events : (List ℕ → Bool) → ℕ → List (List ℕ) → Event → Outcome → Outcome
read_events fn limit [] ev out = deliver ev out
read_events fn limit ([] ∷ ls) ev out = elim (stops fn ev) [
  | true ↦ deliver ev out
  | false ↦ read_events fn limit ls no_event (deliver ev out)
]
read_events fn limit ((c ∷ l) ∷ ls) ev out = elim (cut_prefix field_name (c ∷ l)) [
  | none ↦ read_events fn limit ls ev out
  | some value ↦ let (ev', out') = add_data limit value ev out in read_events fn limit ls ev' out'
]

-- The byte-order mark is trimmed off the first line.
abbrev pub trim_mark : List (List ℕ) → List (List ℕ)
trim_mark [] = []
trim_mark (l ∷ ls) = trim_prefix (0xef ∷ 0xbb ∷ 0xbf ∷ []) l ∷ ls

-- Events on the scanner's lines, where no line passes the scanner's size limit.
unfoldable pub events : (List ℕ → Bool) → ℕ → List (List ℕ) → Outcome
unfolding read_events deliver stops add_data
events fn limit ls = read_events fn limit (trim_mark ls) no_event no_outcome
