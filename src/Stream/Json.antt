-- ===== src/Stream/Json.antt =====
-- internal/loadgen/sse_client.go: the values of JSON that a chunk is read from. A text is its bytes; a
-- json.RawMessage that may be nil is optional.
use percentes.Base.{
  ℕ, Bool, true, false, Option, none, some, List, [], ◌∷◌, ◌==◌, nat_eq, bytes_eq, bytes,
  if◌then◌else◌, get_elem?,
}
use percentes.Base.Int.{ℤ, pos, negsuc}
use percentes.Base.Maps.{Assoc, lookup}

abbrev pub Raw : Type 0
Raw = List ℕ

-- A map[string]json.RawMessage that is not nil.
abbrev pub Fields : Type 0
Fields = Assoc (List ℕ) Raw

-- encoding/json, strconv.Atoi and bytes.TrimSpace; `none` is an error. `object` and `objects` read null as a nil map,
-- `text` reads it as the empty string, and `array` as no elements. `completion_tokens` decodes a struct
-- with that one field, a pointer; `marshal` writes a map, `compact` is json.Compact.
pub record Decoder : Type 0 where
  pub object : Raw → Option (Option Fields)
  pub objects : Raw → Option (List (Option Fields))
  pub array : Raw → Option (List Raw)
  pub text : Raw → Option (List ℕ)
  pub int : Raw → Option ℤ
  pub completion_tokens : Raw → Option (Option ℤ)
  pub marshal : Fields → Raw
  pub compact : Raw → Raw
  pub atoi : List ℕ → Option ℤ
  pub trim_space : List ℕ → List ℕ

infixl 5 ◌>>=◌
abbrev pub ◌>>=◌ {ℓ κ} : {A : Type ℓ} {B : Type κ} → Option A → (A → Option B) → Option B
none >>= next = none
some a >>= next = next a

abbrev pub is_some {ℓ} : {A : Type ℓ} → Option A → Bool
is_some none = false
is_some (some a) = true

-- m[k] of a map that may be nil.
abbrev pub field : List ℕ → Option Fields → Option Raw
field k none = none
field k (some m) = lookup k m

abbrev pub null : Raw
null = bytes "null"

-- orNull
abbrev pub or_null : Option Raw → Raw
or_null none = null
or_null (some raw) = raw

-- A value other than null.
abbrev pub not_null : Option Raw → Option Raw
not_null none = none
not_null (some v) = if v == null then none else some v

-- The bytes before the next dot, put before the segments after it.
abbrev pub put_first : ℕ → List (List ℕ) → List (List ℕ)
put_first c [] = (c ∷ []) ∷ []
put_first c (s ∷ segs) = (c ∷ s) ∷ segs

-- strings.Split(path, ".")
unfoldable pub split_dots : List ℕ → List (List ℕ)
split_dots [] = [] ∷ []
split_dots (c ∷ path) =
    let segs = split_dots path in if c == b'.' then [] ∷ segs else put_first c segs

module _ (d : Decoder) where
  -- a[i], where i is in range.
  abbrev pub element : ℤ → Option (List Raw) → Option Raw
  element i none = none
  element (negsuc n) (some a) = none
  element (pos i) (some a) = get_elem? a i

  abbrev pub member : List ℕ → Option (Option Fields) → Option Raw
  member seg none = none
  member seg (some m) = field seg m

  -- A round of lookup's loop on a value that is not nil.
  abbrev pub step_into : List ℕ → Option ℤ → Raw → Option Raw
  step_into seg none v = member seg (d.object v)
  step_into seg (some i) v = element i (d.array v)

  unfoldable pub descend : List (List ℕ) → Option Raw → Option Raw
  descend [] v = v
  descend (seg ∷ segs) none = none
  descend (seg ∷ segs) (some v) = descend segs (step_into seg (d.atoi seg) v)

  abbrev pub from_root : Option Fields → List (List ℕ) → Option Raw
  from_root root [] = none
  from_root root (seg ∷ segs) = not_null (descend segs (field seg root))

  -- lookup
  unfoldable pub at_path : Option Fields → List ℕ → Option Raw
  unfolding descend split_dots
  at_path root path = from_root root (split_dots path)

  -- stringField, on a variable that holds the empty string.
  unfoldable pub string_field : Option Raw → Option (List ℕ)
  string_field raw = d.text (or_null raw)

  abbrev pub or_empty : Option (List ℕ) → List ℕ
  or_empty none = []
  or_empty (some s) = s

  -- A decoding into a string whose error is not read.
  unfoldable pub string_or_empty : Option Raw → List ℕ
  string_or_empty raw = or_empty (d.text (or_null raw))

  abbrev pub count_of : Option (Option ℤ) → Option ℤ
  count_of none = none
  count_of (some n) = n

  -- completionTokens
  unfoldable pub completion_tokens : Raw → Option ℤ
  completion_tokens usage = count_of (d.completion_tokens usage)
