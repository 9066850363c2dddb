-- ===== src/Stream/Overlay.antt =====
-- internal/loadgen/sse_client.go: mergeUsage, of one usage object and of a sequence of them.
use percentes.Base.{
  ℕ, ◌≡◌, refl, sym, ap, ◌∙◌, inl, inr, ◌⊎◌, Bool, true, false, Option, none, some, List, [], ◌∷◌,
  ◌==◌, ==→≡, bytes_eq, if◌then◌else◌, arith, Bool-cases, All,
}
use mathlib.Core.Path.{subst}
use mathlib.Core.Option
use percentes.Base.Maps.{lookup, insert, lookup-insert}
use percentes.Stream.Json.{Raw, Fields, Decoder, null, field, not_null}
use percentes.Stream.Messages.{object}
use percentes.Stream.Usage.{lay_over, merge_usage, merge_into, fields_of, fields_or_empty}

abbrev pub or_else : Option Raw → Option Raw → Option Raw
or_else none old = old
or_else (some v) old = some v

-- No key stands twice.
abbrev pub Distinct : Fields → Type 0
Distinct [] = Unit
Distinct ((k, v) ∷ m) = (lookup k m ≡ none) × Distinct m

lookup-put :
    (v : Raw) (skip : Bool) (j k : List ℕ) (m : Fields)
    → lookup k (if skip then m else insert j v m)
      ≡ (if j == k then (if skip then lookup k m else some v) else lookup k m)
lookup-put v true j k m = ground arith
lookup-put v false j k m = lookup-insert j k v m

lookup-lay_over :
    (n m : Fields) (k : List ℕ)
    → Distinct n
    → lookup k (lay_over n m) ≡ or_else (not_null (lookup k n)) (lookup k m)
unfolding lay_over lookup
lookup-lay_over [] m k h = refl
lookup-lay_over ((j, v) ∷ n) m k h =
    let ih = lookup-lay_over n (if v == null then m else insert j v m) k h.1 in
    let put = lookup-put v (v == null) j k m in
    elim (Bool-cases (j == k)) [
      | inl p ↦
          let gone : lookup k n ≡ none = subst (λ x. lookup x n ≡ none) (==→≡ j k p) h.0 in
          ground (arith, ih, put, gone)
      | inr p ↦ ground (arith, ih, put)
    ]

-- Each value of the fields stands at its key in some object that Unmarshal has read.
abbrev pub IsRead : Decoder → Fields → Type 0
IsRead d m =
    (k : List ℕ) (v : Raw)
    → lookup k m ≡ some v
    → (raw : Raw) × (n : Fields) × (d.object raw ≡ some (some n)) × (lookup k n ≡ some v)

-- The form in which Marshal writes a value, compacted, and what encoding/json and its map decoder do.
pub record IsJson (d : Decoder) : Type 0 where
  pub stored : Raw → Raw
  pub stored_twice : (v : Raw) → stored (stored v) ≡ stored v
  pub null_nil : d.object null ≡ some none
  pub written :
      (m : Fields)
      → IsRead d m
      → (m' : Fields) × (d.object (d.marshal m) ≡ some (some m'))
        × ((k : List ℕ) → lookup k m' ≡ Option.map stored (lookup k m))
  pub distinct : (raw : Raw) (m : Fields) → d.object raw ≡ some (some m) → Distinct m

-- A usage object's value at a key.
abbrev pub value_in : Option (Option Fields) → List ℕ → Option Raw
value_in none k = none
value_in (some m) k = field k m

module _ (d : Decoder) where
  abbrev pub value_at : List ℕ → Option Raw → Option Raw
  value_at k raw = value_in (object d raw) k

  -- The last value at a key that is not null, of some usage objects.
  unfoldable pub last_value : List ℕ → List Raw → Option Raw
  last_value k [] = none
  last_value k (u ∷ us) = or_else (last_value k us) (not_null (value_at k (some u)))

  -- An object, or null.
  abbrev pub IsObject : Raw → Type 0
  IsObject u = (m : Option Fields) × (object d (some u) ≡ some m)

  -- mergeUsage on each usage object in turn.
  unfoldable pub merge_all : Option Raw → List Raw → Option Raw
  merge_all usage [] = usage
  merge_all usage (u ∷ us) = merge_all (some (merge_usage d usage u)) us

lookup-fields_of : (n : Option Fields) (k : List ℕ) → lookup k (fields_of n) ≡ field k n
unfolding lookup
lookup-fields_of none k = refl
lookup-fields_of (some m) k = refl

lookup-fields_or_empty :
    (o : Option (Option Fields)) (k : List ℕ) → lookup k (fields_or_empty o) ≡ value_in o k
unfolding lookup
lookup-fields_or_empty none k = refl
lookup-fields_or_empty (some none) k = refl
lookup-fields_or_empty (some (some m)) k = refl

or_else-map :
    (f : Raw → Raw) (new old : Option Raw)
    → Option.map f (or_else new old) ≡ or_else (Option.map f new) (Option.map f old)
or_else-map f none old = refl
or_else-map f (some v) old = refl

or_else_assoc : (a b c : Option Raw) → or_else a (or_else b c) ≡ or_else (or_else a b) c
or_else_assoc none b c = refl
or_else_assoc (some v) b c = refl

pub or_else-none : (o : Option Raw) → or_else o none ≡ o
or_else-none none = refl
or_else-none (some v) = refl

module _ (d : Decoder) (js : IsJson d) where
  fields_of-Distinct : (u : Raw) (n : Option Fields) → d.object u ≡ some n → Distinct (fields_of n)
  fields_of-Distinct u none e = tt
  fields_of-Distinct u (some m) e = js.distinct u m e

  fields_of-IsRead : (u : Raw) (n : Option Fields) → d.object u ≡ some n → IsRead d (fields_of n)
  unfolding lookup
  fields_of-IsRead u none e k v h = absurd (ground arith)
  fields_of-IsRead u (some m) e k v h = (u, m, e, h)

  fields_or_empty-IsRead :
      (u : Raw) (o : Option (Option Fields)) → d.object u ≡ o → IsRead d (fields_or_empty o)
  unfolding lookup
  fields_or_empty-IsRead u none e k v h = absurd (ground arith)
  fields_or_empty-IsRead u (some none) e k v h = absurd (ground arith)
  fields_or_empty-IsRead u (some (some m)) e k v h = (u, m, e, h)

  object-IsRead : (prev : Option Raw) → IsRead d (fields_or_empty (object d prev))
  unfolding object
  object-IsRead none = fields_or_empty-IsRead null (d.object null) refl
  object-IsRead (some u) = fields_or_empty-IsRead u (d.object u) refl

  from_either :
      (new old : Option Raw) (v : Raw)
      → or_else (not_null new) old ≡ some v
      → (new ≡ some v) ⊎ (old ≡ some v)
  from_either none old v h = inr h
  from_either (some w) old v h = ground arith

  -- The merged fields are all read ones.
  lay_over-IsRead : (n m : Fields) → Distinct n → IsRead d n → IsRead d m → IsRead d (lay_over n m)
  lay_over-IsRead n m distinct new old k v h =
      elim (from_either (lookup k n) (lookup k m) v (sym (lookup-lay_over n m k distinct) ∙ h)) [
        | inl e ↦ new k v e
        | inr e ↦ old k v e
      ]

  map_twice :
      (o : Option Raw) → Option.map js.stored (Option.map js.stored o) ≡ Option.map js.stored o
  map_twice none = refl
  map_twice (some v) = ap some (js.stored_twice v)

  value_at-merge_usage :
      (prev : Option Raw) (u : Raw) (k : List ℕ)
      → IsObject d u
      → value_at d k (some (merge_usage d prev u))
        ≡ Option.map js.stored (or_else (not_null (value_at d k (some u))) (value_at d k prev))
  unfolding merge_usage object
  value_at-merge_usage prev u k (n, e) =
      let m = lay_over (fields_of n) (fields_or_empty (object d prev)) in
      let read =
        lay_over-IsRead (fields_of n) (fields_or_empty (object d prev)) (fields_of-Distinct u n e)
          (fields_of-IsRead u n e) (object-IsRead prev) in
      let (m', decoded, values) = js.written m read in
      let laid =
        lookup-lay_over (fields_of n) (fields_or_empty (object d prev)) k
          (fields_of-Distinct u n e) in
      ap (λ o. value_in (d.object (merge_into d prev u o)) k) e
      ∙ ap (λ o. value_in o k) decoded
      ∙ values k
      ∙ ap (Option.map js.stored) (
          laid
          ∙ ap (λ o. or_else (not_null o) (lookup k (fields_or_empty (object d prev))))
              (lookup-fields_of n k ∙ ap (λ o. value_in o k) (sym e))
          ∙ ap (or_else (not_null (value_at d k (some u))))
              (lookup-fields_or_empty (object d prev) k))

  -- What a merged object has at a key is what Marshal writes of it.
  pub value_at-merge_all :
      (k : List ℕ) (prev : Option Raw) (us : List Raw)
      → All (IsObject d) us
      → Option.map js.stored (value_at d k prev) ≡ value_at d k prev
      → value_at d k (merge_all d prev us)
        ≡ or_else (Option.map js.stored (last_value d k us)) (value_at d k prev)
  unfolding merge_all last_value
  value_at-merge_all k prev [] h s = refl
  value_at-merge_all k prev (u ∷ us) h s =
      let merged = value_at-merge_usage prev u k h.0 in
      value_at-merge_all k (some (merge_usage d prev u)) us h.1
        (ap (Option.map js.stored) merged ∙ map_twice _ ∙ sym merged)
      ∙ ap (or_else (Option.map js.stored (last_value d k us))) (
          merged
          ∙ or_else-map js.stored (not_null (value_at d k (some u))) (value_at d k prev)
          ∙ ap (or_else (Option.map js.stored (not_null (value_at d k (some u))))) s)
      ∙ or_else_assoc (Option.map js.stored (last_value d k us))
          (Option.map js.stored (not_null (value_at d k (some u)))) (value_at d k prev)
      ∙ ap (λ o. or_else o (value_at d k prev))
          (sym (or_else-map js.stored (last_value d k us) (not_null (value_at d k (some u)))))

  pub value_at-nil : (k : List ℕ) → value_at d k none ≡ none
  unfolding object
  value_at-nil k = ap (λ o. value_in o k) js.null_nil
