-- ===== src/Stream/Small.antt =====
-- A small decoder for examples: an object is a brace and its keys and values, each byte one higher and
-- each text ended by a 0.
use percentes.Base.{
  ℕ, zero, suc, ◌≡◌, refl, ap, ◌∙◌, inl, inr, Option, none, some, List, [], ◌∷◌, ◌==◌, nat_eq,
  bytes_eq, bytes_beq_iff, if◌then◌else◌, arith, Bool-cases,
}
use mathlib.Core.Path.{subst}
use mathlib.Core.Option
use percentes.Base.Maps.{lookup, insert, lookup-insert}
use percentes.Stream.Json.{Raw, Fields, Decoder, null}
use percentes.Stream.Overlay.{Distinct, IsJson}

raise : List ℕ → List ℕ → List ℕ
raise [] rest = 0 ∷ rest
raise (c ∷ s) rest = suc c ∷ raise s rest

unfoldable pub write : Fields → Raw
unfolding raise
write [] = []
write ((k, v) ∷ m) = raise k (raise v (write m))

put_byte : ℕ → List (List ℕ) → List (List ℕ)
put_byte c [] = []
put_byte c (s ∷ texts) = (c ∷ s) ∷ texts

-- The texts that are ended.
texts : List ℕ → List (List ℕ)
unfolding put_byte
texts [] = []
texts (zero ∷ rest) = [] ∷ texts rest
texts (suc c ∷ rest) = put_byte c (texts rest)

pairs : List (List ℕ) → Fields
unfolding insert
pairs [] = []
pairs (k ∷ []) = []
pairs (k ∷ v ∷ rest) = insert k v (pairs rest)

unfoldable pub brace : ℕ
brace = b'{'

unfoldable pub read_object : Raw → Option (Option Fields)
unfolding texts pairs brace
read_object [] = none
read_object (c ∷ rest) =
    if c == brace
    then some (some (pairs (texts rest)))
    else if (c ∷ rest) == null
    then some none
    else none

insert-Distinct : (k v : List ℕ) (m : Fields) → Distinct m → Distinct (insert k v m)
unfolding insert lookup
insert-Distinct k v [] h = (refl, tt)
insert-Distinct k v ((j, w) ∷ m) h = elim (Bool-cases (j == k)) [
  | inl same ↦ rw same h
  | inr other ↦ rw other (
    lookup-insert k j v m ∙ ground (arith, h.0, bytes_beq_iff j k, bytes_beq_iff k j),
    insert-Distinct k v m h.1,
  )
]

pairs-Distinct : (s : List (List ℕ)) → Distinct (pairs s)
unfolding pairs
pairs-Distinct [] = tt
pairs-Distinct (k ∷ []) = tt
pairs-Distinct (k ∷ v ∷ rest) = insert-Distinct k v (pairs rest) (pairs-Distinct rest)

texts-raise : (s rest : List ℕ) → texts (raise s rest) ≡ s ∷ texts rest
unfolding texts raise put_byte
texts-raise [] rest = refl
texts-raise (c ∷ s) rest = ap (put_byte c) (texts-raise s rest)

pairs-write : (k : List ℕ) (m : Fields) → lookup k (pairs (texts (write m))) ≡ lookup k m
unfolding pairs texts write lookup
pairs-write k [] = refl
pairs-write k ((j, v) ∷ m) =
    ap (λ x. lookup k (pairs x))
      (texts-raise j (raise v (write m)) ∙ ap (λ x. j ∷ x) (texts-raise v (write m)))
    ∙ lookup-insert j k v (pairs (texts (write m)))
    ∙ ap (λ x. if j == k then some v else x) (pairs-write k m)

abbrev pub write_object : Fields → Raw
write_object m = brace ∷ write m

abbrev one_choice : Option (Option Fields) → Option (List (Option Fields))
one_choice none = none
one_choice (some m) = some (m ∷ [])

-- A text is any raw value but null, a number is its first byte; an array of objects has one.
abbrev pub small : Decoder
small = record {
  object = read_object;
  objects = λ raw. one_choice (read_object raw);
  array = λ raw. none;
  text = λ raw. some (if raw == null then [] else raw);
  int = λ raw. none;
  completion_tokens = λ raw. some none;
  marshal = write_object;
  compact = λ raw. raw;
  atoi = λ s. none;
  trim_space = λ s. s;
}

map_self : (o : Option Raw) → o ≡ Option.map (λ (v : Raw). v) o
map_self none = refl
map_self (some v) = refl

object-Distinct : (raw : Raw) (m : Fields) → read_object raw ≡ some (some m) → Distinct m
unfolding read_object
object-Distinct [] m h = absurd (ground arith)
object-Distinct (c ∷ rest) m h = elim (Bool-cases (c == brace)) [
  | inl e ↦
      let same : pairs (texts rest) ≡ m = ground arith in
      subst Distinct same (pairs-Distinct (texts rest))
  | inr e ↦ absurd (ground arith)
]

pub small-IsJson : IsJson small
unfolding read_object brace
small-IsJson = record {
  stored = λ v. v;
  stored_twice = λ v. refl;
  null_nil = refl;
  written = λ m read. (pairs (texts (write m)), refl, λ k. pairs-write k m ∙ map_self (lookup k m));
  distinct = object-Distinct;
}
