-- ===== src/Score/Contract.antt =====
-- internal/score/route.go: the contract that an answer meets. A text is its bytes; a set of texts is a
-- map to the unit type.
use percentes.Base.{
  ℕ, Bool, true, false, not, ◌&&◌, ◌||◌, Option, none, some, List, [], ◌∷◌, ◌==◌, nat_eq, bytes_eq,
  bytes, if◌then◌else◌, is_empty, drop, Result, ok, err, ◌>>=◌, ◌>>◌, refuse_if,
}
use percentes.Base.Maps.{Assoc, lookup, insert}

-- Reason, but for the empty one.
pub data Reason : Type 0 where
  invalid_utf8 empty code_fence not_object invalid_json trailing_text duplicate_key : Reason
  extra_key missing_route wrong_type unknown_label : Reason

-- What the decoder answers in a round of the loop: Token fails, the token is no string, Decode of the
-- value fails, or a key and its value's text.
pub data Answer : Type 0 where
  token_error no_string decode_error : Answer
  member : List ℕ → List ℕ → Answer

-- A value of JSON: a string, or another.
pub data Value : Type 0 where
  string_value : List ℕ → Value
  other_value : Value

-- encoding/json and unicode/utf8 on the texts that they are given. `opens` says that the first Token
-- of a body succeeds, `answers` are the rounds until More is false, and `closes` is the InputOffset
-- after the last Token, where that is a closing brace.
pub record Json : Type 0 where
  pub valid_utf8 : List ℕ → Bool
  pub opens : List ℕ → Bool
  pub answers : List ℕ → List Answer
  pub closes : List ℕ → Option ℕ
  pub unmarshal : List ℕ → Option Value

-- Contract: the label set.
abbrev pub Contract : Type 0
Contract = Assoc (List ℕ) (Unit {0})

pub data LabelError : Type 0 where
  no_labels empty_label label_not_utf8 duplicate_label : LabelError

abbrev pub is_in {ℓ} : {V : Type ℓ} → List ℕ → Assoc (List ℕ) V → Bool
is_in k m = elim (lookup k m) [ none ↦ false | some v ↦ true ]

-- The loop of NewContract.
unfoldable pub add_labels : Json → List (List ℕ) → Contract → Result LabelError Contract
add_labels js [] set = ok set
add_labels js (l ∷ ls) set = do
  refuse_if (l == []) empty_label
  refuse_if (not (js.valid_utf8 l)) label_not_utf8
  refuse_if (is_in l set) duplicate_label
  add_labels js ls (insert l tt set)

-- NewContract
unfoldable pub new_contract : Json → List (List ℕ) → Result LabelError Contract
unfolding add_labels
new_contract js labels = do refuse_if (is_empty labels) no_labels; add_labels js labels []

-- jsonSpace
unfoldable pub is_space : ℕ → Bool
is_space c = c == b' ' || (c == b'\t' || (c == b'\n' || c == b'\r'))

-- strings.Trim(s, jsonSpace)
unfoldable pub trim_left : List ℕ → List ℕ
unfolding is_space
trim_left [] = []
trim_left (c ∷ s) = if is_space c then trim_left s else c ∷ s

unfoldable pub trim_right : List ℕ → List ℕ
unfolding is_space
trim_right [] = []
trim_right (c ∷ s) = let rest = trim_right s in if rest == [] && is_space c then [] else c ∷ rest

unfoldable pub trim : List ℕ → List ℕ
unfolding trim_left trim_right
trim s = trim_right (trim_left s)

-- strings.HasPrefix(s, prefix)
unfoldable pub has_prefix : List ℕ → List ℕ → Bool
has_prefix s [] = true
has_prefix [] (p ∷ ps) = false
has_prefix (c ∷ s) (p ∷ ps) = c == p && has_prefix s ps

abbrev pub route_key : List ℕ
route_key = bytes "route"

-- seen, dup, extra and value.
pub record Walk : Type 0 where
  pub seen : Assoc (List ℕ) Bool
  pub dup : Bool
  pub extra : Bool
  pub value : Option (List ℕ)

abbrev pub new_walk : Walk
new_walk = record { seen = []; dup = false; extra = false; value = none }

-- One round's switch.
unfoldable pub add_member : List ℕ → List ℕ → Walk → Walk
add_member key raw w =
    let w' =
      if is_in key w.seen
      then record w { dup = true }
      else if not (key == route_key)
      then record w { extra = true }
      else record w { value = some raw } in
    record w' { seen = insert key true w'.seen }

-- The loop over the members.
unfoldable pub walk_members : List Answer → Walk → Result Reason Walk
unfolding add_member
walk_members [] w = ok w
walk_members (member key raw ∷ rest) w = walk_members rest (add_member key raw w)
walk_members (_ ∷ rest) w = err invalid_json

abbrev pub found_offset : Option ℕ → Result Reason ℕ
found_offset none = err invalid_json
found_offset (some n) = ok n

abbrev pub found_value : Option (List ℕ) → Result Reason (List ℕ)
found_value none = err missing_route
found_value (some v) = ok v

abbrev pub as_string : Option Value → Result Reason (List ℕ)
as_string none = err invalid_json
as_string (some (string_value s)) = ok s
as_string (some other_value) = err wrong_type

abbrev pub first_byte : List ℕ → ℕ
first_byte [] = 0
first_byte (c ∷ s) = c

-- Contract.Parse: the route, or the reason.
unfoldable pub parse : Json → Contract → List ℕ → Result Reason (List ℕ)
unfolding trim has_prefix walk_members
parse js labels answer = do
  refuse_if (not (js.valid_utf8 answer)) invalid_utf8
  let body = trim answer
  refuse_if (body == []) empty
  refuse_if (has_prefix body (bytes "```")) code_fence
  refuse_if (not (first_byte body == b'{')) not_object
  refuse_if (not (js.opens body)) invalid_json
  w ← walk_members (js.answers body) new_walk
  offset ← found_offset (js.closes body)
  refuse_if (not (trim (drop offset body) == [])) trailing_text
  refuse_if w.dup duplicate_key
  refuse_if w.extra extra_key
  raw ← found_value w.value
  route ← as_string (js.unmarshal raw)
  refuse_if (not (is_in route labels)) unknown_label
  ok route
