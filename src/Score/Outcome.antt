-- ===== src/Score/Outcome.antt =====
-- internal/score/outcome.go: the class of an attempt.
use percentes.Base.{
  ℕ, Bool, true, false, not, ◌&&◌, ◌||◌, Option, none, some, List, [], ◌∷◌, ◌==◌, nat_eq, bytes_eq,
  if◌then◌else◌, is_empty, Result, ok, err, ◌>>=◌, ◌>>◌, refuse_if,
}
use percentes.Base.Int.{ℤ, pos, ltb_ℤ, leb_ℤ, ◌-i◌, ◌+i◌}
use percentes.Base.Maps.{Assoc, lookup, insert}
use percentes.Score.Contract.{Contract, Json, Reason, is_in, parse}

pub data Class : Type 0 where
  success late_correct wrong_label schema_failure refusal length_limit : Class
  partial_answer no_answer unknown_termination instrument_incompatible : Class

pub record Rule : Type 0 where
  pub cutoff : ℤ
  pub accepted : List (List ℕ)
  pub lengths : List (List ℕ)
  pub refusals : List (List ℕ)

pub record Attempt : Type 0 where
  pub expected : List ℕ
  pub intended_ns : ℤ
  pub ended : Bool
  pub end_ns : ℤ
  pub finish_reason : List ℕ
  pub answer : List ℕ
  pub refusal_text : List ℕ
  pub incompatible : Bool

pub record Verdict : Type 0 where
  pub class : Class
  pub route : List ℕ
  pub reason : Option Reason
  pub late : Bool

pub data FinishKind : Type 0 where
  finish_accepted finish_length finish_refusal : FinishKind

pub record Scorer : Type 0 where
  pub contract : Contract
  pub cutoff_ns : ℤ
  pub finish : Assoc (List ℕ) FinishKind

pub data RuleError : Type 0 where
  cutoff_not_positive no_accepted empty_finish duplicate_finish unknown_expected : RuleError

-- The inner loop of NewScorer.
unfoldable pub add_finishes :
    FinishKind
    → List (List ℕ)
    → Assoc (List ℕ) FinishKind
    → Result RuleError (Assoc (List ℕ) FinishKind)
add_finishes kind [] finish = ok finish
add_finishes kind (n ∷ names) finish = do
  refuse_if (n == []) empty_finish
  refuse_if (is_in n finish) duplicate_finish
  add_finishes kind names (insert n kind finish)

-- NewScorer, of a contract that is not nil.
unfoldable pub new_scorer : Contract → Rule → Result RuleError Scorer
unfolding add_finishes
new_scorer c r = do
  refuse_if (leb_ℤ r.cutoff (pos 0)) cutoff_not_positive
  refuse_if (is_empty r.accepted) no_accepted
  accepted ← add_finishes finish_accepted r.accepted []
  lengths ← add_finishes finish_length r.lengths accepted
  finish ← add_finishes finish_refusal r.refusals lengths
  ok (record { contract = c; cutoff_ns = r.cutoff; finish = finish })

-- Verdict{Class: class, Late: late}
abbrev pub verdict : Class → Bool → Verdict
verdict class late = record { class = class; route = []; reason = none; late = late }

abbrev pub is_refusal : Option FinishKind → Bool
is_refusal (some finish_refusal) = true
is_refusal _ = false

abbrev pub is_length : Option FinishKind → Bool
is_length (some finish_length) = true
is_length _ = false

abbrev pub is_named : Option FinishKind → Bool
is_named none = false
is_named (some k) = true

unfoldable pub is_late : Scorer → Attempt → Bool
is_late s a = a.ended && ltb_ℤ s.cutoff_ns (a.end_ns -i a.intended_ns)

-- The switch on the contract's verdict.
unfoldable pub class_of_answer : Result Reason (List ℕ) → List ℕ → Bool → Verdict
class_of_answer (err why) expected late = record (verdict schema_failure late) { reason = some why }
class_of_answer (ok route) expected late =
    if not (route == expected)
    then record (verdict wrong_label late) { route = route }
    else if late
    then record (verdict late_correct true) { route = route }
    else record (verdict success false) { route = route }

-- The switch on the transport and the finish reason, and what follows it.
unfoldable pub classify : Json → Scorer → Attempt → Verdict
unfolding is_late class_of_answer parse
classify js s a =
    let late = is_late s a in
    let kind = lookup a.finish_reason s.finish in
    if a.incompatible
    then verdict instrument_incompatible late
    else if not a.ended && not (a.answer == [])
    then verdict partial_answer false
    else if not a.ended
    then verdict no_answer false
    else if not (a.refusal_text == []) || is_refusal kind
    then verdict refusal late
    else if is_length kind
    then verdict length_limit late
    else if a.finish_reason == []
    then verdict unknown_termination late
    else if not (is_named kind)
    then verdict instrument_incompatible late
    else class_of_answer (parse js s.contract a.answer) a.expected late

-- Scorer.Score
unfoldable pub score : Json → Scorer → Attempt → Result RuleError Verdict
unfolding classify
score js s a = do
  refuse_if (not (is_in a.expected s.contract)) unknown_expected
  ok (classify js s a)

abbrev pub class_index : Class → ℕ
class_index success = 0
class_index late_correct = 1
class_index wrong_label = 2
class_index schema_failure = 3
class_index refusal = 4
class_index length_limit = 5
class_index partial_answer = 6
class_index no_answer = 7
class_index unknown_termination = 8
class_index instrument_incompatible = 9

-- Tally, as the function of a class that its map is; `n[c]++` is on an `int`.
unfoldable pub tally : List Verdict → Class → ℤ
tally [] c = pos 0
tally (v ∷ vs) c =
    let n = tally vs c in if class_index v.class == class_index c then n +i pos 1 else n
