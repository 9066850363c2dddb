-- ===== src/Score/Examples.antt =====
-- A scorer of two labels, and the theorems at one attempt.
use percentes.Base.{
  ℕ, ◌≡◌, refl, ◌↔◌, true, false, List, [], ◌∷◌, bytes, some, Result, ok, err, bytes_eq, nat_eq,
}
use percentes.Base.Int.{pos, ◌-i◌, bits, from_bits}
use percentes.Base.Maps.{lookup, insert}
use percentes.Score.Contract.{Json, Contract, member, string_value, parse, new_contract}
use percentes.Score.Outcome.{
  Attempt, Rule, RuleError, Scorer, new_scorer, score, Verdict, verdict, success, late_correct,
}
use percentes.Score.Meets.{Meets, parse_iff_Meets}
use percentes.Score.Success.{Succeeds, score-Succeeds}

abbrev billing_answer : List ℕ
billing_answer = bytes "{\"route\":\"billing\"}"

-- A decoder that knows one object.
abbrev one_object : Json
one_object = record {
  valid_utf8 = λ s. true;
  opens = λ s. true;
  answers = λ s. member (bytes "route") (bytes "\"billing\"") ∷ [];
  closes = λ s. some 19;
  unmarshal = λ s. some (string_value (bytes "billing"));
}

abbrev two_labels : Contract
two_labels = (bytes "billing", tt) ∷ (bytes "claims", tt) ∷ []

test_new_contract : new_contract one_object (bytes "billing" ∷ bytes "claims" ∷ []) ≡ ok two_labels
unfolding new_contract lookup insert
test_new_contract = refl

abbrev rule : Rule
rule = record {
  cutoff = pos 1000;
  accepted = bytes "stop" ∷ [];
  lengths = bytes "length" ∷ [];
  refusals = bytes "content_filter" ∷ [];
}

abbrev scorer_of : Result RuleError Scorer → Scorer
scorer_of (ok s) = s
scorer_of (err x) = record { contract = []; cutoff_ns = pos 0; finish = [] }

abbrev scorer : Scorer
unfolding new_scorer lookup insert
scorer = scorer_of (new_scorer two_labels rule)

abbrev attempt : Attempt
attempt = record {
  expected = bytes "billing";
  intended_ns = pos 5;
  ended = true;
  end_ns = pos 1005;
  finish_reason = bytes "stop";
  answer = billing_answer;
  refusal_text = [];
  incompatible = false;
}

test_late :
    score one_object scorer (record attempt { end_ns = pos 1006 })
    ≡ ok (record (verdict late_correct true) { route = bytes "billing" })
unfolding score parse scorer lookup ◌-i◌ bits from_bits
test_late = refl

parse_iff_Meets_example :
    (parse one_object two_labels billing_answer ≡ ok (bytes "billing"))
    ↔ Meets one_object two_labels billing_answer (bytes "billing")
parse_iff_Meets_example = parse_iff_Meets one_object two_labels billing_answer (bytes "billing")

score-Succeeds_example :
    ((v : Verdict) × (score one_object scorer attempt ≡ ok v) × (v.class ≡ success))
    ↔ Succeeds one_object scorer attempt
unfolding scorer lookup
score-Succeeds_example = score-Succeeds one_object scorer attempt refl
