-- ===== src/Score/Success.antt =====
-- Which attempts `Score` classes as a success, and the counts of `Tally`.
use percentes.Base.{
  ◌≡◌, refl, ◌↔◌, true, false, Option, none, some, List, [], ◌∷◌, ◌==◌, nat_eq, bytes_eq,
  bytes_beq_iff, ok, arith, result_cases, inl, inr,
}
use percentes.Base.Int.{ltb_ℤ, ◌-i◌}
use percentes.Base.Maps.{lookup}
use percentes.Score.Contract.{Json, parse, is_in}
use percentes.Score.Outcome.{
  Class, success, late_correct, wrong_label, schema_failure, refusal, length_limit, partial_answer,
  no_answer, unknown_termination, instrument_incompatible, Attempt, Verdict, verdict, FinishKind,
  finish_accepted, finish_length, finish_refusal, Scorer, is_late, class_of_answer, classify, score,
  is_refusal, is_length, is_named,
}
use percentes.Score.Meets.{Meets, parse-Meets, parse_of_Meets}

-- A complete correct answer with an accepted finish reason and the recognised end of stream, no later
-- than the cutoff from intended dispatch.
pub record Succeeds (js : Json) (s : Scorer) (a : Attempt) : Type 0 where
  pub understood : a.incompatible ≡ false
  pub ended : a.ended ≡ true
  pub no_refusal : a.refusal_text ≡ []
  pub finish : lookup a.finish_reason s.finish ≡ some finish_accepted
  pub finish_named : (a.finish_reason == []) ≡ false
  pub in_time : ltb_ℤ s.cutoff_ns (a.end_ns -i a.intended_ns) ≡ false
  pub correct : Meets js s.contract a.answer a.expected

accepted_of_kind :
    (k : Option FinishKind)
    → is_refusal k ≡ false
    → is_length k ≡ false
    → is_named k ≡ true
    → k ≡ some finish_accepted
accepted_of_kind none r l n = absurd (ground arith)
accepted_of_kind (some finish_accepted) r l n = refl
accepted_of_kind (some finish_length) r l n = absurd (ground arith)
accepted_of_kind (some finish_refusal) r l n = absurd (ground arith)

classify-Succeeds :
    (js : Json) (s : Scorer) (a : Attempt) → (classify js s a).class ≡ success → Succeeds js s a
unfolding classify is_late class_of_answer
classify-Succeeds js s a h = elim (result_cases (parse js s.contract a.answer)) [
  | inr (x, p) ↦ absurd (ground arith)
  | inl (route, p) ↦ record {
    understood = ground arith;
    ended = ground arith;
    no_refusal = ground (arith, (bytes_beq_iff a.refusal_text []).0);
    finish =
        accepted_of_kind (lookup a.finish_reason s.finish) (ground arith) (ground arith)
          (ground arith);
    finish_named = ground arith;
    in_time = ground arith;
    correct =
        parse-Meets js s.contract a.answer a.expected
          (ground (arith, (bytes_beq_iff route a.expected).0));
  }
]

classify_of_Succeeds :
    (js : Json) (s : Scorer) (a : Attempt)
    → Succeeds js s a
    → classify js s a ≡ record (verdict success false) { route = a.expected }
unfolding classify is_late class_of_answer
classify_of_Succeeds js s a m = ground (
  arith,
  m.understood,
  m.ended,
  (bytes_beq_iff a.refusal_text []).1 m.no_refusal,
  m.finish,
  m.finish_named,
  m.in_time,
  parse_of_Meets js s.contract a.answer a.expected m.correct,
  (bytes_beq_iff a.expected a.expected).1 refl,
)

-- For an attempt whose expected label is configured, `Score` gives the class success exactly when the
-- client understood the response, the stream reached its end no later than the cutoff from intended
-- dispatch, there is no refusal text, the finish reason is not empty and is an accepted one, and the
-- answer meets the contract with the expected label.
pub score-Succeeds :
    (js : Json) (s : Scorer) (a : Attempt)
    → is_in a.expected s.contract ≡ true
    → ((v : Verdict) × (score js s a ≡ ok v) × (v.class ≡ success)) ↔ Succeeds js s a
unfolding score
score-Succeeds js s a k = (
  λ (v, h, c). classify-Succeeds js s a (ground arith),
  λ m. (
    record (verdict success false) { route = a.expected },
    ground (arith, classify_of_Succeeds js s a m),
    refl,
  ),
)

-- The classes in report order.
abbrev pub classes : List Class
classes =
    success ∷ late_correct ∷ wrong_label ∷ schema_failure ∷ refusal ∷ length_limit ∷ partial_answer
    ∷ no_answer ∷ unknown_termination ∷ instrument_incompatible ∷ []
