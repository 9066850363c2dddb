-- ===== src/Validity/Evaluate.antt =====
-- internal/validity/validity.go: `Evaluate` and `FailReasons`.
use percentes.Base.{Bool, true, false, not, ◌&&◌, ◌||◌, List, [], ◌∷◌, if◌then◌else◌}
use percentes.Base.Floats.{Floats}
use percentes.Validity.Types.{
  GateId, g1, g2, g3, g4, g5, g6, g7, Gate, Observations, Artifacts, Report,
}
use percentes.Validity.Gates.{
  not_applicable, gate_g1, gate_g2, gate_g3, gate_g4, gate_g5, gate_g6, gate_g6_hosted, gate_g7,
}

-- The loop over the gates: whether all passed, and the label.
unfoldable pub judge : List Gate → Bool → Bool → Bool × Bool
judge [] all_pass label = (all_pass, label)
judge (g ∷ gs) all_pass label =
    if not g.applicable || (g.pass || g.reported_only)
    then judge gs all_pass label
    else if g.label_determining
    then judge gs all_pass false
    else judge gs false label

unfoldable pub same_gate : GateId → GateId → Bool
same_gate g1 g1 = true
same_gate g2 g2 = true
same_gate g3 g3 = true
same_gate g4 g4 = true
same_gate g5 g5 = true
same_gate g6 g6 = true
same_gate g7 g7 = true
same_gate _ _ = false

unfoldable pub skipped : List GateId → GateId → Bool
skipped [] g = false
skipped (s ∷ ss) g = same_gate s g || skipped ss g

-- FailReasons: the gates whose failure it names.
unfoldable pub fail_reasons : List GateId → List Gate → List Gate
unfolding skipped
fail_reasons skip [] = []
fail_reasons skip (g ∷ gs) =
    if skipped skip g.id
      || (not g.applicable || (g.pass || (g.label_determining || g.reported_only)))
    then fail_reasons skip gs
    else g ∷ fail_reasons skip gs

module _ (fl : Floats) where
  abbrev pub hosted_gates : Artifacts fl.Float → List Gate
  hosted_gates art =
      not_applicable g1
      ∷ gate_g2 fl art
      ∷ not_applicable g3
      ∷ not_applicable g4
      ∷ not_applicable g5
      ∷ gate_g6_hosted fl art
      ∷ not_applicable g7
      ∷ []

  abbrev pub experiment_gates : Artifacts fl.Float → Observations fl.Float → List Gate
  experiment_gates art obs =
      gate_g1 fl art
      ∷ gate_g2 fl art
      ∷ gate_g3 fl art art.black_hole
      ∷ gate_g4 fl art obs art.black_hole
      ∷ gate_g5 fl art obs.gpu_fingerprints
      ∷ gate_g6 fl art
      ∷ gate_g7 fl art obs.queue
      ∷ []

  unfoldable pub gates_of : Artifacts fl.Float → Observations fl.Float → List Gate
  gates_of art obs = if art.hosted then hosted_gates art else experiment_gates art obs

  -- Evaluate
  unfoldable pub evaluate : Artifacts fl.Float → Observations fl.Float → Report
  unfolding gates_of judge
  evaluate art obs =
      let gates = gates_of art obs in
      let (all_pass, label) = judge gates true (art.black_hole && not art.hosted) in
      record { gates = gates; all_pass = all_pass; node_loss_representative = label }
