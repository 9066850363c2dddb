-- ===== src/Validity/Label.antt =====
-- When a run is representative of a node loss: the two assertions on a black hole.
use percentes.Base.{
  ◌≡◌, refl, ◌∙◌, Bool, true, false, not, ◌&&◌, ◌||◌, Option, none, some, List, [], ◌∷◌,
  if◌then◌else◌, arith, bytes_eq,
}
use percentes.Base.Int.{ℤ, int_eq}
use percentes.Base.Floats.{Floats}
use percentes.Validity.Types.{
  Gate, GpuFingerprint, QueueObservation, StalenessResult, Observations, WindowStats, Artifacts,
}
use percentes.Validity.Gates.{
  gate_g1, gate_g2, gate_g3, gate_g4, gate_g5, gate_g6, gate_g7, staleness_gate, goodput_gate,
  coverage_gate,
}
use percentes.Validity.Evaluate.{evaluate, hosted_gates, experiment_gates, gates_of}
use percentes.Validity.Reasons.{keeps_label, all_keep, judge-all_keep}
use percentes.Validity.Published.{silent, stale}

module _ (fl : Floats) where
  keeps_label-gate_g1 : (art : Artifacts fl.Float) → keeps_label (gate_g1 fl art) ≡ true
  unfolding gate_g1
  keeps_label-gate_g1 art = ground arith

  keeps_label-gate_g3 :
      (art : Artifacts fl.Float) (b : Bool)
      → keeps_label (gate_g3 fl art b) ≡ (not b || silent fl art)
  unfolding gate_g3
  keeps_label-gate_g3 art b = ground arith

  keeps_label-staleness_gate :
      (min_s : ℤ) (o : Option (StalenessResult fl.Float))
      → keeps_label (staleness_gate fl min_s o) ≡ stale fl min_s o
  keeps_label-staleness_gate min_s none = refl
  keeps_label-staleness_gate min_s (some st) = ground arith

  keeps_label-gate_g4 :
      (art : Artifacts fl.Float) (obs : Observations fl.Float) (b : Bool)
      → keeps_label (gate_g4 fl art obs b)
        ≡ (not b || stale fl art.staleness_min_s obs.endpoint_staleness)
  unfolding gate_g4
  keeps_label-gate_g4 art obs true =
      keeps_label-staleness_gate art.staleness_min_s obs.endpoint_staleness
  keeps_label-gate_g4 art obs false = refl

  keeps_label-gate_g5 :
      (art : Artifacts fl.Float) (fs : List GpuFingerprint) → keeps_label (gate_g5 fl art fs) ≡ true
  unfolding gate_g5
  keeps_label-gate_g5 art [] = refl
  keeps_label-gate_g5 art (f ∷ fs) = ground arith

  keeps_label-goodput_gate :
      (o : Option (WindowStats fl.Float)) → keeps_label (goodput_gate fl o) ≡ true
  keeps_label-goodput_gate none = refl
  keeps_label-goodput_gate (some w) = ground arith

  keeps_label-coverage_gate :
      (q : QueueObservation fl.Float) (o : Option (WindowStats fl.Float))
      → keeps_label (coverage_gate fl q o) ≡ true
  keeps_label-coverage_gate q none = refl
  keeps_label-coverage_gate q (some w) = ground arith

  keeps_label-gate_g7 :
      (art : Artifacts fl.Float) (o : Option (QueueObservation fl.Float))
      → keeps_label (gate_g7 fl art o) ≡ true
  unfolding gate_g7
  keeps_label-gate_g7 art none = refl
  keeps_label-gate_g7 art (some q) = ground (arith, keeps_label-coverage_gate q art.baseline)

and_all :
    (p : Bool) {a b c d e f s t : Bool}
    → a ≡ true
    → b ≡ s
    → c ≡ t
    → d ≡ true
    → e ≡ true
    → f ≡ true
    → (a && ((false || (p || true)) && (b && (c && (d && (e && (f && true))))))) ≡ (s && t)
and_all p u v w x y z = ground arith

label_if :
    (black_hole hosted : Bool) (xs ys : List Gate) (s t : Bool)
    → all_keep keeps_label ys ≡ ((not black_hole || s) && (not black_hole || t))
    → (black_hole && not hosted && all_keep keeps_label (if hosted then xs else ys))
      ≡ (black_hole && (not hosted && (s && t)))
label_if black_hole true xs ys s t e = ground arith
label_if black_hole false xs ys s t e = ground (arith, e)

-- Evaluate keeps the label of a node loss exactly for a black hole on a target that is not hosted whose
-- victim's requests in flight are known and none ended in an error, and whose dead endpoint was
-- observed stale for the pinned time with traffic routed to it.
pub evaluate-label :
    (fl : Floats) (art : Artifacts fl.Float) (obs : Observations fl.Float)
    → (evaluate fl art obs).node_loss_representative ≡ (
        art.black_hole
        && (not art.hosted
            && (silent fl art && stale fl art.staleness_min_s obs.endpoint_staleness)))
unfolding evaluate gates_of gate_g2 gate_g6
evaluate-label fl art obs =
    (judge-all_keep (gates_of fl art obs) true (art.black_hole && not art.hosted)).1
    ∙ label_if art.black_hole art.hosted (hosted_gates fl art) (experiment_gates fl art obs) _ _ (
        and_all art.client_pass (keeps_label-gate_g1 fl art)
          (keeps_label-gate_g3 fl art art.black_hole)
          (keeps_label-gate_g4 fl art obs art.black_hole)
          (keeps_label-gate_g5 fl art obs.gpu_fingerprints)
          (keeps_label-goodput_gate fl art.baseline) (keeps_label-gate_g7 fl art obs.queue))
