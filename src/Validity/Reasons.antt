-- ===== src/Validity/Reasons.antt =====
-- The two passes over a report's gates: the verdict of the loop, and the reasons.
use percentes.Base.{◌≡◌, refl, Bool, true, false, not, ◌&&◌, ◌||◌, List, [], ◌∷◌, is_empty, arith}
use percentes.Base.Floats.{Floats}
use percentes.Validity.Types.{Gate, Observations, Artifacts}
use percentes.Validity.Evaluate.{judge, fail_reasons, skipped, evaluate, gates_of}

-- A gate that leaves the run valid, and one that leaves the label.
abbrev pub keeps_valid : Gate → Bool
keeps_valid g = not g.applicable || (g.pass || (g.label_determining || g.reported_only))

abbrev pub keeps_label : Gate → Bool
keeps_label g = not g.applicable || (g.pass || (not g.label_determining || g.reported_only))

abbrev pub all_keep : (Gate → Bool) → List Gate → Bool
all_keep p [] = true
all_keep p (g ∷ gs) = p g && all_keep p gs

pub judge-all_keep :
    (gs : List Gate) (a l : Bool)
    → ((judge gs a l).0 ≡ (a && all_keep keeps_valid gs))
      × ((judge gs a l).1 ≡ (l && all_keep keeps_label gs))
unfolding judge
judge-all_keep [] a l = ground arith
judge-all_keep (g ∷ gs) a l =
    ground (arith, judge-all_keep gs a l, judge-all_keep gs a false, judge-all_keep gs false l)

fail_reasons-all_keep : (gs : List Gate) → is_empty (fail_reasons [] gs) ≡ all_keep keeps_valid gs
unfolding fail_reasons skipped
fail_reasons-all_keep [] = refl
fail_reasons-all_keep (g ∷ gs) = ground (arith, fail_reasons-all_keep gs)

-- A report is valid exactly when it names no reason.
pub evaluate-fail_reasons :
    (fl : Floats) (art : Artifacts fl.Float) (obs : Observations fl.Float)
    → (evaluate fl art obs).all_pass ≡ is_empty (fail_reasons [] (evaluate fl art obs).gates)
unfolding evaluate
evaluate-fail_reasons fl art obs = ground (
  arith,
  judge-all_keep (gates_of fl art obs) true (art.black_hole && not art.hosted),
  fail_reasons-all_keep (gates_of fl art obs),
)
