-- ===== src/Validity/Examples.antt =====
-- A black-hole run with a full observation, and the theorems at it.
use percentes.Base.{◌≡◌, true, false, not, ◌&&◌, none, some, [], ◌∷◌, is_empty, bytes}
use percentes.Base.Int.{pos}
use percentes.Base.Rat.{Rat, rat_of_int}
use percentes.Base.Fractions.{fractions}
use percentes.Validity.Types.{Observations, Artifacts}
use percentes.Validity.Evaluate.{evaluate, fail_reasons}
use percentes.Validity.Reasons.{evaluate-fail_reasons}
use percentes.Validity.Published.{publishable, silent, stale, evaluate-publishable}
use percentes.Validity.Label.{evaluate-label}

abbrev black_hole_run : Artifacts Rat
black_hole_run = record {
  black_hole = true;
  hosted = false;
  replicas = pos 2;
  staleness_min_s = pos 20;
  share_gate = record { applicable = true; pass = true };
  client_pass = true;
  victim_replica = bytes "b";
  on_victim = pos 3;
  on_victim_errored = pos 0;
  baseline = some (record {
    start_ns = pos 0;
    end_ns = pos 60_000_000_000;
    scheduled = pos 100;
    completed = pos 100;
    errored = pos 0;
    censored = pos 0;
    goodput_frac = rat_of_int (pos 1);
  });
  guard = none;
  fault = none;
}

abbrev observed : Observations Rat
observed = record {
  endpoint_staleness = some (record {
    observed = true;
    staleness_window_s = rat_of_int (pos 30);
    victim_traffic_observed = true;
  });
  gpu_fingerprints =
      record { replica = bytes "a"; run = pos 1; fingerprint = bytes "x" }
      ∷ record { replica = bytes "b"; run = pos 1; fingerprint = bytes "x" }
      ∷ [];
  queue = none;
}

evaluate-fail_reasons_example :
    (evaluate fractions black_hole_run observed).all_pass
    ≡ is_empty (fail_reasons [] (evaluate fractions black_hole_run observed).gates)
evaluate-fail_reasons_example = evaluate-fail_reasons fractions black_hole_run observed

evaluate-publishable_example :
    (evaluate fractions black_hole_run observed).all_pass
    ≡ publishable fractions black_hole_run observed
evaluate-publishable_example = evaluate-publishable fractions black_hole_run observed

evaluate-label_example : (evaluate fractions black_hole_run observed).node_loss_representative ≡ (
    true
    && (not false
        && (silent fractions black_hole_run
            && stale fractions (pos 20) observed.endpoint_staleness)))
evaluate-label_example = evaluate-label fractions black_hole_run observed
