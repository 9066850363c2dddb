-- ===== src/Validity/Gates.antt =====
-- internal/validity/validity.go: the seven gates.
use percentes.Base.{
  ℕ, ◌+◌, Bool, true, false, not, ◌&&◌, ◌||◌, Option, none, some, List, [], ◌∷◌, ◌==◌, nat_eq,
  bytes_eq, if◌then◌else◌, length,
}
use percentes.Base.Int.{ℤ, pos, int_eq, ltb_ℤ, ◌+i◌, ◌-i◌}
use percentes.Base.Floats.{Floats}
use percentes.Base.Maps.{Assoc}
use percentes.Validity.Types.{
  GateId, g1, g2, g3, g4, g5, g6, g7, Gate, Mean, QueueObservation, StalenessResult, GpuFingerprint,
  Observations, WindowStats, Artifacts,
}

-- A gate of the whole run with its outcome.
abbrev pub gate : GateId → Bool → Bool → Bool → Gate
gate id applicable observed pass = record {
  id = id;
  step = pos 0;
  applicable = applicable;
  observed = observed;
  pass = pass;
  label_determining = false;
  reported_only = false;
}

-- na
abbrev pub not_applicable : GateId → Gate
not_applicable id = gate id false false false

abbrev pub label_gate : GateId → Bool → Bool → Bool → Gate
label_gate id applicable observed pass = record (gate id applicable observed pass) {
  label_determining = true;
}

abbrev pub reported_gate : Bool → Bool → Gate
reported_gate observed pass = record (gate g6 true observed pass) { reported_only = true }

-- The distinct replicas of the fingerprints.
abbrev pub has_replica : List ℕ → List GpuFingerprint → Bool
has_replica r [] = false
has_replica r (f ∷ fs) = f.replica == r || has_replica r fs

unfoldable pub distinct_replicas : List GpuFingerprint → ℕ
distinct_replicas [] = 0
distinct_replicas (f ∷ fs) =
    let rest = distinct_replicas fs in if has_replica f.replica fs then rest else rest + 1

unfoldable pub all_equal : List ℕ → List GpuFingerprint → Bool
all_equal first [] = true
all_equal first (f ∷ fs) = f.fingerprint == first && all_equal first fs

-- G2, on the client's gate of a step; none where the run left the step before its drain ended.
abbrev pub client_gate : ℤ → Option Bool → Gate
client_gate step none = record (gate g2 true false false) { step = step }
client_gate step (some passed) = record (gate g2 true true passed) { step = step }

module _ (fl : Floats) where
  -- gateG1
  unfoldable pub gate_g1 : Artifacts fl.Float → Gate
  gate_g1 art =
      if art.share_gate.applicable
      then gate g1 true true art.share_gate.pass
      else gate g1 false true true

  -- gateG2
  unfoldable pub gate_g2 : Artifacts fl.Float → Gate
  gate_g2 art = client_gate (pos 0) (some art.client_pass)

  -- gateG3
  unfoldable pub gate_g3 : Artifacts fl.Float → Bool → Gate
  gate_g3 art is_black_hole =
      if not is_black_hole
      then label_gate g3 false true true
      else if art.victim_replica == []
      then label_gate g3 true false false
      else if art.on_victim == pos 0
      then label_gate g3 true false false
      else label_gate g3 true true (art.on_victim_errored == pos 0)

  -- gateG4 on the observation of a black hole
  abbrev pub staleness_gate : ℤ → Option (StalenessResult fl.Float) → Gate
  staleness_gate min_s none = label_gate g4 true false false
  staleness_gate min_s (some st) =
      if not st.observed
      then label_gate g4 true false false
      else label_gate g4 true true
          (fl.at_least st.staleness_window_s (fl.of_int min_s) && st.victim_traffic_observed)

  -- gateG4
  unfoldable pub gate_g4 : Artifacts fl.Float → Observations fl.Float → Bool → Gate
  gate_g4 art obs is_black_hole =
      if not is_black_hole
      then label_gate g4 false true true
      else staleness_gate art.staleness_min_s obs.endpoint_staleness

  -- gateG5
  unfoldable pub gate_g5 : Artifacts fl.Float → List GpuFingerprint → Gate
  unfolding distinct_replicas all_equal
  gate_g5 art [] = gate g5 false false false
  gate_g5 art (f ∷ fs) =
      if ltb_ℤ (pos (distinct_replicas (f ∷ fs))) art.replicas
      then gate g5 true false false
      else gate g5 true true (all_equal f.fingerprint (f ∷ fs))

  abbrev pub goodput_min : fl.Float
  goodput_min = fl.literal 99 2

  -- gateG6 on the baseline window
  abbrev pub goodput_gate : Option (WindowStats fl.Float) → Gate
  goodput_gate none = gate g6 true false false
  goodput_gate (some w) =
      if w.scheduled == pos 0
      then gate g6 true false false
      else gate g6 true true (fl.at_least w.goodput_frac goodput_min)

  -- gateG6
  unfoldable pub gate_g6 : Artifacts fl.Float → Gate
  gate_g6 art = goodput_gate art.baseline

  -- The loop of gateG6Hosted.
  abbrev pub add_window : Option (WindowStats fl.Float) → ℤ × ℤ → ℤ × ℤ
  add_window none sums = sums
  add_window (some w) (completed, scheduled) =
      (completed +i w.completed, scheduled +i (w.completed +i w.errored +i w.censored))

  -- gateG6Hosted
  unfoldable pub gate_g6_hosted : Artifacts fl.Float → Gate
  gate_g6_hosted art =
      let (completed, scheduled) =
        add_window art.fault (add_window art.guard (add_window art.baseline (pos 0, pos 0))) in
      if scheduled == pos 0
      then reported_gate false false
      else reported_gate true
          (fl.at_least (fl.over (fl.of_int completed) (fl.of_int scheduled)) goodput_min)

  -- ReleaseG6
  unfoldable pub release_g6 : ℤ → ℤ → ℤ → Gate
  release_g6 step in_time scheduled =
      record (reported_gate true
        (fl.at_least (fl.over (fl.of_int in_time) (fl.of_int scheduled)) goodput_min)) {
          step = step;
        }

  -- Some replica's samples are short of the coverage.
  unfoldable pub any_short : ℤ → Assoc (List ℕ) (Mean fl.Float) → Bool
  any_short expected [] = false
  any_short expected ((r, m) ∷ ms) =
      fl.below (fl.of_int m.samples) (fl.times (fl.literal 90 2) (fl.of_int expected))
      || any_short expected ms

  -- Some replica's mean is above the pinned maximum.
  unfoldable pub any_queued : Assoc (List ℕ) (Mean fl.Float) → Bool
  any_queued [] = false
  any_queued ((r, m) ∷ ms) = fl.below (fl.literal 10 1) m.value || any_queued ms

  -- The samples that a baseline window holds.
  abbrev pub expected_samples : WindowStats fl.Float → fl.Float → ℤ
  expected_samples w interval_s = fl.to_int (
      fl.over (fl.over (fl.of_int (w.end_ns -i w.start_ns)) (fl.literal 1_000_000_000 0))
        interval_s)

  -- gateG7 on the samples of the baseline window
  abbrev pub coverage_gate : QueueObservation fl.Float → Option (WindowStats fl.Float) → Gate
  coverage_gate q none = gate g7 true false false
  coverage_gate q (some w) =
      if any_short (expected_samples w q.interval_s) q.means
      then gate g7 true false false
      else gate g7 true true (not (any_queued q.means))

  -- gateG7
  unfoldable pub gate_g7 : Artifacts fl.Float → Option (QueueObservation fl.Float) → Gate
  gate_g7 art none = gate g7 false false false
  gate_g7 art (some q) =
      if ltb_ℤ (pos (length q.means)) art.replicas
      then gate g7 true false false
      else if fl.at_least (fl.of_int (pos 0)) q.interval_s
      then gate g7 true false false
      else coverage_gate q art.baseline
