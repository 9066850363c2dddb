-- ===== src/Validity/Published.antt =====
-- When a run's numbers may be published: the conditions of the gates on one run, without the gates.
use percentes.Base.{
  ◌≡◌, refl, ◌∙◌, Bool, true, false, not, ◌&&◌, ◌||◌, Option, none, some, List, [], ◌∷◌, ◌==◌,
  if◌then◌else◌, length, arith, bytes_eq,
}
use percentes.Base.Int.{ℤ, pos, int_eq, ltb_ℤ}
use percentes.Base.Floats.{Floats}
use percentes.Validity.Types.{
  Gate, GpuFingerprint, QueueObservation, StalenessResult, Observations, WindowStats, Artifacts,
}
use percentes.Validity.Gates.{
  gate_g1, gate_g2, gate_g3, gate_g4, gate_g5, gate_g6, gate_g6_hosted, gate_g7, staleness_gate,
  goodput_gate, coverage_gate, goodput_min, distinct_replicas, all_equal, any_short, any_queued,
  expected_samples,
}
use percentes.Validity.Evaluate.{evaluate, hosted_gates, experiment_gates, gates_of}
use percentes.Validity.Reasons.{keeps_valid, all_keep, judge-all_keep}

-- The fingerprints are of every replica and equal, where there are any.
abbrev pub clocks_equal : ℤ → List GpuFingerprint → Bool
clocks_equal replicas [] = true
clocks_equal replicas (f ∷ fs) =
    not (ltb_ℤ (pos (distinct_replicas (f ∷ fs))) replicas) && all_equal f.fingerprint (f ∷ fs)

reorder :
    (p : Bool) {a b c d e f s k g q : Bool}
    → a ≡ s
    → b ≡ true
    → c ≡ true
    → d ≡ k
    → e ≡ g
    → f ≡ q
    → (a && ((false || (p || false)) && (b && (c && (d && (e && (f && true)))))))
      ≡ (p && (s && (k && (g && q))))
reorder p u v w x y z = ground arith

choose :
    (b : Bool) (xs ys : List Gate) (p r : Bool)
    → all_keep keeps_valid xs ≡ p
    → all_keep keeps_valid ys ≡ (p && r)
    → all_keep keeps_valid (if b then xs else ys) ≡ (p && (b || r))
choose true xs ys p r e f = ground (arith, e)
choose false xs ys p r e f = ground (arith, f)

module _ (fl : Floats) where
  abbrev pub goodput_high : Option (WindowStats fl.Float) → Bool
  goodput_high none = false
  goodput_high (some w) = not (w.scheduled == pos 0) && fl.at_least w.goodput_frac (goodput_min fl)

  -- Enough samples of every replica, and no mean above the maximum, where the queue is scraped.
  abbrev pub queue_stable :
      ℤ → Option (WindowStats fl.Float) → Option (QueueObservation fl.Float) → Bool
  queue_stable replicas w none = true
  queue_stable replicas none (some q) = false
  queue_stable replicas (some w) (some q) =
      not (ltb_ℤ (pos (length q.means)) replicas)
      && (not (fl.at_least (fl.of_int (pos 0)) q.interval_s)
          && (not (any_short fl (expected_samples fl w q.interval_s) q.means)
              && not (any_queued fl q.means)))

  -- A hosted run counts where the client's own gate passed; any other run, where the shares, the
  -- client, the clocks, the goodput and the queue are as they must be.
  abbrev pub publishable : Artifacts fl.Float → Observations fl.Float → Bool
  publishable art obs =
      art.client_pass
      && (art.hosted
          || ((not art.share_gate.applicable || art.share_gate.pass)
              && (clocks_equal art.replicas obs.gpu_fingerprints
                  && (goodput_high art.baseline
                      && queue_stable art.replicas art.baseline obs.queue))))

  -- The victim's requests in flight are known, some, and none ended in an error.
  abbrev pub silent : Artifacts fl.Float → Bool
  silent art =
      not (art.victim_replica == [])
      && (not (art.on_victim == pos 0) && art.on_victim_errored == pos 0)

  -- The dead endpoint was observed stale for long enough, with traffic routed to it.
  abbrev pub stale : ℤ → Option (StalenessResult fl.Float) → Bool
  stale min_s none = false
  stale min_s (some st) =
      st.observed
      && (fl.at_least st.staleness_window_s (fl.of_int min_s) && st.victim_traffic_observed)

  keeps_valid-gate_g1 :
      (art : Artifacts fl.Float)
      → keeps_valid (gate_g1 fl art) ≡ (not art.share_gate.applicable || art.share_gate.pass)
  unfolding gate_g1
  keeps_valid-gate_g1 art = ground arith

  keeps_valid-gate_g3 :
      (art : Artifacts fl.Float) (b : Bool) → keeps_valid (gate_g3 fl art b) ≡ true
  unfolding gate_g3
  keeps_valid-gate_g3 art b = ground arith

  keeps_valid-gate_g5 :
      (art : Artifacts fl.Float) (fs : List GpuFingerprint)
      → keeps_valid (gate_g5 fl art fs) ≡ clocks_equal art.replicas fs
  unfolding gate_g5
  keeps_valid-gate_g5 art [] = refl
  keeps_valid-gate_g5 art (f ∷ fs) = ground arith

  keeps_valid-staleness_gate :
      (min_s : ℤ) (o : Option (StalenessResult fl.Float))
      → keeps_valid (staleness_gate fl min_s o) ≡ true
  keeps_valid-staleness_gate min_s none = refl
  keeps_valid-staleness_gate min_s (some st) = ground arith

  keeps_valid-gate_g4 :
      (art : Artifacts fl.Float) (obs : Observations fl.Float) (b : Bool)
      → keeps_valid (gate_g4 fl art obs b) ≡ true
  unfolding gate_g4
  keeps_valid-gate_g4 art obs true =
      keeps_valid-staleness_gate art.staleness_min_s obs.endpoint_staleness
  keeps_valid-gate_g4 art obs false = refl

  keeps_valid-goodput_gate :
      (o : Option (WindowStats fl.Float)) → keeps_valid (goodput_gate fl o) ≡ goodput_high o
  keeps_valid-goodput_gate none = refl
  keeps_valid-goodput_gate (some w) = ground arith

  keeps_valid-coverage_gate :
      (replicas : ℤ) (q : QueueObservation fl.Float) (o : Option (WindowStats fl.Float))
      (few paused : Bool)
      → ltb_ℤ (pos (length q.means)) replicas ≡ few
      → fl.at_least (fl.of_int (pos 0)) q.interval_s ≡ paused
      → (not few && (not paused && keeps_valid (coverage_gate fl q o)))
        ≡ queue_stable replicas o (some q)
  keeps_valid-coverage_gate replicas q none few paused e f = ground arith
  keeps_valid-coverage_gate replicas q (some w) few paused e f = ground arith

  keeps_valid-gate_g7 :
      (art : Artifacts fl.Float) (o : Option (QueueObservation fl.Float))
      → keeps_valid (gate_g7 fl art o) ≡ queue_stable art.replicas art.baseline o
  unfolding gate_g7
  keeps_valid-gate_g7 art none = refl
  keeps_valid-gate_g7 art (some q) =
      ground (arith, keeps_valid-coverage_gate art.replicas q art.baseline _ _ refl refl)

  keeps_valid-gate_g6_hosted :
      (art : Artifacts fl.Float) → keeps_valid (gate_g6_hosted fl art) ≡ true
  unfolding gate_g6_hosted
  keeps_valid-gate_g6_hosted art = ground arith

  all_keep-hosted_gates :
      (art : Artifacts fl.Float) → all_keep keeps_valid (hosted_gates fl art) ≡ art.client_pass
  unfolding gate_g2
  all_keep-hosted_gates art = ground (arith, keeps_valid-gate_g6_hosted art)

  all_keep-experiment_gates :
      (art : Artifacts fl.Float) (obs : Observations fl.Float)
      → all_keep keeps_valid (experiment_gates fl art obs) ≡ (
          art.client_pass
          && ((not art.share_gate.applicable || art.share_gate.pass)
              && (clocks_equal art.replicas obs.gpu_fingerprints
                  && (goodput_high art.baseline
                      && queue_stable art.replicas art.baseline obs.queue))))
  unfolding gate_g2 gate_g6
  all_keep-experiment_gates art obs =
      reorder art.client_pass (keeps_valid-gate_g1 art) (keeps_valid-gate_g3 art art.black_hole)
        (keeps_valid-gate_g4 art obs art.black_hole) (keeps_valid-gate_g5 art obs.gpu_fingerprints)
        (keeps_valid-goodput_gate art.baseline) (keeps_valid-gate_g7 art obs.queue)

  all_keep-gates_of :
      (art : Artifacts fl.Float) (obs : Observations fl.Float)
      → all_keep keeps_valid (gates_of fl art obs) ≡ publishable art obs
  unfolding gates_of
  all_keep-gates_of art obs =
      choose art.hosted (hosted_gates fl art) (experiment_gates fl art obs) art.client_pass _
        (all_keep-hosted_gates art) (all_keep-experiment_gates art obs)

-- Evaluate calls a run valid exactly when it is publishable: a hosted run where the client's gate
-- passed; any other run where the client's gate passed, the share gate passed or does not apply, the
-- clocks are equal on every replica or were not read, the baseline goodput is high, and the queue is
-- stable or was not scraped.
pub evaluate-publishable :
    (fl : Floats) (art : Artifacts fl.Float) (obs : Observations fl.Float)
    → (evaluate fl art obs).all_pass ≡ publishable fl art obs
unfolding evaluate
evaluate-publishable fl art obs =
    (judge-all_keep (gates_of fl art obs) true (art.black_hole && not art.hosted)).0
    ∙ all_keep-gates_of fl art obs
