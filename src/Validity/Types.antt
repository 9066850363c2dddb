-- ===== src/Validity/Types.antt =====
-- internal/validity/validity.go: gates and reports, and what they read of a run. The text of a gate's
-- name and detail is left out.
use percentes.Base.{ℕ, Bool, Option, List}
use percentes.Base.Int.{ℤ}
use percentes.Base.Maps.{Assoc}

pub data GateId : Type 0 where
  g1 g2 g3 g4 g5 g6 g7 : GateId

pub record Gate : Type 0 where
  pub id : GateId
  pub step : ℤ
  pub applicable : Bool
  pub observed : Bool
  pub pass : Bool
  pub label_determining : Bool
  pub reported_only : Bool

pub record Mean (F : Type 0) : Type 0 where
  pub value : F
  pub samples : ℤ

pub record QueueObservation (F : Type 0) : Type 0 where
  pub interval_s : F
  pub means : Assoc (List ℕ) (Mean F)

pub record StalenessResult (F : Type 0) : Type 0 where
  pub observed : Bool
  pub staleness_window_s : F
  pub victim_traffic_observed : Bool

pub record GpuFingerprint : Type 0 where
  pub replica : List ℕ
  pub run : ℤ
  pub fingerprint : List ℕ

pub record Observations (F : Type 0) : Type 0 where
  pub endpoint_staleness : Option (StalenessResult F)
  pub gpu_fingerprints : List GpuFingerprint
  pub queue : Option (QueueObservation F)

-- collect.Stats, as far as a gate reads it.
pub record WindowStats (F : Type 0) : Type 0 where
  pub start_ns : ℤ
  pub end_ns : ℤ
  pub scheduled : ℤ
  pub completed : ℤ
  pub errored : ℤ
  pub censored : ℤ
  pub goodput_frac : F

-- run.ShareGateResult
pub record ShareGate : Type 0 where
  pub applicable : Bool
  pub pass : Bool

-- run.Artifacts and its configuration, as far as a gate reads them; the three windows by name.
pub record Artifacts (F : Type 0) : Type 0 where
  pub black_hole : Bool
  pub hosted : Bool
  pub replicas : ℤ
  pub staleness_min_s : ℤ
  pub share_gate : ShareGate
  pub client_pass : Bool
  pub victim_replica : List ℕ
  pub on_victim : ℤ
  pub on_victim_errored : ℤ
  pub baseline : Option (WindowStats F)
  pub guard : Option (WindowStats F)
  pub fault : Option (WindowStats F)

pub record Report : Type 0 where
  pub gates : List Gate
  pub all_pass : Bool
  pub node_loss_representative : Bool
