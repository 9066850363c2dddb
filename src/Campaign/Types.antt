-- ===== src/Campaign/Types.antt =====
-- internal/campaign/campaign.go: a campaign's rows and report, and the fields of a run's artifacts that
-- its summaries read; what a row carries verbatim and the texts of reasons are left out. A float64 is a
-- type, and a pointer to one is optional.
use percentes.Base.{ℕ, Bool, Option, List}
use percentes.Base.Int.{ℤ}

-- Config.Fault.Variant
pub data Variant : Type 0 where
  clean_delete black_hole mock no_fault process_kill : Variant

-- detect.Detection, as far as it is read.
pub record Recovery (F : Type 0) : Type 0 where
  pub ttr_seconds : Option F
  pub hold_unobserved : Bool

-- detect.Result
pub record Detector (F : Type 0) : Type 0 where
  pub equilibrium_estimable : Bool
  pub to_equilibrium : Recovery F
  pub to_pre_fault : Recovery F
  pub deficit_to_pre_fault : F
  pub partition_heal_recovery : Option (Recovery F)
  pub deficit_to_partition_heal : Option F

pub data SegmentName : Type 0 where
  replica_ready container_start other_segment : SegmentName

-- detect.Segment; its times are instants in nanoseconds.
pub record Segment : Type 0 where
  pub name : SegmentName
  pub measured : Bool
  pub start_at : Option ℤ
  pub end_at : Option ℤ

-- collect.InFlightAccounting
pub record InFlight : Type 0 where
  pub total : ℤ
  pub errored : ℤ
  pub censored : ℤ
  pub on_victim : ℤ
  pub on_victim_errored : ℤ
  pub on_victim_censored : ℤ

-- A window's completed requests and the 95th percentile of their durations, in microseconds.
pub record WindowLatency : Type 0 where
  pub samples : ℤ
  pub p95_us : ℤ

-- run.Artifacts
pub record Artifacts (F : Type 0) : Type 0 where
  pub run_valid : Bool
  pub is_process_kill : Bool
  pub replicas : ℤ
  pub has_victim : Bool
  pub detector : Option (Detector F)
  pub segments : Option (List Segment)
  pub in_flight : InFlight
  pub fault_survivor : Option WindowLatency
  pub fault_window : Option WindowLatency

pub record Scalars (F : Type 0) : Type 0 where
  pub run : ℕ
  pub is_valid : Bool
  pub ttr_equilibrium_s : Option F
  pub ttr_pre_fault_s : Option F
  pub ttr_equilibrium_unobserved : Bool
  pub ttr_pre_fault_unobserved : Bool
  pub in_flight_loss_fraction : Option F
  pub in_flight_loss_unscoped : Option F
  pub survivor_p95_ms : Option F
  pub fault_window_p95_ms : Option F
  pub survivor_cohort_absent : Bool
  pub integrated_deficit : F
  pub outage_s : Option F
  pub container_start_s : Option F

pub data EndpointName : Type 0 where
  ttr_equilibrium ttr_pre_fault partition_heal_recovery_time in_flight_loss survivor_p95 :
      EndpointName
  goodput_deficit outage container_start_time : EndpointName

pub data EndpointKind : Type 0 where
  primary secondary exploratory not_applicable : EndpointKind

-- A scalar's summary, of the type that stats.Summarize gives; `none` is the zero value.
pub record ScalarSummary (S : Type 0) : Type 0 where
  pub name : EndpointName
  pub endpoint : EndpointKind
  pub summary : Option S
  pub contributing_n : ℕ
  pub dropped_runs : ℕ

pub record Report (F S : Type 0) : Type 0 where
  pub repetitions : ℕ
  pub per_run : List (Scalars F)
  pub endpoints : List (ScalarSummary S)
  pub valid_runs : ℕ
  pub invalid_runs : ℕ
  pub halted : Bool
  pub halted_after_run : ℕ
  pub failed : Bool
  pub failed_run : ℕ
