-- ===== src/Campaign/Scalars.antt =====
-- internal/campaign/campaign.go: `extractScalars`, the row of a run.
use percentes.Base.{
  ℕ, Bool, true, false, ◌&&◌, Option, none, some, List, [], ◌∷◌, ◌==◌, if◌then◌else◌,
}
use percentes.Base.Int.{ℤ, pos, int_eq, ltb_ℤ, ◌+i◌}
use percentes.Base.Floats.{Floats}
use percentes.Campaign.Types.{
  Recovery, Detector, SegmentName, replica_ready, container_start, other_segment, Segment,
  WindowLatency, Artifacts, Scalars,
}

abbrev pub is_named : SegmentName → SegmentName → Bool
is_named replica_ready replica_ready = true
is_named container_start container_start = true
is_named other_segment other_segment = true
is_named _ _ = false

-- The second argument is the seconds between two instants, of time.Time's Sub and Seconds.
module _ (fl : Floats) (seconds : ℤ → ℤ → fl.Float) where
  -- Segment.DurationS
  abbrev pub duration_of : Bool → Option ℤ → Option ℤ → Option fl.Float
  duration_of true (some from) (some to) = some (seconds from to)
  duration_of _ _ _ = none

  -- segmentS, on the rows of a decomposition.
  unfoldable pub find_segment : SegmentName → List Segment → Option fl.Float
  find_segment name [] = none
  find_segment name (s ∷ segments) =
      if is_named s.name name
      then duration_of s.measured s.start_at s.end_at
      else find_segment name segments

  abbrev pub segment_s : SegmentName → Option (List Segment) → Option fl.Float
  segment_s name none = none
  segment_s name (some segments) = find_segment name segments

  abbrev pub ttr_if : Bool → Recovery fl.Float → Option fl.Float
  ttr_if true r = r.ttr_seconds
  ttr_if false r = none

  abbrev pub equilibrium_of : Option (Detector fl.Float) → Option fl.Float
  equilibrium_of none = none
  equilibrium_of (some d) = ttr_if d.equilibrium_estimable d.to_equilibrium

  abbrev pub equilibrium_unobserved : Option (Detector fl.Float) → Bool
  equilibrium_unobserved none = false
  equilibrium_unobserved (some d) = d.equilibrium_estimable && d.to_equilibrium.hold_unobserved

  -- The recovery that is labelled the pre-fault one.
  abbrev pub labelled : Recovery fl.Float → Option (Recovery fl.Float) → Recovery fl.Float
  labelled pre_fault none = pre_fault
  labelled pre_fault (some heal) = heal

  abbrev pub pre_fault_of : Option (Detector fl.Float) → Option fl.Float
  pre_fault_of none = none
  pre_fault_of (some d) = (labelled d.to_pre_fault d.partition_heal_recovery).ttr_seconds

  abbrev pub pre_fault_unobserved : Option (Detector fl.Float) → Bool
  pre_fault_unobserved none = false
  pre_fault_unobserved (some d) =
      (labelled d.to_pre_fault d.partition_heal_recovery).hold_unobserved

  abbrev pub deficit_if : fl.Float → Option (Recovery fl.Float) → Option fl.Float → fl.Float
  deficit_if pre_fault (some heal) (some deficit) = deficit
  deficit_if pre_fault _ _ = pre_fault

  abbrev pub deficit_of : Option (Detector fl.Float) → fl.Float
  deficit_of none = fl.of_int (pos 0)
  deficit_of (some d) =
      deficit_if d.deficit_to_pre_fault d.partition_heal_recovery d.deficit_to_partition_heal

  abbrev pub fraction : ℤ → ℤ → fl.Float
  fraction part whole = fl.over (fl.of_int part) (fl.of_int whole)

  abbrev pub on_victim : Artifacts fl.Float → Bool
  on_victim a = a.has_victim && ltb_ℤ (pos 0) a.in_flight.on_victim

  abbrev pub on_one_replica : Artifacts fl.Float → Bool
  on_one_replica a = a.is_process_kill && (a.replicas == pos 1 && ltb_ℤ (pos 0) a.in_flight.total)

  abbrev pub loss_fraction : Artifacts fl.Float → Option fl.Float
  loss_fraction a =
      let f = a.in_flight in
      if on_victim a
      then some (fraction (f.on_victim_errored +i f.on_victim_censored) f.on_victim)
      else if on_one_replica a
      then some (fraction (f.errored +i f.censored) f.total)
      else none

  abbrev pub loss_unscoped : Artifacts fl.Float → Option fl.Float
  loss_unscoped a =
      let f = a.in_flight in
      if on_victim a
      then none
      else if on_one_replica a
      then none
      else if ltb_ℤ (pos 0) f.total
      then some (fraction (f.errored +i f.censored) f.total)
      else none

  abbrev pub p95_ms : Option WindowLatency → Option fl.Float
  p95_ms none = none
  p95_ms (some w) =
      if ltb_ℤ (pos 0) w.samples
      then some (fl.over (fl.of_int w.p95_us) (fl.of_int (pos 1000)))
      else none

  abbrev pub is_absent : Option WindowLatency → Bool
  is_absent none = true
  is_absent (some w) = false

  abbrev pub kill_segment : Bool → SegmentName → Option (List Segment) → Option fl.Float
  kill_segment true name segments = segment_s name segments
  kill_segment false name segments = none

  -- extractScalars
  unfoldable pub extract_scalars : ℕ → Artifacts fl.Float → Scalars fl.Float
  unfolding find_segment
  extract_scalars n a = record {
    run = n;
    is_valid = a.run_valid;
    ttr_equilibrium_s = equilibrium_of a.detector;
    ttr_pre_fault_s = pre_fault_of a.detector;
    ttr_equilibrium_unobserved = equilibrium_unobserved a.detector;
    ttr_pre_fault_unobserved = pre_fault_unobserved a.detector;
    in_flight_loss_fraction = loss_fraction a;
    in_flight_loss_unscoped = loss_unscoped a;
    survivor_p95_ms = p95_ms a.fault_survivor;
    fault_window_p95_ms = p95_ms a.fault_window;
    survivor_cohort_absent = is_absent a.fault_survivor;
    integrated_deficit = deficit_of a.detector;
    outage_s = kill_segment a.is_process_kill replica_ready a.segments;
    container_start_s = kill_segment a.is_process_kill container_start a.segments;
  }
