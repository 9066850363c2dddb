-- ===== src/Campaign/Summaries.antt =====
-- internal/campaign/campaign.go: `summarize`, the summaries of a campaign's rows.
use percentes.Base.{
  ℕ, ◌+◌, ◌-◌, Bool, true, false, Option, none, some, List, [], ◌∷◌, if◌then◌else◌, length,
}
use percentes.Campaign.Types.{
  Variant, clean_delete, black_hole, process_kill, Scalars, EndpointName, ttr_equilibrium,
  ttr_pre_fault, partition_heal_recovery_time, in_flight_loss, survivor_p95, goodput_deficit,
  outage, container_start_time, EndpointKind, primary, secondary, exploratory, not_applicable,
  ScalarSummary,
}

abbrev pub is_process_kill : Variant → Bool
is_process_kill process_kill = true
is_process_kill _ = false

abbrev pub equilibrium_kind : Variant → EndpointKind
equilibrium_kind clean_delete = primary
equilibrium_kind _ = secondary

abbrev pub pre_fault_name : Variant → EndpointName
pre_fault_name black_hole = partition_heal_recovery_time
pre_fault_name _ = ttr_pre_fault

-- `summarise` is stats.Summarize, given the values and whether they are heavy-tailed.
module _ {F S : Type 0} (summarise : List F → Bool → S) where
  -- The rows of valid runs.
  unfoldable pub valid_rows : List (Scalars F) → List (Scalars F)
  valid_rows [] = []
  valid_rows (r ∷ runs) = let rest = valid_rows runs in if r.is_valid then r ∷ rest else rest

  abbrev pub add_value : Option F → List F × ℕ → List F × ℕ
  add_value (some v) (vals, dropped) = (v ∷ vals, dropped)
  add_value none (vals, dropped) = (vals, dropped + 1)

  -- collectPtr
  unfoldable pub collect_ptr : (Scalars F → Option F) → List (Scalars F) → List F × ℕ
  collect_ptr get [] = ([], 0)
  collect_ptr get (r ∷ runs) = add_value (get r) (collect_ptr get runs)

  -- A summary of the values that some runs have, where it is empty if none has one.
  abbrev pub summary_of : List F → Bool → Option S
  summary_of [] heavy = none
  summary_of (v ∷ vals) heavy = some (summarise (v ∷ vals) heavy)

  unfoldable pub summary_by :
      EndpointName
      → EndpointKind
      → Bool
      → (Scalars F → Option F)
      → List (Scalars F)
      → ScalarSummary S
  unfolding collect_ptr
  summary_by name kind heavy get runs =
      let (vals, dropped) = collect_ptr get runs in
      record {
        name = name;
        endpoint = kind;
        summary = summary_of vals heavy;
        contributing_n = length vals;
        dropped_runs = dropped;
      }

  abbrev pub inapplicable : EndpointName → ScalarSummary S
  inapplicable name = record {
    name = name;
    endpoint = not_applicable;
    summary = none;
    contributing_n = 0;
    dropped_runs = 0;
  }

  -- The pre-fault summary is left out where no run has a value.
  abbrev pub if_any : Option S → ScalarSummary S → List (ScalarSummary S) → List (ScalarSummary S)
  if_any none s rest = rest
  if_any (some v) s rest = s ∷ rest

  abbrev pub deficits : List (Scalars F) → List F
  deficits [] = []
  deficits (r ∷ runs) = r.integrated_deficit ∷ deficits runs

  abbrev pub deficit_summary : List (Scalars F) → ScalarSummary S
  deficit_summary runs = record {
    name = goodput_deficit;
    endpoint = exploratory;
    summary = summary_of (deficits runs) false;
    contributing_n = length runs;
    dropped_runs = 0;
  }

  abbrev pub unless_killed : Bool → EndpointName → ScalarSummary S → ScalarSummary S
  unless_killed true name s = inapplicable name
  unless_killed false name s = s

  abbrev pub with_durations :
      Bool → List (Scalars F) → List (ScalarSummary S) → List (ScalarSummary S)
  with_durations true runs rest =
      summary_by outage primary true (λ r. r.outage_s) runs
      ∷ summary_by container_start_time secondary true (λ r. r.container_start_s) runs
      ∷ rest
  with_durations false runs rest = rest

  -- The summaries of the rows of valid runs.
  unfoldable pub summaries_of : Variant → List (Scalars F) → List (ScalarSummary S)
  unfolding summary_by
  summaries_of variant runs =
      let kill = is_process_kill variant in
      let pre_fault =
        summary_by (pre_fault_name variant) secondary true (λ r. r.ttr_pre_fault_s) runs in
      let rest =
        summary_by in_flight_loss secondary false (λ r. r.in_flight_loss_fraction) runs
        ∷ unless_killed kill survivor_p95
            (summary_by survivor_p95 secondary true (λ r. r.survivor_p95_ms) runs)
        ∷ deficit_summary runs
        ∷ [] in
      with_durations kill runs (
        unless_killed kill ttr_equilibrium (
          summary_by ttr_equilibrium (equilibrium_kind variant) true (λ r. r.ttr_equilibrium_s)
            runs)
        ∷ if_any pre_fault.summary pre_fault rest)

  -- summarize: the summaries, and the number of rows that they leave out.
  unfoldable pub summarize : List (Scalars F) → Variant → List (ScalarSummary S) × ℕ
  unfolding valid_rows summaries_of
  summarize runs variant =
      let valid = valid_rows runs in (summaries_of variant valid, length runs - length valid)
