-- ===== src/Detect/Examples.antt =====
-- A short run on exact fractions, and the theorems at it.
use percentes.Base.{ℕ, ◌*◌, ◌≡◌, refl, true, false, none, some, List, [], ◌∷◌, get_elem?, arith}
use percentes.Base.Int.{ℤ, pos, ◌+ℤ◌, ◌*ℤ◌, ◌+i◌, ◌-i◌, bits, from_bits, sub_ℕ}
use percentes.Base.Fractions.{fractions}
use percentes.Base.Rat.{Rat, rat_of_int, ◌*q◌, leb_rat, gtb_rat}
use percentes.Traffic.Requests.{completed, errored}
use percentes.Detect.Types.{Bucket, Params, comp_goodput}
use percentes.Base.Int.{quo_i}
use percentes.Detect.Series.{TimedRequest, Slo, build_series}
use percentes.Detect.Windows.{sums_of, window_sums, window_ratio, verdict_on, entry_verdict}
use percentes.Detect.Scan.{
  sinks, hold_from, round_at, scan, first_idx, last_idx, detect_from, detect,
}
use percentes.Detect.Verdict.{Judged, detect_from-Judged}
use percentes.Detect.Homes.{Series, build_series-Series}
use percentes.Detect.Analysis.{DetectorConfig, Analysed, SensitivityRow}
use percentes.Detect.Run.{row_of, run_with}
use percentes.Detect.Sweep.{Agrees, run_with-Agrees}

fractions-apart : (x y : Rat) → fractions.at_least x y ≡ true → fractions.below x y ≡ false
unfolding leb_rat gtb_rat
fractions-apart x y h = ground arith

abbrev second : ℕ → ℤ
second k = pos (k * 1_000_000_000)

abbrev bucket : ℕ → ℕ → Bucket
bucket k good = record {
  start_ns = second k;
  scheduled = 10;
  completed = 10;
  errored = 0;
  good = good;
  good_ttft = good;
  good_e2e = good;
}

abbrev dip_and_back : List Bucket
dip_and_back = bucket 0 10 ∷ bucket 1 5 ∷ bucket 2 5 ∷ bucket 3 10 ∷ bucket 4 10 ∷ []

abbrev short_params : Params
short_params = record { window_s = 1; entry_pct = 90; exit_pct = 85; hold_s = 1 }

-- It recovers at the fourth bucket, in 2 s.
back :
    (detect fractions dip_and_back comp_goodput
      (rat_of_int (pos 1))
      (second 1)
      (second 5)
      short_params).recovered_at_ns
    ≡ some (second 3)
unfolding detect first_idx last_idx quo_i scan round_at entry_verdict window_sums sums_of verdict_on
    hold_from sinks window_ratio leb_rat gtb_rat ◌*q◌ ◌+ℤ◌ ◌*ℤ◌ sub_ℕ ◌+i◌ ◌-i◌ bits from_bits
    detect_from
back = refl

detect_from-Judged_example :
    Judged fractions dip_and_back comp_goodput
      (rat_of_int (pos 1))
      short_params
      (first_idx fractions (second 0) (second 1))
      (last_idx fractions dip_and_back (second 0) (second 5))
      (detect_from fractions dip_and_back comp_goodput
        (rat_of_int (pos 1))
        (second 1)
        (second 1)
        (second 5)
        short_params)
detect_from-Judged_example =
    detect_from-Judged fractions dip_and_back comp_goodput (rat_of_int (pos 1)) (second 1)
      (second 1) (second 5) short_params (omega arith) fractions-apart

abbrev two_requests : List TimedRequest
two_requests =
    record {
      intended_ns = second 1;
      first_tok_ns = second 2;
      done_ns = second 3;
      outcome = completed;
    }
    ∷ record {
      intended_ns = second 7;
      first_tok_ns = second 7;
      done_ns = second 7;
      outcome = errored;
    }
    ∷ []

abbrev slow_slo : Slo
slow_slo = record { ttft_ms = pos 500; e2e_ms = pos 5000 }

build_series-Series_example :
    Series two_requests
      (pos 0)
      (pos 5_500_000_000)
      (build_series slow_slo two_requests (pos 0) (pos 5_500_000_000))
build_series-Series_example =
    build_series-Series slow_slo two_requests 0 5_500_000_000 (omega arith)

abbrev short_config : DetectorConfig
short_config = record {
  params = short_params;
  sweep_entry_pct = 90 ∷ [];
  sweep_window_s = 1 ∷ [];
  sweep_hold_s = 1 ∷ 2 ∷ [];
  http_timeout_s = 1;
}

abbrev run_input : Analysed Rat
run_input = record {
  buckets = dip_and_back;
  warmup_end_ns = second 0;
  fire_anchor_ns = second 1;
  timeout_ns = second 5;
  pre_fault_baseline = some (rat_of_int (pos 1));
  heal_ns = none;
}

abbrev row_at : List (SensitivityRow Rat) → SensitivityRow Rat
row_at [] = record {
  params = short_params;
  pre = (none, false, false);
  equilibrium = (none, false, false);
  heal = (none, false, false);
}
row_at (r ∷ rs) = r

first_row :
    get_elem? (run_with fractions short_config run_input).sensitivity 0
    ≡ some (row_at (run_with fractions short_config run_input).sensitivity)
unfolding run_with
first_row = refl

pinned_row : (row_at (run_with fractions short_config run_input).sensitivity).params ≡ short_params
unfolding run_with row_of
pinned_row = refl

run_with-Agrees_example :
    Agrees fractions
      (row_at (run_with fractions short_config run_input).sensitivity)
      (run_with fractions short_config run_input)
run_with-Agrees_example =
    run_with-Agrees fractions short_config run_input 0
      (row_at (run_with fractions short_config run_input).sensitivity) first_row pinned_row
