-- ===== src/Traffic/Examples.antt =====
-- A run of three requests, and the theorems at it.
use percentes.Base.{◌≡◌, refl, false, List, [], ◌∷◌, some, All}
use percentes.Base.Int.{ℤ, pos, ◌+i◌, ◌-i◌, bits, from_bits}
use percentes.Base.Maps.{lookup, insert}
use percentes.Traffic.Requests.{Request, RunResult, AttemptRecord, completed}
use percentes.Traffic.Sent.{run_sent, sent_before, sent_from, run_sent-split}
use percentes.Traffic.Gaps.{gap_bin, step_gaps, check_gaps}
use percentes.Traffic.Balance.{Balanced, step_gaps-Balanced}

abbrev request : ℤ → ℤ → ℤ → List ℤ → Request
request intended dispatch step gaps = record {
  intended_ns = intended;
  dispatch_ns = dispatch;
  outcome = completed;
  step = step;
  warmup = false;
  gaps_us = gaps;
}

abbrev three : RunResult
three = record {
  requests =
      request (pos 5) (pos 6) (pos 2) (pos 0 ∷ pos 7 ∷ [])
      ∷ request (pos 20) (pos 0) (pos 1) []
      ∷ request (pos 30) (pos 31) (pos 1) (pos 1_500 ∷ [])
      ∷ [];
  warmup_end_ns = pos 10;
}

abbrev attempt_of : ℤ → ℤ → AttemptRecord
attempt_of step events = record {
  outcome = completed;
  step = step;
  warmup = false;
  content_events = events;
}

test_gap_bin : gap_bin (pos 4) ≡ 1
unfolding gap_bin
test_gap_bin = refl

test_check_gaps :
    check_gaps (step_gaps three) (attempt_of (pos 1) (pos 2) ∷ attempt_of (pos 2) (pos 3) ∷ []) ≡ []
unfolding check_gaps step_gaps lookup insert ◌+i◌ ◌-i◌ bits from_bits
test_check_gaps = refl

run_sent-split_example :
    ((run_sent (some three)).0 ≡ sent_before (pos 10) three.requests)
    × ((run_sent (some three)).1 ≡ sent_from (pos 10) three.requests)
run_sent-split_example = run_sent-split three

step_gaps-Balanced_example : All Balanced (step_gaps three)
step_gaps-Balanced_example = step_gaps-Balanced three
