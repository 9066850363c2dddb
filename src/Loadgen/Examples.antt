-- ===== src/Loadgen/Examples.antt =====
-- A run of two requests whose client passed, and the theorem at it.
use percentes.Base.{
  none, inl, inr, ℕ, ◌+◌, ◌/◌, ◌≡◌, refl, some, arith, Result, ok, err, true, false, List, [], ◌∷◌,
}
use percentes.Base.Int.{ℤ, pos, pos_part, ◌+i◌, ◌-i◌, ◌*i◌, bits, from_bits, ◌+ℤ◌, ◌*ℤ◌, sub_ℕ}
use percentes.Base.Rat.{Rat, den, rat_of_int, ◌+q◌, ◌*q◌, leb_rat, gtb_rat}
use percentes.Base.Fractions.{fractions}
use percentes.Base.Sort.{put_before, sort_by}
use percentes.Traffic.Requests.{Request, completed}
use percentes.Loadgen.Gates.{
  ClientValidity, CpuSample, count_undispatched, skews_of, p99_of, max_of, samples_in, sum_from,
  windows_from, evaluate_gates,
}
use percentes.Loadgen.Ladder.{
  Rng, LadderConfig, Ladder, NoLadder, deterministic, poisson, evenly, arrivals, steps_from,
  ladder_of, build_ladder,
}
use percentes.Loadgen.Plan.{PlanConfig, total_ns, build_schedule, build_schedule-Ascends}
use percentes.Loadgen.Arrivals.{Ascends, Reaches, Ends, arrivals-Ends}
use percentes.Loadgen.Client.{InLimits, evaluate_gates-InLimits}

abbrev pinned : ClientValidity
pinned = record {
  send_skew_p99_ms = pos 5;
  send_skew_max_ms = pos 50;
  max_cpu_pct = pos 70;
  cpu_window_s = 2;
  go_gc_pause_p99_ms = pos 1;
}

abbrev sent_requests : List Request
sent_requests =
    record {
      intended_ns = pos 1_000_000_000;
      dispatch_ns = pos 1_000_100_000;
      outcome = completed;
      step = pos 0;
      warmup = false;
      gaps_us = [];
    }
    ∷ record {
      intended_ns = pos 2_000_000_000;
      dispatch_ns = pos 2_000_000_500;
      outcome = completed;
      step = pos 0;
      warmup = false;
      gaps_us = [];
    }
    ∷ []

abbrev quiet_cpu : List (CpuSample Rat)
quiet_cpu =
    record { at_ns = pos 1_000_000_000; pct = rat_of_int (pos 60) }
    ∷ record { at_ns = pos 2_000_000_000; pct = rat_of_int (pos 80) }
    ∷ []

passed :
    (evaluate_gates fractions pinned sent_requests quiet_cpu
      (rat_of_int (pos 0))
      (rat_of_int (pos 0))
      false
      (pos 0)
      (pos 5_000_000_000)).pass
    ≡ true
unfolding evaluate_gates count_undispatched skews_of p99_of max_of samples_in sum_from windows_from
    put_before sort_by ◌-i◌ ◌*i◌ bits from_bits ◌+ℤ◌ ◌*ℤ◌ sub_ℕ ◌+q◌ leb_rat gtb_rat
passed = refl

evaluate_gates-InLimits_example :
    InLimits fractions pinned sent_requests quiet_cpu
      (rat_of_int (pos 0))
      false
      (pos 0)
      (pos 5_000_000_000)
evaluate_gates-InLimits_example =
    evaluate_gates-InLimits fractions pinned sent_requests quiet_cpu (rat_of_int (pos 0))
      (rat_of_int (pos 0)) false (pos 0) (pos 5_000_000_000) passed

-- A generator that always draws 1.
abbrev ones : Rng Rat
ones = record {
  State = ℕ;
  seeded = λ s. 0;
  exp_float = λ s. (rat_of_int (pos 1), s + 1);
  floor = λ a. rat_of_int (pos (pos_part a.num / den a));
}

reached : Reaches fractions ones (rat_of_int (pos 1)) 3 0 2_000_000_000
unfolding ◌*q◌ ◌*ℤ◌ sub_ℕ
reached =
    (1_000_000_000, refl, omega arith, inr (1_000_000_000, refl, omega arith, inl (omega arith)))

arrivals-Ends_example : Ends fractions ones (rat_of_int (pos 1)) 3_000_000_000 5_000_000_000 (
    arrivals fractions ones 8 poisson
      (rat_of_int (pos 1))
      (pos 3_000_000_000)
      (pos 5_000_000_000)
      0)
arrivals-Ends_example =
    arrivals-Ends fractions ones (rat_of_int (pos 1)) 3 8 3_000_000_000 5_000_000_000 0 reached
      (omega arith) (omega arith) (omega arith)

abbrev short_ladder : LadderConfig Rat
short_ladder = record {
  warmup_s = rat_of_int (pos 2);
  step_s = rat_of_int (pos 3);
  drain_s = rat_of_int (pos 1);
  steps_rps = rat_of_int (pos 1) ∷ rat_of_int (pos 2) ∷ [];
  process = deterministic;
  seed = pos 1;
}

abbrev given : Result NoLadder (Ladder Rat) → Ladder Rat
given (ok l) = l
given (err e) = record { offsets = []; steps = []; end_ns = pos 0 }

test_build_ladder :
    (given (build_ladder fractions ones 8 (some short_ladder))).end_ns ≡ pos 10_000_000_000
unfolding build_ladder ladder_of steps_from arrivals evenly ◌*q◌ ◌*ℤ◌ sub_ℕ ◌+i◌ ◌-i◌ bits from_bits
test_build_ladder = refl

abbrev plain_run : PlanConfig Rat
plain_run = record {
  is_release = false;
  ladder = none;
  warmup_s = rat_of_int (pos 1);
  baseline_s = rat_of_int (pos 1);
  fault_window_s = rat_of_int (pos 0);
  cooldown_s = rat_of_int (pos 0);
  rate_rps = rat_of_int (pos 1);
  process = poisson;
  seed = pos 1;
}

two_s : total_ns fractions ones plain_run ≡ pos 2_000_000_000
unfolding ◌+q◌ ◌*q◌ ◌+ℤ◌ ◌*ℤ◌ sub_ℕ
two_s = refl

build_schedule-Ascends_example :
    (xs : List ℤ) × (build_schedule fractions ones 8 plain_run ≡ ok xs) × Ascends 0 2_000_000_000 xs
build_schedule-Ascends_example =
    build_schedule-Ascends fractions ones 3 8 plain_run 2_000_000_000 refl refl two_s (omega arith)
      reached (omega arith)
