-- ===== src/Campaign/Examples.antt =====
-- A campaign of three runs, the second invalid, and the theorem at it.
use percentes.Base.{
  ℕ, ◌≡◌, refl, Bool, true, false, Option, none, some, length, ok, if◌then◌else◌, ◌==◌, nat_eq,
}
use percentes.Base.Int.{pos}
use percentes.Base.Fractions.{fractions}
use percentes.Base.Rat.{Rat, rat_of_int}
use percentes.Campaign.Types.{Artifacts, Report, clean_delete}
use percentes.Campaign.Run.{Campaign, run_with}

abbrev artifacts : Bool → Artifacts Rat
artifacts is_valid = record {
  run_valid = is_valid;
  is_process_kill = false;
  replicas = pos 2;
  has_victim = true;
  detector = none;
  segments = none;
  in_flight = record {
    total = pos 8;
    errored = pos 2;
    censored = pos 1;
    on_victim = pos 4;
    on_victim_errored = pos 2;
    on_victim_censored = pos 1;
  };
  fault_survivor = some (record { samples = pos 3; p95_us = pos 2500 });
  fault_window = none;
}

-- A summary is the number of its values.
abbrev three_runs : Bool → Campaign fractions ℕ ℕ
three_runs halt = record {
  seconds = λ from to. rat_of_int (pos 1);
  summarise = λ vals heavy. length vals;
  runner = λ i seed. ok (artifacts (if i == 1 then false else true));
  seed = pos 7;
  halt_after_invalid_run = halt;
  variant = clean_delete;
}

abbrev valid_of : Option (Report Rat ℕ × Option ℕ) → ℕ
valid_of none = 0
valid_of (some (rep, e)) = rep.valid_runs

abbrev halted_of : Option (Report Rat ℕ × Option ℕ) → ℕ
halted_of none = 0
halted_of (some (rep, e)) = rep.halted_after_run

test_valid : valid_of (run_with fractions (three_runs false) 3) ≡ 2
unfolding run_with
test_valid = refl

test_halted : halted_of (run_with fractions (three_runs true) 3) ≡ 2
unfolding run_with
test_halted = refl
