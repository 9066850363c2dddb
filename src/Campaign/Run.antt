-- ===== src/Campaign/Run.antt =====
-- internal/campaign/campaign.go: `RunWith`. The noise floor and its note are left out.
use percentes.Base.{
  ℕ, zero, suc, ◌+◌, Bool, true, false, Option, none, some, List, [], ◌∷◌, ◌++◌, if◌then◌else◌, ltb,
  Result, ok, err,
}
use percentes.Base.Int.{ℤ, pos, ◌+i◌}
use percentes.Base.Floats.{Floats}
use percentes.Campaign.Types.{Variant, Artifacts, Report}
use percentes.Campaign.Scalars.{extract_scalars}
use percentes.Campaign.Summaries.{summarize}

-- What a campaign is given: the seconds between two instants, stats.Summarize, the runner, the seed, the
-- policy and the variant. The runner is given the number of its call, from 0 on, and the run's seed.
pub record Campaign (fl : Floats) (S E : Type 0) : Type 0 where
  pub seconds : ℤ → ℤ → fl.Float
  pub summarise : List fl.Float → Bool → S
  pub runner : ℕ → ℤ → Result E (Artifacts fl.Float)
  pub seed : ℤ
  pub halt_after_invalid_run : Bool
  pub variant : Variant

module _ {S E : Type 0} (fl : Floats) (c : Campaign fl S E) where
  abbrev pub new_report : ℕ → Report fl.Float S
  new_report n = record {
    repetitions = n;
    per_run = [];
    endpoints = [];
    valid_runs = 0;
    invalid_runs = 0;
    halted = false;
    halted_after_run = 0;
    failed = false;
    failed_run = 0;
  }

  abbrev pub add_row : ℕ → Artifacts fl.Float → Report fl.Float S → Report fl.Float S
  add_row i art rep = record rep {
    per_run = rep.per_run ++ extract_scalars fl c.seconds (i + 1) art ∷ [];
  }

  -- The round after a run that did not fail, given the rounds after it.
  abbrev pub after_valid :
      Bool
      → Bool
      → ℕ
      → Report fl.Float S
      → (Report fl.Float S → Report fl.Float S × Option E)
      → Report fl.Float S × Option E
  after_valid true halt i rep next = next (record rep { valid_runs = rep.valid_runs + 1 })
  after_valid false true i rep next = (record rep { halted = true; halted_after_run = i + 1 }, none)
  after_valid false false i rep next = next rep

  abbrev pub after_run :
      Result E (Artifacts fl.Float)
      → ℕ
      → Report fl.Float S
      → (Report fl.Float S → Report fl.Float S × Option E)
      → Report fl.Float S × Option E
  after_run (err e) i rep next = (record rep { failed = true; failed_run = i + 1 }, some e)
  after_run (ok art) i rep next =
      after_valid art.run_valid c.halt_after_invalid_run i (add_row i art rep) next

  -- The loop, from run `i` on, with `rounds` rounds left.
  unfoldable pub run_from : ℕ → ℕ → Report fl.Float S → Report fl.Float S × Option E
  unfolding extract_scalars
  run_from zero i rep = (rep, none)
  run_from (suc rounds) i rep =
      after_run (c.runner i (c.seed +i pos i)) i rep (λ r. run_from rounds (i + 1) r)

  abbrev pub with_summaries : Report fl.Float S × Option E → Report fl.Float S × Option E
  with_summaries (rep, e) =
      let (endpoints, excluded) = summarize c.summarise rep.per_run c.variant in
      (record rep { endpoints = endpoints; invalid_runs = excluded }, e)

  -- RunWith, of a number of repetitions that is not negative; `none` where it makes no report.
  unfoldable pub run_with : ℕ → Option (Report fl.Float S × Option E)
  unfolding run_from summarize
  run_with n = if ltb n 1 then none else some (with_summaries (run_from n 0 (new_report n)))
