-- ===== src/Campaign/Whole.antt =====
-- What holds of every campaign's report.
use percentes.Base.{ℕ, ◌+◌, ◌≡◌, ◌⊎◌, Option, length, All}
use percentes.Base.Floats.{Floats}
use percentes.Campaign.Types.{ScalarSummary, Report, not_applicable}
use percentes.Campaign.Run.{Campaign}
use percentes.Campaign.Accounts.{IsEnded}

-- A summary counts each of `n` runs once, as contributing or dropped, unless it is not applicable.
abbrev pub CountsRuns : {S : Type 0} → ℕ → ScalarSummary S → Type 0
CountsRuns n s = (s.endpoint ≡ not_applicable) ⊎ (s.contributing_n + s.dropped_runs ≡ n)

module _ (fl : Floats) {S E : Type 0} (c : Campaign fl S E) where
  -- What a report accounts for.
  pub record IsAccounted (n : ℕ) (rep : Report fl.Float S) (e : Option E) : Type 0 where
    pub ended : IsEnded fl c n rep e
    pub all_counted : rep.valid_runs + rep.invalid_runs ≡ length rep.per_run
    pub summaries : All (CountsRuns rep.valid_runs) rep.endpoints
