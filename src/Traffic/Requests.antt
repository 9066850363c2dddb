-- ===== src/Traffic/Requests.antt =====
-- internal/loadgen/loadgen.go, internal/probe/probe.go and internal/evidence/attempts.go: the records
-- of requests, as far as they are counted here. A number of records is a natural number.
use percentes.Base.{Bool, true, false, Option, List}
use percentes.Base.Int.{ℤ}

pub data RequestOutcome : Type 0 where
  completed errored censored : RequestOutcome

-- loadgen.Request
pub record Request : Type 0 where
  pub intended_ns : ℤ
  pub dispatch_ns : ℤ
  pub outcome : RequestOutcome
  pub step : ℤ
  pub warmup : Bool
  pub gaps_us : List ℤ

-- loadgen.Result
pub record RunResult : Type 0 where
  pub requests : List Request
  pub warmup_end_ns : ℤ

-- probe.Record: whether its exchanges have a dispatch time.
pub record ProbeRecord : Type 0 where
  pub request_dispatched : Bool
  pub wrong_model_dispatched : Option Bool

-- evidence.Record
pub record AttemptRecord : Type 0 where
  pub outcome : RequestOutcome
  pub step : ℤ
  pub warmup : Bool
  pub content_events : ℤ

abbrev pub is_completed : RequestOutcome → Bool
is_completed completed = true
is_completed errored = false
is_completed censored = false
