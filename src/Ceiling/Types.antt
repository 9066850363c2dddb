-- ===== src/Ceiling/Types.antt =====
-- internal/admission/ceiling.go: the plan, the demands and the verdict of the ceiling rule, and the part
-- of internal/config/release.go that it reads. A rate or a limit is the exact fraction that its float64
-- is.
use percentes.Base.{ℕ, Bool, Option, List, nat_eq, String, string_eq}
use percentes.Base.Int.{ℤ}
use percentes.Base.Rat.{Rat}
use percentes.Admission.Types.{Error}

-- Limit.Dimension, the Limit* values.
pub data Dimension : Type 0 where
  rpm rps tpm input_tpm output_tpm concurrency rpd tpd spend_window spend_month reload : Dimension

pub data Counting : Type 0 where
  input_and_output count_input output_burndown : Counting

-- config.Limit, the fields that the rule reads.
pub record Limit : Type 0 where
  pub dimension : Dimension
  pub value : Rat
  pub is_confidential : Bool
  pub window_s : Rat
  pub counting : Counting
  pub burndown : Rat
  pub source : String
  pub hmac_sha256 : String

-- config.Config, the fields that the rule reads.
pub record Config : Type 0 where
  pub target : String
  pub limits : List Limit
  pub unpublished_limits : List String
  pub steps_rps : List Rat
  pub input_bound_tokens : ℤ
  pub ceiling_tokens : ℤ
  pub http_timeout_s : ℤ
  pub route_usd : List ℕ

pub record Plan : Type 0 where
  pub warmup_requests : ℤ
  pub step_requests : List ℤ
  pub cells : ℤ
  pub day_cells : ℤ
  pub probe_requests : ℤ

-- What a demand is against: a limit's dimension, an unpublished one's name, or the route's cap.
pub data Against : Type 0 where
  limit_of : Dimension → Against
  unpublished_limit : String → Against
  route_cap : Against

pub record Demand : Type 0 where
  pub against : Against
  pub index : ℤ
  pub unpublished : Bool
  pub confidential : Bool
  pub source : String
  pub hmac_sha256 : String
  pub value : Rat
  pub amount : Rat
  pub fraction : Rat
  pub half : Bool
  pub pass : Bool

pub record Step : Type 0 where
  pub rps : Rat
  pub admitted : Bool
  pub binding : Option Demand
  pub demands : List Demand

pub record Verdict : Type 0 where
  pub route : String
  pub input_tokens : ℤ
  pub ceiling_tokens : ℤ
  pub per_request_usd : List ℕ
  pub probe_usd : List ℕ
  pub top_rps : Rat
  pub cell_usd : List ℕ
  pub edition_usd : List ℕ
  pub steps : List Step

pub data RuleError : Type 0 where
  wrong_steps bad_plan bad_route_cap : RuleError
  bad_price : Error → RuleError
