-- ===== src/Detect/Types.antt =====
-- internal/detect/detect.go: buckets, parameters and outcomes. The counts of a bucket and the lengths in seconds of the parameters are natural numbers.
use percentes.Base.{ℕ, Bool, Option, nat_eq}
use percentes.Base.Int.{ℤ, pos, ◌-i◌}

abbrev pub ns_per_sec : ℕ
ns_per_sec = 1_000_000_000

pub record Bucket : Type 0 where
  pub start_ns : ℤ
  pub scheduled : ℕ
  pub completed : ℕ
  pub errored : ℕ
  pub good : ℕ
  pub good_ttft : ℕ
  pub good_e2e : ℕ

-- A numerator and a denominator.
abbrev pub Component : Type 0
Component = Bucket → ℤ × ℤ

abbrev pub comp_goodput : Component
comp_goodput b = (pos b.good, pos b.scheduled)

abbrev pub comp_ttft_slo : Component
comp_ttft_slo b = (pos b.good_ttft, pos b.scheduled)

abbrev pub comp_e2e_slo : Component
comp_e2e_slo b = (pos b.good_e2e, pos b.scheduled)

abbrev pub comp_non_error : Component
comp_non_error b = (pos b.scheduled -i pos b.errored, pos b.scheduled)

pub record Params : Type 0 where
  pub window_s : ℕ
  pub entry_pct : ℕ
  pub exit_pct : ℕ
  pub hold_s : ℕ

pub record Detection (F : Type 0) : Type 0 where
  pub baseline : F
  pub params : Params
  pub ttr_seconds : Option F
  pub recovered_at_ns : Option ℤ
  pub not_recovered : Bool
  pub hold_unobserved : Bool
  pub canceled_entries : ℕ
  pub re_degradations : ℕ
