-- ===== src/Ceiling/Examples.antt =====
-- A ladder of two steps, the second over the route's cap, and the theorem at it.
use percentes.Base.{◌≡◌, refl, false, [], ◌∷◌, bytes, none, some, Result, ok, err}
use percentes.Base.Int.{pos, ◌+i◌, ◌*i◌, bits, from_bits, ◌+ℤ◌, ◌*ℤ◌}
use percentes.Base.Rat.{zero_rat, rat_of_int, ◌+q◌, ◌*q◌, quo, leb_rat}
use percentes.Admission.Decimal.{decimal, decimal_string, per_request}
use percentes.Admission.Apply.{Platform, Price, check_price, is_date}
use percentes.Ceiling.Types.{Config, Plan, Verdict, RuleError, Limit, rpm, input_and_output}
use percentes.Ceiling.Rule.{ceiling_rule}
use percentes.Ceiling.Binding.{Applied, MakesTests, ceiling_rule-Applied}

abbrev platform : Platform
platform = record {
  parse_url = λ u. some ("https", "example.org");
  decode = λ l. none;
  encode = λ e. [];
  sha256_hex = λ b. [];
}

abbrev per_minute : Limit
per_minute = record {
  dimension = rpm;
  value = rat_of_int (pos 600);
  is_confidential = false;
  window_s = zero_rat;
  counting = input_and_output;
  burndown = zero_rat;
  source = "";
  hmac_sha256 = "";
}

abbrev ladder : Config
ladder = record {
  target = "r";
  limits = per_minute ∷ [];
  unpublished_limits = [];
  steps_rps = rat_of_int (pos 1) ∷ rat_of_int (pos 2) ∷ [];
  input_bound_tokens = pos 1000;
  ceiling_tokens = pos 512;
  http_timeout_s = pos 60;
  route_usd = bytes "1.5";
}

abbrev plan : Plan
plan = record {
  warmup_requests = pos 10;
  step_requests = pos 100 ∷ pos 200 ∷ [];
  cells = pos 14;
  day_cells = pos 6;
  probe_requests = pos 10;
}

abbrev dollar : Price
dollar = record {
  input_usd_per_mtok = bytes "0.4";
  output_usd_per_mtok = bytes "0.5";
  input_tokens = pos 0;
  output_tokens = pos 0;
  source = "https://example.org/prices";
  retrieved = bytes "2026-02-28";
}

abbrev made : Result RuleError Verdict → Verdict
made (ok v) = v
made (err x) = record {
  route = "";
  input_tokens = pos 0;
  ceiling_tokens = pos 0;
  per_request_usd = [];
  probe_usd = [];
  top_rps = zero_rat;
  cell_usd = [];
  edition_usd = [];
  steps = [];
}

abbrev verdict_at : Verdict
unfolding ceiling_rule check_price is_date decimal decimal_string per_request ◌+q◌ ◌*q◌ quo leb_rat
    ◌+ℤ◌ ◌*ℤ◌ ◌+i◌ ◌*i◌ bits from_bits
verdict_at = made (ceiling_rule platform (λ r. r) ladder dollar plan)

test_top_rate : verdict_at.top_rps ≡ rat_of_int (pos 1)
unfolding verdict_at
test_top_rate = refl

ceiling_rule-Applied_example :
    Applied verdict_at (rat_of_int (pos 1) ∷ rat_of_int (pos 2) ∷ [])
    × MakesTests platform (λ r. r) ladder dollar plan verdict_at
unfolding verdict_at
ceiling_rule-Applied_example =
    ceiling_rule-Applied platform (λ r. r) ladder dollar plan verdict_at refl
