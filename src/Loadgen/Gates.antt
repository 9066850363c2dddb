-- ===== src/Loadgen/Gates.antt =====
-- internal/loadgen/gates.go: `evaluateGates`. The CPU window is a positive number of samples.
use percentes.Base.{
  ℕ, zero, suc, ◌+◌, ◌-◌, ◌*◌, ◌/◌, Bool, false, not, ◌&&◌, List, [], ◌∷◌, ◌==◌, nat_eq,
  if◌then◌else◌, length, take, leb,
}
use percentes.Base.Int.{ℤ, pos, int_eq, ltb_ℤ, leb_ℤ, ◌-i◌, ◌*i◌, quo_i}
use percentes.Base.Floats.{Floats}
use percentes.Base.Sort.{sort_by}
use percentes.Traffic.Requests.{Request}

-- config.ClientValidity
pub record ClientValidity : Type 0 where
  pub send_skew_p99_ms : ℤ
  pub send_skew_max_ms : ℤ
  pub max_cpu_pct : ℤ
  pub cpu_window_s : ℕ
  pub go_gc_pause_p99_ms : ℤ

pub record CpuSample (F : Type 0) : Type 0 where
  pub at_ns : ℤ
  pub pct : F

pub record GateReport (F : Type 0) : Type 0 where
  pub send_skew_p99_us : ℤ
  pub send_skew_max_us : ℤ
  pub send_skew_pass : Bool
  pub undispatched : ℕ
  pub undispatched_pass : Bool
  pub cpu_measured : Bool
  pub cpu_peak_pct : F
  pub cpu_worst_window_pct : F
  pub cpu_pass : Bool
  pub gc_pause_p99_lo_ms : F
  pub gc_pause_p99_ms : F
  pub gc_pause_open : Bool
  pub gc_pass : Bool
  pub pass : Bool

unfoldable pub count_undispatched : List Request → ℕ
count_undispatched [] = 0
count_undispatched (r ∷ rs) =
    let rest = count_undispatched rs in if r.dispatch_ns == pos 0 then rest + 1 else rest

abbrev pub in_bounds : ℤ → ℤ → ℤ → Bool
in_bounds start end_ns t = leb_ℤ start t && ltb_ℤ t end_ns

-- Actual minus intended dispatch of the requests dispatched in the span.
unfoldable pub skews_of : ℤ → ℤ → List Request → List ℤ
skews_of start end_ns [] = []
skews_of start end_ns (r ∷ rs) =
    let rest = skews_of start end_ns rs in
    if not (r.dispatch_ns == pos 0) && in_bounds start end_ns r.intended_ns
    then (r.dispatch_ns -i r.intended_ns) ∷ rest
    else rest

abbrev pub item_at : List ℤ → ℕ → ℤ
item_at [] k = pos 0
item_at (x ∷ xs) zero = x
item_at (x ∷ xs) (suc k) = item_at xs k

-- The 99th percentile and the highest of sorted skews; 0 where there is none.
unfoldable pub p99_of : List ℤ → ℤ
p99_of xs = item_at xs ((length xs * 99 + 99) / 100 - 1)

unfoldable pub max_of : List ℤ → ℤ
max_of xs = item_at xs (length xs - 1)

module _ (fl : Floats) where
  unfoldable pub samples_in : ℤ → ℤ → List (CpuSample fl.Float) → List fl.Float
  samples_in start end_ns [] = []
  samples_in start end_ns (s ∷ ss) =
      let rest = samples_in start end_ns ss in
      if in_bounds start end_ns s.at_ns then s.pct ∷ rest else rest

  unfoldable pub peak_from : fl.Float → List fl.Float → fl.Float
  peak_from peak [] = peak
  peak_from peak (x ∷ xs) = peak_from (if fl.below peak x then x else peak) xs

  unfoldable pub sum_from : fl.Float → List fl.Float → fl.Float
  sum_from total [] = total
  sum_from total (x ∷ xs) = sum_from (fl.plus total x) xs

  abbrev pub mean_of : ℕ → List fl.Float → fl.Float
  mean_of win xs = fl.over (sum_from (fl.of_int (pos 0)) (take win xs)) (fl.of_int (pos win))

  -- The loop over the windows: the worst mean, and whether all pass.
  unfoldable pub windows_from : ℕ → fl.Float → List fl.Float → fl.Float × Bool → fl.Float × Bool
  unfolding sum_from
  windows_from win limit [] (worst, passed) = (worst, passed)
  windows_from win limit (x ∷ xs) (worst, passed) =
      let mean = mean_of win (x ∷ xs) in
      let rest = windows_from win limit xs (
        if fl.below worst mean then mean else worst,
        if fl.below limit mean then false else passed,
      ) in
      if leb win (length (x ∷ xs)) then rest else (worst, passed)

  -- evaluateGates; `is_inf` is math.IsInf of the pause's upper edge.
  unfoldable pub evaluate_gates :
      ClientValidity
      → List Request
      → List (CpuSample fl.Float)
      → fl.Float
      → fl.Float
      → Bool
      → ℤ
      → ℤ
      → GateReport fl.Float
  unfolding count_undispatched skews_of p99_of max_of samples_in peak_from windows_from quo_i
  evaluate_gates v requests samples gc_lo gc_hi is_inf start end_ns =
      let zero_pct = fl.of_int (pos 0) in
      let undispatched = count_undispatched requests in
      let skews = sort_by ltb_ℤ (skews_of start end_ns requests) in
      let p99 = p99_of skews in
      let highest = max_of skews in
      let skew_pass =
        leb_ℤ p99 (v.send_skew_p99_ms *i pos 1_000_000)
        && leb_ℤ highest (v.send_skew_max_ms *i pos 1_000_000) in
      let all_sent = undispatched == 0 in
      let pcts = samples_in start end_ns samples in
      let measured = leb v.cpu_window_s (length pcts) in
      let (worst, cpu_pass) =
        windows_from v.cpu_window_s (fl.of_int v.max_cpu_pct) pcts (zero_pct, measured) in
      let gc_pass = not is_inf && fl.below gc_hi (fl.of_int v.go_gc_pause_p99_ms) in
      record {
        send_skew_p99_us = quo_i p99 1000;
        send_skew_max_us = quo_i highest 1000;
        send_skew_pass = skew_pass;
        undispatched = undispatched;
        undispatched_pass = all_sent;
        cpu_measured = measured;
        cpu_peak_pct = peak_from zero_pct pcts;
        cpu_worst_window_pct = worst;
        cpu_pass = cpu_pass;
        gc_pause_p99_lo_ms = gc_lo;
        gc_pause_p99_ms = if is_inf then zero_pct else gc_hi;
        gc_pause_open = is_inf;
        gc_pass = gc_pass;
        pass = skew_pass && (all_sent && (cpu_pass && gc_pass));
      }
