-- ===== src/Detect/Series.antt =====
-- internal/detect/detect.go: `BuildSeries`, with the fields of a request that it reads.
use percentes.Base.{
  ℕ, zero, suc, ◌+◌, Bool, true, false, not, ◌&&◌, ◌||◌, List, [], ◌∷◌, ◌==◌, nat_eq, if◌then◌else◌,
}
use percentes.Base.Int.{ℤ, pos, pos_part, ltb_ℤ, leb_ℤ, ◌+i◌, ◌-i◌, ◌*i◌}
use percentes.Traffic.Requests.{RequestOutcome, completed, errored, censored}
use percentes.Detect.Types.{Bucket, ns_per_sec}
use percentes.Base.Int.{quo_i}

pub record TimedRequest : Type 0 where
  pub intended_ns : ℤ
  pub first_tok_ns : ℤ
  pub done_ns : ℤ
  pub outcome : RequestOutcome

-- The service-level objective in milliseconds.
pub record Slo : Type 0 where
  pub ttft_ms : ℤ
  pub e2e_ms : ℤ

-- The empty buckets, from the `i`-th on.
unfoldable pub empty_buckets : ℤ → ℕ → ℕ → List Bucket
empty_buckets start i zero = []
empty_buckets start i (suc n) =
    record {
      start_ns = start +i pos i *i pos ns_per_sec;
      scheduled = 0;
      completed = 0;
      errored = 0;
      good = 0;
      good_ttft = 0;
      good_e2e = 0;
    }
    ∷ empty_buckets start (i + 1) n

abbrev one_when : Bool → ℕ
one_when true = 1
one_when false = 0

-- One request in its bucket.
abbrev pub count_outcome : Bool → Bool → RequestOutcome → Bucket → Bucket
count_outcome in_ttft in_e2e completed b = record b {
  completed = b.completed + 1;
  good_ttft = b.good_ttft + one_when in_ttft;
  good_e2e = b.good_e2e + one_when in_e2e;
  good = b.good + one_when (in_ttft && in_e2e);
}
count_outcome in_ttft in_e2e errored b = record b { errored = b.errored + 1 }
count_outcome in_ttft in_e2e censored b = b

abbrev pub ttft_ok : Slo → TimedRequest → Bool
ttft_ok slo r = leb_ℤ (r.first_tok_ns -i r.intended_ns) (slo.ttft_ms *i pos 1_000_000)

abbrev pub e2e_ok : Slo → TimedRequest → Bool
e2e_ok slo r = leb_ℤ (r.done_ns -i r.intended_ns) (slo.e2e_ms *i pos 1_000_000)

unfoldable pub count_in_bucket : Slo → TimedRequest → Bucket → Bucket
count_in_bucket slo r b =
    count_outcome (ttft_ok slo r) (e2e_ok slo r) r.outcome
      (record b { scheduled = b.scheduled + 1 })

-- buckets[k] = f(buckets[k])
unfoldable pub change_at : ℕ → (Bucket → Bucket) → List Bucket → List Bucket
change_at k f [] = []
change_at zero f (b ∷ bs) = f b ∷ bs
change_at (suc k) f (b ∷ bs) = b ∷ change_at k f bs

abbrev pub in_span : ℤ → ℤ → TimedRequest → Bool
in_span start end_ns r = not (ltb_ℤ r.intended_ns start || leb_ℤ end_ns r.intended_ns)

abbrev pub bucket_of : ℤ → TimedRequest → ℕ
bucket_of start r = pos_part (quo_i (r.intended_ns -i start) ns_per_sec)

-- The loop over the requests.
unfoldable pub count_all : Slo → ℤ → ℤ → List TimedRequest → List Bucket → List Bucket
unfolding count_in_bucket change_at
count_all slo start end_ns [] bs = bs
count_all slo start end_ns (r ∷ rs) bs = count_all slo start end_ns rs (
    if in_span start end_ns r then change_at (bucket_of start r) (count_in_bucket slo r) bs else bs)

-- The bucket count, rounded up.
abbrev pub bucket_count : ℤ → ℤ → ℤ
bucket_count start end_ns = quo_i (end_ns -i start +i pos ns_per_sec -i pos 1) ns_per_sec

-- BuildSeries; a count of at most 0 gives no bucket.
unfoldable pub build_series : Slo → List TimedRequest → ℤ → ℤ → List Bucket
unfolding count_all empty_buckets
build_series slo rs start end_ns =
    let n = pos_part (bucket_count start end_ns) in
    if n == 0 then [] else count_all slo start end_ns rs (empty_buckets start 0 n)
