-- ===== src/Detect/Homes.antt =====
-- The buckets of a series: each counts consistently, and each request of the span is in one.
use percentes.Base.{
  ℕ, zero, suc, ◌+◌, ◌-◌, ◌/◌, ◌^◌, ◌≡◌, ◌≤◌, ◌<◌, refl, sym, ap, inl, inr, Bool, true, false, not,
  ◌||◌, List, [], ◌∷◌, ◌==◌, nat_eq, if◌then◌else◌, length, All, arith, Bool-cases,
}
use percentes.Base.Int.{ℤ, pos, negsuc, pos_part, ltb_ℤ, leb_ℤ, ◌-i◌, -i_exact, +i_exact}
use percentes.Traffic.Requests.{RequestOutcome, completed, errored, censored}
use percentes.Detect.Types.{Bucket, ns_per_sec}
use percentes.Base.Int.{quo_i}
use percentes.Detect.Series.{
  TimedRequest, Slo, ttft_ok, e2e_ok, empty_buckets, count_outcome, count_in_bucket, change_at,
  in_span, bucket_of, count_all, bucket_count, build_series,
}

-- A bucket's counts fit together: a completed request is good where both of its times are.
abbrev pub IsCounted : Bucket → Type 0
IsCounted b =
    (b.completed + b.errored ≤ b.scheduled)
    × (b.good_ttft + b.good_e2e ≤ b.completed + b.good)
    × (b.good ≤ b.good_ttft)
    × (b.good ≤ b.good_e2e)

count_outcome-IsCounted :
    (x y : Bool) (o : RequestOutcome) (b : Bucket)
    → IsCounted b
    → IsCounted (count_outcome x y o (record b { scheduled = b.scheduled + 1 }))
count_outcome-IsCounted true true completed b h = ground arith
count_outcome-IsCounted true false completed b h = ground arith
count_outcome-IsCounted false true completed b h = ground arith
count_outcome-IsCounted false false completed b h = ground arith
count_outcome-IsCounted x y errored b h = ground arith
count_outcome-IsCounted x y censored b h = ground arith

All-change_at :
    (k : ℕ) (f : Bucket → Bucket) (bs : List Bucket)
    → ((b : Bucket) → IsCounted b → IsCounted (f b))
    → All IsCounted bs
    → All IsCounted (change_at k f bs)
unfolding change_at
All-change_at k f [] g ps = tt
All-change_at zero f (b ∷ bs) g ps = (g b ps.0, ps.1)
All-change_at (suc k) f (b ∷ bs) g ps = (ps.0, All-change_at k f bs g ps.1)

abbrev pub sum_scheduled : List Bucket → ℕ
sum_scheduled [] = 0
sum_scheduled (b ∷ bs) = b.scheduled + sum_scheduled bs

sum_scheduled-change_at :
    (k : ℕ) (f : Bucket → Bucket) (bs : List Bucket)
    → ((b : Bucket) → (f b).scheduled ≡ b.scheduled + 1)
    → k < length bs
    → sum_scheduled (change_at k f bs) ≡ sum_scheduled bs + 1
unfolding change_at
sum_scheduled-change_at k f [] g lt = absurd (omega (arith, lt))
sum_scheduled-change_at zero f (b ∷ bs) g lt = omega (arith, g b)
sum_scheduled-change_at (suc k) f (b ∷ bs) g lt =
    omega (arith, sum_scheduled-change_at k f bs g (omega (arith, lt)))

length-change_at :
    (k : ℕ) (f : Bucket → Bucket) (bs : List Bucket) → length (change_at k f bs) ≡ length bs
unfolding change_at
length-change_at k f [] = refl
length-change_at zero f (b ∷ bs) = refl
length-change_at (suc k) f (b ∷ bs) = ap suc (length-change_at k f bs)

count_outcome-scheduled :
    (x y : Bool) (o : RequestOutcome) (b : Bucket) → (count_outcome x y o b).scheduled ≡ b.scheduled
count_outcome-scheduled x y completed b = refl
count_outcome-scheduled x y errored b = refl
count_outcome-scheduled x y censored b = refl

-- The requests whose intended time is in the span.
abbrev pub span_size : ℤ → ℤ → List TimedRequest → ℕ
span_size start end_ns [] = 0
span_size start end_ns (r ∷ rs) =
    (if in_span start end_ns r then 1 else 0) + span_size start end_ns rs

-- Every request in the span has a bucket.
pub record Series (rs : List TimedRequest) (start end_ns : ℤ) (bs : List Bucket) : Type 0 where
  pub counted : All IsCounted bs
  pub none_lost : sum_scheduled bs ≡ span_size start end_ns rs

count_in_bucket-IsCounted :
    (slo : Slo) (r : TimedRequest) (b : Bucket) → IsCounted b → IsCounted (count_in_bucket slo r b)
unfolding count_in_bucket
count_in_bucket-IsCounted slo r b h =
    count_outcome-IsCounted (ttft_ok slo r) (e2e_ok slo r) r.outcome b h

count_in_bucket-scheduled :
    (slo : Slo) (r : TimedRequest) (b : Bucket)
    → (count_in_bucket slo r b).scheduled ≡ b.scheduled + 1
unfolding count_in_bucket
count_in_bucket-scheduled slo r b =
    count_outcome-scheduled (ttft_ok slo r) (e2e_ok slo r) r.outcome
      (record b { scheduled = b.scheduled + 1 })

count_all-counts :
    (slo : Slo) (start end_ns : ℤ) (rs : List TimedRequest) (bs : List Bucket)
    → ((r : TimedRequest) → in_span start end_ns r ≡ true → bucket_of start r < length bs)
    → All IsCounted bs
    → All IsCounted (count_all slo start end_ns rs bs)
      × (sum_scheduled (count_all slo start end_ns rs bs)
          ≡ sum_scheduled bs + span_size start end_ns rs)
unfolding count_all
count_all-counts slo start end_ns [] bs home ps = (ps, omega arith)
count_all-counts slo start end_ns (r ∷ rs) bs home ps = elim (Bool-cases (in_span start end_ns r)) [
  | inl p ↦
      let f = count_in_bucket slo r in
      let k = bucket_of start r in
      let (qs, e) =
        count_all-counts slo start end_ns rs (change_at k f bs)
          (λ t u. omega (arith, home t u, length-change_at k f bs))
          (All-change_at k f bs (count_in_bucket-IsCounted slo r) ps) in
      let one = sum_scheduled-change_at k f bs (count_in_bucket-scheduled slo r) (home r p) in
      rw p (qs, omega (arith, e, one))
  | inr p ↦
      let (qs, e) = count_all-counts slo start end_ns rs bs home ps in rw p (qs, omega (arith, e))
]

span_index :
    (a b i : ℕ) → a ≤ i → i < b → (i - a) / ns_per_sec < (b - a + ns_per_sec - 1) / ns_per_sec
span_index a b i low high = omega (arith, low, high)

-- With span ends that are not negative and below 2 ^ 62, no index wraps around.
index_bound :
    (a b : ℕ) (z : ℤ)
    → b < 2 ^ 62
    → not (ltb_ℤ z (pos a) || leb_ℤ (pos b) z) ≡ true
    → pos_part (quo_i (z -i pos a) ns_per_sec) < pos_part (bucket_count (pos a) (pos b))
unfolding quo_i
index_bound a b (negsuc i) small p = absurd (ground arith)
index_bound a b (pos i) small p =
    let (low, high) : (a ≤ i) × (i < b) = ground arith in
    rw
      (
        -i_exact i a low (omega (arith, high, small)),
        -i_exact b a (omega (arith, low, high)) (omega (arith, small)),
        +i_exact (b - a) ns_per_sec (omega (arith, small)),
        -i_exact (b - a + ns_per_sec) 1 (omega arith) (omega (arith, small)),
      )
      (span_index a b i low high)

empty_buckets-IsCounted : (start : ℤ) (i n : ℕ) → All IsCounted (empty_buckets start i n)
unfolding empty_buckets
empty_buckets-IsCounted start i zero = tt
empty_buckets-IsCounted start i (suc n) = (ground arith, empty_buckets-IsCounted start (i + 1) n)

empty_buckets-sizes :
    (start : ℤ) (i n : ℕ)
    → (length (empty_buckets start i n) ≡ n) × (sum_scheduled (empty_buckets start i n) ≡ 0)
unfolding empty_buckets
empty_buckets-sizes start i zero = (refl, refl)
empty_buckets-sizes start i (suc n) =
    let (as_long, none_yet) = empty_buckets-sizes start (i + 1) n in
    (ap suc as_long, omega (arith, none_yet))

span_size_zero :
    (start end_ns : ℤ) (rs : List TimedRequest)
    → ((r : TimedRequest) → in_span start end_ns r ≡ true → bucket_of start r < 0)
    → span_size start end_ns rs ≡ 0
span_size_zero start end_ns [] home = refl
span_size_zero start end_ns (r ∷ rs) home = elim (Bool-cases (in_span start end_ns r)) [
  | inl p ↦ absurd (omega (arith, home r p))
  | inr p ↦ rw p (omega (arith, span_size_zero start end_ns rs home))
]

Series-if :
    (slo : Slo) (start end_ns : ℤ) (rs : List TimedRequest) (n : ℕ)
    → ((r : TimedRequest) → in_span start end_ns r ≡ true → bucket_of start r < n)
    → Series rs start end_ns
        (if n == 0 then [] else count_all slo start end_ns rs (empty_buckets start 0 n))
Series-if slo start end_ns rs zero home = record {
  counted = tt;
  none_lost = sym (span_size_zero start end_ns rs home);
}
Series-if slo start end_ns rs (suc n) home =
    let (as_long, none_yet) = empty_buckets-sizes start 0 (suc n) in
    let (counted, total) =
      count_all-counts slo start end_ns rs (empty_buckets start 0 (suc n))
        (λ r p. omega (arith, home r p, as_long)) (empty_buckets-IsCounted start 0 (suc n)) in
    let some_bucket : (suc n == 0) ≡ false = ground arith in
    rw some_bucket (record { counted = counted; none_lost = omega (arith, total, none_yet) })

-- BuildSeries over a span whose ends are not negative and below 2 ^ 62 ns loses no request: the
-- scheduled counts of its buckets sum to the requests with an intended time in the span, and each
-- bucket's counts fit together.
pub build_series-Series :
    (slo : Slo) (rs : List TimedRequest) (a b : ℕ)
    → b < 2 ^ 62
    → Series rs (pos a) (pos b) (build_series slo rs (pos a) (pos b))
unfolding build_series
build_series-Series slo rs a b small =
    Series-if slo (pos a) (pos b) rs _ (λ r p. index_bound a b r.intended_ns small p)
