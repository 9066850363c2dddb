-- ===== src/Traffic/Balance.antt =====
-- The histograms of `StepGaps` agree with themselves.
use percentes.Base.{
  ℕ, zero, suc, ◌≡◌, refl, sym, ap, ◌∙◌, ◌<◌, ◌≤◌, List, [], ◌∷◌, ◌==◌, nat_eq, length, arith, inl,
  inr, Bool-cases, All,
}
use percentes.Base.Int.{ℤ, pos, int_eq, leb_ℤ, ◌+i◌, bits, from_bits, +i_assoc, +i_comm}
use percentes.Base.Maps.{Assoc, lookup, insert}
use percentes.Traffic.Requests.{Request, RunResult}
use percentes.Traffic.Gaps.{
  gap_edges, GapHistogram, search_edge, gap_bin, count_at, add_gaps, found_histogram, is_skipped,
  add_requests, put_sorted, sorted_steps, histograms, step_gaps, sum_counts,
}

-- One count for each bin, and the counts sum to the gaps.
pub record Balanced (h : GapHistogram) : Type 0 where
  pub bins : length h.counts ≡ length gap_edges
  pub sum : sum_counts h.counts ≡ h.gaps

search_edge-bound : (es : List ℤ) (us : ℤ) → search_edge es us ≤ length es
unfolding search_edge
search_edge-bound [] us = omega arith
search_edge-bound (e ∷ es) us = ground (arith, search_edge-bound es us)

gap_bin-bound : (us : ℤ) → gap_bin us < length gap_edges
unfolding gap_bin
gap_bin-bound us = omega (arith, search_edge-bound gap_edges us)

length-count_at : (i : ℕ) (ns : List ℤ) → length (count_at i ns) ≡ length ns
unfolding count_at
length-count_at i [] = refl
length-count_at zero (n ∷ ns) = refl
length-count_at (suc i) (n ∷ ns) = ap suc (length-count_at i ns)

sum_counts-count_at :
    (i : ℕ) (ns : List ℤ) → i < length ns → sum_counts (count_at i ns) ≡ sum_counts ns +i pos 1
unfolding count_at sum_counts
sum_counts-count_at i [] h = absurd (omega (arith, h))
sum_counts-count_at zero (n ∷ ns) h =
    +i_assoc n (pos 1) (sum_counts ns)
    ∙ ap (λ x. n +i x) (+i_comm (pos 1) (sum_counts ns))
    ∙ sym (+i_assoc n (sum_counts ns) (pos 1))
sum_counts-count_at (suc i) (n ∷ ns) h =
    ap (λ x. n +i x) (sum_counts-count_at i ns (omega (arith, h)))
    ∙ sym (+i_assoc n (sum_counts ns) (pos 1))

add_gaps-Balanced : (gs : List ℤ) (h : GapHistogram) → Balanced h → Balanced (add_gaps gs h)
unfolding add_gaps
add_gaps-Balanced [] h b = b
add_gaps-Balanced (us ∷ gs) h b = add_gaps-Balanced gs _ (record {
  bins = length-count_at (gap_bin us) h.counts ∙ b.bins;
  sum =
      sum_counts-count_at (gap_bin us) h.counts (omega (arith, gap_bin-bound us, b.bins))
      ∙ ap (λ x. x +i pos 1) b.sum;
})

abbrev AllBalanced : Assoc ℤ GapHistogram → Type 0
AllBalanced m = All (λ (e : ℤ × GapHistogram). Balanced e.1) m

Balanced-found :
    (k : ℤ) (m : Assoc ℤ GapHistogram) → AllBalanced m → Balanced (found_histogram k (lookup k m))
unfolding lookup sum_counts ◌+i◌ from_bits bits
Balanced-found k [] b = record { bins = refl; sum = refl }
Balanced-found k ((j, h) ∷ m) b = elim (Bool-cases (j == k)) [
  | inl e ↦ rw e b.0
  | inr e ↦ rw e (Balanced-found k m b.1)
]

Balanced-insert :
    (k : ℤ) (h : GapHistogram) (m : Assoc ℤ GapHistogram)
    → Balanced h
    → AllBalanced m
    → AllBalanced (insert k h m)
unfolding insert
Balanced-insert k h [] c b = (c, tt)
Balanced-insert k h ((j, g) ∷ m) c b = elim (Bool-cases (j == k)) [
  | inl e ↦ rw e (c, b.1)
  | inr e ↦ rw e (b.0, Balanced-insert k h m c b.1)
]

add_requests-Balanced :
    (rs : List Request) (by : Assoc ℤ GapHistogram)
    → AllBalanced by
    → AllBalanced (add_requests rs by)
unfolding add_requests
add_requests-Balanced [] by b = b
add_requests-Balanced (r ∷ rs) by b = add_requests-Balanced rs _ (elim (Bool-cases (is_skipped r)) [
  | inl e ↦ rw e b
  | inr e ↦
      rw e
        (Balanced-insert r.step _ by (add_gaps-Balanced r.gaps_us _ (Balanced-found r.step by b)) b)
])

put_sorted-Balanced :
    (k : ℤ) (h : GapHistogram) (m : Assoc ℤ GapHistogram)
    → Balanced h
    → AllBalanced m
    → AllBalanced (put_sorted k h m)
unfolding put_sorted
put_sorted-Balanced k h [] c b = (c, tt)
put_sorted-Balanced k h ((j, g) ∷ m) c b = elim (Bool-cases (leb_ℤ k j)) [
  | inl e ↦ rw e (c, b)
  | inr e ↦ rw e (b.0, put_sorted-Balanced k h m c b.1)
]

sorted_steps-Balanced : (m : Assoc ℤ GapHistogram) → AllBalanced m → AllBalanced (sorted_steps m)
unfolding sorted_steps
sorted_steps-Balanced [] b = tt
sorted_steps-Balanced ((k, h) ∷ m) b =
    put_sorted-Balanced k h (sorted_steps m) b.0 (sorted_steps-Balanced m b.1)

histograms-Balanced : (m : Assoc ℤ GapHistogram) → AllBalanced m → All Balanced (histograms m)
histograms-Balanced [] b = tt
histograms-Balanced ((k, h) ∷ m) b = (b.0, histograms-Balanced m b.1)

-- Each histogram of `StepGaps` has one count for each bin, and its counts sum to its gaps.
pub step_gaps-Balanced : (res : RunResult) → All Balanced (step_gaps res)
unfolding step_gaps
step_gaps-Balanced res =
    histograms-Balanced _ (sorted_steps-Balanced _ (add_requests-Balanced res.requests [] tt))
