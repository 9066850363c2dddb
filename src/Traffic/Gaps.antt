-- ===== src/Traffic/Gaps.antt =====
-- internal/evidence/gaps.go: the histograms of inter-chunk gaps, and their check.
use percentes.Base.{
  ℕ, zero, suc, ◌-◌, Bool, true, false, not, ◌&&◌, ◌||◌, Option, none, some, List, [], ◌∷◌, ◌++◌,
  ◌==◌, nat_eq, if◌then◌else◌, length, is_empty,
}
use percentes.Base.Int.{ℤ, pos, int_eq, ltb_ℤ, leb_ℤ, ◌+i◌, ◌-i◌}
use percentes.Base.Maps.{Assoc, lookup, insert}
use percentes.Traffic.Requests.{Request, RunResult, AttemptRecord, is_completed}

-- GapEdgesUs
abbrev pub gap_edges : List ℤ
gap_edges =
    pos 1
    ∷ pos 2
    ∷ pos 5
    ∷ pos 10
    ∷ pos 20
    ∷ pos 50
    ∷ pos 100
    ∷ pos 200
    ∷ pos 500
    ∷ pos 1_000
    ∷ pos 2_000
    ∷ pos 5_000
    ∷ pos 10_000
    ∷ pos 20_000
    ∷ pos 50_000
    ∷ pos 100_000
    ∷ pos 200_000
    ∷ pos 500_000
    ∷ pos 1_000_000
    ∷ pos 2_000_000
    ∷ pos 5_000_000
    ∷ pos 10_000_000
    ∷ pos 20_000_000
    ∷ pos 50_000_000
    ∷ []

pub record GapHistogram : Type 0 where
  pub step : ℤ
  pub gaps : ℤ
  pub counts : List ℤ

-- sort.Search for the first edge over `us`.
unfoldable pub search_edge : List ℤ → ℤ → ℕ
search_edge [] us = 0
search_edge (e ∷ es) us = let i = search_edge es us in if ltb_ℤ us e then 0 else suc i

-- gapBin; a natural number less 1 stops at 0.
unfoldable pub gap_bin : ℤ → ℕ
unfolding search_edge
gap_bin us = search_edge gap_edges us - 1

-- counts[i]++
unfoldable pub count_at : ℕ → List ℤ → List ℤ
count_at i [] = []
count_at zero (n ∷ ns) = (n +i pos 1) ∷ ns
count_at (suc i) (n ∷ ns) = n ∷ count_at i ns

-- The loop over a request's gaps.
unfoldable pub add_gaps : List ℤ → GapHistogram → GapHistogram
unfolding gap_bin count_at
add_gaps [] h = h
add_gaps (us ∷ gs) h =
    add_gaps gs (record h { counts = count_at (gap_bin us) h.counts; gaps = h.gaps +i pos 1 })

abbrev pub zeros : List ℤ → List ℤ
zeros [] = []
zeros (e ∷ es) = pos 0 ∷ zeros es

abbrev pub found_histogram : ℤ → Option GapHistogram → GapHistogram
found_histogram step none = record { step = step; gaps = pos 0; counts = zeros gap_edges }
found_histogram step (some h) = h

-- The requests that StepGaps skips.
unfoldable pub is_skipped : Request → Bool
is_skipped r =
    not (is_completed r.outcome) || (r.warmup || (ltb_ℤ r.step (pos 1) || is_empty r.gaps_us))

-- The loop of StepGaps.
unfoldable pub add_requests : List Request → Assoc ℤ GapHistogram → Assoc ℤ GapHistogram
unfolding is_skipped add_gaps
add_requests [] by = by
add_requests (r ∷ rs) by = add_requests rs (
    if is_skipped r
    then by
    else insert r.step (add_gaps r.gaps_us (found_histogram r.step (lookup r.step by))) by)

-- sortedSteps, with each step's histogram.
unfoldable pub put_sorted : ℤ → GapHistogram → Assoc ℤ GapHistogram → Assoc ℤ GapHistogram
put_sorted k h [] = (k, h) ∷ []
put_sorted k h ((j, g) ∷ m) =
    let rest = put_sorted k h m in if leb_ℤ k j then (k, h) ∷ (j, g) ∷ m else (j, g) ∷ rest

unfoldable pub sorted_steps : Assoc ℤ GapHistogram → Assoc ℤ GapHistogram
unfolding put_sorted
sorted_steps [] = []
sorted_steps ((k, h) ∷ m) = put_sorted k h (sorted_steps m)

abbrev pub histograms : Assoc ℤ GapHistogram → List GapHistogram
histograms [] = []
histograms ((k, h) ∷ m) = h ∷ histograms m

-- StepGaps
unfoldable pub step_gaps : RunResult → List GapHistogram
unfolding add_requests sorted_steps
step_gaps res = histograms (sorted_steps (add_requests res.requests []))

abbrev pub found_count : Option ℤ → ℤ
found_count none = pos 0
found_count (some n) = n

-- GapCounts
unfoldable pub gap_counts : List AttemptRecord → Assoc ℤ ℤ → Assoc ℤ ℤ
gap_counts [] out = out
gap_counts (r ∷ rs) out = gap_counts rs (
    if is_completed r.outcome && not r.warmup && ltb_ℤ (pos 1) r.content_events
    then insert r.step (found_count (lookup r.step out) +i (r.content_events -i pos 1)) out
    else out)

pub data GapProblem : Type 0 where
  bad_step : ℤ → GapProblem
  step_after : ℤ → ℤ → GapProblem
  no_gaps wrong_bins negative_gap : ℤ → GapProblem
  wrong_sum : ℤ → ℤ → ℤ → GapProblem
  not_as_recorded : GapProblem

unfoldable pub sum_counts : List ℤ → ℤ
sum_counts [] = pos 0
sum_counts (n ∷ ns) = n +i sum_counts ns

abbrev pub negative_counts : ℤ → List ℤ → List GapProblem
negative_counts step [] = []
negative_counts step (n ∷ ns) =
    if ltb_ℤ n (pos 0) then negative_gap step ∷ negative_counts step ns else negative_counts step ns

abbrev pub problem_if : Bool → GapProblem → List GapProblem
problem_if true p = p ∷ []
problem_if false p = []

-- The switch on the step, `before` being the step of the histogram before.
unfoldable pub step_problems : Option ℤ → ℤ → List GapProblem
step_problems before step =
    if ltb_ℤ step (pos 1)
    then bad_step step ∷ []
    else elim before [ none ↦ [] | some b ↦ problem_if (leb_ℤ step b) (step_after step b) ]

-- One round of the loop of gapProblems.
unfoldable pub histogram_problems : Option ℤ → GapHistogram → List GapProblem
unfolding step_problems sum_counts
histogram_problems before g =
    step_problems before g.step
    ++ (problem_if (ltb_ℤ g.gaps (pos 1)) (no_gaps g.step)
        ++ (if not (length g.counts == length gap_edges)
            then wrong_bins g.step ∷ []
            else negative_counts g.step g.counts
              ++ problem_if (not (sum_counts g.counts == g.gaps))
                  (wrong_sum g.step (sum_counts g.counts) g.gaps)))

-- gapProblems
unfoldable pub gap_problems : Option ℤ → List GapHistogram → List GapProblem
unfolding histogram_problems
gap_problems before [] = []
gap_problems before (g ∷ gs) = histogram_problems before g ++ gap_problems (some g.step) gs

-- got: each histogram's gaps under its step.
unfoldable pub gaps_by_step : List GapHistogram → Assoc ℤ ℤ → Assoc ℤ ℤ
gaps_by_step [] got = got
gaps_by_step (g ∷ gs) got = gaps_by_step gs (insert g.step g.gaps got)

-- maps.Equal, of maps with each key once.
abbrev pub has_all : Assoc ℤ ℤ → Assoc ℤ ℤ → Bool
has_all [] m = true
has_all ((k, n) ∷ ks) m = elim (lookup k m) [ none ↦ false | some v ↦ n == v ] && has_all ks m

-- CheckGaps: the problems that it reports.
unfoldable pub check_gaps : List GapHistogram → List AttemptRecord → List GapProblem
unfolding gap_problems gaps_by_step gap_counts
check_gaps gaps recs =
    let problems = gap_problems none gaps in
    let got = gaps_by_step gaps [] in
    let want = gap_counts recs [] in
    if is_empty problems && not (length got == length want && has_all got want)
    then not_as_recorded ∷ []
    else problems
