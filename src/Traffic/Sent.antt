-- ===== src/Traffic/Sent.antt =====
-- internal/admission/sent.go: the requests that a window sent.
use percentes.Base.{
  ℕ, ◌+◌, ◌≡◌, Bool, true, false, Option, none, some, List, [], ◌∷◌, ◌==◌, if◌then◌else◌, arith,
  not, ◌&&◌, Bool-cases, inl, inr,
}
use percentes.Base.Int.{ℤ, pos, int_eq, ltb_ℤ, leb_ℤ}
use percentes.Admission.Types.{Counts}
use percentes.Traffic.Requests.{Request, RunResult, ProbeRecord}

abbrev pub one_if : Bool → ℕ
one_if true = 1
one_if false = 0

-- ProbeSent
unfoldable pub probe_sent : Option ProbeRecord → ℕ
probe_sent none = 0
probe_sent (some r) =
    one_if r.request_dispatched + elim r.wrong_model_dispatched [ none ↦ 0 | some d ↦ one_if d ]

-- The loop of RunSent.
unfoldable pub count_sent : ℤ → List Request → ℕ × ℕ → ℕ × ℕ
count_sent end_ns [] n = n
count_sent end_ns (r ∷ rs) (warmup, after) = count_sent end_ns rs (
    if r.dispatch_ns == pos 0
    then (warmup, after)
    else if ltb_ℤ r.intended_ns end_ns
    then (warmup + 1, after)
    else (warmup, after + 1))

-- RunSent
unfoldable pub run_sent : Option RunResult → ℕ × ℕ
unfolding count_sent
run_sent none = (0, 0)
run_sent (some res) = count_sent res.warmup_end_ns res.requests (0, 0)

-- WindowSent
unfoldable pub window_sent : Option ProbeRecord → Option RunResult → Counts
unfolding probe_sent run_sent
window_sent rec res =
    let (w, m) = run_sent res in
    record { probe = pos (probe_sent rec); development = pos 0; warmup = pos w; measured = pos m }

-- The requests that were dispatched, of those before an end, or not before it, by their intended time.
abbrev is_sent : Request → Bool
is_sent r = not (r.dispatch_ns == pos 0)

unfoldable pub count_where : (Request → Bool) → List Request → ℕ
count_where test [] = 0
count_where test (r ∷ rs) = (if test r then 1 else 0) + count_where test rs

abbrev pub sent_before : ℤ → List Request → ℕ
sent_before end_ns = count_where (λ r. is_sent r && ltb_ℤ r.intended_ns end_ns)

abbrev pub sent_from : ℤ → List Request → ℕ
sent_from end_ns = count_where (λ r. is_sent r && leb_ℤ end_ns r.intended_ns)

leb_ℤ-ltb_ℤ : (a b : ℤ) → leb_ℤ b a ≡ not (ltb_ℤ a b)
leb_ℤ-ltb_ℤ a b = ground arith

count_sent-split :
    (end_ns : ℤ) (rs : List Request) (w m : ℕ)
    → ((count_sent end_ns rs (w, m)).0 ≡ w + sent_before end_ns rs)
      × ((count_sent end_ns rs (w, m)).1 ≡ m + sent_from end_ns rs)
unfolding count_sent count_where
count_sent-split end_ns [] w m = (omega arith, omega arith)
count_sent-split end_ns (r ∷ rs) w m =
    let same = count_sent-split end_ns rs w m in
    let more = count_sent-split end_ns rs (w + 1) m in
    let later = count_sent-split end_ns rs w (m + 1) in
    let other = leb_ℤ-ltb_ℤ r.intended_ns end_ns in
    elim (Bool-cases (r.dispatch_ns == pos 0)) [
      | inl h ↦ rw (h, count_sent, count_where) (ground (arith, same))
      | inr h ↦ elim (Bool-cases (ltb_ℤ r.intended_ns end_ns)) [
        | inl k ↦ (ground (arith, more, other), ground (arith, more, other))
        | inr k ↦ (ground (arith, later, other), ground (arith, later, other))
      ]
    ]

-- RunSent counts as warm-up the dispatched requests of a run whose intended time is before the warm-up's
-- end, and as after it those whose intended time is not.
pub run_sent-split :
    (res : RunResult)
    → ((run_sent (some res)).0 ≡ sent_before res.warmup_end_ns res.requests)
      × ((run_sent (some res)).1 ≡ sent_from res.warmup_end_ns res.requests)
unfolding run_sent
run_sent-split res =
    let (before, after) = count_sent-split res.warmup_end_ns res.requests 0 0 in
    (omega (arith, before), omega (arith, after))
