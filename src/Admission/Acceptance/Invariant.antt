-- ===== src/Admission/Acceptance/Invariant.antt =====
-- What holds of every state that `Parse` gives: its caps passed `checkCaps`.
use percentes.Base.{
  ℕ, ◌≡◌, false, List, [], ◌∷◌, ◌++◌, nat_eq, arith, String, string_eq, inl, inr, ok, >>=-eq-ok,
  result_cases, Option-cases,
}
use percentes.Base.Rat.{Rat}
use percentes.Base.Maps.{Assoc}
use percentes.Admission.Types.{State, Entry, Caps, Kind, opening}
use percentes.Admission.Apply.{
  Platform, apply, apply_kind, apply_open, apply_price, apply_hosting, apply_admit, apply_settle,
  check_caps, is_negative, reserve, set_usage, usage_of,
}
use percentes.Admission.State.{price_at}
use percentes.Admission.Parsing.{parse_line, parse_lines, end_line}

-- The window size that `checkCaps` passes is not negative.
abbrev pub IsSound : State → Type 0
IsSound s = is_negative s.caps.window_requests ≡ false

check_caps-window :
    (c : Caps) (limits : Rat × Assoc String Rat)
    → check_caps c ≡ ok limits
    → is_negative c.window_requests ≡ false
unfolding check_caps
check_caps-window c limits h = ground arith

apply_open-IsSound : (s s' : State) (e : Entry) → apply_open s e ≡ ok s' → IsSound s'
unfolding apply_open
apply_open-IsSound s s' e h = elim (Option-cases e.caps) [
  | inl n ↦ absurd (ground arith)
  | inr (c, m) ↦ elim (result_cases (check_caps c)) [
    | inl (l, q) ↦ ground (arith, check_caps-window c l q)
    | inr (x, q) ↦ absurd (ground arith)
  ]
]

apply_kind-IsSound :
    (pf : Platform) (k : Kind) (s s' : State) (e : Entry)
    → IsSound s
    → apply_kind pf k s e ≡ ok s'
    → IsSound s'
unfolding apply_kind apply_price apply_hosting apply_admit apply_settle reserve set_usage
apply_kind-IsSound pf opening s s' e v h = apply_open-IsSound s s' e h
apply_kind-IsSound pf _ s s' e v h = ground arith

parse_line-IsSound :
    (pf : Platform) (done l : List ℕ) (s s' : State)
    → IsSound s
    → parse_line pf done l s ≡ ok s'
    → IsSound s'
unfolding parse_line apply
parse_line-IsSound pf done l s s' v h = elim (Option-cases (pf.decode l)) [
  | inl n ↦ absurd (ground arith)
  | inr ((e, more), m) ↦ elim (result_cases (apply_kind pf e.kind s e)) [
    | inl (t, q) ↦ ground (arith, apply_kind-IsSound pf e.kind s t e v q)
    | inr (x, q) ↦ absurd (ground arith)
  ]
]

pub parse_lines-IsSound :
    (pf : Platform) (done : List ℕ) (ls : List (List ℕ)) (s s' : State)
    → IsSound s
    → parse_lines pf done ls s ≡ ok s'
    → IsSound s'
unfolding parse_lines
parse_lines-IsSound pf done [] s s' v h = ground arith
parse_lines-IsSound pf done (l ∷ ls) s s' v h =
    let (t, p, q) = >>=-eq-ok (parse_line pf done l s) _ h in
    parse_lines-IsSound pf (done ++ end_line l) ls t s' (parse_line-IsSound pf done l s t v p) q

-- `apply` does not read the hash of the file, which `Parse` sets last.
abbrev pub with_head : State → List ℕ → State
with_head t x = record t { head_sha256 = x }

apply_kind-head :
    (pf : Platform) (k : Kind) (t s' : State) (x : List ℕ) (e : Entry)
    → apply_kind pf k (with_head t x) e ≡ ok s'
    → (t' : State) × (apply_kind pf k t e ≡ ok t') × (s' ≡ with_head t' x)
unfolding apply_kind apply_open apply_price apply_hosting apply_admit apply_settle price_at reserve
    set_usage usage_of
apply_kind-head pf opening t s' x e h = elim (result_cases (apply_kind pf opening t e)) [
  | inl (t', q) ↦ (t', q, ground arith)
  | inr (z, q) ↦ absurd (ground arith)
]
apply_kind-head pf k t s' x e h = elim (result_cases (apply_kind pf k t e)) [
  | inl (t', q) ↦ (t', q, ground arith)
  | inr (z, q) ↦ absurd (ground arith)
]

pub apply-head :
    (pf : Platform) (t s' : State) (x : List ℕ) (e : Entry)
    → apply pf (with_head t x) e ≡ ok s'
    → (t' : State) × (apply pf t e ≡ ok t') × (s' ≡ with_head t' x)
unfolding apply
apply-head pf t s' x e h = elim (result_cases (apply_kind pf e.kind (with_head t x) e)) [
  | inl (u, q) ↦
      (let (t', r, w) = apply_kind-head pf e.kind t u x e q in (t', ground arith, ground arith))
  | inr (y, q) ↦ absurd (ground arith)
]
