-- ===== src/Admission/Settlement.antt =====
-- internal/admission/ledger.go: what a settle line does to the state.
use percentes.Base.{
  ℕ, ◌≡◌, refl, sym, ap, Bool, false, none, some, List, String, string_eq, arith, ok, inl, inr,
  Bool-cases, Option-cases, ◌==◌, ==_refl,
}
use mathlib.Core.Path.{subst}
use percentes.Admission.Caps.Within.{stamped}
use percentes.Base.Int.{ℤ, ◌+i◌, ◌-i◌, int_eq, bits_add, bits_sub, bits_bound, eq_of_bits, ltb_ℤ}
use percentes.Base.Maps.{lookup, remove, lookup-insert, lookup-insert_self, lookup-remove}
use percentes.Admission.Types.{
  State, Entry, Admission, Usage, Counts, total, charged_requests, settle, not_unsettled, entry_of,
}
use percentes.Admission.Apply.{
  Platform, apply, apply_kind, apply_settle, settle_usage, is_replacement, usage_of, set_usage,
}
use percentes.Admission.Decide.{accept, decline, decide_settle}
use percentes.Admission.Acceptance.Entries.{admission_beq→≡}

-- The route's charge, with the reservation replaced by the requests sent.
pub charged-settle_usage :
    (a : Admission) (c : Counts) (u : Usage)
    → charged_requests (settle_usage a c u) ≡ charged_requests u -i a.reserve +i total c
unfolding charged_requests settle_usage total
charged-settle_usage a c u = elim (Bool-cases (is_replacement a.purpose)) [
  | inl e ↦ rw e (eq_of_bits _ _ _ _ (omega (arith, bits_add, bits_sub, bits_bound)))
  | inr e ↦ rw e (eq_of_bits _ _ _ _ (omega (arith, bits_add, bits_sub, bits_bound)))
]

-- The state after a settlement: the route's charge counts what was sent, the admission is closed, and
-- nothing else has changed.
pub record Settled (s s' : State) (a : Admission) (c : Counts) : Type 0 where
  pub charge :
      charged_requests (usage_of s' a.route)
      ≡ charged_requests (usage_of s a.route) -i a.reserve +i total c
  pub others :
      (route : String) → (a.route == route) ≡ false → lookup route s'.routes ≡ lookup route s.routes
  pub closed : lookup a.seq s'.unsettled ≡ none
  pub kept : (k : ℤ) → (a.seq == k) ≡ false → lookup k s'.unsettled ≡ lookup k s.unsettled
  pub caps : (s'.caps ≡ s.caps) × (s'.hosting_usd ≡ s.hosting_usd)

-- The state that a settle line gives.
abbrev settled_state : State → Admission → Counts → State
settled_state s a c =
    let s' = record s { unsettled = remove a.seq s.unsettled } in
    set_usage s' a.route (settle_usage a c (usage_of s' a.route))

settled_state-Settled :
    (s : State) (a : Admission) (c : Counts) → Settled s (settled_state s a c) a c
unfolding set_usage usage_of
settled_state-Settled s a c = record {
  charge = rw lookup-insert_self (charged-settle_usage a c _);
  others = λ route ne. rw (lookup-insert, ne);
  closed = rw (lookup-remove, ==_refl a.seq);
  kept = λ k ne. rw (lookup-remove, ne);
  caps = (refl, refl);
}

-- A settlement that Settle's function accepts was of an open admission, as the state holds it.
decide_settle-open :
    (a : Admission) (sent : Counts) (s : State) (e : Entry) (over : Bool)
    → decide_settle a sent s ≡ accept e over
    → (lookup a.seq s.unsettled ≡ some a)
      × (e ≡ record (entry_of settle) {
        route = a.route;
        admitted = a.seq;
        sent = some sent;
        overrun = over;
      })
      × (over ≡ ltb_ℤ a.reserve (total sent))
unfolding decide_settle
decide_settle-open a sent s e over h = elim (Option-cases (lookup a.seq s.unsettled)) [
  | inl n ↦ absurd (ground arith)
  | inr (b, m) ↦ (
    ground (arith, admission_beq→≡ b a),
    ground (arith, admission_beq→≡ b a),
    ground (arith, admission_beq→≡ b a),
  )
]

apply-settled_state :
    (pf : Platform) (s s' : State) (a : Admission) (c : Counts) (e : Entry)
    → e.kind ≡ settle
    → e.admitted ≡ a.seq
    → e.sent ≡ some c
    → lookup a.seq s.unsettled ≡ some a
    → apply pf s e ≡ ok s'
    → s' ≡ settled_state s a c
unfolding apply apply_kind apply_settle
apply-settled_state pf s s' a c e k m n l h = ground (arith)

-- A settlement that `Settle` accepts, once its line is applied, replaces the reservation in the
-- route's charge by the requests sent, closes the admission, and changes no other route, no other
-- admission, no cap and no hosting cost; a second settlement of the admission is refused; and the
-- settlement is an overrun exactly when more was sent than reserved.
pub decide_settle-Settled :
    (pf : Platform) (s s' : State) (a : Admission) (sent : Counts) (e : Entry) (over : Bool) (k : ℤ)
    (h : List ℕ) (t : ℤ)
    → decide_settle a sent s ≡ accept e over
    → apply pf s (stamped e k h t) ≡ ok s'
    → Settled s s' a sent
      × ((again : Counts) → decide_settle a again s' ≡ decline not_unsettled)
      × (over ≡ ltb_ℤ a.reserve (total sent))
unfolding decide_settle
decide_settle-Settled pf s s' a sent e over k h t d q =
    let (held, eq, w) = decide_settle-open a sent s e over d in
    let m : s' ≡ settled_state s a sent =
      apply-settled_state pf s s' a sent (stamped e k h t) (ap (λ x. x.kind) eq)
        (ap (λ x. x.admitted) eq) (ap (λ x. x.sent) eq) held q in
    let st : Settled s s' a sent =
      subst (λ x. Settled s x a sent) (sym m) (settled_state-Settled s a sent) in
    (st, λ again. rw st.closed, w)
