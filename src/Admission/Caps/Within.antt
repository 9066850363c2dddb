-- ===== src/Admission/Caps/Within.antt =====
-- An accepted admission leaves the ledger within its caps.
use percentes.Base.{
  ℕ, ◌≡◌, refl, sym, ap, ◌∙◌, true, false, Option, none, some, List, string_eq, String, arith, ok,
}
use percentes.Base.Int.{ℤ, pos, int_eq, ltb_ℤ, ◌≤ℤ◌, ◌+i◌}
use percentes.Base.Rat.{Rat, ◌≤q◌, gtb_rat, gtb_rat-not}
use percentes.Base.Maps.{lookup, lookup-insert_self}
use percentes.Admission.Types.{
  Purpose, State, Entry, Tokens, Admission, Projection, Position, charged_requests, admit,
}
use percentes.Admission.Apply.{
  Platform, usage_of, set_usage, reserve, tokens_of, apply_admit, apply_kind, apply,
}
use percentes.Admission.State.{route_liability, liability, no_tokens, total_charged}
use percentes.Admission.Decide.{accept, decide_admit, over_cap, admitted_entry, new_admission}
use percentes.Admission.Caps.Charge.{total-reserve, with_charge-reserve, route-reserve}
use percentes.Admission.Caps.Liability.{route_liability-reserve, liability-reserve}
use percentes.Admission.Caps.Admitted.{decide_admit-Accepted, Projects, position-Projects}

-- The counts and the liabilities of a route and of the whole ledger are within the caps that the
-- ledger enforces: a request cap of 0 is none, and a route has a liability cap or has none.
pub record WithinCaps (s : State) (route : String) : Type 0 where
  pub route_requests :
      ltb_ℤ (pos 0) s.caps.route_requests ≡ true
      → charged_requests (usage_of s route) ≤ℤ s.caps.route_requests
  pub total_requests :
      ltb_ℤ (pos 0) s.caps.total_requests ≡ true → total_charged s ≤ℤ s.caps.total_requests
  pub route_liability :
      (cap : Rat)
      → lookup route s.route_caps ≡ some cap
      → (r : Rat) × (route_liability s route "" no_tokens (pos 0) ≡ ok r) × (r ≤q cap)
  pub liability : (l : Rat) × (liability s ≡ ok l) × (l ≤q s.liability_cap)

-- An admit line that `apply` takes reserves at least one request, and is the reservation.
pub apply-reserve :
    (pf : Platform) (s s' : State) (e : Entry)
    → e.kind ≡ admit
    → apply pf s e ≡ ok s'
    → (s' ≡ reserve s e) × (ltb_ℤ (pos 0) e.reserve ≡ true)
unfolding apply apply_kind apply_admit
apply-reserve pf s s' e k h = ground arith

module _ (s : State) (e : Entry) (p : Projection) (charging : ltb_ℤ (pos 0) e.reserve ≡ true)
    (proj : Projects s e.route (tokens_of e) e.reserve p)
    (under : over_cap s e.route p ≡ none) where
  route_requests-reserve :
      ltb_ℤ (pos 0) s.caps.route_requests ≡ true
      → charged_requests (usage_of (reserve s e) e.route) ≤ℤ s.caps.route_requests
  unfolding usage_of over_cap
  route_requests-reserve h =
      rw (route-reserve s e proj.usage proj.known)
        (ground (arith, with_charge-reserve s e proj.usage proj.known, proj.route_requests))

  total_requests-reserve :
      ltb_ℤ (pos 0) s.caps.total_requests ≡ true
      → total_charged (reserve s e) ≤ℤ s.caps.total_requests
  unfolding over_cap
  total_requests-reserve h =
      rw (total-reserve s e proj.usage proj.known) (ground (arith, proj.total_requests))

  under_liability_cap : gtb_rat p.liab s.liability_cap ≡ false
  unfolding over_cap
  under_liability_cap = ground arith

  under_route_cap :
      (cap r : Rat)
      → lookup e.route s.route_caps ≡ some cap
      → p.route_liab ≡ some r
      → gtb_rat r cap ≡ false
  unfolding over_cap
  under_route_cap cap r c q = ground arith

  route_liability-reserve_self :
      (cap : Rat)
      → lookup e.route s.route_caps ≡ some cap
      → (r : Rat) × (route_liability (reserve s e) e.route "" no_tokens (pos 0) ≡ ok r) × (r ≤q cap)
  route_liability-reserve_self cap c =
      let (r, k, q) = proj.route_liability cap c in
      (
        r,
        route_liability-reserve s e proj.usage proj.known charging e.route ∙ k,
        gtb_rat-not r cap (under_route_cap cap r c q),
      )

  reserve-WithinCaps : WithinCaps (reserve s e) e.route
  unfolding reserve
  reserve-WithinCaps = record {
    route_requests = route_requests-reserve;
    total_requests = total_requests-reserve;
    route_liability = route_liability-reserve_self;
    liability = (
      p.liab,
      liability-reserve s e proj.usage proj.known charging ∙ proj.liability,
      gtb_rat-not p.liab s.liability_cap under_liability_cap,
    );
  }

-- The line that `append` writes for an entry: its sequence number, hash and time are stamped on.
abbrev pub stamped : Entry → ℤ → List ℕ → ℤ → Entry
stamped e k h t = record e { seq = k; prev = h; time = t }

-- An admission that `admit`'s function accepts on a state, once its line is applied to that state,
-- leaves the route's and the total request count and the route's and the total projected liability
-- within every cap that the ledger enforces.
pub decide_admit-WithinCaps :
    (pf : Platform) (s s' : State) (route : String) (purpose : Purpose) (n : ℤ) (tok : Tokens)
    (rev : Option ℤ) (e : Entry) (a : Admission) (k : ℤ) (h : List ℕ) (t : ℤ)
    → decide_admit route purpose n tok rev s ≡ accept e a
    → apply pf s (stamped e k h t) ≡ ok s'
    → WithinCaps s' route
decide_admit-WithinCaps pf s s' route purpose n tok rev e a k h t d q =
    let acc = decide_admit-Accepted s route purpose n tok e a rev d in
    let e' = admitted_entry s route purpose n tok acc.before.position acc.after.position in
    let q' : apply pf s (stamped e' k h t) ≡ ok s' =
      ap (λ x. apply pf s (stamped x k h t)) (sym acc.entry) ∙ q in
    let (eq, charging) = apply-reserve pf s s' (stamped e' k h t) refl q' in
    rw eq (
      reserve-WithinCaps s (stamped e' k h t) acc.after charging
        (position-Projects s route tok n acc.after acc.projected) acc.under)

reserve-unsettled :
    (s : State) (route : String) (purpose : Purpose) (n : ℤ) (tok : Tokens)
    (before after : Position) (h : List ℕ) (t : ℤ)
    → lookup
        (s.lines +i pos 1)
        (reserve s (
          stamped
            (admitted_entry s route purpose n tok before after)
            (s.lines +i pos 1)
            h
            t)).unsettled
      ≡ some (new_admission s route purpose n tok)
unfolding reserve set_usage
reserve-unsettled s route purpose n tok before after h t =
    lookup-insert_self (s.lines +i pos 1) _ s.unsettled

-- The admission that `admit` hands out is the unsettled one that its line adds.
pub decide_admit-unsettled :
    (pf : Platform) (s s' : State) (route : String) (purpose : Purpose) (n : ℤ) (tok : Tokens)
    (rev : Option ℤ) (e : Entry) (a : Admission) (h : List ℕ) (t : ℤ)
    → decide_admit route purpose n tok rev s ≡ accept e a
    → apply pf s (stamped e (s.lines +i pos 1) h t) ≡ ok s'
    → lookup a.seq s'.unsettled ≡ some a
decide_admit-unsettled pf s s' route purpose n tok rev e a h t d q =
    let acc = decide_admit-Accepted s route purpose n tok e a rev d in
    let e' = admitted_entry s route purpose n tok acc.before.position acc.after.position in
    let q' : apply pf s (stamped e' (s.lines +i pos 1) h t) ≡ ok s' =
      ap (λ x. apply pf s (stamped x (s.lines +i pos 1) h t)) (sym acc.entry) ∙ q in
    let (m, _) = apply-reserve pf s s' (stamped e' (s.lines +i pos 1) h t) refl q' in
    rw (m, acc.admission)
      (reserve-unsettled s route purpose n tok acc.before.position acc.after.position h t)
