-- ===== src/Admission/Caps/Admitted.antt =====
-- What an accepted admission has checked, and the caps that hold of the state it leaves.
use percentes.Base.{
  ◌≡◌, refl, true, Option, none, some, [], ◌∷◌, string_eq, String, arith, Option-cases, inl, inr,
  ok, result_cases,
}
use percentes.Base.Int.{ℤ, pos, ◌+i◌}
use percentes.Base.Rat.{Rat}
use percentes.Base.Maps.{Assoc, lookup}
use percentes.Admission.Types.{Purpose, Usage, State, Entry, Tokens, Admission, Projection}
use percentes.Admission.State.{
  price_at, route_liability, liability_with, position, total_charged, with_charge, has_entries,
}
use percentes.Admission.Decide.{
  accept, decide_admit, decide_caps, over_cap, admitted_entry, new_admission,
}

-- What an accepted admission has checked: its two projections, and that the second passes no cap.
pub record Accepted (s : State) (route : String) (purpose : Purpose) (n : ℤ) (tok : Tokens)
    (e : Entry) (a : Admission) : Type 0 where
  pub before : Projection
  pub after : Projection
  pub projected : position s route tok n ≡ ok after
  pub under : over_cap s route after ≡ none
  pub entry : e ≡ admitted_entry s route purpose n tok before.position after.position
  pub admission : a ≡ new_admission s route purpose n tok

module _ (s : State) (route : String) (purpose : Purpose) (n : ℤ) (tok : Tokens) (e : Entry)
    (a : Admission) where
  decide_caps-Accepted :
      decide_caps s route purpose n tok ≡ accept e a → Accepted s route purpose n tok e a
  unfolding decide_caps
  decide_caps-Accepted h = elim (result_cases (position s route tok (pos 0))) [
    | inl (b, p) ↦ elim (result_cases (position s route tok n)) [
      | inl (c, q) ↦ elim (Option-cases (over_cap s route c)) [
        | inl u ↦ record {
          before = b;
          after = c;
          projected = q;
          under = u;
          entry = ground arith;
          admission = ground arith;
        }
        | inr (w, u) ↦ ground arith
      ]
      | inr (x, q) ↦ ground arith
    ]
    | inr (x, p) ↦ ground arith
  ]

  pub decide_admit-Accepted :
      (rev : Option ℤ)
      → decide_admit route purpose n tok rev s ≡ accept e a
      → Accepted s route purpose n tok e a
  unfolding decide_admit
  decide_admit-Accepted rev h = decide_caps-Accepted (ground arith)

-- What a successful projection holds.
pub record Projects (s : State) (route : String) (tok : Tokens) (n : ℤ) (p : Projection)
    : Type 0 where
  pub usage : Usage
  pub known : lookup route s.routes ≡ some usage
  pub liability : liability_with s route tok n ≡ ok p.liab
  pub route_requests : p.position.route_requests ≡ with_charge n (lookup route s.routes)
  pub total_requests : p.position.total_requests ≡ total_charged s +i n
  pub route_liability :
      (cap : Rat)
      → lookup route s.route_caps ≡ some cap
      → (r : Rat) × (route_liability s route route tok n ≡ ok r) × (p.route_liab ≡ some r)

has_entries-lookup :
    (route : String) (cap : Rat) (m : Assoc String Rat)
    → lookup route m ≡ some cap
    → has_entries m ≡ true
unfolding lookup
has_entries-lookup route cap [] h = ground arith
has_entries-lookup route cap (x ∷ m) h = refl

module _ (s : State) (route : String) (tok : Tokens) (n : ℤ) (p : Projection) where
  projected_route :
      position s route tok n ≡ ok p
      → (cap : Rat) → lookup route s.route_caps ≡ some cap
      → (r : Rat) × (route_liability s route route tok n ≡ ok r) × (p.route_liab ≡ some r)
  unfolding position
  projected_route h cap c = elim (result_cases (route_liability s route route tok n)) [
    | inl (r, k) ↦ (r, k, ground (arith, has_entries-lookup route cap s.route_caps))
    | inr (x, k) ↦ absurd (ground (arith, has_entries-lookup route cap s.route_caps))
  ]

  pub position-Projects : position s route tok n ≡ ok p → Projects s route tok n p
  unfolding position price_at
  position-Projects h = elim (Option-cases (lookup route s.routes)) [
    | inl e ↦ ground arith
    | inr (u, e) ↦ record {
      usage = u;
      known = e;
      liability = ground arith;
      route_requests = ground arith;
      total_requests = ground arith;
      route_liability = projected_route h;
    }
  ]
