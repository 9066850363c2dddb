-- ===== src/Admission/Pricing.antt =====
-- internal/admission/ledger.go: what a price line does to the state.
use percentes.Base.{
  ◌≡◌, refl, sym, ◌⊎◌, false, some, String, string_eq, arith, ok, inl, inr, result_cases,
  Bool-cases, Option-cases, ◌==◌,
}
use mathlib.Core.Path.{subst}
use percentes.Base.Rat.{Rat, ◌≤q◌, gtb_rat, gtb_rat-not, leb_rat_refl, leb_rat_of_gtb}
use percentes.Base.Maps.{Assoc, lookup, lookup-insert, lookup-insert_self}
use percentes.Admission.Types.{State, Entry, Tokens, tokens_eq, Usage, charged_requests, price}
use percentes.Admission.Apply.{
  Platform, apply, apply_kind, apply_price, raise_price, usage_of, set_usage, check_price, price_of,
  tokens_of,
}
use percentes.Admission.State.{price_revision}

-- The price at some token bounds after `raise_price` at bounds `tok` with price `r`.
pub record Raised (tok : Tokens) (r : Rat) (before after : Assoc Tokens Rat) : Type 0 where
  pub top : Rat
  pub now : lookup tok after ≡ some top
  pub above : r ≤q top
  pub highest : (p : Rat) → lookup tok before ≡ some p → p ≤q top
  pub recorded : (top ≡ r) ⊎ (lookup tok before ≡ some top)
  pub others : (t : Tokens) → (tok == t) ≡ false → lookup t after ≡ lookup t before

raise_price-Raised :
    (tok : Tokens) (r : Rat) (prices : Assoc Tokens Rat)
    → Raised tok r prices (raise_price tok r prices)
unfolding raise_price
raise_price-Raised tok r prices = elim (Option-cases (lookup tok prices)) [
  | inl n ↦
      rw (n, raise_price)
        (record {
          top = r;
          now = lookup-insert_self tok r prices;
          above = leb_rat_refl r;
          highest = λ p q. absurd (ground arith);
          recorded = inl refl;
          others = λ t ne. rw (lookup-insert, ne);
        })
  | inr (p, m) ↦ elim (Bool-cases (gtb_rat r p)) [
    | inl g ↦
        rw (m, g, raise_price)
          (record {
            top = r;
            now = lookup-insert_self tok r prices;
            above = leb_rat_refl r;
            highest = λ p' q. ground (arith, leb_rat_of_gtb r p g);
            recorded = inl refl;
            others = λ t ne. rw (lookup-insert, ne);
          })
    | inr g ↦
        rw (m, g, raise_price)
          (record {
            top = p;
            now = m;
            above = gtb_rat-not r p g;
            highest = λ p' q. ground (arith, leb_rat_refl p);
            recorded = inr m;
            others = λ t ne. refl;
          })
  ]
]

-- The state after a price line `e` of price `r` a request.
pub record Repriced (s s' : State) (e : Entry) (r : Rat) : Type 0 where
  pub usage : Usage
  pub route : lookup e.route s'.routes ≡ some usage
  pub prices : Raised (tokens_of e) r (usage_of s e.route).prices usage.prices
  pub revision : price_revision s' e.route ≡ e.seq
  pub charge : charged_requests usage ≡ charged_requests (usage_of s e.route)
  pub charged : usage.charged ≡ (usage_of s e.route).charged
  pub other_routes :
      (r' : String) → (e.route == r') ≡ false → lookup r' s'.routes ≡ lookup r' s.routes
  pub admissions : s'.unsettled ≡ s.unsettled

-- The state that a price line gives.
abbrev repriced_state : State → Entry → Rat → State
repriced_state s e r =
    let u = usage_of s e.route in
    set_usage s e.route
      (record u { prices = raise_price (tokens_of e) r u.prices; price_seq = e.seq })

repriced_state-Repriced : (s : State) (e : Entry) (r : Rat) → Repriced s (repriced_state s e r) e r
unfolding set_usage price_revision charged_requests
repriced_state-Repriced s e r = record {
  usage = record (usage_of s e.route) {
    prices = raise_price (tokens_of e) r (usage_of s e.route).prices;
    price_seq = e.seq;
  };
  route = rw lookup-insert_self;
  prices = raise_price-Raised (tokens_of e) r (usage_of s e.route).prices;
  revision = rw (lookup-insert_self, price_revision);
  charge = refl;
  charged = refl;
  other_routes = λ r' ne. rw (lookup-insert, ne);
  admissions = refl;
}

-- A price line that `apply` takes carries the price of its rates at its token bounds. It makes the
-- route's price there the higher of that and the price before, so no line lowers a price; it sets the
-- route's price revision to its own line, and changes no charge, no price at other bounds, no other
-- route and no admission.
pub apply-Repriced :
    (pf : Platform) (s s' : State) (e : Entry)
    → e.kind ≡ price
    → apply pf s e ≡ ok s'
    → (r : Rat) × (check_price pf e.route (price_of e) ≡ ok r) × Repriced s s' e r
unfolding apply apply_kind apply_price
apply-Repriced pf s s' e k h = elim (result_cases (check_price pf e.route (price_of e))) [
  | inl (r, c) ↦
      (let m : s' ≡ repriced_state s e r = ground arith in
        (r, c, subst (λ x. Repriced s x e r) (sym m) (repriced_state-Repriced s e r)))
  | inr (x, c) ↦ absurd (ground arith)
]
