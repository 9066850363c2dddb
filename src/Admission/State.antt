-- ===== src/Admission/State.antt =====
-- internal/admission/ledger.go: the charge, the prices and the projected liability of a state.
use percentes.Base.{
  ℕ, Bool, true, false, ◌&&◌, Option, none, some, List, [], ◌∷◌, ◌==◌, string_eq, String,
  if◌then◌else◌, Result, ok, ◌>>=◌, ◌>>◌, or_fail, refuse_if,
}
use percentes.Base.Int.{ℤ, pos, int_eq, ltb_ℤ, ◌+i◌}
use percentes.Base.Rat.{Rat, zero_rat, rat_of_int, ◌+q◌, ◌*q◌}
use percentes.Base.Maps.{Assoc, keys, lookup, insert}
use percentes.Admission.Types.{
  Tokens, tokens_eq, Usage, charged_requests, State, Position, Projection, Reason, no_price,
  no_liability_cap,
}
use percentes.Admission.Decimal.{decimal_string}

-- The sum of Charged over a list of usages.
unfoldable pub sum_charged : Assoc String Usage → ℤ
sum_charged [] = pos 0
sum_charged ((r, u) ∷ us) = charged_requests u +i sum_charged us

-- State.Total
unfoldable pub total_charged : State → ℤ
unfolding sum_charged
total_charged s = sum_charged s.routes

-- State.price
unfoldable pub price_at : State → String → Tokens → Option Rat
price_at s route tok = elim (lookup route s.routes) [ none ↦ none | some u ↦ lookup tok u.prices ]

-- State.PriceRevision
unfoldable pub price_revision : State → String → ℤ
price_revision s route = elim (lookup route s.routes) [ none ↦ pos 0 | some u ↦ u.price_seq ]

-- charged[tok] += n
unfoldable pub add_charge : Tokens → ℤ → Assoc Tokens ℤ → Assoc Tokens ℤ
add_charge tok n charged =
    insert tok (elim (lookup tok charged) [ none ↦ pos 0 +i n | some m ↦ m +i n ]) charged

-- The copy of a route's charged counts that `routeLiability` takes, with the extra requests.
unfoldable pub charged_with : State → String → String → Tokens → ℤ → Assoc Tokens ℤ
unfolding add_charge
charged_with s r route tok extra =
    let held : Assoc Tokens ℤ = elim (lookup r s.routes) [ none ↦ [] | some u ↦ u.charged ] in
    if (r == route) && ltb_ℤ (pos 0) extra then add_charge tok extra held else held

-- One round of the loop of `routeLiability`: `n` requests at token bounds `t`.
unfoldable pub add_cost : State → String → Tokens → ℤ → Rat → Result Reason Rat
add_cost s r t n sum =
    if n == pos 0
    then ok sum
    else do p ← or_fail (price_at s r t) (no_price r t); ok (sum +q p *q rat_of_int n)

-- The loop of `routeLiability` over the charged counts.
unfoldable pub sum_liability : State → String → Assoc Tokens ℤ → Rat → Result Reason Rat
unfolding add_cost
sum_liability s r [] sum = ok sum
sum_liability s r ((t, n) ∷ charged) sum = do
  next ← add_cost s r t n sum
  sum_liability s r charged next

-- State.routeLiability
unfoldable pub route_liability : State → String → String → Tokens → ℤ → Result Reason Rat
unfolding charged_with sum_liability
route_liability s r route tok extra = sum_liability s r (charged_with s r route tok extra) zero_rat

-- The loop of `liability` over the routes in first-seen order.
unfoldable pub liability_from : State → List String → String → Tokens → ℤ → Rat → Result Reason Rat
liability_from s [] route tok extra sum = ok sum
liability_from s (r ∷ order) route tok extra sum = do
  c ← route_liability s r route tok extra
  liability_from s order route tok extra (sum +q c)

-- State.liability
unfoldable pub liability_with : State → String → Tokens → ℤ → Result Reason Rat
unfolding liability_from
liability_with s route tok extra = liability_from s (keys s.routes) route tok extra s.hosting_usd

abbrev pub no_tokens : Tokens
no_tokens = record { input = pos 0; output = pos 0 }

-- State.Liability
unfoldable pub liability : State → Result Reason Rat
liability s = liability_with s "" no_tokens (pos 0)

-- State.ReservationUSD
unfoldable pub reservation_usd : State → String → ℤ → Tokens → Result Reason (List ℕ)
reservation_usd s route n tok = do
  p ← or_fail (price_at s route tok) (no_price route tok)
  ok (decimal_string (p *q rat_of_int n))

-- len(m) > 0
abbrev pub has_entries {ℓ κ} : {K : Type ℓ} {V : Type κ} → Assoc K V → Bool
has_entries [] = false
has_entries (x ∷ m) = true

-- len(st.routeCaps) > 0
abbrev pub caps_routes : State → Bool
caps_routes s = has_entries s.route_caps

-- `n` plus the route's charge, if the route is known.
abbrev pub with_charge : ℤ → Option Usage → ℤ
with_charge n none = n
with_charge n (some u) = n +i charged_requests u

-- The route's part of a position, where the ledger caps routes.
unfoldable pub project_route :
    State → String → Tokens → ℤ → Position → Rat → Result Reason Projection
project_route s route tok extra p liab =
    if caps_routes s
    then (do
      r ← route_liability s route route tok extra
      ok (record {
        position = record p { route_liability_usd = decimal_string r };
        liab = liab;
        route_liab = some r;
      }))
    else ok (record { position = p; liab = liab; route_liab = none })

abbrev pub is_missing {ℓ} : {A : Type ℓ} → Option A → Bool
is_missing none = true
is_missing (some a) = false

-- State.position
unfoldable pub position : State → String → Tokens → ℤ → Result Reason Projection
unfolding project_route
position s route tok extra = do
  refuse_if (caps_routes s && is_missing (lookup route s.route_caps)) (no_liability_cap route)
  p ← or_fail (price_at s route tok) (no_price route tok)
  liab ← liability_with s route tok extra
  project_route s route tok extra
      (record {
        route_requests = with_charge extra (lookup route s.routes);
        total_requests = total_charged s +i extra;
        liability_usd = decimal_string liab;
        route_liability_usd = [];
      })
      liab
