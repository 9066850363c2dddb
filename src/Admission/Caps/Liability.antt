-- ===== src/Admission/Caps/Liability.antt =====
-- The liability of a state with a reservation is the liability projected before it.
use percentes.Base.{◌≡◌, refl, ap, ◌∙◌, true, some, List, [], ◌∷◌, string_eq, String, arith, ◌>>=◌}
use mathlib.Core.Path.{fun_ext}
use text.Mathlib.TextEquality.{eq_iff}
use percentes.Base.Int.{ℤ, pos, ltb_ℤ}
use percentes.Base.Rat.{Rat, zero_rat, ◌+q◌}
use percentes.Base.Maps.{Assoc, keys, lookup}
use percentes.Admission.Types.{Usage, State, Entry, Tokens}
use percentes.Admission.Apply.{reserve_usage, reserve, tokens_of}
use percentes.Admission.State.{
  price_at, charged_with, add_cost, sum_liability, route_liability, liability_from, liability_with,
  no_tokens, liability,
}
use percentes.Admission.Caps.Charge.{lookup-reserve, keys-reserve}

module _ (s : State) (e : Entry) (u : Usage) (known : lookup e.route s.routes ≡ some u) where
  -- A reservation changes no price.
  pub price-reserve : (r : String) (t : Tokens) → price_at (reserve s e) r t ≡ price_at s r t
  unfolding price_at reserve_usage
  price-reserve r t = ground (arith, lookup-reserve s e u known r, eq_iff e.route r)

  add_cost-reserve :
      (r : String) (t : Tokens) (n : ℤ) (sum : Rat)
      → add_cost (reserve s e) r t n sum ≡ add_cost s r t n sum
  unfolding add_cost
  add_cost-reserve r t n sum = rw price-reserve

  sum_liability-reserve :
      (r : String) (m : Assoc Tokens ℤ) (sum : Rat)
      → sum_liability (reserve s e) r m sum ≡ sum_liability s r m sum
  unfolding sum_liability
  sum_liability-reserve r [] sum = refl
  sum_liability-reserve r ((t, n) ∷ m) sum =
      rw add_cost-reserve
        (ap (λ k. add_cost s r t n sum >>= k) (fun_ext (sum_liability-reserve r m)))

  module _ (charging : ltb_ℤ (pos 0) e.reserve ≡ true) where
    -- What the projection adds to its copy of the charged counts is what the reservation writes.
    charged_with-reserve :
        (r : String)
        → charged_with (reserve s e) r "" no_tokens (pos 0)
          ≡ charged_with s r e.route (tokens_of e) e.reserve
    unfolding charged_with reserve_usage
    charged_with-reserve r =
        ground (arith, lookup-reserve s e u known r, eq_iff e.route r, eq_iff r e.route)

    pub route_liability-reserve :
        (r : String)
        → route_liability (reserve s e) r "" no_tokens (pos 0)
          ≡ route_liability s r e.route (tokens_of e) e.reserve
    unfolding route_liability
    route_liability-reserve r =
        rw charged_with-reserve
          (sum_liability-reserve r (charged_with s r e.route (tokens_of e) e.reserve) zero_rat)

    liability_from-reserve :
        (order : List String) (sum : Rat)
        → liability_from (reserve s e) order "" no_tokens (pos 0) sum
          ≡ liability_from s order e.route (tokens_of e) e.reserve sum
    unfolding liability_from
    liability_from-reserve [] sum = refl
    liability_from-reserve (r ∷ order) sum = rw route_liability-reserve (
        ap (λ k. route_liability s r e.route (tokens_of e) e.reserve >>= k)
          (fun_ext (λ c. liability_from-reserve order (sum +q c))))

    pub liability-reserve :
        liability (reserve s e) ≡ liability_with s e.route (tokens_of e) e.reserve
    unfolding liability liability_with reserve
    liability-reserve =
        ap (λ o. liability_from (reserve s e) o "" no_tokens (pos 0) s.hosting_usd)
          (keys-reserve s e u known)
        ∙ liability_from-reserve (keys s.routes) s.hosting_usd
