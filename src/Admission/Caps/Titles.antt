-- ===== src/Admission/Caps/Titles.antt =====
-- The caps do not depend on the counts and hashes of lines that `Parse` keeps in a state.
use mathlib.Core.Path.{fun_ext}
use percentes.Base.{ℕ, ◌≡◌, refl, sym, ap, ◌∙◌, List, [], ◌∷◌, String, ◌>>=◌}
use percentes.Base.Int.{ℤ, pos}
use percentes.Base.Rat.{Rat, zero_rat, ◌+q◌}
use percentes.Base.Maps.{Assoc, keys}
use percentes.Admission.Types.{State, Tokens}
use percentes.Admission.Apply.{usage_of}
use percentes.Admission.State.{
  price_at, charged_with, add_cost, sum_liability, route_liability, liability_from, liability_with,
  no_tokens, liability, total_charged,
}
use percentes.Admission.Caps.Within.{WithinCaps}

abbrev pub retitled : State → ℤ → List ℕ → List ℕ → State
retitled s n o h = record s { lines = n; open_sha256 = o; head_sha256 = h }

module _ (s : State) (n : ℤ) (o h : List ℕ) where
  sum_liability-retitled :
      (r : String) (m : Assoc Tokens ℤ) (sum : Rat)
      → sum_liability (retitled s n o h) r m sum ≡ sum_liability s r m sum
  unfolding sum_liability add_cost price_at
  sum_liability-retitled r [] sum = refl
  sum_liability-retitled r ((t, k) ∷ m) sum =
      ap (λ f. add_cost s r t k sum >>= f) (fun_ext (sum_liability-retitled r m))

  route_liability-retitled :
      (r route : String) (tok : Tokens) (k : ℤ)
      → route_liability (retitled s n o h) r route tok k ≡ route_liability s r route tok k
  unfolding route_liability charged_with
  route_liability-retitled r route tok k =
      sum_liability-retitled r (charged_with s r route tok k) zero_rat

  liability_from-retitled :
      (order : List String) (sum : Rat)
      → liability_from (retitled s n o h) order "" no_tokens (pos 0) sum
        ≡ liability_from s order "" no_tokens (pos 0) sum
  unfolding liability_from
  liability_from-retitled [] sum = refl
  liability_from-retitled (r ∷ order) sum = rw route_liability-retitled (
      ap (λ f. route_liability s r "" no_tokens (pos 0) >>= f)
        (fun_ext (λ c. liability_from-retitled order (sum +q c))))

  liability-retitled : liability (retitled s n o h) ≡ liability s
  unfolding liability liability_with
  liability-retitled = liability_from-retitled (keys s.routes) s.hosting_usd

  pub WithinCaps-retitled :
      (route : String) → WithinCaps s route → WithinCaps (retitled s n o h) route
  unfolding usage_of total_charged
  WithinCaps-retitled route w = record {
    route_requests = w.route_requests;
    total_requests = w.total_requests;
    route_liability = λ cap c.
        let (r, q, le) = w.route_liability cap c in
        (r, route_liability-retitled route "" no_tokens (pos 0) ∙ q, le);
    liability = (w.liability.0, liability-retitled ∙ w.liability.1, w.liability.2);
  }

  pub WithinCaps-titled :
      (route : String) → WithinCaps (retitled s n o h) route → WithinCaps s route
  unfolding usage_of total_charged
  WithinCaps-titled route w = record {
    route_requests = w.route_requests;
    total_requests = w.total_requests;
    route_liability = λ cap c.
        let (r, q, le) = w.route_liability cap c in
        (r, sym (route_liability-retitled route "" no_tokens (pos 0)) ∙ q, le);
    liability = (w.liability.0, sym liability-retitled ∙ w.liability.1, w.liability.2);
  }
