-- ===== src/Admission/Caps/Charge.antt =====
-- The request counts of a state that one route's usage changes.
use percentes.Base.{◌≡◌, sym, ap, ◌∙◌, some, [], ◌∷◌, ◌==◌, string_eq, String, arith, if◌then◌else◌}
use percentes.Base.Int.{ℤ, ◌+i◌, +i_comm, +i_assoc}
use percentes.Base.Maps.{
  Assoc, keys, lookup, insert, lookup-insert, lookup-insert_self, keys-insert,
}
use percentes.Admission.Types.{Usage, State, Entry, charged_requests}
use percentes.Admission.Apply.{reserve_usage, reserve}
use percentes.Admission.State.{sum_charged, total_charged, with_charge}

-- Writing a usage whose charge is `n` higher raises the sum by `n`.
pub sum_charged-insert :
    (route : String) (u u' : Usage) (n : ℤ) (m : Assoc String Usage)
    → lookup route m ≡ some u
    → charged_requests u' ≡ charged_requests u +i n
    → sum_charged (insert route u' m) ≡ sum_charged m +i n
unfolding sum_charged lookup insert
sum_charged-insert route u u' n [] h k = ground arith
sum_charged-insert route u u' n ((r, v) ∷ m) h k = ground (
  arith,
  sum_charged-insert route u u' n m,
  +i_assoc (charged_requests u) n (sum_charged m),
  +i_assoc (charged_requests u) (sum_charged m) n,
  +i_assoc (charged_requests v) (sum_charged m) n,
  +i_comm n (sum_charged m),
)

pub charged-reserve_usage :
    (e : Entry) (u : Usage) → charged_requests (reserve_usage e u) ≡ charged_requests u +i e.reserve
unfolding reserve_usage charged_requests
charged-reserve_usage e u = sym (+i_assoc _ u.reserved e.reserve)

module _ (s : State) (e : Entry) (u : Usage) (known : lookup e.route s.routes ≡ some u) where
  pub routes-reserve : (reserve s e).routes ≡ insert e.route (reserve_usage e u) s.routes
  unfolding reserve
  routes-reserve = rw known

  -- The route as the reservation leaves it.
  pub route-reserve : lookup e.route (reserve s e).routes ≡ some (reserve_usage e u)
  route-reserve = rw (routes-reserve, lookup-insert_self e.route (reserve_usage e u) s.routes)

  pub total-reserve : total_charged (reserve s e) ≡ total_charged s +i e.reserve
  unfolding total_charged
  total-reserve =
      rw routes-reserve
        (sum_charged-insert e.route u _ e.reserve s.routes known (charged-reserve_usage e u))

  pub with_charge-reserve :
      with_charge e.reserve (lookup e.route s.routes) ≡ charged_requests (reserve_usage e u)
  with_charge-reserve = rw known (+i_comm _ _ ∙ sym (charged-reserve_usage e u))

  pub lookup-reserve :
      (r : String)
      → lookup r (reserve s e).routes
        ≡ (if e.route == r then some (reserve_usage e u) else lookup r s.routes)
  lookup-reserve r = rw routes-reserve (lookup-insert e.route r (reserve_usage e u) s.routes)

  pub keys-reserve : keys (reserve s e).routes ≡ keys s.routes
  keys-reserve = ap keys routes-reserve ∙ keys-insert e.route _ u s.routes known
