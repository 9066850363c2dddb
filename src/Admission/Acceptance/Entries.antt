-- ===== src/Admission/Acceptance/Entries.antt =====
-- The entry that each operation decides on is one that `apply` takes in the state it was decided on.
use percentes.Base.{
  ℕ, ◌≡◌, ap, true, false, Option, some, List, ◌==◌, nat_eq, arith, String, string_eq, Bool-cases,
  inl, inr, ok, bytes_eq, bytes_beq_iff, result_cases, Option-cases, ==→≡, not, ◌&&◌,
}
use text.Mathlib.TextEquality.{eq_iff}
use percentes.Base.Maps.{lookup}
use percentes.Base.Rat.{Rat}
use percentes.Base.Int.{ℤ, pos, ◌+i◌, int_eq, bits, from_bits, int_beq_iff, ltb_ℤ}
use percentes.Admission.Types.{
  State, Entry, Purpose, probe, development, window, replacement, cell, other_purpose, Projection,
  tokens_beq_iff, refused, admit, no_counts, Tokens, Admission, Counts,
}
use percentes.Admission.Decimal.{decimal_string}
use percentes.Admission.Apply.{
  Platform, Price, apply, apply_kind, apply_price, apply_hosting, apply_admit, apply_settle,
  check_price, is_negative, check_counts, is_window, prints_price, tokens_of, reserve,
}
use percentes.Admission.State.{price_at, position}
use percentes.Admission.Decide.{
  Decision, accept, refuse, decline, decide_price, decide_hosting, decide_admit, decide_settle,
  with_bounds, purpose_beq, admission_beq, check_reserve, decide_caps, over_cap,
}
use percentes.Admission.Caps.Within.{stamped}

-- The decision writes the entry.
abbrev pub Writes : {A : Type 0} → Decision A → Entry → Type 0
Writes (accept e' a) e = e' ≡ e
Writes (refuse e' x) e = e' ≡ e
Writes (decline x) e = ⊥

purpose_beq→≡ : (a b : Purpose) → purpose_beq a b ≡ true → a ≡ b
unfolding purpose_beq
purpose_beq→≡ probe b h = ground arith
purpose_beq→≡ development b h = ground arith
purpose_beq→≡ window b h = ground arith
purpose_beq→≡ replacement b h = ground arith
purpose_beq→≡ cell b h = ground arith
purpose_beq→≡ (other_purpose a) (other_purpose b) h = ap other_purpose (==→≡ a b h)
purpose_beq→≡ (other_purpose a) b h = ground arith

pub admission_beq→≡ : (a b : Admission) → admission_beq a b ≡ true → a ≡ b
unfolding admission_beq
admission_beq→≡ a b h = ground (
  arith,
  int_beq_iff a.seq b.seq,
  eq_iff a.route b.route,
  purpose_beq→≡ a.purpose b.purpose,
  int_beq_iff a.reserve b.reserve,
  tokens_beq_iff a.tokens b.tokens,
)

-- A reservation that the switch on the purpose passes is at least 1 where the window is not negative.
check_reserve-pos :
    (purpose : Purpose) (w n : ℤ)
    → is_negative w ≡ false
    → check_reserve purpose w n ≡ ok tt
    → (ltb_ℤ n (pos 1) ≡ false)
      × (check_counts purpose no_counts ≡ ok tt)
      × ((is_window purpose && not (n == w)) ≡ false)
unfolding check_reserve check_counts ◌+i◌ bits from_bits
check_reserve-pos probe w n h q = ground arith
check_reserve-pos development w n h q = ground arith
check_reserve-pos cell w n h q = ground arith
check_reserve-pos window w n h q = ground (arith, int_beq_iff n w, int_beq_iff w (pos 0))
check_reserve-pos replacement w n h q = ground (arith, int_beq_iff n w, int_beq_iff w (pos 0))
check_reserve-pos (other_purpose x) w n h q = ground arith

-- A projection needs a price.
priced :
    (s : State) (route : String) (tok : Tokens) (n : ℤ) (p : Projection)
    → position s route tok n ≡ ok p
    → (r : Rat) × (price_at s route tok ≡ some r)
unfolding position
priced s route tok n p h = elim (Option-cases (price_at s route tok)) [
  | inl e ↦ absurd (ground arith)
  | inr y ↦ y
]

module _ (pf : Platform) (s : State) (e : Entry) (k : ℤ) (h : List ℕ) (t : ℤ)
    (later : (k == pos 1) ≡ false) where
  -- `apply` takes the entry, as stamped.
  abbrev pub Takes : Type 0
  Takes = (s' : State) × (apply pf s (stamped e k h t) ≡ ok s')

  refused-Takes : e.kind ≡ refused → Takes
  unfolding apply apply_kind
  refused-Takes q = (s, ground arith)

  -- What `apply` checks of an admit line.
  admitted-Takes :
      e.kind ≡ admit
      → (e.route == "") ≡ false
      → ltb_ℤ e.reserve (pos 1) ≡ false
      → check_counts e.purpose no_counts ≡ ok tt
      → (is_window e.purpose && not (e.reserve == s.caps.window_requests)) ≡ false
      → prints_price e.per_request_usd (price_at s e.route (tokens_of e)) ≡ true
      → Takes
  unfolding apply apply_kind apply_admit
  admitted-Takes a b c d f g = (reserve s (stamped e k h t), ground arith)

  decided-Takes :
      (route : String) (purpose : Purpose) (n : ℤ) (tok : Tokens)
      → (route == "") ≡ false
      → (ltb_ℤ n (pos 1) ≡ false)
        × (check_counts purpose no_counts ≡ ok tt)
        × ((is_window purpose && not (n == s.caps.window_requests)) ≡ false)
      → Writes (decide_caps s route purpose n tok) e
      → Takes
  unfolding decide_caps
  decided-Takes route purpose n tok named checks w =
      elim (result_cases (position s route tok (pos 0))) [
        | inr (x, p) ↦ refused-Takes (ground arith)
        | inl (b, p) ↦ elim (result_cases (position s route tok n)) [
          | inr (x, q) ↦ refused-Takes (ground arith)
          | inl (c, q) ↦ elim (Option-cases (over_cap s route c)) [
            | inr (y, u) ↦ refused-Takes (ground arith)
            | inl u ↦
                (let (r, m) = priced s route tok n c q in
                  admitted-Takes (ground arith) (ground arith) (ground arith) (ground arith)
                    (ground arith)
                    (ground (arith, bytes_beq_iff (decimal_string r) (decimal_string r))))
          ]
        ]
      ]

  pub admit-Takes :
      (route : String) (purpose : Purpose) (n : ℤ) (tok : Tokens) (rev : Option ℤ)
      → is_negative s.caps.window_requests ≡ false
      → Writes (decide_admit route purpose n tok rev s) e
      → Takes
  unfolding decide_admit
  admit-Takes route purpose n tok rev v w = elim (Bool-cases (route == "")) [
    | inl b ↦ absurd (ground arith)
    | inr b ↦ elim (result_cases (check_reserve purpose s.caps.window_requests n)) [
      | inl (u, c) ↦
          decided-Takes route purpose n tok b
            (check_reserve-pos purpose s.caps.window_requests n v (ground arith)) (ground arith)
      | inr (x, c) ↦ absurd (ground arith)
    ]
  ]

  pub hosting-Takes : (usd : List ℕ) (note : String) → Writes (decide_hosting usd note s) e → Takes
  unfolding decide_hosting apply apply_kind apply_hosting
  hosting-Takes usd note w = elim (result_cases (apply pf s (stamped e k h t))) [
    | inl y ↦ y
    | inr (x, q) ↦ absurd (ground arith)
  ]

  pub price-Takes : (route : String) (p : Price) → Writes (decide_price pf route p s) e → Takes
  unfolding decide_price apply apply_kind apply_price
  price-Takes route p w = elim (result_cases (apply pf s (stamped e k h t))) [
    | inl y ↦ y
    | inr (x, q) ↦ elim (result_cases (check_price pf route (with_bounds s p))) [
      | inl (r, c) ↦ absurd (ground (arith, bytes_beq_iff (decimal_string r) (decimal_string r)))
      | inr (y, c) ↦ absurd (ground arith)
    ]
  ]

  pub settle-Takes : (a : Admission) (sent : Counts) → Writes (decide_settle a sent s) e → Takes
  unfolding decide_settle apply apply_kind apply_settle
  settle-Takes a sent w = elim (result_cases (apply pf s (stamped e k h t))) [
    | inl y ↦ y
    | inr (x, q) ↦ elim (Option-cases (lookup a.seq s.unsettled)) [
      | inl c ↦ absurd (ground arith)
      | inr (b, c) ↦ absurd (ground (arith, admission_beq→≡ b a, eq_iff a.route a.route))
    ]
  ]
