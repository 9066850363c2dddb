-- ===== src/Score/Meets.antt =====
-- The contract as its package comment states it: exactly one object, whose one key is "route".
use percentes.Base.{
  ℕ, ◌≡◌, refl, sym, ap, ◌∙◌, ◌↔◌, true, false, ◌||◌, some, List, [], ◌∷◌, ◌==◌, nat_eq, bytes_eq,
  bytes, bytes_beq_iff, drop, ok, arith, result_cases, Bool-cases, Option-cases, inl, inr,
}
use percentes.Base.Maps.{lookup, insert}
use percentes.Score.Contract.{
  Json, Contract, Answer, token_error, no_string, decode_error, member, string_value, other_value,
  Walk, new_walk, add_member, walk_members, route_key, is_in, trim, has_prefix, first_byte, parse,
}

-- An answer that meets the contract with a route.
pub record Meets (js : Json) (labels : Contract) (answer route : List ℕ) : Type 0 where
  pub raw : List ℕ
  pub offset : ℕ
  pub utf8 : js.valid_utf8 answer ≡ true
  pub an_object : first_byte (trim answer) ≡ b'{'
  pub opened : js.opens (trim answer) ≡ true
  pub one_member : js.answers (trim answer) ≡ member route_key raw ∷ []
  pub closed : js.closes (trim answer) ≡ some offset
  pub nothing_after : trim (drop offset (trim answer)) ≡ []
  pub a_string : js.unmarshal raw ≡ some (string_value route)
  pub a_label : is_in route labels ≡ true

-- Flags that are set stay set.
walk_members-flags :
    (rest : List Answer) (w w' : Walk)
    → walk_members rest w ≡ ok w'
    → ((w.dup || w.extra) ≡ true)
    → (w'.dup || w'.extra) ≡ true
unfolding walk_members
walk_members-flags [] w w' h f = ground arith
walk_members-flags (token_error ∷ rest) w w' h f = absurd (ground arith)
walk_members-flags (no_string ∷ rest) w w' h f = absurd (ground arith)
walk_members-flags (decode_error ∷ rest) w w' h f = absurd (ground arith)
walk_members-flags (member k raw ∷ rest) w w' h f =
    walk_members-flags rest (add_member k raw w) w' h (ground (arith, add_member))

add_member-again :
    (k raw : List ℕ) (w : Walk)
    → is_in route_key w.seen ≡ true
    → ((add_member k raw w).dup || (add_member k raw w).extra) ≡ true
unfolding add_member
add_member-again k raw w s = elim (Bool-cases (is_in k w.seen)) [
  | inl h ↦ rw h refl
  | inr h ↦ elim (Bool-cases (k == route_key)) [
    | inl e ↦ absurd (ground (arith, (bytes_beq_iff k route_key).0 e))
    | inr e ↦ rw (h, e) (ground arith)
  ]
]

add_member-other :
    (k raw : List ℕ) → (k == route_key) ≡ false → (add_member k raw new_walk).extra ≡ true
unfolding add_member lookup
add_member-other k raw e = rw e refl

add_member-route :
    (k raw : List ℕ)
    → (k == route_key) ≡ true
    → add_member k raw new_walk ≡ record new_walk { seen = (k, true) ∷ []; value = some raw }
unfolding add_member lookup insert
add_member-route k raw e = rw e refl

-- After the route, another member sets a flag.
walk_members-done :
    (rest : List Answer) (w w' : Walk)
    → is_in route_key w.seen ≡ true
    → walk_members rest w ≡ ok w'
    → (w'.dup || w'.extra) ≡ false
    → (rest ≡ []) × (w' ≡ w)
unfolding walk_members
walk_members-done [] w w' s h f = (refl, ground arith)
walk_members-done (token_error ∷ rest) w w' s h f = absurd (ground arith)
walk_members-done (no_string ∷ rest) w w' s h f = absurd (ground arith)
walk_members-done (decode_error ∷ rest) w w' s h f = absurd (ground arith)
walk_members-done (member k raw ∷ rest) w w' s h f =
    absurd (
      ground
        (arith, walk_members-flags rest (add_member k raw w) w' h (add_member-again k raw w s)))

walk_members-one :
    (rest : List Answer) (w : Walk) (raw : List ℕ)
    → walk_members rest new_walk ≡ ok w
    → (w.dup || w.extra) ≡ false
    → w.value ≡ some raw
    → rest ≡ member route_key raw ∷ []
unfolding walk_members lookup
walk_members-one [] w raw h f v = absurd (ground arith)
walk_members-one (token_error ∷ rest) w raw h f v = absurd (ground arith)
walk_members-one (no_string ∷ rest) w raw h f v = absurd (ground arith)
walk_members-one (decode_error ∷ rest) w raw h f v = absurd (ground arith)
walk_members-one (member k r ∷ rest) w raw h f v = elim (Bool-cases (k == route_key)) [
  | inl e ↦
      (let one : Walk = record new_walk { seen = (k, true) ∷ []; value = some r } in
        let g : walk_members rest one ≡ ok w =
          ap (walk_members rest) (sym (add_member-route k r e)) ∙ h in
        let (n, q) = walk_members-done rest one w (ground arith) g f in
        ground (arith, (bytes_beq_iff k route_key).0 e, n, q))
  | inr e ↦ absurd (
      ground (arith, add_member-other k r e, walk_members-flags rest (add_member k r new_walk) w h))
]

pub parse-Meets :
    (js : Json) (labels : Contract) (answer route : List ℕ)
    → parse js labels answer ≡ ok route
    → Meets js labels answer route
unfolding parse
parse-Meets js labels answer route h =
    elim (result_cases (walk_members (js.answers (trim answer)) new_walk)) [
      | inr (x, p) ↦ absurd (ground arith)
      | inl (w, p) ↦ elim (Option-cases (js.closes (trim answer))) [
        | inl q ↦ absurd (ground arith)
        | inr (offset, q) ↦ elim (Option-cases w.value) [
          | inl v ↦ absurd (ground arith)
          | inr (raw, v) ↦ elim (Option-cases (js.unmarshal raw)) [
            | inl u ↦ absurd (ground arith)
            | inr (other_value, u) ↦ absurd (ground arith)
            | inr (string_value r, u) ↦ record {
              raw = raw;
              offset = offset;
              utf8 = ground arith;
              an_object = ground arith;
              opened = ground arith;
              one_member = walk_members-one (js.answers (trim answer)) w raw p (ground arith) v;
              closed = q;
              nothing_after =
                  ground (arith, (bytes_beq_iff (trim (drop offset (trim answer))) []).0);
              a_string = ground arith;
              a_label = ground arith;
            }
          ]
        ]
      ]
    ]

object-start :
    (body : List ℕ)
    → first_byte body ≡ b'{'
    → ((body == []) ≡ false) × (has_prefix body (bytes "```") ≡ false)
unfolding has_prefix
object-start [] h = absurd (ground arith)
object-start (c ∷ s) h = (refl, rw h refl)

one-walk :
    (raw : List ℕ)
    → walk_members (member route_key raw ∷ []) new_walk
      ≡ ok (record new_walk { seen = (route_key, true) ∷ []; value = some raw })
unfolding walk_members add_member lookup insert
one-walk raw = refl

pub parse_of_Meets :
    (js : Json) (labels : Contract) (answer route : List ℕ)
    → Meets js labels answer route
    → parse js labels answer ≡ ok route
unfolding parse
parse_of_Meets js labels answer route m =
    let (ne, np) = object-start (trim answer) m.an_object in
    ground (
      arith,
      m.utf8,
      ne,
      np,
      m.an_object,
      m.opened,
      m.one_member,
      one-walk m.raw,
      m.closed,
      (bytes_beq_iff (trim (drop m.offset (trim answer))) []).1 m.nothing_after,
      m.a_string,
      m.a_label,
    )

-- `Contract.Parse` gives a route exactly when the answer meets the contract with it: valid UTF-8, in
-- JSON whitespace one object and nothing after it, whose one member is "route" with a string value
-- that is a configured label.
pub parse_iff_Meets :
    (js : Json) (labels : Contract) (answer route : List ℕ)
    → (parse js labels answer ≡ ok route) ↔ Meets js labels answer route
parse_iff_Meets js labels answer route =
    (parse-Meets js labels answer route, parse_of_Meets js labels answer route)
