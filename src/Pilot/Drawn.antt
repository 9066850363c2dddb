-- ===== src/Pilot/Drawn.antt =====
-- The sessions that a seed draws: each on a date of its day type's pool, no two on one date.
use percentes.Base.{
  ℕ, zero, suc, ◌+◌, ◌≡◌, refl, sym, ap, ◌∙◌, Bool, true, false, Option, none, some, List, [], ◌∷◌,
  ◌++◌, bytes, ◌==◌, nat_eq, length, get_elem?, arith, All,
}
use mathlib.Core.Path.{subst}
use percentes.Admission.Decimal.{print_nat}
use percentes.Base.Sort.{AllPairs, All-map}
use percentes.Schedule.Types.{Library}
use percentes.Schedule.Window.{Pools, pool_of}
use percentes.Schedule.Shuffle.{SameItems, swap-SameItems, SameItems-trans}
use percentes.Pilot.Slots.{
  Session, SessionLabel, shuffle, numbers, permutation, slot, is_taken, drawn_date, on_date,
  put_session, unless, derive_from, derive, session_labels, labels_from, draw,
}

pub shuffle-SameItems : (at : ℕ → ℕ) (i : ℕ) (p : List ℕ) → SameItems (shuffle at i p) p
unfolding shuffle
shuffle-SameItems at zero p = record { as_often = λ a. refl; as_long = refl }
shuffle-SameItems at (suc i) p =
    SameItems-trans (shuffle-SameItems at i _) (swap-SameItems p (suc i) (at (suc i)))

-- A permutation has each number once, as the numbers in order do.
pub permutation-SameItems :
    (lib : Library) (seed label : List ℕ) (n : ℕ)
    → SameItems (permutation lib seed label n) (numbers 0 n)
unfolding permutation
permutation-SameItems lib seed label zero =
    unfold numbers in record { as_often = λ a. refl; as_long = refl }
permutation-SameItems lib seed label (suc n) =
    shuffle-SameItems (λ i. draw lib (seed ++ (label ++ (bytes "/case/" ++ print_nat i))) (i + 1)) n
      (numbers 0 (suc n))

module _ (lib : Library) (seed : List ℕ) (pools : Pools) where
  -- A session on a date of its label's pool that was not taken.
  pub record IsDrawn (taken : List ℕ) (s : Session) : Type 0 where
    pub label : SessionLabel
    pub index : ℕ
    pub date : ℕ
    pub in_pool : get_elem? (pool_of pools label.day_type) index ≡ some date
    pub is_slot : s ≡ slot lib seed label.label date
    pub fresh : is_taken date taken ≡ false

  record Round (taken : List ℕ) (c : SessionLabel) (o : Option ℕ) (rest : ℕ → Option (List Session))
      (sessions : List Session) : Type 0 where
    date : ℕ
    drawn : o ≡ some date
    fresh : is_taken date taken ≡ false
    later : List Session
    rest_is : rest date ≡ some later
    sessions_are : sessions ≡ slot lib seed c.label date ∷ later

  unless-put :
      (hit : Bool) (later : Option (List Session)) (s : Session) (sessions : List Session)
      → unless lib seed pools hit (put_session lib seed pools later s) ≡ some sessions
      → (hit ≡ false) × (rest : List Session) × (later ≡ some rest) × (sessions ≡ s ∷ rest)
  unless-put true later s sessions h = absurd (ground arith)
  unless-put false none s sessions h = absurd (ground arith)
  unless-put false (some rest) s sessions h = (refl, rest, refl, ground arith)

  on_date-Round :
      (taken : List ℕ) (c : SessionLabel) (o : Option ℕ) (rest : ℕ → Option (List Session))
      (sessions : List Session)
      → on_date lib seed pools taken c o rest ≡ some sessions
      → Round taken c o rest sessions
  on_date-Round taken c none rest sessions h = absurd (ground arith)
  on_date-Round taken c (some d) rest sessions h =
      let (miss, later, rest_is, sessions_are) =
        unless-put (is_taken d taken) (rest d) (slot lib seed c.label d) sessions h in
      record {
        date = d;
        drawn = refl;
        fresh = miss;
        later = later;
        rest_is = rest_is;
        sessions_are = sessions_are;
      }

  -- On different dates.
  abbrev pub Apart : Session → Session → Type 0
  Apart a b = (b.start == a.start) ≡ false

  slot-Apart :
      (a b : List ℕ) (d e : ℕ) → (d == e) ≡ false → Apart (slot lib seed a d) (slot lib seed b e)
  unfolding slot
  slot-Apart a b d e h = ground arith

  still_fresh : (d : ℕ) (taken : List ℕ) (s : Session) → IsDrawn (d ∷ taken) s → IsDrawn taken s
  unfolding is_taken
  still_fresh d taken s h = record {
    label = h.label;
    index = h.index;
    date = h.date;
    in_pool = h.in_pool;
    is_slot = h.is_slot;
    fresh = ground (arith, h.fresh);
  }

  Apart-later :
      (a : List ℕ) (d : ℕ) (taken : List ℕ) (s : Session)
      → IsDrawn (d ∷ taken) s
      → Apart (slot lib seed a d) s
  unfolding is_taken
  Apart-later a d taken s h =
      let other : (d == h.date) ≡ false = ground (arith, h.fresh) in
      ap (λ (x : Session). x.start == (slot lib seed a d).start) h.is_slot
      ∙ slot-Apart a h.label.label d h.date other

  -- The sessions of some labels, with some dates taken.
  pub record AreDrawn (taken : List ℕ) (n : ℕ) (sessions : List Session) : Type 0 where
    pub each : All (IsDrawn taken) sessions
    pub all_apart : AllPairs Apart sessions
    pub one_each : length sessions ≡ n

  derive_from-AreDrawn :
      (taken : List ℕ) (labels : List SessionLabel) (sessions : List Session)
      → derive_from lib seed pools taken labels ≡ some sessions
      → AreDrawn taken (length labels) sessions
  unfolding derive_from
  derive_from-AreDrawn taken [] [] h = record { each = tt; all_apart = tt; one_each = refl }
  derive_from-AreDrawn taken [] (s ∷ sessions) h = absurd (ground arith)
  derive_from-AreDrawn taken (c ∷ labels) sessions h =
      let r =
        on_date-Round taken c (drawn_date lib seed pools c)
          (λ d. derive_from lib seed pools (d ∷ taken) labels) sessions h in
      let ih = derive_from-AreDrawn (r.date ∷ taken) labels r.later r.rest_is in
      subst (AreDrawn taken (suc (length labels))) (sym r.sessions_are) (record {
        each = (
          record {
            label = c;
            index = draw lib (seed ++ c.label) (length (pool_of pools c.day_type));
            date = r.date;
            in_pool = unfold drawn_date in r.drawn;
            is_slot = refl;
            fresh = r.fresh;
          },
          All-map (IsDrawn (r.date ∷ taken)) (IsDrawn taken) (still_fresh r.date taken) r.later
              ih.each,
        );
        all_apart = (
          All-map (IsDrawn (r.date ∷ taken)) (Apart (slot lib seed c.label r.date))
              (Apart-later c.label r.date taken) r.later ih.each,
          ih.all_apart,
        );
        one_each = ap suc ih.one_each;
      })

  pub derive-AreDrawn :
      (sessions : List Session) → derive lib seed pools ≡ some sessions → AreDrawn [] 6 sessions
  unfolding derive session_labels labels_from
  derive-AreDrawn sessions h = derive_from-AreDrawn [] session_labels sessions h
