-- ===== src/Sse/Delivery.antt =====
-- The events of a stream, as the HTML Standard joins their data, and what `Events` delivers of them.
use percentes.Base.{
  ℕ, ◌+◌, ◌≡◌, refl, sym, ap, ◌∙◌, Bool, true, false, not, ◌&&◌, ◌||◌, Option, none, some, List, [],
  ◌∷◌, ◌++◌, ◌==◌, nat_eq, bytes_eq, if◌then◌else◌, length, leb, Bool-cases, Option-cases, inl, inr,
  append_assoc, append-nil, length-append, arith,
}
use percentes.Sse.Events.{
  cut_prefix, trim_prefix, trim_feed, Outcome, no_outcome, Event, no_event, deliver, stops,
  add_data, field_name, read_events, trim_mark, events,
}

-- The value of a data field, less one leading space; none for another line.
unfoldable pub data_value : List ℕ → Option (List ℕ)
data_value l = elim (cut_prefix field_name l) [
  | none ↦ none
  | some v ↦ some (trim_prefix (b' ' ∷ []) v)
]

abbrev pub put_first : List ℕ → List (List (List ℕ)) → List (List (List ℕ))
put_first v [] = (v ∷ []) ∷ []
put_first v (e ∷ es) = (v ∷ e) ∷ es

-- The data values of each event: events end at blank lines, and the last one at the end.
unfoldable pub event_values : List (List ℕ) → List (List (List ℕ))
unfolding data_value
event_values [] = [] ∷ []
event_values ([] ∷ ls) = [] ∷ event_values ls
event_values ((c ∷ l) ∷ ls) = elim (data_value (c ∷ l)) [
  | none ↦ event_values ls
  | some v ↦ put_first v (event_values ls)
]

-- The values joined by line feeds.
unfoldable pub joined : List (List ℕ) → List ℕ
joined [] = []
joined (v ∷ []) = v
joined (v ∷ w ∷ vs) = v ++ b'\n' ∷ joined (w ∷ vs)

-- The bytes of the values and their line feeds.
unfoldable pub size : List (List ℕ) → ℕ
size [] = 0
size (v ∷ vs) = length v + 1 + size vs

abbrev pub has_data : List (List ℕ) → Bool
has_data [] = false
has_data (v ∷ vs) = true

abbrev pub fits : ℕ → List (List ℕ) → Bool
fits limit vs = leb (size vs) limit

-- An event is delivered if it fits the limit and its data is not empty.
abbrev pub delivered : ℕ → List (List ℕ) → List (List ℕ)
delivered limit vs = if fits limit vs && not (joined vs == []) then joined vs ∷ [] else []

-- The outcome with one more event.
unfoldable pub with_event : ℕ → List (List ℕ) → Outcome → Outcome
unfolding joined size
with_event limit vs out = record {
  saw_data = out.saw_data || has_data vs;
  dropped = out.dropped + (if fits limit vs then 0 else 1);
  payloads = out.payloads ++ delivered limit vs;
}

-- The outcome of a list of events: up to the first delivered payload that `fn` stops at.
unfoldable pub outcome_of : (List ℕ → Bool) → ℕ → List (List (List ℕ)) → Outcome → Outcome
unfolding with_event
outcome_of fn limit [] out = out
outcome_of fn limit (vs ∷ es) out =
    elim (fits limit vs && (not (joined vs == []) && fn (joined vs))) [
      | true ↦ with_event limit vs out
      | false ↦ outcome_of fn limit es (with_event limit vs out)
    ]

-- The bytes that the loop has kept of values that fit.
abbrev ended : List (List ℕ) → List ℕ
ended [] = []
ended (v ∷ vs) = (v ++ b'\n' ∷ []) ++ ended vs

-- The loop's event after the values `vs`.
abbrev event_of : ℕ → List (List ℕ) → Event
event_of limit vs =
    if fits limit vs
    then record { data_ = ended vs; overflow = false }
    else record { data_ = []; overflow = true }

-- The loop's outcome after the values `vs` of an event.
abbrev during : ℕ → List (List ℕ) → Outcome → Outcome
during limit vs out = record out {
  saw_data = out.saw_data || has_data vs;
  dropped = out.dropped + (if fits limit vs then 0 else 1);
}

trim_feed-cons : (c d : ℕ) (s : List ℕ) → trim_feed (c ∷ d ∷ s) ≡ c ∷ trim_feed (d ∷ s)
unfolding trim_feed
trim_feed-cons c d s = refl

trim_feed-append :
    (v : List ℕ) (c : ℕ) (s : List ℕ) → trim_feed (v ++ c ∷ s) ≡ v ++ trim_feed (c ∷ s)
unfolding trim_feed
trim_feed-append [] c s = refl
trim_feed-append (d ∷ []) c s = refl
trim_feed-append (d ∷ e ∷ v) c s = ap (λ x. d ∷ x) (trim_feed-append (e ∷ v) c s)

-- A line feed in front of bytes that are not empty stays.
trim_feed-feed :
    (w : List ℕ) (s : List ℕ)
    → trim_feed (b'\n' ∷ (w ++ b'\n' ∷ []) ++ s) ≡ b'\n' ∷ trim_feed ((w ++ b'\n' ∷ []) ++ s)
trim_feed-feed [] s = trim_feed-cons b'\n' b'\n' s
trim_feed-feed (c ∷ w) s = trim_feed-cons b'\n' c ((w ++ b'\n' ∷ []) ++ s)

trim_feed-ended : (vs : List (List ℕ)) → trim_feed (ended vs) ≡ joined vs
unfolding trim_feed joined
trim_feed-ended [] = refl
trim_feed-ended (v ∷ []) =
    ap trim_feed (append-nil (v ++ b'\n' ∷ [])) ∙ trim_feed-append v b'\n' [] ∙ append-nil v
trim_feed-ended (v ∷ w ∷ vs) =
    ap trim_feed (append_assoc v (b'\n' ∷ []) (ended (w ∷ vs)))
    ∙ trim_feed-append v b'\n' (ended (w ∷ vs))
    ∙ ap (λ x. v ++ x)
        (trim_feed-feed w (ended vs) ∙ ap (λ x. b'\n' ∷ x) (trim_feed-ended (w ∷ vs)))

length-ended : (vs : List (List ℕ)) → length (ended vs) ≡ size vs
unfolding size
length-ended [] = refl
length-ended (v ∷ vs) = omega (
  arith,
  length-append (v ++ b'\n' ∷ []) (ended vs),
  length-append v (b'\n' ∷ []),
  length-ended vs,
)

size-append : (vs ws : List (List ℕ)) → size (vs ++ ws) ≡ size vs + size ws
unfolding size
size-append [] ws = omega arith
size-append (v ∷ vs) ws = omega (arith, size-append vs ws)

ended-append :
    (vs : List (List ℕ)) (v : List ℕ) → ended (vs ++ v ∷ []) ≡ (ended vs ++ v) ++ b'\n' ∷ []
ended-append [] v = append-nil (v ++ b'\n' ∷ [])
ended-append (w ∷ vs) v =
    ap (λ x. (w ++ b'\n' ∷ []) ++ x) (ended-append vs v)
    ∙ sym (append_assoc (w ++ b'\n' ∷ []) (ended vs ++ v) (b'\n' ∷ []))
    ∙ ap (λ x. x ++ b'\n' ∷ []) (sym (append_assoc (w ++ b'\n' ∷ []) (ended vs) v))

has_data-append : (vs : List (List ℕ)) (v : List ℕ) → has_data (vs ++ v ∷ []) ≡ true
has_data-append [] v = refl
has_data-append (w ∷ vs) v = refl

module _ (fn : List ℕ → Bool) (limit : ℕ) where
  deliver-with_event :
      (vs : List (List ℕ)) (out : Outcome)
      → deliver (event_of limit vs) (during limit vs out) ≡ with_event limit vs out
  unfolding deliver with_event
  deliver-with_event vs out = ground (arith, trim_feed-ended vs, append-nil out.payloads)

  stops-event_of :
      (vs : List (List ℕ))
      → stops fn (event_of limit vs) ≡ (fits limit vs && (not (joined vs == []) && fn (joined vs)))
  unfolding stops
  stops-event_of vs = ground (arith, trim_feed-ended vs)

  add_data-event_of :
      (vs : List (List ℕ)) (value : List ℕ) (out : Outcome)
      → add_data limit value (event_of limit vs) (during limit vs out) ≡ (
        event_of limit (vs ++ trim_prefix (b' ' ∷ []) value ∷ []),
        during limit (vs ++ trim_prefix (b' ' ∷ []) value ∷ []) out,
      )
  unfolding add_data size
  add_data-event_of vs value out =
      let v = trim_prefix (b' ' ∷ []) value in
      elim (Bool-cases (fits limit vs)) [
        | inl f ↦ elim (Bool-cases (fits limit (vs ++ v ∷ []))) [
          | inl g ↦ ground (
            arith,
            length-ended vs,
            size-append vs (v ∷ []),
            has_data-append vs v,
            ended-append vs v,
          )
          | inr g ↦ ground (arith, length-ended vs, size-append vs (v ∷ []), has_data-append vs v)
        ]
        | inr f ↦ ground (arith, length-ended vs, size-append vs (v ∷ []), has_data-append vs v)
      ]

-- The values `vs`, put before those of the first event.
abbrev put_all : List (List ℕ) → List (List (List ℕ)) → List (List (List ℕ))
put_all vs [] = vs ∷ []
put_all vs (e ∷ es) = (vs ++ e) ∷ es

put_all-put_first :
    (vs : List (List ℕ)) (v : List ℕ) (es : List (List (List ℕ)))
    → put_all (vs ++ v ∷ []) es ≡ put_all vs (put_first v es)
put_all-put_first vs v [] = refl
put_all-put_first vs v (e ∷ es) = ap (λ x. x ∷ es) (append_assoc vs (v ∷ []) e)

put_all-nil :
    (v : List ℕ) (es : List (List (List ℕ))) → put_all [] (put_first v es) ≡ put_first v es
put_all-nil v [] = refl
put_all-nil v (e ∷ es) = refl

put_all-event_values : (ls : List (List ℕ)) → put_all [] (event_values ls) ≡ event_values ls
unfolding event_values
put_all-event_values [] = refl
put_all-event_values ([] ∷ ls) = refl
put_all-event_values ((c ∷ l) ∷ ls) = elim (Option-cases (data_value (c ∷ l))) [
  | inl h ↦ rw (h, put_all, event_values) (put_all-event_values ls)
  | inr (v, h) ↦ rw (h, put_all, event_values) (put_all-nil v (event_values ls))
]

module _ (fn : List ℕ → Bool) (limit : ℕ) where
  event_of-nil : event_of limit [] ≡ no_event
  unfolding size
  event_of-nil = ground arith

  during-nil : (out : Outcome) → during limit [] out ≡ out
  unfolding size
  during-nil out = ground arith

  abbrev Continues : List (List ℕ) → Type 0
  Continues ls =
      (vs : List (List ℕ)) (out : Outcome)
      → read_events fn limit ls (event_of limit vs) (during limit vs out)
        ≡ outcome_of fn limit (put_all vs (event_values ls)) out

  -- The test that ends the loop at an event's end.
  abbrev last_read : List (List ℕ) → Bool
  last_read vs = fits limit vs && (not (joined vs == []) && fn (joined vs))

  outcome_of-cons :
      (vs : List (List ℕ)) (es : List (List (List ℕ))) (out : Outcome)
      → outcome_of fn limit (vs ∷ es) out ≡ (
          if last_read vs
          then with_event limit vs out
          else outcome_of fn limit es (with_event limit vs out))
  unfolding outcome_of
  outcome_of-cons vs es out = ground arith

  read_events-blank :
      (ls : List (List ℕ)) (ev : Event) (out : Outcome)
      → read_events fn limit ([] ∷ ls) ev out ≡ (
          if stops fn ev then deliver ev out else read_events fn limit ls no_event (deliver ev out))
  unfolding read_events
  read_events-blank ls ev out = ground arith

  Continues-end : Continues []
  unfolding read_events event_values outcome_of
  Continues-end vs out = ground (arith, deliver-with_event fn limit vs out, append-nil vs)

  Continues-blank : (ls : List (List ℕ)) → Continues ls → Continues ([] ∷ ls)
  unfolding event_values
  Continues-blank ls ih vs out =
      let again : read_events fn limit ls no_event (with_event limit vs out)
          ≡ outcome_of fn limit (event_values ls) (with_event limit vs out) =
        ap (λ e. read_events fn limit ls e (with_event limit vs out)) (sym event_of-nil)
        ∙ ap (read_events fn limit ls (event_of limit []))
            (sym (during-nil (with_event limit vs out)))
        ∙ ih [] (with_event limit vs out)
        ∙ ap (λ es. outcome_of fn limit es (with_event limit vs out)) (put_all-event_values ls) in
      read_events-blank ls (event_of limit vs) (during limit vs out)
      ∙ ap
          (λ b.
            if b
            then deliver (event_of limit vs) (during limit vs out)
            else read_events fn limit ls no_event
                (deliver (event_of limit vs) (during limit vs out)))
          (stops-event_of fn limit vs)
      ∙ ap (λ o. if last_read vs then o else read_events fn limit ls no_event o)
          (deliver-with_event fn limit vs out)
      ∙ ap (λ o. if last_read vs then with_event limit vs out else o) again
      ∙ sym (outcome_of-cons vs (event_values ls) out)
      ∙ ap (λ ws. outcome_of fn limit (ws ∷ event_values ls) out) (sym (append-nil vs))

  Continues-line :
      (c : ℕ) (l : List ℕ) (ls : List (List ℕ)) → Continues ls → Continues ((c ∷ l) ∷ ls)
  unfolding read_events event_values data_value
  Continues-line c l ls ih vs out = elim (Option-cases (cut_prefix field_name (c ∷ l))) [
    | inl h ↦ rw (h, read_events, event_values) (ih vs out)
    | inr (value, h) ↦
        rw (h, read_events, event_values)
          (let v = trim_prefix (b' ' ∷ []) value in
            ap (λ (p : Event × Outcome). read_events fn limit ls p.0 p.1)
              (add_data-event_of fn limit vs value out)
            ∙ ih (vs ++ v ∷ []) out
            ∙ ap (λ es. outcome_of fn limit es out) (put_all-put_first vs v (event_values ls)))
  ]

  read_events-outcome_of : (ls : List (List ℕ)) → Continues ls
  read_events-outcome_of [] vs out = Continues-end vs out
  read_events-outcome_of ([] ∷ ls) vs out = Continues-blank ls (read_events-outcome_of ls) vs out
  read_events-outcome_of ((c ∷ l) ∷ ls) vs out =
      Continues-line c l ls (read_events-outcome_of ls) vs out

  -- On the lines of a stream, `Events` calls its function, in order, on the data of each event that is
  -- not empty and whose bytes with a line feed for each field fit the limit, up to the first call
  -- that stops it; of the events that it read it counts those over the limit, and it says whether one
  -- had a data field. An event's data are the values of its data fields, less one leading space each,
  -- joined by line feeds.
  pub events-outcome_of :
      (ls : List (List ℕ))
      → events fn limit ls ≡ outcome_of fn limit (event_values (trim_mark ls)) no_outcome
  unfolding events
  events-outcome_of ls =
      ap (λ e. read_events fn limit (trim_mark ls) e no_outcome) (sym event_of-nil)
      ∙ ap (read_events fn limit (trim_mark ls) (event_of limit [])) (sym (during-nil no_outcome))
      ∙ read_events-outcome_of (trim_mark ls) [] no_outcome
      ∙ ap (λ es. outcome_of fn limit es no_outcome) (put_all-event_values (trim_mark ls))
