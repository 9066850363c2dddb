-- ===== src/Detect/Scan.antt =====
-- internal/detect/detect.go: `detectFrom`, the scan for a held entry.
use percentes.Base.{
  ℕ, zero, suc, ◌+◌, ◌-◌, Bool, true, false, not, ◌&&◌, ◌||◌, Option, none, some, List, [], ◌∷◌,
  nat_eq, if◌then◌else◌, is_empty, length, ltb,
}
use percentes.Base.Int.{ℤ, pos, pos_part, ◌+i◌, ◌-i◌}
use percentes.Base.Floats.{Floats}
use percentes.Detect.Types.{Bucket, Component, Params, Detection, ns_per_sec}
use percentes.Base.Int.{quo_i}
use percentes.Detect.Windows.{window_ratio, entry_verdict}

-- How the loop over a candidate's hold ends: held, cut by the end of the series, or at a dip.
pub data Hold : Type 0 where
  held cut_off : Hold
  dipped : ℕ → Hold

-- One round of the scan at an index.
pub data Round : Type 0 where
  unseen no_entry entry : Round
  canceled_at : ℕ → Round

-- How the scan ends, with the canceled entries: at an entry, unobserved, or after the last index.
pub data Scanned : Type 0 where
  found : ℕ → ℕ → Scanned
  hold_cut : ℕ → Scanned
  exhausted : ℕ → Scanned

abbrev pub start_at : List Bucket → ℕ → ℤ
start_at [] i = pos 0
start_at (b ∷ bs) zero = b.start_ns
start_at (b ∷ bs) (suc i) = start_at bs i

-- Where the loop goes on after a round at index `i`; not at all beyond the last index.
abbrev pub after_round : Bool → Round → ℕ → ℕ → (ℕ → ℕ → Scanned) → Scanned
after_round false r i canceled go_on = exhausted canceled
after_round true unseen i canceled go_on = hold_cut canceled
after_round true no_entry i canceled go_on = go_on (i + 1) canceled
after_round true entry i canceled go_on = found canceled i
after_round true (canceled_at j) i canceled go_on = go_on (j + 1) (canceled + 1)

module _ (fl : Floats) where
  -- !hok || hw < entryBar
  abbrev pub sinks_below : Option fl.Float → fl.Float → Bool
  sinks_below none bar = true
  sinks_below (some w) bar = fl.below w bar

  unfoldable pub sinks : List Bucket → ℕ → Component → fl.Float → ℕ → Bool
  sinks bs window_s comp bar j = sinks_below (window_ratio fl bs j window_s comp) bar

  -- The hold's loop from the window at `j` on, with `n` windows left.
  unfoldable pub hold_from : List Bucket → ℕ → Component → fl.Float → ℕ → ℕ → Hold
  unfolding sinks
  hold_from bs window_s comp bar zero j = held
  hold_from bs window_s comp bar (suc n) j =
      let rest = hold_from bs window_s comp bar n (j + 1) in
      if ltb (length bs) (j + window_s)
      then cut_off
      else if sinks bs window_s comp bar j
      then dipped j
      else rest

  abbrev pub round_of : Bool × Bool → Hold → Round
  round_of (candidate, true) h = unseen
  round_of (false, false) h = no_entry
  round_of (true, false) held = entry
  round_of (true, false) cut_off = unseen
  round_of (true, false) (dipped j) = canceled_at j

  -- The body of the loop at index `i`.
  unfoldable pub round_at : List Bucket → Params → Component → fl.Float → ℕ → Round
  unfolding hold_from
  round_at bs p comp bar i =
      round_of (entry_verdict fl bs i p.window_s comp bar)
        (hold_from bs p.window_s comp bar p.hold_s (i + 1))

  -- The scan of the indices from `i` to `last`, on fuel.
  unfoldable pub scan : List Bucket → Params → Component → fl.Float → ℕ → ℕ → ℕ → ℕ → Scanned
  unfolding round_at
  scan bs p comp bar last zero i canceled = exhausted canceled
  scan bs p comp bar last (suc fuel) i canceled =
      after_round (ltb i last) (round_at bs p comp bar i) i canceled
        (λ next count. scan bs p comp bar last fuel next count)

  -- The dips after a recovery, in the windows from `j` on, with `n` left; whether one goes on.
  unfoldable pub dips_from : List Bucket → ℕ → Component → fl.Float → fl.Float → ℕ → ℕ → Bool → ℕ
  dips_from bs window_s comp entry_bar exit_bar zero j under = 0
  dips_from bs window_s comp entry_bar exit_bar (suc n) j under =
      elim (window_ratio fl bs j window_s comp) [
        | none ↦ dips_from bs window_s comp entry_bar exit_bar n (j + 1) under
        | some w ↦ elim (fl.below w exit_bar && not under) [
          | true ↦ suc (dips_from bs window_s comp entry_bar exit_bar n (j + 1) true)
          | false ↦
              dips_from bs window_s comp entry_bar exit_bar n (j + 1)
                (if fl.at_least w entry_bar then false else under)
        ]
      ]

  abbrev pub bar_of : fl.Float → ℕ → fl.Float
  bar_of baseline pct = fl.over (fl.times baseline (fl.of_int (pos pct))) (fl.of_int (pos 100))

  -- firstIdx
  unfoldable pub first_idx : ℤ → ℤ → ℕ
  unfolding quo_i
  first_idx origin scan_from =
      pos_part (quo_i (scan_from -i origin +i pos ns_per_sec -i pos 1) ns_per_sec)

  -- lastIdx; a negative one, which no index is below, is 0 here.
  unfoldable pub last_idx : List Bucket → ℤ → ℤ → ℕ
  unfolding quo_i
  last_idx bs origin timeout =
      let k = pos_part (quo_i (timeout -i origin) ns_per_sec) in
      if ltb (length bs) k then length bs else k

  -- The Detection that the scan's end gives.
  abbrev pub detection_of :
      List Bucket → Component → fl.Float → ℤ → ℕ → Params → Scanned → Detection fl.Float
  detection_of bs comp baseline anchor last p (found canceled i) =
      let at = start_at bs i in
      record {
        baseline = baseline;
        params = p;
        ttr_seconds = some (fl.over (fl.of_int (at -i anchor)) (fl.of_int (pos ns_per_sec)));
        recovered_at_ns = some at;
        not_recovered = false;
        hold_unobserved = false;
        canceled_entries = canceled;
        re_degradations =
            dips_from bs p.window_s comp (bar_of baseline p.entry_pct) (bar_of baseline p.exit_pct)
              (last - (i + p.hold_s + 1)) (i + p.hold_s + 1) false;
      }
  detection_of bs comp baseline anchor last p (hold_cut canceled) = record {
    baseline = baseline;
    params = p;
    ttr_seconds = none;
    recovered_at_ns = none;
    not_recovered = false;
    hold_unobserved = true;
    canceled_entries = canceled;
    re_degradations = 0;
  }
  detection_of bs comp baseline anchor last p (exhausted canceled) = record {
    baseline = baseline;
    params = p;
    ttr_seconds = none;
    recovered_at_ns = none;
    not_recovered = true;
    hold_unobserved = false;
    canceled_entries = canceled;
    re_degradations = 0;
  }

  -- detectFrom
  unfoldable pub detect_from :
      List Bucket → Component → fl.Float → ℤ → ℤ → ℤ → Params → Detection fl.Float
  unfolding first_idx last_idx scan dips_from
  detect_from bs comp baseline anchor scan_from timeout p =
      let origin = start_at bs 0 in
      let first = first_idx origin scan_from in
      let last = last_idx bs origin timeout in
      if is_empty bs || fl.at_least (fl.of_int (pos 0)) baseline
      then detection_of bs comp baseline anchor last p (exhausted 0)
      else detection_of bs comp baseline anchor last p
          (scan bs p comp (bar_of baseline p.entry_pct) last (last - first) first 0)

  -- detect
  unfoldable pub detect : List Bucket → Component → fl.Float → ℤ → ℤ → Params → Detection fl.Float
  unfolding detect_from
  detect bs comp baseline anchor timeout p = detect_from bs comp baseline anchor anchor timeout p
