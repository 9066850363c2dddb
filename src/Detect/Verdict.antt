-- ===== src/Detect/Verdict.antt =====
-- What a Detection says: one of recovered, unobserved and not recovered, each with its reason.
use percentes.Base.{
  ℕ, ◌-◌, ◌≡◌, ◌≤◌, ◌<◌, refl, inl, inr, ◌⊎◌, Bool, true, false, ◌||◌, none, some, List,
  if◌then◌else◌, is_empty, arith,
}
use percentes.Base.Int.{ℤ, pos}
use percentes.Base.Floats.{Floats}
use percentes.Detect.Types.{Bucket, Component, Params, Detection}
use percentes.Detect.Scan.{
  Scanned, found, hold_cut, exhausted, start_at, bar_of, first_idx, last_idx, detection_of,
  detect_from,
}
use percentes.Detect.Rounds.{Survives, Unseen, Cut, NoneIn}
use percentes.Detect.Survival.{IsFirst, scan-IsFirst}

module _ (fl : Floats) (bs : List Bucket) (comp : Component) (baseline : fl.Float) (p : Params)
    (first last : ℕ) where
  -- Recovery at the first surviving entry.
  pub record Recovered (d : Detection fl.Float) : Type 0 where
    pub index : ℕ
    pub at_start : d.recovered_at_ns ≡ some (start_at bs index)
    pub verdict : (d.not_recovered ≡ false) × (d.hold_unobserved ≡ false)
    pub in_scan : (first ≤ index) × (index < last)
    pub survives : Survives fl bs p comp (bar_of fl baseline p.entry_pct) index
    pub first_one : NoneIn fl bs p comp (bar_of fl baseline p.entry_pct) first index

  -- The series ends before the window or the hold of an entry, which it cuts, and no bucket before that
  -- survives or is cut.
  pub record NotSeen (d : Detection fl.Float) : Type 0 where
    pub index : ℕ
    pub no_time : d.recovered_at_ns ≡ none
    pub verdict : (d.not_recovered ≡ false) × (d.hold_unobserved ≡ true)
    pub in_scan : (first ≤ index) × (index < last)
    pub is_past : Unseen fl bs p comp (bar_of fl baseline p.entry_pct) index
    pub is_cut : Cut fl bs p comp (bar_of fl baseline p.entry_pct) index
    pub none_before : NoneIn fl bs p comp (bar_of fl baseline p.entry_pct) first index

  -- No bucket of the scan survives or is cut, or there is no bucket or no baseline above 0.
  pub record NotRecovered (d : Detection fl.Float) : Type 0 where
    pub no_time : d.recovered_at_ns ≡ none
    pub verdict : (d.not_recovered ≡ true) × (d.hold_unobserved ≡ false)
    pub reason :
        (is_empty bs ≡ true)
        ⊎ ((fl.at_least (fl.of_int (pos 0)) baseline ≡ true)
            ⊎ NoneIn fl bs p comp (bar_of fl baseline p.entry_pct) first last)

  abbrev pub Judged : Detection fl.Float → Type 0
  Judged d = Recovered d ⊎ (NotSeen d ⊎ NotRecovered d)

  detection_of-Judged :
      (anchor : ℤ) (r : Scanned)
      → IsFirst fl bs p comp (bar_of fl baseline p.entry_pct) first last r
      → Judged (detection_of fl bs comp baseline anchor last p r)
  detection_of-Judged anchor (found c k) (low, high, s, f) = inl (record {
    index = k;
    at_start = refl;
    verdict = (refl, refl);
    in_scan = (low, high);
    survives = s;
    first_one = f;
  })
  detection_of-Judged anchor (hold_cut c) (k, low, high, (u, cut), f) = inr (
      inl (record {
        index = k;
        no_time = refl;
        verdict = (refl, refl);
        in_scan = (low, high);
        is_past = u;
        is_cut = cut;
        none_before = f;
      }))
  detection_of-Judged anchor (exhausted c) f =
      inr (inr (record { no_time = refl; verdict = (refl, refl); reason = inr (inr f) }))

  Judged-if :
      (anchor : ℤ) (empty low : Bool) (r : Scanned)
      → is_empty bs ≡ empty
      → fl.at_least (fl.of_int (pos 0)) baseline ≡ low
      → IsFirst fl bs p comp (bar_of fl baseline p.entry_pct) first last r
      → Judged (
          if empty || low
          then detection_of fl bs comp baseline anchor last p (exhausted 0)
          else detection_of fl bs comp baseline anchor last p r)
  Judged-if anchor true low r e f g =
      inr (inr (record { no_time = refl; verdict = (refl, refl); reason = inl e }))
  Judged-if anchor false true r e f g =
      inr (inr (record { no_time = refl; verdict = (refl, refl); reason = inr (inl f) }))
  Judged-if anchor false false r e f g = detection_of-Judged anchor r g

-- For a window of at least a second, and floats of which < and >= are never both true: a Detection
-- recovers at the start of the first bucket, from the first one after the scan's anchor on and before
-- the timeout, whose window meets the entry bar and whose hold's windows all lie in the series and do
-- not fall below it. A bucket is cut where its window goes past the series' end and may still meet the
-- bar, that is none of its buckets is there, or those that are meet it or would with all the missing
-- ones good; or where it is an entry whose hold reaches a window past the series' end with none below
-- the bar before. The Detection is unobserved where a bucket of the scan is cut, before which none
-- survives or is cut; none is cut before a recovery; and it is not recovered where no bucket of the scan
-- survives or is cut, or there is no bucket or no baseline above 0. It is exactly one of the three.
pub detect_from-Judged :
    (fl : Floats) (bs : List Bucket) (comp : Component) (baseline : fl.Float)
    (anchor scan_from timeout : ℤ) (p : Params)
    → 0 < p.window_s
    → ((x y : fl.Float) → fl.at_least x y ≡ true → fl.below x y ≡ false)
    → Judged fl bs comp baseline p
        (first_idx fl (start_at bs 0) scan_from)
        (last_idx fl bs (start_at bs 0) timeout)
        (detect_from fl bs comp baseline anchor scan_from timeout p)
unfolding detect_from
detect_from-Judged fl bs comp baseline anchor scan_from timeout p some_s apart =
    Judged-if fl bs comp baseline p _ _ anchor _ _ _ refl refl (
      scan-IsFirst fl bs p comp (bar_of fl baseline p.entry_pct) some_s apart
        (last_idx fl bs (start_at bs 0) timeout)
        (last_idx fl bs (start_at bs 0) timeout - first_idx fl (start_at bs 0) scan_from)
        (first_idx fl (start_at bs 0) scan_from) 0 (omega arith))
