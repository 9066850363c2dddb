-- ===== src/Campaign/Accounts.antt =====
-- What a campaign's report accounts for.
use percentes.Base.{
  ℕ, zero, suc, ◌+◌, ◌≡◌, ◌≢◌, ◌<◌, ◌≤◌, ◌⊎◌, refl, inl, inr, Bool, true, false, not, ◌||◌, Option,
  none, List, [], ◌∷◌, ◌++◌, nat_beq, if◌then◌else◌, leb, length, length-append, arith, Result, ok,
  err,
}
use percentes.Base.Int.{pos, ◌+i◌}
use percentes.Base.Floats.{Floats}
use percentes.Campaign.Types.{Artifacts, Scalars, Report}
use percentes.Campaign.Scalars.{extract_scalars}
use percentes.Campaign.Summaries.{valid_rows}
use percentes.Campaign.Run.{Campaign, new_report, after_valid, after_run, run_from}

-- The rows are numbered from `k` on.
abbrev pub Numbered : {F : Type 0} → ℕ → List (Scalars F) → Type 0
Numbered k [] = Unit
Numbered k (r ∷ rows) = (r.run ≡ k) × Numbered (k + 1) rows

Numbered-append :
    {F : Type 0} (k : ℕ) (rows : List (Scalars F)) (r : Scalars F)
    → Numbered k rows
    → r.run ≡ k + length rows
    → Numbered k (rows ++ r ∷ [])
Numbered-append k [] r h e = (omega (arith, e), tt)
Numbered-append k (s ∷ rows) r h e = (h.0, Numbered-append (k + 1) rows r h.1 (omega (arith, e)))

module _ (fl : Floats) {S E : Type 0} (c : Campaign fl S E) where
  length-valid_rows :
      (rows : List (Scalars fl.Float)) (r : Scalars fl.Float)
      → length (valid_rows c.summarise (rows ++ r ∷ []))
        ≡ length (valid_rows c.summarise rows) + (if r.is_valid then 1 else 0)
  unfolding valid_rows
  length-valid_rows [] r = ground arith
  length-valid_rows (s ∷ rows) r = ground (arith, length-valid_rows rows r)

  pub valid_rows-le :
      (rows : List (Scalars fl.Float)) → length (valid_rows c.summarise rows) ≤ length rows
  unfolding valid_rows
  valid_rows-le [] = omega arith
  valid_rows-le (s ∷ rows) = ground (arith, valid_rows-le rows)

  -- A report before run `i`, counted from 0.
  record Inv (i : ℕ) (rep : Report fl.Float S) : Type 0 where
    as_long : length rep.per_run ≡ i
    valid_is : rep.valid_runs ≡ length (valid_rows c.summarise rep.per_run)
    numbered : Numbered 1 rep.per_run
    not_halted : rep.halted ≡ false
    not_failed : rep.failed ≡ false
    all_valid : (not c.halt_after_invalid_run || nat_beq (length rep.per_run) rep.valid_runs) ≡ true

  -- How a campaign of `n` repetitions ended: with all its runs; before a run whose runner failed; or
  -- after an invalid one, under the policy that halts there.
  abbrev pub HasEnd : ℕ → Report fl.Float S → Option E → Type 0
  HasEnd n rep e =
      ((rep.halted ≡ false) × (rep.failed ≡ false) × (length rep.per_run ≡ n) × (e ≡ none))
      ⊎ (((rep.halted ≡ false)
            × (rep.failed ≡ true)
            × (rep.failed_run ≡ length rep.per_run + 1)
            × (rep.failed_run ≤ n)
            × (e ≢ none))
          ⊎ ((rep.halted ≡ true)
              × (rep.failed ≡ false)
              × (rep.halted_after_run ≡ length rep.per_run)
              × (rep.halted_after_run ≤ n)
              × (c.halt_after_invalid_run ≡ true)
              × (length rep.per_run ≡ rep.valid_runs + 1)
              × (e ≡ none)))

  -- A report when the loop has ended.
  pub record IsEnded (n : ℕ) (rep : Report fl.Float S) (e : Option E) : Type 0 where
    pub valid_is : rep.valid_runs ≡ length (valid_rows c.summarise rep.per_run)
    pub numbered : Numbered 1 rep.per_run
    pub few_invalid :
        (not c.halt_after_invalid_run || leb (length rep.per_run) (rep.valid_runs + 1)) ≡ true
    pub has_end : HasEnd n rep e

  after_valid-IsEnded :
      (valid halt : Bool) (i n : ℕ) (rep : Report fl.Float S) (r : Scalars fl.Float)
      (next : Report fl.Float S → Report fl.Float S × Option E)
      → Inv i rep
      → r.run ≡ i + 1
      → r.is_valid ≡ valid
      → c.halt_after_invalid_run ≡ halt
      → i < n
      → ((s : Report fl.Float S) → Inv (i + 1) s → IsEnded n (next s).0 (next s).1)
      → IsEnded n
          (after_valid fl c valid halt i (record rep { per_run = rep.per_run ++ r ∷ [] }) next).0
          (after_valid fl c valid halt i (record rep { per_run = rep.per_run ++ r ∷ [] }) next).1
  after_valid-IsEnded true halt i n rep r next h number flag policy lt later =
      let rows = rep.per_run ++ r ∷ [] in
      let long = length-append rep.per_run (r ∷ []) in
      let more = length-valid_rows rep.per_run r in
      later (record rep { per_run = rows; valid_runs = rep.valid_runs + 1 })
        (record {
          as_long = omega (arith, long, h.as_long);
          valid_is = ground (arith, more, h.valid_is, flag);
          numbered = Numbered-append 1 rep.per_run r h.numbered (omega (arith, number, h.as_long));
          not_halted = h.not_halted;
          not_failed = h.not_failed;
          all_valid = ground (arith, long, h.all_valid);
        })
  after_valid-IsEnded false true i n rep r next h number flag policy lt later =
      let rows = rep.per_run ++ r ∷ [] in
      let long = length-append rep.per_run (r ∷ []) in
      let more = length-valid_rows rep.per_run r in
      let before : length rep.per_run ≡ rep.valid_runs = ground (arith, h.all_valid, policy) in
      record {
        valid_is = ground (arith, more, h.valid_is, flag);
        numbered = Numbered-append 1 rep.per_run r h.numbered (omega (arith, number, h.as_long));
        few_invalid = ground (arith, long, before);
        has_end = inr (
            inr (
              refl,
              h.not_failed,
              omega (arith, long, h.as_long),
              omega (arith, lt),
              policy,
              omega (arith, long, before),
              refl,
            ));
      }
  after_valid-IsEnded false false i n rep r next h number flag policy lt later =
      let rows = rep.per_run ++ r ∷ [] in
      let long = length-append rep.per_run (r ∷ []) in
      let more = length-valid_rows rep.per_run r in
      later (record rep { per_run = rows })
        (record {
          as_long = omega (arith, long, h.as_long);
          valid_is = ground (arith, more, h.valid_is, flag);
          numbered = Numbered-append 1 rep.per_run r h.numbered (omega (arith, number, h.as_long));
          not_halted = h.not_halted;
          not_failed = h.not_failed;
          all_valid = ground (arith, policy);
        })

  after_run-IsEnded :
      (o : Result E (Artifacts fl.Float)) (i n : ℕ) (rep : Report fl.Float S)
      (next : Report fl.Float S → Report fl.Float S × Option E)
      → Inv i rep
      → i < n
      → ((s : Report fl.Float S) → Inv (i + 1) s → IsEnded n (next s).0 (next s).1)
      → IsEnded n (after_run fl c o i rep next).0 (after_run fl c o i rep next).1
  unfolding extract_scalars
  after_run-IsEnded (err e) i n rep next h lt later = record {
    valid_is = h.valid_is;
    numbered = h.numbered;
    few_invalid = ground (arith, h.all_valid);
    has_end =
        inr (
          inl (h.not_halted, refl, omega (arith, h.as_long), omega (arith, lt), λ k. ground arith));
  }
  after_run-IsEnded (ok art) i n rep next h lt later =
      after_valid-IsEnded art.run_valid c.halt_after_invalid_run i n rep
        (extract_scalars fl c.seconds (i + 1) art) next h refl refl refl lt later

  run_from-IsEnded :
      (rounds i n : ℕ) (rep : Report fl.Float S)
      → Inv i rep
      → i + rounds ≡ n
      → IsEnded n (run_from fl c rounds i rep).0 (run_from fl c rounds i rep).1
  unfolding run_from
  run_from-IsEnded zero i n rep h e = record {
    valid_is = h.valid_is;
    numbered = h.numbered;
    few_invalid = ground (arith, h.all_valid);
    has_end = inl (h.not_halted, h.not_failed, omega (arith, h.as_long, e), refl);
  }
  run_from-IsEnded (suc rounds) i n rep h e =
      after_run-IsEnded (c.runner i (c.seed +i pos i)) i n rep (λ r. run_from fl c rounds (i + 1) r)
        h (omega (arith, e)) (λ r k. run_from-IsEnded rounds (i + 1) n r k (omega (arith, e)))

  pub new_report-IsEnded :
      (n : ℕ)
      → IsEnded n
          (run_from fl c n 0 (new_report fl c n)).0
          (run_from fl c n 0 (new_report fl c n)).1
  new_report-IsEnded n =
      run_from-IsEnded n 0 n (new_report fl c n)
        (record {
          as_long = refl;
          valid_is = unfold valid_rows in refl;
          numbered = tt;
          not_halted = refl;
          not_failed = refl;
          all_valid = ground arith;
        })
        (omega arith)
