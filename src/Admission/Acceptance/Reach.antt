-- ===== src/Admission/Acceptance/Reach.antt =====
-- Ledgers as histories: a file that `Create` made and any sequence of operations then changed, under
-- any clock and any binding of the callers, refused calls included.
use percentes.Base.{
  ℕ, ◌≡◌, refl, Bool, true, false, Option, List, [], nat_eq, arith, String, string_eq, inl, inr,
  Result, ok, err, result_cases,
}
use percentes.Base.Int.{ℤ, ◌+i◌, int_eq, bits, from_bits}
use percentes.Admission.Types.{State, Caps, Error, new_state, Purpose, Tokens, Admission, Counts}
use percentes.Admission.Apply.{Platform, Price, apply, apply_kind, apply_open, check_caps}
use percentes.Admission.Decide.{decide_price, decide_hosting, decide_admit, decide_settle}
use percentes.Admission.Parsing.{parse, parse_bound, parse_lines, split_lines}
use percentes.Admission.Operations.{
  stamp, append_entry, count_lines, create, opening_entry, record_price, record_hosting, admit_at,
  settle_admission, report_overrun,
}
use percentes.Admission.Journal.Append.{Reads, ReadsBack, parse-append_entry}
use percentes.Admission.Acceptance.Entries.{price-Takes, hosting-Takes, admit-Takes, settle-Takes}
use percentes.Admission.Acceptance.History.{Parses, HasRoom, ReadsBackAll, update-Parses}

-- A call of one of the ledger's operations.
pub data Op : Type 0 where
  price_op : String → Price → Op
  hosting_op : List ℕ → String → Op
  admit_op : String → Purpose → ℤ → Tokens → Option ℤ → Op
  settle_op : Admission → Counts → Op

-- The file after a call.
abbrev pub run : Platform → List ℕ → List ℕ → ℤ → Op → List ℕ
run pf o b now (price_op route p) = (record_price pf o b now route p).1
run pf o b now (hosting_op usd note) = (record_hosting pf o b now usd note).1
run pf o b now (admit_op route purpose n tok rev) = (admit_at pf o b now route purpose n tok rev).1
run pf o b now (settle_op a sent) = (settle_admission pf o b now a sent).1

-- The entry that a call writes, if the file checks, reads back.
abbrev pub OpReadsBack : Platform → List ℕ → List ℕ → ℤ → Op → State → Type 0
OpReadsBack pf o b now (price_op route p) s = ReadsBackAll pf b now (decide_price pf route p s)
OpReadsBack pf o b now (hosting_op usd note) s = ReadsBackAll pf b now (decide_hosting usd note s)
OpReadsBack pf o b now (admit_op route purpose n tok rev) s =
    ReadsBackAll pf b now (decide_admit route purpose n tok rev s)
OpReadsBack pf o b now (settle_op a sent) s = ReadsBackAll pf b now (decide_settle a sent s)

-- The files that a ledger's life can reach.
pub data Reach (pf : Platform) : List ℕ → Type 0 where
  created :
      {b : List ℕ} (now : ℤ) (caps : Caps)
      → create pf now caps ≡ ok b
      → ReadsBack pf (stamp pf [] now (opening_entry caps))
      → Reach pf b
  called :
      {b b' : List ℕ} (o : List ℕ) (now : ℤ) (op : Op)
      → Reach pf b
      → HasRoom b
      → ((s : State) → parse_bound pf o b ≡ ok s → OpReadsBack pf o b now op s)
      → b' ≡ run pf o b now op
      → Reach pf b'

report_overrun-file : (r : Result Error Bool × List ℕ) → (report_overrun r).1 ≡ r.1
report_overrun-file (ok true, b) = refl
report_overrun-file (ok false, b) = refl
report_overrun-file (err x, b) = refl

module _ (pf : Platform) where
  run-Parses :
      (o b : List ℕ) (now : ℤ) (op : Op)
      → HasRoom b
      → Parses pf b
      → ((s : State) → parse_bound pf o b ≡ ok s → OpReadsBack pf o b now op s)
      → Parses pf (run pf o b now op)
  unfolding record_price record_hosting admit_at settle_admission
  run-Parses o b now (price_op route p) room before back =
      update-Parses pf b now room o _ before (λ s e _ w. price-Takes pf s e _ _ now room route p w)
        back
  run-Parses o b now (hosting_op usd note) room before back =
      update-Parses pf b now room o _ before
        (λ s e _ w. hosting-Takes pf s e _ _ now room usd note w) back
  run-Parses o b now (admit_op route purpose n tok rev) room before back =
      update-Parses pf b now room o _ before
        (λ s e v w. admit-Takes pf s e _ _ now room route purpose n tok rev v w) back
  run-Parses o b now (settle_op a sent) room before back = rw report_overrun-file (
      update-Parses pf b now room o (decide_settle a sent) before
        (λ s e _ w. settle-Takes pf s e _ _ now room a sent w) back)

  create-Parses :
      (b : List ℕ) (now : ℤ) (caps : Caps)
      → create pf now caps ≡ ok b
      → ReadsBack pf (stamp pf [] now (opening_entry caps))
      → Parses pf b
  unfolding create append_entry stamp count_lines apply apply_kind apply_open ◌+i◌ bits from_bits
  create-Parses b now caps h back = elim (result_cases (check_caps caps)) [
    | inl (limits, q) ↦
        (let reads : Reads pf [] new_state = record {
          closed = inl refl;
          parsed = unfold parse_lines split_lines in refl;
        } in
          elim (result_cases (parse pf b)) [
            | inl y ↦ y
            | inr (x, z) ↦ absurd (
                ground
                  (arith, parse-append_entry pf [] new_state reads now (opening_entry caps) back))
          ])
    | inr (x, q) ↦ absurd (ground arith)
  ]

  -- Every ledger that `Create` and any sequence of price, hosting, admit and settle calls can leave,
  -- refused and failing calls among them, is one that `Parse` accepts, as long as each written
  -- line reads back from its JSON and the file has fewer than 2 ^ 64 lines.
  pub Reach-Parses : {b : List ℕ} → Reach pf b → Parses pf b
  Reach-Parses {b} (created now caps h back) = create-Parses b now caps h back
  Reach-Parses (called {b = b} o now op r room back e) =
      rw e (run-Parses o b now op room (Reach-Parses r) back)
