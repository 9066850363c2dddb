-- ===== src/Admission/Acceptance/History.antt =====
-- Ledgers that the operations make from a new one: each is one that `Parse` takes.
use percentes.Base.{
  ℕ, ◌≡◌, refl, sym, ap, ◌∙◌, false, List, [], ◌==◌, nat_eq, arith, string_eq, inl, inr, ok,
  result_cases,
}
use percentes.Base.Int.{ℤ, pos, ◌+i◌, int_eq}
use percentes.Admission.Types.{State, Entry, new_state}
use percentes.Admission.Apply.{Platform, apply}
use percentes.Admission.Decide.{Decision, accept, refuse, decline}
use percentes.Admission.Parsing.{parse, parse_bound, split_lines}
use percentes.Admission.Operations.{stamp, append_entry, count_lines, update, finish}
use percentes.Admission.Journal.Append.{ReadsBack, parse-Reads, parse-append_entry}
use percentes.Admission.Acceptance.Entries.{Writes, Takes}
use percentes.Admission.Acceptance.Invariant.{IsSound, parse_lines-IsSound, with_head, apply-head}

-- The file checks.
abbrev pub Parses : Platform → List ℕ → Type 0
Parses pf b = (s : State) × (parse pf b ≡ ok s)

-- The next line is not the first: the file's line count has not wrapped around to 0.
abbrev pub HasRoom : List ℕ → Type 0
HasRoom b = (count_lines b +i pos 1 == pos 1) ≡ false

-- What the platform must do with the entry that an operation writes: read it back.
abbrev pub ReadsBackAll : {A : Type 0} → Platform → List ℕ → ℤ → Decision A → Type 0
ReadsBackAll pf b now d = (e : Entry) → Writes d e → ReadsBack pf (stamp pf b now e)

pub bound-parse :
    (pf : Platform) (o b : List ℕ) (s : State) → parse_bound pf o b ≡ ok s → parse pf b ≡ ok s
unfolding parse_bound
bound-parse pf o b s h = elim (result_cases (parse pf b)) [
  | inl (t, q) ↦ ground arith
  | inr (x, q) ↦ absurd (ground arith)
]

pub parse-IsSound : (pf : Platform) (b : List ℕ) (s : State) → parse pf b ≡ ok s → IsSound s
parse-IsSound pf b s p =
    let (t, q, reads) = parse-Reads pf b s p in
    let v : IsSound t = parse_lines-IsSound pf [] (split_lines b) new_state t refl reads.parsed in
    ground arith

module _ (pf : Platform) (b : List ℕ) (now : ℤ) (room : HasRoom b) where
  abbrev WillTake : State → Entry → Type 0
  WillTake s e = Takes pf s e (count_lines b +i pos 1) (pf.sha256_hex b) now room

  pub append-Parses :
      (s : State) (e : Entry)
      → parse pf b ≡ ok s
      → WillTake s e
      → ReadsBack pf (stamp pf b now e)
      → Parses pf (append_entry pf b now e)
  unfolding stamp
  append-Parses s e p (s', q) back =
      let (t, w, reads) = parse-Reads pf b s p in
      let q' : apply pf (with_head t (pf.sha256_hex b)) (stamp pf b now e) ≡ ok s' =
        ap (λ u. apply pf u (stamp pf b now e)) (sym w) ∙ q in
      let (t', r, _) = apply-head pf t s' (pf.sha256_hex b) (stamp pf b now e) q' in
      elim (result_cases (parse pf (append_entry pf b now e))) [
        | inl y ↦ y
        | inr (x, z) ↦ absurd (ground (arith, parse-append_entry pf b t reads now e back, r))
      ]

  finish-Parses :
      {A : Type 0} (s : State) (d : Decision A)
      → parse pf b ≡ ok s
      → ((e : Entry) → Writes d e → WillTake s e)
      → ReadsBackAll pf b now d
      → Parses pf (finish pf b now d).1
  finish-Parses s (accept e a) p t back = append-Parses s e p (t e refl) (back e refl)
  finish-Parses s (refuse e x) p t back = append-Parses s e p (t e refl) (back e refl)
  finish-Parses s (decline x) p t back = (s, p)

  pub update-Parses :
      {A : Type 0} (o : List ℕ) (fn : State → Decision A)
      → Parses pf b
      → ((s : State) (e : Entry) → IsSound s → Writes (fn s) e → WillTake s e)
      → ((s : State) → parse_bound pf o b ≡ ok s → ReadsBackAll pf b now (fn s))
      → Parses pf (update pf o b now fn).1
  unfolding update
  update-Parses o fn before t back = elim (result_cases (parse_bound pf o b)) [
    | inl (s, q) ↦
        (let p : parse pf b ≡ ok s = bound-parse pf o b s q in
          rw (q, update)
            (finish-Parses s (fn s) p (λ e. t s e (parse-IsSound pf b s p)) (back s q)))
    | inr (x, q) ↦ rw (q, update) before
  ]
