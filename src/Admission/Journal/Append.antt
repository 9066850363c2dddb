-- ===== src/Admission/Journal/Append.antt =====
-- What `Parse` makes of a file with one more line that `append` wrote.
use percentes.Base.{
  ℕ, ◌≡◌, refl, sym, ap, ◌∙◌, true, false, some, List, [], ◌∷◌, ◌++◌, ◌==◌, nat_eq, arith,
  if◌then◌else◌, Bool-cases, inl, inr, Result, ok, ◌>>=◌, bind_assoc, >>=-eq-ok, bytes_eq,
  bytes_beq_iff,
}
use percentes.Base.Int.{ℤ, pos, ◌+i◌, zero-+i, int_eq, int_beq_iff}
use percentes.Admission.Types.{State, Entry, Error, new_state}
use percentes.Admission.Apply.{Platform, apply}
use percentes.Admission.Parsing.{parse_line, parse_lines, end_line, parse, split_lines, ends_line}
use percentes.Admission.Operations.{stamp, append_entry, count_lines}
use percentes.Admission.Journal.Split.{
  join_lines, int_length, IsClosed, NoNewline, split_lines-append, join_lines-split_lines,
  count_lines-split_lines, ends_line-append,
}
use percentes.Admission.Journal.Lines.{parse_lines-append, lines-parse_lines}

-- Reading the lines of a closed file gives a state.
pub record Reads (pf : Platform) (b : List ℕ) (s : State) : Type 0 where
  pub closed : IsClosed b
  pub parsed : parse_lines pf [] (split_lines b) new_state ≡ ok s

-- The line of an entry holds no newline and decodes to that entry.
pub record ReadsBack (pf : Platform) (e : Entry) : Type 0 where
  pub decodes : pf.decode (pf.encode e) ≡ some (e, false)
  pub one_line : NoNewline (pf.encode e)

-- What `Parse` adds to the state that `apply` gives for the last line of the file `b`.
abbrev pub read_to : Platform → List ℕ → State → State → State
read_to pf b s s' = record s' {
  open_sha256 = if s.lines +i pos 1 == pos 1 then pf.sha256_hex b else s'.open_sha256;
  lines = s.lines +i pos 1;
}

parse_rest :
    (pf : Platform) (b : List ℕ) (s : State)
    → parse pf b ≡ ok s
    → (do
      t ← parse_lines pf [] (split_lines b) new_state
      ok (record t { head_sha256 = pf.sha256_hex b }))
      ≡ ok s
unfolding parse
parse_rest pf b s h = ground arith

pub parse-Reads :
    (pf : Platform) (b : List ℕ) (s : State)
    → parse pf b ≡ ok s
    → (t : State) × (s ≡ record t { head_sha256 = pf.sha256_hex b }) × Reads pf b t
unfolding parse
parse-Reads pf b s h = elim (Bool-cases (ends_line b)) [
  | inl c ↦
      (let (t, p, q) =
          >>=-eq-ok (parse_lines pf [] (split_lines b) new_state) _ (parse_rest pf b s h) in
        (t, ground arith, record { closed = inr c; parsed = p }))
  | inr c ↦ absurd (ground arith)
]

not_empty : (b l : List ℕ) → ((b ++ end_line l) == []) ≡ false
not_empty [] [] = refl
not_empty [] (c ∷ l) = refl
not_empty (c ∷ b) l = refl

-- `Parse` of a closed file is its loop over the lines.
parse-closed :
    (pf : Platform) (b : List ℕ)
    → (b == []) ≡ false
    → ends_line b ≡ true
    → parse pf b ≡ (do
      t ← parse_lines pf [] (split_lines b) new_state
      ok (record t { head_sha256 = pf.sha256_hex b }))
unfolding parse
parse-closed pf b h k = ground arith

module _ (pf : Platform) (b : List ℕ) (s : State) (reads : Reads pf b s) where
  pub lines-count : s.lines +i pos 1 ≡ count_lines b +i pos 1
  unfolding int_length
  lines-count =
      lines-parse_lines pf [] (split_lines b) new_state s (pos 1) reads.parsed
      ∙ zero-+i (int_length (split_lines b)) (pos 1)
      ∙ ap (λ n. n +i pos 1) (sym (count_lines-split_lines b reads.closed))

  module _ (now : ℤ) (e : Entry) (back : ReadsBack pf (stamp pf b now e)) where
    parse_line-stamp :
        parse_line pf b (pf.encode (stamp pf b now e)) s
        ≡ (do s' ← apply pf s (stamp pf b now e); ok (read_to pf (append_entry pf b now e) s s'))
    unfolding parse_line append_entry
    parse_line-stamp = rw (
      back.decodes,
      lines-count,
      (int_beq_iff (count_lines b +i pos 1) (count_lines b +i pos 1)).1 refl,
      (bytes_beq_iff (pf.sha256_hex b) (pf.sha256_hex b)).1 refl,
    )

    abbrev line : List ℕ
    line = pf.encode (stamp pf b now e)

    parse_lines-end_line :
        parse_lines pf [] (split_lines (b ++ end_line line)) new_state ≡ parse_line pf b line s
    parse_lines-end_line =
        ap (λ ls. parse_lines pf [] ls new_state)
          (split_lines-append b line reads.closed back.one_line)
        ∙ parse_lines-append pf [] (split_lines b) line new_state
        ∙ ap (λ m. m >>= parse_line pf (join_lines (split_lines b)) line) reads.parsed
        ∙ ap (λ d. parse_line pf d line s) (join_lines-split_lines b reads.closed)

    -- Where the lines of a file give a state and the appended line, as stamped, reads back from its
    -- JSON, parsing the file after the append is applying that entry to the state, with the line count
    -- one higher and the hashes those of the new file.
    pub parse-append_entry : parse pf (append_entry pf b now e) ≡ (do
      s' ← apply pf s (stamp pf b now e)
      ok (record (read_to pf (append_entry pf b now e) s s') {
        head_sha256 = pf.sha256_hex (append_entry pf b now e);
      }))
    unfolding append_entry
    parse-append_entry =
        parse-closed pf (append_entry pf b now e) (not_empty b line) (ends_line-append b line)
        ∙ ap
            (λ (m : Result Error State).
              m >>= λ t. ok (record t { head_sha256 = pf.sha256_hex (append_entry pf b now e) }))
            (parse_lines-end_line ∙ parse_line-stamp)
        ∙ bind_assoc (apply pf s (stamp pf b now e)) _ _
