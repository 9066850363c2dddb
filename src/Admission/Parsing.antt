-- ===== src/Admission/Parsing.antt =====
-- internal/admission/ledger.go: `Parse`, which checks a ledger's bytes and gives its state.
use percentes.Base.{
  ℕ, Bool, false, not, ◌&&◌, List, [], ◌∷◌, ◌++◌, ◌==◌, string_eq, nat_eq, bytes_eq, bool_eq,
  if◌then◌else◌, Result, ok, ◌>>=◌, ◌>>◌, or_fail, refuse_if,
}
use percentes.Base.Int.{pos, int_eq, ◌+i◌}
use percentes.Admission.Types.{
  State, new_state, Error, ledger_empty, last_line_incomplete, bad_json, wrong_seq, wrong_prev,
  wrong_open_line,
}
use percentes.Admission.Apply.{Platform, apply}

-- A file's lines without their newlines; a rest with no newline is a last line.
abbrev pub prepend : ℕ → List (List ℕ) → List (List ℕ)
prepend c [] = (c ∷ []) ∷ []
prepend c (l ∷ ls) = (c ∷ l) ∷ ls

unfoldable pub split_lines : List ℕ → List (List ℕ)
split_lines [] = []
split_lines (c ∷ b) = let rest = split_lines b in if c == b'\n' then [] ∷ rest else prepend c rest

-- b[len(b)-1] == '\n'
unfoldable pub ends_line : List ℕ → Bool
ends_line [] = false
ends_line (c ∷ []) = c == b'\n'
ends_line (c ∷ d ∷ b) = ends_line (d ∷ b)

abbrev pub end_line : List ℕ → List ℕ
end_line l = l ++ b'\n' ∷ []

-- One round of the loop of `Parse`: `done` is what the hash has read.
unfoldable pub parse_line : Platform → List ℕ → List ℕ → State → Result Error State
parse_line pf done line s = do
  d ← or_fail (pf.decode line) bad_json
  refuse_if d.1 bad_json
  let e = d.0
  let seq = s.lines +i pos 1
  refuse_if (not (e.seq == seq)) wrong_seq
  refuse_if (not (e.prev == pf.sha256_hex done)) wrong_prev
  s' ← apply pf s e
  ok (record s' {
    open_sha256 = if seq == pos 1 then pf.sha256_hex (done ++ end_line line) else s'.open_sha256;
    lines = seq;
  })

-- The loop of `Parse`.
unfoldable pub parse_lines : Platform → List ℕ → List (List ℕ) → State → Result Error State
parse_lines pf done [] s = ok s
parse_lines pf done (l ∷ ls) s = do
  s' ← parse_line pf done l s
  parse_lines pf (done ++ end_line l) ls s'

-- Parse
unfoldable pub parse : Platform → List ℕ → Result Error State
unfolding split_lines ends_line parse_lines parse_line
parse pf b = do
  refuse_if (b == []) ledger_empty
  refuse_if (not (ends_line b)) last_line_incomplete
  s ← parse_lines pf [] (split_lines b) new_state
  ok (record s { head_sha256 = pf.sha256_hex b })

-- Ledger.parse under the open line that Bind set (an empty text: none).
unfoldable pub parse_bound : Platform → List ℕ → List ℕ → Result Error State
unfolding parse
parse_bound pf open_line b = do
  s ← parse pf b
  refuse_if (not (open_line == []) && not (s.open_sha256 == open_line)) wrong_open_line
  ok s
