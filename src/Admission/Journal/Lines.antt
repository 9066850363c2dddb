-- ===== src/Admission/Journal/Lines.antt =====
-- The loop of `Parse` over the lines of a file.
use mathlib.Core.Path.{fun_ext}
use percentes.Base.{
  ℕ, ◌≡◌, sym, ap, ◌∙◌, List, [], ◌∷◌, ◌++◌, nat_eq, arith, append_assoc, append-nil, ok, ◌>>=◌,
  bind-ok, bind_assoc, >>=-eq-ok,
}
use percentes.Base.Int.{ℤ, pos, ◌+i◌, +i_assoc, +i_comm, +i-zero-+i}
use percentes.Admission.Types.{State}
use percentes.Admission.Apply.{Platform}
use percentes.Admission.Parsing.{parse_line, parse_lines, end_line}
use percentes.Admission.Journal.Split.{join_lines, int_length}

module _ (pf : Platform) where
  -- One more line is one more round after the others.
  pub parse_lines-append :
      (done : List ℕ) (ls : List (List ℕ)) (l : List ℕ) (s : State)
      → parse_lines pf done (ls ++ l ∷ []) s
        ≡ (parse_lines pf done ls s >>= parse_line pf (done ++ join_lines ls) l)
  unfolding parse_lines join_lines
  parse_lines-append done [] l s = rw append-nil (bind-ok (parse_line pf done l s))
  parse_lines-append done (x ∷ ls) l s =
      ap (λ k. parse_line pf done x s >>= k)
        (fun_ext (λ s'.
          parse_lines-append (done ++ end_line x) ls l s'
          ∙ ap (λ d. parse_lines pf (done ++ end_line x) ls s' >>= parse_line pf d l)
              (append_assoc done (end_line x) (join_lines ls))))
      ∙ sym (bind_assoc (parse_line pf done x s) _ _)

  lines-parse_line :
      (done l : List ℕ) (s s' : State)
      → parse_line pf done l s ≡ ok s'
      → s'.lines ≡ s.lines +i pos 1
  unfolding parse_line
  lines-parse_line done l s s' h = ground arith

  pub lines-parse_lines :
      (done : List ℕ) (ls : List (List ℕ)) (s s' : State) (a : ℤ)
      → parse_lines pf done ls s ≡ ok s'
      → s'.lines +i a ≡ s.lines +i (int_length ls +i a)
  unfolding parse_lines int_length
  lines-parse_lines done [] s s' a h = ground (arith, +i-zero-+i s.lines a)
  lines-parse_lines done (l ∷ ls) s s' a h =
      let (t, p, q) = >>=-eq-ok (parse_line pf done l s) _ h in
      ground (
        arith,
        lines-parse_lines (done ++ end_line l) ls t s' a q,
        lines-parse_line done l s t p,
        +i_assoc s.lines (pos 1) (int_length ls +i a),
        +i_assoc (pos 1) (int_length ls) a,
        +i_comm (pos 1) (int_length ls),
      )
