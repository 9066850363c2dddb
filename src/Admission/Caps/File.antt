-- ===== src/Admission/Caps/File.antt =====
-- The caps in the file that an admission wrote.
use mathlib.Core.Path.{subst}
use percentes.Base.{
  ℕ, ◌≡◌, refl, sym, ap, ◌∙◌, Option, some, List, String, arith, ok, inl, inr, result_cases,
}
use percentes.Base.Int.{ℤ, pos, ◌+i◌, int_eq}
use percentes.Base.Maps.{lookup}
use percentes.Admission.Types.{State, Entry, Tokens, Purpose, Admission}
use percentes.Admission.Apply.{Platform, apply}
use percentes.Admission.Decide.{Decision, accept, refuse, decline, decide_admit}
use percentes.Admission.Parsing.{parse, parse_bound}
use percentes.Admission.Operations.{stamp, append_entry, count_lines, update, finish, admit_at}
use percentes.Admission.Journal.Append.{
  Reads, ReadsBack, parse-Reads, parse-append_entry, read_to, lines-count,
}
use percentes.Admission.Acceptance.Entries.{admit-Takes}
use percentes.Admission.Acceptance.Invariant.{with_head, apply-head}
use percentes.Admission.Acceptance.History.{HasRoom, ReadsBackAll, bound-parse, parse-IsSound}
use percentes.Admission.Caps.Within.{
  WithinCaps, stamped, decide_admit-WithinCaps, decide_admit-unsettled,
}
use percentes.Admission.Caps.Titles.{retitled, WithinCaps-retitled, WithinCaps-titled}

-- The file checks, holds the admission open, and is within its caps for the route.
pub record Holds (pf : Platform) (b : List ℕ) (route : String) (a : Admission) : Type 0 where
  pub state : State
  pub parses : parse pf b ≡ ok state
  pub within : WithinCaps state route
  pub open_admission : lookup a.seq state.unsettled ≡ some a

module _ (t t' s' : State) (x : List ℕ) (m : s' ≡ with_head t' x) where
  -- The state that the whole file gives is the one that its last line gives, retitled.
  retitle-WithinCaps :
      (n : ℤ) (o h : List ℕ) (route : String)
      → WithinCaps s' route
      → WithinCaps (retitled t' n o h) route
  retitle-WithinCaps n o h route w =
      WithinCaps-retitled t' n o h route
        (WithinCaps-titled t' t'.lines t'.open_sha256 x route (subst (λ s. WithinCaps s route) m w))

module _ (pf : Platform) (b : List ℕ) (now : ℤ) (room : HasRoom b) (route : String)
    (purpose : Purpose) (n : ℤ) (tok : Tokens) (rev : Option ℤ) where
  -- The sequence number that `append` counts is the next line's of the state.
  seq :
      {s t : State}
      → s ≡ with_head t (pf.sha256_hex b)
      → Reads pf b t
      → s.lines +i pos 1 ≡ count_lines b +i pos 1
  seq {s} {t} w reads = ap (λ (u : State). u.lines +i pos 1) w ∙ lines-count pf b t reads

  applied-Holds :
      (s s' t t' : State) (e : Entry) (a : Admission)
      → decide_admit route purpose n tok rev s ≡ accept e a
      → apply pf s (stamp pf b now e) ≡ ok s'
      → s ≡ with_head t (pf.sha256_hex b)
      → Reads pf b t
      → apply pf t (stamp pf b now e) ≡ ok t'
      → s' ≡ with_head t' (pf.sha256_hex b)
      → ReadsBack pf (stamp pf b now e)
      → Holds pf (append_entry pf b now e) route a
  unfolding stamp
  applied-Holds s s' t t' e a d q w reads r m back = record {
    state = record (read_to pf (append_entry pf b now e) t t') {
      head_sha256 = pf.sha256_hex (append_entry pf b now e);
    };
    parses = rw (parse-append_entry pf b t reads now e back) (ground (arith, r));
    within =
        retitle-WithinCaps t t' s' (pf.sha256_hex b) m _ _ _ route
          (decide_admit-WithinCaps pf s s' route purpose n tok rev e a _ _ _ d q);
    open_admission =
        ap (λ (u : State). lookup a.seq u.unsettled) (sym m)
        ∙ decide_admit-unsettled pf s s' route purpose n tok rev e a (pf.sha256_hex b) now d
            (ap (λ k. apply pf s (stamped e k (pf.sha256_hex b) now)) (seq w reads) ∙ q);
  }

  decided-Holds :
      (s : State) (e : Entry) (a : Admission)
      → parse pf b ≡ ok s
      → decide_admit route purpose n tok rev s ≡ accept e a
      → ReadsBack pf (stamp pf b now e)
      → Holds pf (append_entry pf b now e) route a
  unfolding stamp
  decided-Holds s e a p d back =
      let (s', q) =
        admit-Takes pf s e (count_lines b +i pos 1) (pf.sha256_hex b) now room route purpose n tok
          rev (parse-IsSound pf b s p) (ground arith) in
      let (t, w, reads) = parse-Reads pf b s p in
      let q' : apply pf (with_head t (pf.sha256_hex b)) (stamp pf b now e) ≡ ok s' =
        ap (λ u. apply pf u (stamp pf b now e)) (sym w) ∙ q in
      let (t', r, m) = apply-head pf t s' (pf.sha256_hex b) (stamp pf b now e) q' in
      applied-Holds s s' t t' e a d q w reads r m back

  -- When Admit returns an admission, the file that it leaves checks, holds that admission open, and
  -- has the route's and the total request count and the route's and the total projected liability
  -- within every cap of the ledger; provided the line reads back from its JSON and the line count
  -- has not wrapped around.
  pub admit_at-Holds :
      (o b' : List ℕ) (a : Admission)
      → ((s : State)
          → parse_bound pf o b ≡ ok s
          → ReadsBackAll pf b now (decide_admit route purpose n tok rev s))
      → admit_at pf o b now route purpose n tok rev ≡ (ok a, b')
      → Holds pf b' route a
  unfolding admit_at update
  admit_at-Holds o b' a back h = elim (result_cases (parse_bound pf o b)) [
    | inr (x, p) ↦ absurd (ground arith)
    | inl (s, p) ↦
        finished s (bound-parse pf o b s p) (decide_admit route purpose n tok rev s) refl (back s p)
          (ground arith)
  ]
    where
      finished :
          (s : State)
          → parse pf b ≡ ok s
          → (d : Decision Admission) → decide_admit route purpose n tok rev s ≡ d
          → ReadsBackAll pf b now d
          → finish pf b now d ≡ (ok a, b')
          → Holds pf b' route a
      finished s p (accept e a') d r f =
          let u : a' ≡ a = ground arith in
          let v : append_entry pf b now e ≡ b' = ground arith in
          subst (λ c. Holds pf c route a) v (decided-Holds s e a p (d ∙ ap (accept e) u) (r e refl))
      finished s p (refuse e x) d r f = absurd (ground arith)
      finished s p (decline x) d r f = absurd (ground arith)
