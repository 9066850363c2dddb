-- ===== src/Admission/Operations.antt =====
-- internal/admission/ledger.go: the operations. Each reads and checks the whole file, decides on an
-- entry and appends it. The file is its bytes; an operation returns its result and the file that it
-- leaves. Opening, locking, reading, writing and syncing the file are taken to succeed, and the lock
-- to be held from the read to the write, so one operation is one step.
use percentes.Base.{
  ℕ, Bool, true, false, Option, some, List, [], ◌∷◌, ◌++◌, ◌==◌, string_eq, nat_eq, bytes_eq,
  bool_eq, String, if◌then◌else◌, Result, ok, err, ◌>>=◌,
}
use percentes.Base.Int.{ℤ, pos, int_eq, ◌+i◌}
use percentes.Admission.Types.{
  Tokens, tokens_eq, opening, Purpose, Caps, Counts, Entry, entry_of, Admission, State, Error,
  overran,
}
use percentes.Admission.Parsing.{end_line, parse_bound}
use percentes.Admission.Decide.{
  Decision, accept, refuse, decline, decide_price, decide_hosting, decide_admit, decide_settle,
}
use percentes.Admission.Apply.{Platform, Price, check_caps}

-- bytes.Count(b, "\n")
unfoldable pub count_lines : List ℕ → ℤ
count_lines [] = pos 0
count_lines (c ∷ b) = if c == b'\n' then count_lines b +i pos 1 else count_lines b

-- The sequence number, the hash and the time that `append` gives an entry.
unfoldable pub stamp : Platform → List ℕ → ℤ → Entry → Entry
unfolding count_lines
stamp pf prior now e = record e {
  seq = count_lines prior +i pos 1;
  prev = pf.sha256_hex prior;
  time = now;
}

-- Ledger.append: the file with the entry's line.
unfoldable pub append_entry : Platform → List ℕ → ℤ → Entry → List ℕ
unfolding stamp
append_entry pf prior now e = prior ++ end_line (pf.encode (stamp pf prior now e))

abbrev pub finish : {A : Type 0} → Platform → List ℕ → ℤ → Decision A → Result Error A × List ℕ
finish pf b now (accept e a) = (ok a, append_entry pf b now e)
finish pf b now (refuse e x) = (err x, append_entry pf b now e)
finish pf b now (decline x) = (err x, b)

-- Ledger.update
unfoldable pub update :
    {A : Type 0} → Platform → List ℕ → List ℕ → ℤ → (State → Decision A) → Result Error A × List ℕ
unfolding parse_bound append_entry
update pf open_line b now fn = elim (parse_bound pf open_line b) [
  | err x ↦ (err x, b)
  | ok s ↦ finish pf b now (fn s)
]

-- The entry of a new ledger.
abbrev pub opening_entry : Caps → Entry
opening_entry caps = record (entry_of opening) { schema_version = pos 1; caps = some caps }

-- Create: the new file, under caps that pass.
unfoldable pub create : Platform → ℤ → Caps → Result Error (List ℕ)
create pf now caps = do limits ← check_caps caps; ok (append_entry pf [] now (opening_entry caps))

-- An overrun is an error after the write.
abbrev pub report_overrun : Result Error Bool × List ℕ → Result Error (Unit {0}) × List ℕ
report_overrun (ok true, b') = (err overran, b')
report_overrun (ok false, b') = (ok tt, b')
report_overrun (err x, b') = (err x, b')

-- A Ledger: the file's bytes, the platform, the bound open line and the clock's reading.
module _ (pf : Platform) (open_line : List ℕ) (b : List ℕ) (now : ℤ) where
  unfoldable pub record_price : String → Price → Result Error (Unit {0}) × List ℕ
  unfolding update
  record_price route p = update pf open_line b now (decide_price pf route p)

  unfoldable pub record_hosting : List ℕ → String → Result Error (Unit {0}) × List ℕ
  unfolding update
  record_hosting usd note = update pf open_line b now (decide_hosting usd note)

  -- Admit (rev is none) and AdmitAt.
  unfoldable pub admit_at :
      String → Purpose → ℤ → Tokens → Option ℤ → Result Error Admission × List ℕ
  unfolding update
  admit_at route purpose n tok rev =
      update pf open_line b now (decide_admit route purpose n tok rev)

  unfoldable pub settle_admission : Admission → Counts → Result Error (Unit {0}) × List ℕ
  unfolding update
  settle_admission a sent = report_overrun (update pf open_line b now (decide_settle a sent))
