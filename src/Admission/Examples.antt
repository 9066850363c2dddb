-- ===== src/Admission/Examples.antt =====
-- A ledger under small caps, on a platform that reads its lines back, and the theorems at it.
use percentes.Admission.Apply.{
  price_of, apply, apply_kind, apply_open, apply_price, apply_hosting, apply_admit, apply_settle,
  check_caps, check_route_caps, check_price, check_counts, is_date, raise_price, usage_of,
  set_usage, reserve, reserve_usage, settle_usage, Platform, Price,
}
use percentes.Admission.Decimal.{decimal, decimal_string, per_request}
use percentes.Admission.Printed.{amount_of, decimal-decimal_string}
use percentes.Base.Rat.{rat_beq, Rat, ◌+q◌, ◌*q◌, quo, leb_rat, gtb_rat}
use percentes.Base.Int.{ltb_ℤ, ◌+ℤ◌, ◌*ℤ◌, ◌+i◌, ◌-i◌, bits, from_bits, pos}
use percentes.Base.Maps.{lookup, insert, remove}
use percentes.Admission.Types.{
  no_usage, Counts, not_unsettled, total, charged_requests, State, Entry, Kind, opening, price,
  admit, Tokens, probe, Admission, Error, Caps, new_state,
}
use percentes.Admission.State.{
  total_charged, price_at, price_revision, charged_with, sum_liability, route_liability,
  liability_with, liability, position,
}
use percentes.Admission.Parsing.{parse, parse_bound}
use percentes.Admission.Operations.{
  stamp, append_entry, update, create, admit_at, record_price, record_hosting, settle_admission,
  opening_entry,
}
use percentes.Admission.Decide.{
  decide_price, decide_hosting, decide_admit, decide_settle, decide_caps, decide_projected,
  over_cap, check_reserve, with_bounds, project, Decision, accept, refuse, decline,
}
use mathlib.Core.Path.{subst}
use percentes.Base.{
  ℕ, ◌≡◌, refl, true, false, none, some, List, [], ◌∷◌, arith, Result, ok, err, bytes, inr, ◌==◌,
  ◌>>=◌, bytes_eq, if◌then◌else◌,
}
use percentes.Admission.Journal.Append.{ReadsBack}
use percentes.Admission.Acceptance.History.{ReadsBackAll}
use percentes.Admission.Caps.File.{Holds, admit_at-Holds}
use percentes.Admission.Caps.Within.{stamped}
use percentes.Admission.Settlement.{Settled, decide_settle-Settled}
use percentes.Admission.Pricing.{Repriced, apply-Repriced}
use percentes.Admission.Journal.Append.{Reads, read_to, parse-append_entry}
use percentes.Admission.Acceptance.History.{Parses}
use percentes.Admission.Acceptance.Reach.{price_op, created, called, Reach-Parses}

-- All of the ledger's code, for evaluation.
evaluation : Unit {0}
unfolding apply apply_kind apply_open apply_price apply_hosting apply_admit apply_settle check_caps
    check_route_caps check_price check_counts is_date raise_price usage_of set_usage reserve
    reserve_usage settle_usage decimal decimal_string per_request ◌+q◌ ◌*q◌ quo leb_rat gtb_rat ◌+ℤ◌
    ◌*ℤ◌ ◌+i◌ ◌-i◌ bits from_bits lookup insert remove total charged_requests total_charged price_at
    price_revision charged_with sum_liability route_liability liability_with liability position
    parse parse_bound stamp append_entry update create admit_at record_price record_hosting
    settle_admission decide_price decide_hosting decide_admit decide_settle decide_caps
    decide_projected over_cap check_reserve with_bounds project
evaluation = tt

abbrev small_caps : Caps
small_caps = record {
  route_requests = pos 10;
  total_requests = pos 20;
  liability_usd = bytes "40";
  route_liability_usd = [];
  window_requests = pos 3;
  max_input_tokens = pos 2000;
  max_output_tokens = pos 256;
}

abbrev list_price : Price
list_price = record {
  input_usd_per_mtok = bytes "0.15";
  output_usd_per_mtok = bytes "0.6";
  input_tokens = pos 0;
  output_tokens = pos 0;
  source = "https://example.org/prices";
  retrieved = bytes "2026-02-28";
}

abbrev bounds : Tokens
bounds = record { input = pos 2000; output = pos 256 }

abbrev written : {A : Type 0} → Decision A → Entry
written (accept e a) = e
written (refuse e x) = e
written (decline x) = opening_entry small_caps

abbrev state_of : Result Error State → State
state_of (ok s) = s
state_of (err x) = new_state

abbrev stamped_first : Entry
stamped_first = record (opening_entry small_caps) { seq = pos 1 }

-- A platform on which every URL is one of the web and every hash is empty; its JSON is not read.
abbrev bare : Platform
bare = record {
  parse_url = λ u. some ("https", "example.org");
  decode = λ l. none;
  encode = λ e. [];
  sha256_hex = λ b. [];
}

abbrev first_state : State
unfolding evaluation
first_state = state_of (apply bare new_state stamped_first)

abbrev priced_entry : Entry
unfolding evaluation first_state
priced_entry = record (written (decide_price bare "r" list_price first_state)) { seq = pos 2 }

abbrev priced_state : State
unfolding evaluation priced_entry
priced_state = state_of (apply bare (record first_state { lines = pos 1 }) priced_entry)

abbrev admit_entry : Entry
unfolding evaluation priced_state
admit_entry =
    record (written
      (decide_admit "r" probe (pos 4) bounds none (record priced_state { lines = pos 2 }))) {
        seq = pos 3;
      }

kind_byte : Kind → ℕ
kind_byte opening = 1
kind_byte price = 2
kind_byte admit = 3
kind_byte _ = 4

-- A platform whose JSON knows the lines of one ledger: it prints an entry as its kind.
abbrev reading : Platform
unfolding kind_byte priced_entry admit_entry
reading = record {
  parse_url = λ u. some ("https", "example.org");
  decode = λ l.
      if l == 1 ∷ []
      then some (stamped_first, false)
      else if l == 2 ∷ []
      then some (priced_entry, false)
      else if l == 3 ∷ []
      then some (admit_entry, false)
      else none;
  encode = λ e. kind_byte e.kind ∷ [];
  sha256_hex = λ b. [];
}

abbrev new_file : List ℕ
new_file = 1 ∷ b'\n' ∷ []

abbrev priced_file : List ℕ
priced_file = 1 ∷ b'\n' ∷ 2 ∷ b'\n' ∷ []

abbrev example_admission : Admission
example_admission = record {
  seq = pos 3;
  route = "r";
  purpose = probe;
  reserve = pos 4;
  tokens = bounds;
}

parse_priced : parse_bound reading [] priced_file ≡ ok (record priced_state { lines = pos 2 })
unfolding evaluation reading priced_state
parse_priced = refl

decision_reads_back :
    ReadsBackAll reading priced_file
      (pos 0)
      (decide_admit "r" probe (pos 4) bounds none (record priced_state { lines = pos 2 }))
unfolding evaluation reading priced_state
decision_reads_back e w =
    subst (λ x. ReadsBack reading (stamp reading priced_file (pos 0) x)) w
      (record { decodes = refl; one_line = (refl, tt) })

admit_reads_back :
    (s : State)
    → parse_bound reading [] priced_file ≡ ok s
    → ReadsBackAll reading priced_file (pos 0) (decide_admit "r" probe (pos 4) bounds none s)
admit_reads_back s p =
    subst
      (λ x. ReadsBackAll reading priced_file (pos 0) (decide_admit "r" probe (pos 4) bounds none x))
      (ground (arith, parse_priced)) decision_reads_back

admit_at-Holds_example :
    Holds reading
      (admit_at reading [] priced_file (pos 0) "r" probe (pos 4) bounds none).1
      "r"
      example_admission
unfolding evaluation reading
admit_at-Holds_example =
    admit_at-Holds reading priced_file (pos 0) refl "r" probe (pos 4) bounds none [] _
      example_admission admit_reads_back refl

parse_new : parse_bound reading [] new_file ≡ ok (record first_state { lines = pos 1 })
unfolding evaluation reading first_state
parse_new = refl

price_decision_reads_back :
    ReadsBackAll reading new_file
      (pos 0)
      (decide_price reading "r" list_price (record first_state { lines = pos 1 }))
unfolding evaluation reading first_state
price_decision_reads_back e w =
    subst (λ x. ReadsBack reading (stamp reading new_file (pos 0) x)) w
      (record { decodes = refl; one_line = (refl, tt) })

price_reads_back :
    (s : State)
    → parse_bound reading [] new_file ≡ ok s
    → ReadsBackAll reading new_file (pos 0) (decide_price reading "r" list_price s)
price_reads_back s p =
    subst (λ x. ReadsBackAll reading new_file (pos 0) (decide_price reading "r" list_price x))
      (ground (arith, parse_new)) price_decision_reads_back

abbrev read_state : State
read_state = record first_state { lines = pos 1 }

new_file-Reads : Reads reading new_file read_state
unfolding evaluation reading first_state
new_file-Reads = record { closed = inr refl; parsed = refl }

parse-append_entry_example :
    parse reading (append_entry reading new_file (pos 0) priced_entry) ≡ (do
      s' ← apply reading read_state (stamp reading new_file (pos 0) priced_entry)
      ok
          (record (read_to reading
            (append_entry reading new_file (pos 0) priced_entry)
            read_state
            s') { head_sha256 = [] }))
unfolding evaluation reading first_state
parse-append_entry_example =
    parse-append_entry reading new_file read_state new_file-Reads (pos 0) priced_entry
      (record { decodes = refl; one_line = (refl, tt) })

Reach-Parses_example : Parses reading priced_file
unfolding evaluation reading
Reach-Parses_example = Reach-Parses reading (
    called [] (pos 0) (price_op "r" list_price)
      (created {b = new_file} (pos 0) small_caps refl
        (record { decodes = refl; one_line = (refl, tt) }))
      refl price_reads_back refl)

abbrev admitted_state : State
admitted_state = record new_state {
  lines = pos 3;
  routes = ("r", record no_usage { reserved = pos 4; charged = (bounds, pos 4) ∷ [] }) ∷ [];
  unsettled = (pos 3, example_admission) ∷ [];
}

abbrev two_sent : Counts
two_sent = record { probe = pos 2; development = pos 0; warmup = pos 0; measured = pos 0 }

abbrev settled_entry : Entry
unfolding evaluation
settled_entry = written (decide_settle example_admission two_sent admitted_state)

abbrev after_settling : State
unfolding evaluation settled_entry
after_settling = state_of (apply bare admitted_state (stamped settled_entry (pos 4) [] (pos 0)))

decide_settle-Settled_example :
    Settled admitted_state after_settling example_admission two_sent
    × ((again : Counts)
        → decide_settle example_admission again after_settling ≡ decline not_unsettled)
    × (false ≡ ltb_ℤ (pos 4) (total two_sent))
unfolding evaluation after_settling
decide_settle-Settled_example =
    decide_settle-Settled bare admitted_state after_settling example_admission two_sent
      settled_entry false (pos 4) [] (pos 0) refl refl

apply-Repriced_example :
    (r : Rat) × (check_price bare "r" (price_of priced_entry) ≡ ok r)
    × Repriced (record first_state { lines = pos 1 }) priced_state priced_entry r
unfolding evaluation priced_state
apply-Repriced_example =
    apply-Repriced bare (record first_state { lines = pos 1 }) priced_state priced_entry refl refl

decimal-decimal_string_example :
    (v : Rat) × (decimal (decimal_string (amount_of 12305 99)) ≡ some v)
    × (rat_beq v (amount_of 12305 99) ≡ true)
decimal-decimal_string_example = decimal-decimal_string 12305 99 12305 2 (omega arith) (omega arith)
