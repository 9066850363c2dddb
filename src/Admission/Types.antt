-- ===== src/Admission/Types.antt =====
-- internal/admission/ledger.go: the ledger's lines and the state that reading them gives.
-- An `int` is a ℤ whose sums wrap around at 64 bits; a money text is its bytes; a pointer is an
-- Option; a map is an association list. A text that the code compares with named constants is a data
-- type with those constants and one constructor for every other text.
use percentes.Base.{ℕ, ◌≡◌, ◌↔◌, Bool, true, false, ◌&&◌, Option, none, List, [], Eq, String, arith}
use percentes.Base.Int.{ℤ, pos, int_eq, int_beq, int_beq_iff, ◌+i◌}
use percentes.Base.Rat.{Rat, zero_rat}
use percentes.Base.Maps.{Assoc}

pub record Tokens : Type 0 where
  pub input : ℤ
  pub output : ℤ

abbrev pub tokens_beq : Tokens → Tokens → Bool
tokens_beq a b = int_beq a.input b.input && int_beq a.output b.output

pub tokens_beq_iff : (a b : Tokens) → (tokens_beq a b ≡ true) ↔ (a ≡ b)
tokens_beq_iff a b = ground (arith, int_beq_iff a.input b.input, int_beq_iff a.output b.output)

instance abbrev pub tokens_eq : Eq Tokens
tokens_eq = record { beq = tokens_beq; beq_iff = tokens_beq_iff }

-- Entry.Kind: "open", "price", "hosting", "admit", "refused", "settle", or another text.
pub data Kind : Type 0 where
  opening price hosting admit refused settle : Kind
  other_kind : String → Kind

abbrev pub is_opening : Kind → Bool
is_opening opening = true
is_opening _ = false

-- Entry.Purpose: the five purposes, or another text.
pub data Purpose : Type 0 where
  probe development window replacement cell : Purpose
  other_purpose : String → Purpose

pub record Caps : Type 0 where
  pub route_requests : ℤ
  pub total_requests : ℤ
  pub liability_usd : List ℕ
  pub route_liability_usd : Assoc String (List ℕ)
  pub window_requests : ℤ
  pub max_input_tokens : ℤ
  pub max_output_tokens : ℤ

pub record Position : Type 0 where
  pub route_requests : ℤ
  pub total_requests : ℤ
  pub liability_usd : List ℕ
  pub route_liability_usd : List ℕ

-- A Position with its unexported liabilities, which no line carries.
pub record Projection : Type 0 where
  pub position : Position
  pub liab : Rat
  pub route_liab : Option Rat

pub record Counts : Type 0 where
  pub probe : ℤ
  pub development : ℤ
  pub warmup : ℤ
  pub measured : ℤ

-- Counts.total
unfoldable pub total : Counts → ℤ
total c = c.probe +i c.development +i c.warmup +i c.measured

abbrev pub no_counts : Counts
no_counts = record { probe = pos 0; development = pos 0; warmup = pos 0; measured = pos 0 }

-- Why an admission was refused: a text in the source, here its format and the values it prints.
pub data Reason : Type 0 where
  no_liability_cap : String → Reason
  no_price : String → Tokens → Reason
  route_requests_exceed : ℤ → ℤ → Reason
  total_requests_exceed : ℤ → ℤ → Reason
  route_liability_exceeds : List ℕ → List ℕ → Reason
  liability_exceeds : List ℕ → List ℕ → Reason

pub record Entry : Type 0 where
  pub seq : ℤ
  pub prev : List ℕ
  pub time : ℤ
  pub kind : Kind
  pub schema_version : ℤ
  pub caps : Option Caps
  pub route : String
  pub input_usd_per_mtok : List ℕ
  pub output_usd_per_mtok : List ℕ
  pub input_tokens : ℤ
  pub output_tokens : ℤ
  pub per_request_usd : List ℕ
  pub source : String
  pub retrieved : List ℕ
  pub usd : List ℕ
  pub note : String
  pub purpose : Purpose
  pub reserve : ℤ
  pub before : Option Position
  pub after : Option Position
  pub reason : Option Reason
  pub admitted : ℤ
  pub sent : Option Counts
  pub overrun : Bool

-- Entry{Kind: kind}, every other field zero.
abbrev pub entry_of : Kind → Entry
entry_of k = record {
  seq = pos 0;
  prev = [];
  time = pos 0;
  kind = k;
  schema_version = pos 0;
  caps = none;
  route = "";
  input_usd_per_mtok = [];
  output_usd_per_mtok = [];
  input_tokens = pos 0;
  output_tokens = pos 0;
  per_request_usd = [];
  source = "";
  retrieved = [];
  usd = [];
  note = "";
  purpose = other_purpose "";
  reserve = pos 0;
  before = none;
  after = none;
  reason = none;
  admitted = pos 0;
  sent = none;
  overrun = false;
}

pub record Usage : Type 0 where
  pub probe : ℤ
  pub development : ℤ
  pub warmup : ℤ
  pub measured : ℤ
  pub replacement : ℤ
  pub reserved : ℤ
  pub prices : Assoc Tokens Rat
  pub price_seq : ℤ
  pub charged : Assoc Tokens ℤ

abbrev pub no_usage : Usage
no_usage = record {
  probe = pos 0;
  development = pos 0;
  warmup = pos 0;
  measured = pos 0;
  replacement = pos 0;
  reserved = pos 0;
  prices = [];
  price_seq = pos 0;
  charged = [];
}

-- Usage.Charged
unfoldable pub charged_requests : Usage → ℤ
charged_requests u =
    u.probe +i u.development +i u.warmup +i u.measured +i u.replacement +i u.reserved

pub record Admission : Type 0 where
  pub seq : ℤ
  pub route : String
  pub purpose : Purpose
  pub reserve : ℤ
  pub tokens : Tokens

-- `routes` is the map Routes with its keys in the order of the field `order`, to which the code adds
-- a route when it adds it to the map. `unsettled` is the map Open. The two liability caps are nil
-- until the open line is read.
pub record State : Type 0 where
  pub lines : ℤ
  pub open_sha256 : List ℕ
  pub head_sha256 : List ℕ
  pub caps : Caps
  pub routes : Assoc String Usage
  pub hosting_usd : Rat
  pub unsettled : Assoc ℤ Admission
  pub liability_cap : Rat
  pub route_caps : Assoc String Rat

abbrev pub no_caps : Caps
no_caps = record {
  route_requests = pos 0;
  total_requests = pos 0;
  liability_usd = [];
  route_liability_usd = [];
  window_requests = pos 0;
  max_input_tokens = pos 0;
  max_output_tokens = pos 0;
}

abbrev pub new_state : State
new_state = record {
  lines = pos 0;
  open_sha256 = [];
  head_sha256 = [];
  caps = no_caps;
  routes = [];
  hosting_usd = zero_rat;
  unsettled = [];
  liability_cap = zero_rat;
  route_caps = [];
}

-- What the operations return as an `error`.
pub data Error : Type 0 where
  negative_request_cap token_bounds empty_route empty_route_name empty_note zero_reserve : Error
  not_positive_decimal route_cap_not_positive route_cap_exceeds_global : Error
  input_price output_price bad_source bad_date bad_hosting : Error
  kind_on_line schema_or_caps wrong_per_request bad_admit window_reserve not_highest_price : Error
  negative_count unknown_purpose stray_count bad_settle wrong_overrun unknown_kind : Error
  admits_none wrong_window_size not_unsettled other_admission overran : Error
  ledger_empty last_line_incomplete bad_json wrong_seq wrong_prev wrong_open_line : Error
  reason : Reason → Error
  refusal : String → Purpose → Reason → Error
  price_changed : String → ℤ → ℤ → Error
