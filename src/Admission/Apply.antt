-- ===== src/Admission/Apply.antt =====
-- internal/admission/ledger.go: the checks of caps, prices and counts, and `apply`, which adds one
-- line of the ledger to the state.
use percentes.Base.{
  ℕ, ◌+◌, ◌-◌, ◌*◌, ◌%◌, Bool, true, false, not, ◌&&◌, ◌||◌, Option, none, some, List, [], ◌∷◌,
  ◌==◌, string_eq, nat_eq, bytes_eq, bool_eq, String, leb, if◌then◌else◌, Result, ok, err, ◌>>=◌,
  ◌>>◌, or_fail, refuse_if,
}
use percentes.Base.Int.{ℤ, pos, int_eq, ltb_ℤ, ◌+i◌, ◌-i◌}
use percentes.Base.Rat.{Rat, is_zero_rat, gtb_rat, ◌+q◌}
use percentes.Base.Maps.{Assoc, lookup, insert, remove}
use percentes.Admission.Types.{
  Tokens, tokens_eq, Kind, opening, price, hosting, admit, refused, settle, other_kind, is_opening,
  Purpose, probe, development, window, replacement, other_purpose, Caps, Counts, total, no_counts,
  Entry, Usage, no_usage, Admission, State, Error, negative_request_cap, token_bounds, empty_route,
  empty_route_name, not_positive_decimal, route_cap_not_positive, route_cap_exceeds_global,
  input_price, output_price, bad_source, bad_date, bad_hosting, kind_on_line, schema_or_caps,
  wrong_per_request, bad_admit, window_reserve, not_highest_price, negative_count, unknown_purpose,
  stray_count, bad_settle, wrong_overrun, unknown_kind,
}
use percentes.Admission.Decimal.{decimal, decimal_string, per_request, is_digit}
use percentes.Admission.State.{price_at, add_charge}

-- The loop of `checkCaps` over the routes' liability caps, `routes` being those checked.
unfoldable pub check_route_caps :
    Rat → Assoc String (List ℕ) → Assoc String Rat → Result Error (Assoc String Rat)
check_route_caps global [] routes = ok routes
check_route_caps global ((name, usd) ∷ rest) routes = do
  refuse_if (name == "") empty_route_name
  r ← or_fail (decimal usd) route_cap_not_positive
  refuse_if (is_zero_rat r) route_cap_not_positive
  refuse_if (gtb_rat r global) route_cap_exceeds_global
  check_route_caps global rest (insert name r routes)

abbrev pub is_negative : ℤ → Bool
is_negative n = ltb_ℤ n (pos 0)

-- checkCaps
unfoldable pub check_caps : Caps → Result Error (Rat × Assoc String Rat)
unfolding check_route_caps
check_caps c = do
  refuse_if
      (is_negative c.route_requests
        || (is_negative c.total_requests || is_negative c.window_requests))
      negative_request_cap
  refuse_if
      (is_negative c.max_input_tokens
        || (is_negative c.max_output_tokens
            || not ((c.max_input_tokens == pos 0) == (c.max_output_tokens == pos 0))))
      token_bounds
  global ← or_fail (decimal c.liability_usd) not_positive_decimal
  refuse_if (is_zero_rat global) not_positive_decimal
  routes ← check_route_caps global c.route_liability_usd []
  ok (global, routes)

-- What the ledger takes from the rest of the system. `parse_url` is net/url's Parse with the scheme
-- and the host that it finds. `decode` is encoding/json's Decode of a line into an Entry with unknown
-- fields disallowed, and whether More follows; `encode` is its Marshal. `sha256_hex` is the hex print
-- of crypto/sha256's sum.
pub record Platform : Type 0 where
  pub parse_url : String → Option (String × String)
  pub decode : List ℕ → Option (Entry × Bool)
  pub encode : Entry → List ℕ
  pub sha256_hex : List ℕ → List ℕ

-- Price
pub record Price : Type 0 where
  pub input_usd_per_mtok : List ℕ
  pub output_usd_per_mtok : List ℕ
  pub input_tokens : ℤ
  pub output_tokens : ℤ
  pub source : String
  pub retrieved : List ℕ

-- The host is not empty, and the scheme is http or https.
abbrev pub is_web : Option (String × String) → Bool
is_web none = false
is_web (some (scheme, host)) = (scheme == "http" || scheme == "https") && not (host == "")

abbrev pub two_digits : ℕ → ℕ → ℕ
two_digits a b = (a - b'0') * 10 + (b - b'0')

abbrev pub is_leap : ℕ → Bool
is_leap y = y % 4 == 0 && (not (y % 100 == 0) || y % 400 == 0)

unfoldable pub days_in : ℕ → ℕ → ℕ
days_in y m =
    if m == 2
    then (if is_leap y then 29 else 28)
    else if m == 4 || (m == 6 || (m == 9 || m == 11))
    then 30
    else 31

-- dateRe, and time.Parse of "2006-01-02" on what it matches.
unfoldable pub is_date : List ℕ → Bool
unfolding days_in is_digit
is_date (a ∷ b ∷ c ∷ d ∷ x ∷ m ∷ n ∷ y ∷ p ∷ q ∷ []) =
    let year = two_digits a b * 100 + two_digits c d in
    let month = two_digits m n in
    let day = two_digits p q in
    (is_digit a && is_digit b && is_digit c && is_digit d && x == b'-' && is_digit m && is_digit n)
    && (y == b'-' && is_digit p && is_digit q && leb 1 month && leb month 12)
    && (leb 1 day && leb day (days_in year month))
is_date _ = false

-- checkPrice
unfoldable pub check_price : Platform → String → Price → Result Error Rat
check_price pf route p = do
  refuse_if (route == "") empty_route
  refuse_if (ltb_ℤ p.input_tokens (pos 1) || ltb_ℤ p.output_tokens (pos 1)) token_bounds
  input ← or_fail (decimal p.input_usd_per_mtok) input_price
  output ← or_fail (decimal p.output_usd_per_mtok) output_price
  refuse_if (not (is_web (pf.parse_url p.source))) bad_source
  refuse_if (not (is_date p.retrieved)) bad_date
  ok (per_request input output p.input_tokens p.output_tokens)

-- The counts that a purpose's traffic cannot hold; none where the purpose is unknown.
unfoldable pub is_stray : Purpose → Counts → Option Bool
is_stray probe c = some (ltb_ℤ (pos 0) (c.development +i c.warmup +i c.measured))
is_stray development c = some (ltb_ℤ (pos 0) (c.probe +i c.warmup +i c.measured))
is_stray (other_purpose _) c = none
is_stray _ c = some (ltb_ℤ (pos 0) c.development)

-- checkCounts
unfoldable pub check_counts : Purpose → Counts → Result Error (Unit {0})
unfolding is_stray
check_counts purpose c = do
  refuse_if
      (is_negative c.probe
        || (is_negative c.development || (is_negative c.warmup || is_negative c.measured)))
      negative_count
  stray ← or_fail (is_stray purpose c) unknown_purpose
  refuse_if stray stray_count

abbrev pub found_usage : Option Usage → Usage
found_usage none = no_usage
found_usage (some u) = u

-- State.usage: the route's usage, a new one where the route is not known.
unfoldable pub usage_of : State → String → Usage
usage_of s route = found_usage (lookup route s.routes)

-- Writing through the pointer that State.usage returned.
unfoldable pub set_usage : State → String → Usage → State
set_usage s route u = record s { routes = insert route u s.routes }

abbrev pub tokens_of : Entry → Tokens
tokens_of e = record { input = e.input_tokens; output = e.output_tokens }

abbrev pub price_of : Entry → Price
price_of e = record {
  input_usd_per_mtok = e.input_usd_per_mtok;
  output_usd_per_mtok = e.output_usd_per_mtok;
  input_tokens = e.input_tokens;
  output_tokens = e.output_tokens;
  source = e.source;
  retrieved = e.retrieved;
}

-- apply, kind open
unfoldable pub apply_open : State → Entry → Result Error State
apply_open s e = do
  refuse_if (not (e.schema_version == pos 1)) schema_or_caps
  c ← or_fail e.caps schema_or_caps
  limits ← check_caps c
  ok (record s { caps = c; liability_cap = limits.0; route_caps = limits.1 })

-- u.Prices[tok] = r where r is the first price or a higher one.
unfoldable pub raise_price : Tokens → Rat → Assoc Tokens Rat → Assoc Tokens Rat
raise_price tok r prices = elim (lookup tok prices) [
  | none ↦ insert tok r prices
  | some p ↦ if gtb_rat r p then insert tok r prices else prices
]

-- apply, kind price
unfoldable pub apply_price : Platform → State → Entry → Result Error State
apply_price pf s e = do
  r ← check_price pf e.route (price_of e)
  refuse_if (not (e.per_request_usd == decimal_string r)) wrong_per_request
  let u = usage_of s e.route
  ok (
      set_usage s e.route
        (record u { prices = raise_price (tokens_of e) r u.prices; price_seq = e.seq }))

-- apply, kind hosting
unfoldable pub apply_hosting : State → Entry → Result Error State
apply_hosting s e = do
  r ← or_fail (decimal e.usd) bad_hosting
  ok (record s { hosting_usd = s.hosting_usd +q r })

abbrev pub is_window : Purpose → Bool
is_window window = true
is_window replacement = true
is_window _ = false

-- e.PerRequestUSD == decimalString(p), false where the route has no price.
abbrev pub prints_price : List ℕ → Option Rat → Bool
prints_price usd none = false
prints_price usd (some p) = usd == decimal_string p

abbrev pub admission_of : Entry → Admission
admission_of e = record {
  seq = e.seq;
  route = e.route;
  purpose = e.purpose;
  reserve = e.reserve;
  tokens = tokens_of e;
}

-- The reservation and the charge that an admit line adds to its route's usage.
unfoldable pub reserve_usage : Entry → Usage → Usage
reserve_usage e u = record u {
  reserved = u.reserved +i e.reserve;
  charged = add_charge (tokens_of e) e.reserve u.charged;
}

-- The writes of an admit line: the route's usage, and the unsettled admission.
unfoldable pub reserve : State → Entry → State
unfolding usage_of set_usage reserve_usage
reserve s e =
    let s' = set_usage s e.route (reserve_usage e (usage_of s e.route)) in
    record s' { unsettled = insert e.seq (admission_of e) s'.unsettled }

-- apply, kind admit
unfoldable pub apply_admit : State → Entry → Result Error State
apply_admit s e = do
  refuse_if (e.route == "" || ltb_ℤ e.reserve (pos 1)) bad_admit
  refuse_if (is_window e.purpose && not (e.reserve == s.caps.window_requests)) window_reserve
  check_counts e.purpose no_counts
  refuse_if (not (prints_price e.per_request_usd (price_at s e.route (tokens_of e))))
      not_highest_price
  ok (reserve s e)

abbrev pub is_replacement : Purpose → Bool
is_replacement replacement = true
is_replacement _ = false

-- The counts of a settled admission's usage.
unfoldable pub settle_usage : Admission → Counts → Usage → Usage
settle_usage a c u =
    let v = record u {
      reserved = u.reserved -i a.reserve;
      charged = add_charge a.tokens (total c -i a.reserve) u.charged;
      probe = u.probe +i c.probe;
      development = u.development +i c.development;
    } in
    if is_replacement a.purpose
    then record v { replacement = u.replacement +i (c.warmup +i c.measured) }
    else record v { warmup = u.warmup +i c.warmup; measured = u.measured +i c.measured }

-- apply, kind settle
unfoldable pub apply_settle : State → Entry → Result Error State
apply_settle s e = do
  a ← or_fail (lookup e.admitted s.unsettled) bad_settle
  c ← or_fail e.sent bad_settle
  refuse_if (not (a.route == e.route)) bad_settle
  check_counts a.purpose c
  refuse_if (not (e.overrun == ltb_ℤ a.reserve (total c))) wrong_overrun
  let s' = record s { unsettled = remove e.admitted s.unsettled }
  ok (set_usage s' a.route (settle_usage a c (usage_of s' a.route)))

-- The switch of `apply` on the kind.
unfoldable pub apply_kind : Platform → Kind → State → Entry → Result Error State
apply_kind pf opening s e = apply_open s e
apply_kind pf price s e = apply_price pf s e
apply_kind pf hosting s e = apply_hosting s e
apply_kind pf admit s e = apply_admit s e
apply_kind pf refused s e = ok s
apply_kind pf settle s e = apply_settle s e
apply_kind pf (other_kind _) s e = err unknown_kind

-- State.apply
unfoldable pub apply : Platform → State → Entry → Result Error State
apply pf s e = do
  refuse_if (not (is_opening e.kind == (e.seq == pos 1))) kind_on_line
  apply_kind pf e.kind s e
