-- ===== src/Admission/Decide.antt =====
-- internal/admission/ledger.go: what `RecordPrice`, `RecordHosting`, `admit` and `Settle` decide on a
-- state that was read and checked under the lock.
use percentes.Base.{
  ℕ, Bool, true, false, not, ◌&&◌, ◌||◌, Option, none, some, List, [], ◌==◌, string_eq, nat_eq,
  bytes_eq, bool_eq, String, if◌then◌else◌, Result, ok, err, ◌>>=◌, ◌>>◌, or_fail, refuse_if,
}
use percentes.Base.Int.{ℤ, pos, int_beq, int_eq, ltb_ℤ, ◌+i◌}
use percentes.Base.Rat.{Rat, is_zero_rat, gtb_rat}
use percentes.Base.Maps.{lookup}
use percentes.Admission.Types.{
  Tokens, tokens_beq, tokens_eq, price, hosting, admit, refused, settle, Purpose, probe,
  development, window, replacement, cell, other_purpose, Counts, total, Position, Projection, Entry,
  entry_of, Admission, State, Error, Reason, empty_route, token_bounds, empty_note, bad_hosting,
  admits_none, wrong_window_size, zero_reserve, unknown_purpose, refusal, price_changed,
  not_unsettled, other_admission, route_requests_exceed, total_requests_exceed,
  route_liability_exceeds, liability_exceeds,
}
use percentes.Admission.Decimal.{decimal, decimal_string}
use percentes.Admission.State.{price_at, price_revision, position}
use percentes.Admission.Apply.{Platform, Price, check_price, check_counts}

-- What the function that `update` runs returns: an entry, with what the function keeps for its
-- caller; an entry and a Refusal; or another error and no entry.
pub data Decision (A : Type 0) : Type 0 where
  accept : Entry → A → Decision A
  refuse : Entry → Error → Decision A
  decline : Error → Decision A

-- An early return of an error, or a decision.
abbrev pub settled_by : {A : Type 0} → Result Error (Decision A) → Decision A
settled_by (ok d) = d
settled_by (err x) = decline x

-- The token bounds a price is taken at: the ledger's where the price names none.
unfoldable pub with_bounds : State → Price → Price
with_bounds s p =
    if p.input_tokens == pos 0 && p.output_tokens == pos 0
    then record p {
      input_tokens = s.caps.max_input_tokens;
      output_tokens = s.caps.max_output_tokens;
    }
    else p

-- RecordPrice's function.
unfoldable pub decide_price : Platform → String → Price → State → Decision (Unit {0})
unfolding with_bounds
decide_price pf route price' s = settled_by (do
  let p = with_bounds s price'
  r ← check_price pf route p
  ok (
      accept
        (record (entry_of price) {
          route = route;
          input_usd_per_mtok = p.input_usd_per_mtok;
          output_usd_per_mtok = p.output_usd_per_mtok;
          input_tokens = p.input_tokens;
          output_tokens = p.output_tokens;
          per_request_usd = decimal_string r;
          source = p.source;
          retrieved = p.retrieved;
        })
        tt))

-- RecordHosting's function.
unfoldable pub decide_hosting : List ℕ → String → State → Decision (Unit {0})
decide_hosting usd note s = settled_by (do
  r ← or_fail (decimal usd) bad_hosting
  refuse_if (is_zero_rat r) bad_hosting
  refuse_if (note == "") empty_note
  ok (accept (record (entry_of hosting) { usd = usd; note = note }) tt))

-- The switch of `admit` on the purpose: how many requests it may reserve.
unfoldable pub check_reserve : Purpose → ℤ → ℤ → Result Error (Unit {0})
check_reserve window w n = do
  refuse_if (w == pos 0) admits_none
  refuse_if (not (n == w)) wrong_window_size
check_reserve replacement w n = do
  refuse_if (w == pos 0) admits_none
  refuse_if (not (n == w)) wrong_window_size
check_reserve (other_purpose _) w n = err unknown_purpose
check_reserve _ w n = refuse_if (ltb_ℤ n (pos 1)) zero_reserve

-- rev != nil && have != *rev
abbrev pub changed : Option ℤ → ℤ → Bool
changed none have = false
changed (some rev) have = not (have == rev)

-- The route's liability exceeds its cap, where it has one.
abbrev pub over_route_cap : Option Rat → Option Rat → Bool
over_route_cap (some cap) (some liab) = gtb_rat liab cap
over_route_cap _ _ = false

abbrev pub found_text : Option (List ℕ) → List ℕ
found_text none = []
found_text (some t) = t

-- The first cap that a projection passes.
unfoldable pub over_cap : State → String → Projection → Option Reason
over_cap s route p =
    if ltb_ℤ (pos 0) s.caps.route_requests && ltb_ℤ s.caps.route_requests p.position.route_requests
    then some (route_requests_exceed p.position.route_requests s.caps.route_requests)
    else if ltb_ℤ (pos 0) s.caps.total_requests
        && ltb_ℤ s.caps.total_requests p.position.total_requests
    then some (total_requests_exceed p.position.total_requests s.caps.total_requests)
    else if over_route_cap (lookup route s.route_caps) p.route_liab
    then some (
        route_liability_exceeds p.position.route_liability_usd
          (found_text (lookup route s.caps.route_liability_usd)))
    else if gtb_rat p.liab s.liability_cap
    then some (liability_exceeds p.position.liability_usd s.caps.liability_usd)
    else none

-- Both projections of an admission: without it, and with it.
unfoldable pub project : State → String → Tokens → ℤ → Result Reason (Projection × Projection)
project s route tok n = do
  before ← position s route tok (pos 0)
  after ← position s route tok n
  ok (before, after)

abbrev pub refused_entry :
    String → Tokens → Purpose → ℤ → Option Position → Option Position → Reason → Entry
refused_entry route tok purpose n before after why = record (entry_of refused) {
  route = route;
  input_tokens = tok.input;
  output_tokens = tok.output;
  purpose = purpose;
  reserve = n;
  before = before;
  after = after;
  reason = some why;
}

abbrev pub printed : Option Rat → List ℕ
printed none = []
printed (some p) = decimal_string p

-- The admission of a request that no cap refuses.
abbrev pub admitted_entry : State → String → Purpose → ℤ → Tokens → Position → Position → Entry
admitted_entry s route purpose n tok before after = record (entry_of admit) {
  route = route;
  input_tokens = tok.input;
  output_tokens = tok.output;
  per_request_usd = printed (price_at s route tok);
  purpose = purpose;
  reserve = n;
  before = some before;
  after = some after;
}

abbrev pub new_admission : State → String → Purpose → ℤ → Tokens → Admission
new_admission s route purpose n tok = record {
  seq = s.lines +i pos 1;
  route = route;
  purpose = purpose;
  reserve = n;
  tokens = tok;
}

-- The end of `admit`'s function, on the projections and the caps.
unfoldable pub decide_projected :
    State → String → Purpose → ℤ → Tokens → Projection × Projection → Decision Admission
decide_projected s route purpose n tok (before, after) = elim (over_cap s route after) [
  | some why ↦
      refuse (refused_entry route tok purpose n (some before.position) (some after.position) why)
        (refusal route purpose why)
  | none ↦
      accept (admitted_entry s route purpose n tok before.position after.position)
        (new_admission s route purpose n tok)
]

-- The part of `admit`'s function past the checks of its arguments.
unfoldable pub decide_caps : State → String → Purpose → ℤ → Tokens → Decision Admission
unfolding project decide_projected
decide_caps s route purpose n tok = elim (project s route tok n) [
  | err why ↦ refuse (refused_entry route tok purpose n none none why) (refusal route purpose why)
  | ok both ↦ decide_projected s route purpose n tok both
]

-- admit's function.
unfoldable pub decide_admit : String → Purpose → ℤ → Tokens → Option ℤ → State → Decision Admission
decide_admit route purpose n tok rev s = settled_by (do
  refuse_if (route == "") empty_route
  let have = price_revision s route
  refuse_if (changed rev have) (price_changed route (elim rev [ none ↦ pos 0 | some r ↦ r ]) have)
  refuse_if (ltb_ℤ tok.input (pos 1) || ltb_ℤ tok.output (pos 1)) token_bounds
  check_reserve purpose s.caps.window_requests n
  ok (decide_caps s route purpose n tok))

unfoldable pub purpose_beq : Purpose → Purpose → Bool
purpose_beq probe probe = true
purpose_beq development development = true
purpose_beq window window = true
purpose_beq replacement replacement = true
purpose_beq cell cell = true
purpose_beq (other_purpose a) (other_purpose b) = a == b
purpose_beq _ _ = false

-- open == a, on every field.
unfoldable pub admission_beq : Admission → Admission → Bool
unfolding purpose_beq
admission_beq a b =
    int_beq a.seq b.seq
    && a.route == b.route
    && purpose_beq a.purpose b.purpose
    && (int_beq a.reserve b.reserve && tokens_beq a.tokens b.tokens)

-- Settle's function. It keeps whether the settlement overran.
unfoldable pub decide_settle : Admission → Counts → State → Decision Bool
unfolding admission_beq
decide_settle a sent s = settled_by (do
  held ← or_fail (lookup a.seq s.unsettled) not_unsettled
  refuse_if (not (admission_beq held a)) other_admission
  check_counts a.purpose sent
  let overrun = ltb_ℤ a.reserve (total sent)
  ok (
      accept
        (record (entry_of settle) {
          route = a.route;
          admitted = a.seq;
          sent = some sent;
          overrun = overrun;
        })
        overrun))
