-- ===== src/Sse/Examples.antt =====
-- A short stream, and the theorems at it.
use percentes.Base.{
  ℕ, ◌≡◌, refl, Bool, true, false, List, [], ◌∷◌, ◌++◌, bytes, nat_eq, bytes_eq, arith, inr, All,
}
use percentes.Sse.Split.{split_line}
use percentes.Sse.Scan.{scan, drain, room, concat}
use percentes.Sse.Limit.{IsScan, IsShort, Fits, scan-lines_of}
use percentes.Sse.Lines.{lines_of}
use percentes.Sse.Events.{trim_prefix, trim_feed, events, no_outcome, trim_mark}
use percentes.Sse.Delivery.{outcome_of, event_values, events-outcome_of}

-- "data: a", a carriage return at a chunk's end, a line feed, a blank line.
abbrev chunks : List (List ℕ)
chunks = (bytes "data: a" ++ b'\r' ∷ []) ∷ (b'\n' ∷ b'\n' ∷ bytes "data:b") ∷ []

test_scan : scan 6 [] chunks ≡ (bytes "data: a" ∷ [] ∷ bytes "data:b" ∷ [], false)
unfolding scan split_line
test_scan = refl

abbrev stream_lines : List (List ℕ)
stream_lines =
    bytes "data: a"
    ∷ bytes "id: 7"
    ∷ bytes "data:b"
    ∷ []
    ∷ bytes "data"
    ∷ []
    ∷ bytes "data: too long"
    ∷ []
    ∷ bytes "data: c"
    ∷ []

any : List ℕ → Bool
any p = false

test_events : events any 6 stream_lines ≡ record {
  saw_data = true;
  dropped = 1;
  payloads = (b'a' ∷ b'\n' ∷ b'b' ∷ []) ∷ bytes "c" ∷ [];
}
unfolding events any trim_prefix trim_feed
test_events = refl

chunks-Fits : Fits 6 [] chunks
unfolding split_line drain
chunks-Fits = (omega arith, inr (omega arith, inr tt))

scan-lines_of_example :
    IsScan 6 (lines_of (concat chunks)) (scan 6 [] chunks)
    × All (IsShort (room 6)) (scan 6 [] chunks).0
scan-lines_of_example = scan-lines_of 6 [] chunks (omega arith) chunks-Fits

events-outcome_of_example :
    events any 6 stream_lines ≡ outcome_of any 6 (event_values (trim_mark stream_lines)) no_outcome
events-outcome_of_example = events-outcome_of any 6 stream_lines
