-- ===== src/Stream/Examples.antt =====
-- The theorems and definitions of a response's stream at concrete inputs.
use percentes.Base.{
  ℕ, ◌+◌, ◌-◌, ◌*◌, ◌≡◌, ◌↔◌, refl, true, false, not, ◌||◌, none, some, List, [], ◌∷◌, ◌++◌, nat_eq,
  bytes_eq, bytes, arith, length, drop, All,
}
use mathlib.Core.Option
use percentes.Base.Int.{ℤ, pos, quo_i, ◌-i◌, from_bits, bits}
use percentes.Base.Maps.{lookup}
use percentes.Traffic.Requests.{completed}
use percentes.Sse.Events.{events, trim_prefix, trim_feed}
use percentes.Stream.Json.{Raw}
use percentes.Stream.Chunk.{shape}
use percentes.Stream.Reply.{Request, Target, Times, no_class}
use percentes.Stream.Read.{read_body, stops_at, event_limit}
use percentes.Stream.Tokens.{token_times, whole_text}
use percentes.Stream.Counts.{Unread, IsRunning, IsCounted, read_body-IsCounted}
use percentes.Stream.Ending.{IsSettled, read_body-IsSettled}
use percentes.Stream.Overlay.{value_at, last_value}
use percentes.Stream.Merged.{usages, read_body-usage}
use percentes.Stream.Hidden.{IsHidden, mask_all-IsHidden}
use percentes.Stream.Errors.{IsCovered, read_error_body-IsCovered}
use percentes.Stream.Overlay.{IsObject}
use percentes.Stream.Secrets.{starts_with, mask_all, read_error_body}
use percentes.Stream.Frames.{
  asterisks, has_suffix, mask_secret_prefix_tail, read_all, new_recorder, result,
}
use percentes.Stream.Tail.{mask_secret_prefix_tail-asterisks}
use percentes.Stream.Recording.{IsRecording, read_all-IsRecording}
use percentes.Stream.Headers.{header_covers, header_match}
use percentes.Stream.Covering.{header_covers_iff}
use percentes.Stream.Small.{small, small-IsJson, write, write_object, brace, read_object}

abbrev target : Target
target = record {
  hosted = true;
  messages = false;
  expected = [];
  model = bytes "m";
  secrets = bytes "key" ∷ [];
  deadline_ns = pos 0;
}

abbrev event : List ℕ → Raw → Raw
event content usage =
    let delta = write_object ((bytes "content", content) ∷ []) in
    let choices = write_object ((bytes "delta", delta) ∷ []) in
    write_object ((bytes "choices", choices) ∷ (bytes "usage", usage) ∷ [])

abbrev line : Raw → List ℕ
line payload = bytes "data: " ++ payload

abbrev first_event : Raw
first_event =
    event (bytes "Hi") (write_object ((bytes "n", bytes "1") ∷ (bytes "m", bytes "7") ∷ []))

abbrev second_event : Raw
second_event =
    event (bytes "!") (write_object ((bytes "n", bytes "2") ∷ (bytes "m", bytes "null") ∷ []))

abbrev body : List (List ℕ)
body = line first_event ∷ [] ∷ line second_event ∷ [] ∷ line (bytes "[DONE]") ∷ [] ∷ []

abbrev unread : Request
unread = record {
  intended_ns = pos 0;
  first_tok_ns = pos 0;
  done_ns = pos 0;
  outcome = none;
  err_class = no_class;
  tokens = 0;
  late = false;
  completion_tokens = pos 0;
  usage_seen = false;
  usage = none;
  finish_reason = [];
  reported_model = [];
  system_fingerprint = [];
  model_mismatch = [];
  stream_error = [];
  reasoning_chunks = 0;
  first_reasoning_ns = pos 0;
  unknown_events = 0;
  content = [];
  reasoning = [];
  refusal = [];
  refusal_bytes = 0;
  itls_us = [];
  err_text = [];
}

unread-Unread : Unread unread
unread-Unread = record { no_tokens = refl; no_first = refl; no_gaps = refl }

abbrev clock : ℕ → Times
clock n = record {
  reasoning_ns = pos (n * 2000 + 1000);
  token_ns = pos (n * 2000 + 1000);
  error_ns = pos (n * 2000 + 1000);
}

clock-IsRunning : IsRunning clock
clock-IsRunning = record { token_set = λ n. ground arith; error_set = λ n. ground arith }

test_body :
    (read_body small target (shape none) clock body none (pos 9000) unread).content ≡ bytes "Hi!"
unfolding read_body events trim_prefix write trim_feed brace read_object lookup shape
test_body = refl

test_gaps :
    (read_body small target (shape none) clock body none (pos 9000) unread).itls_us ≡ pos 2 ∷ []
unfolding read_body events trim_prefix write trim_feed brace read_object lookup shape quo_i ◌-i◌
    from_bits bits
test_gaps = refl

test_outcome :
    (read_body small target (shape none) clock body none (pos 9000) unread).outcome ≡ some completed
unfolding read_body events trim_prefix write trim_feed brace read_object lookup shape quo_i ◌-i◌
    from_bits bits
test_outcome = refl

read_body-IsCounted_example :
    IsCounted
      (token_times small target
        (shape none)
        clock
        0
        (events (stops_at small target (shape none)) event_limit body).payloads)
      (read_body small target (shape none) clock body none (pos 9000) unread)
    × ((read_body small target (shape none) clock body none (pos 9000) unread).content
        ≡ whole_text small target
            (shape none)
            (events (stops_at small target (shape none)) event_limit body).payloads)
read_body-IsCounted_example =
    read_body-IsCounted small target (shape none) clock body none (pos 9000) unread unread-Unread
      clock-IsRunning

read_body-IsSettled_example :
    IsSettled small target
      (shape none)
      none
      (events (stops_at small target (shape none)) event_limit body)
      (read_body small target (shape none) clock body none (pos 9000) unread)
read_body-IsSettled_example =
    read_body-IsSettled small target (shape none) clock body none (pos 9000) unread unread-Unread
      clock-IsRunning

body_objects : All (IsObject small) (
    usages small target
      (shape none)
      (events (stops_at small target (shape none)) event_limit body).payloads)
unfolding usages events trim_prefix write trim_feed stops_at brace read_object lookup shape
body_objects = (
  (some ((bytes "m", bytes "7") ∷ (bytes "n", bytes "1") ∷ []), refl),
  ((some ((bytes "m", bytes "null") ∷ (bytes "n", bytes "2") ∷ []), refl), tt),
)

read_body-usage_example :
    value_at small
      (bytes "m")
      (read_body small target (shape none) clock body none (pos 9000) unread).usage
    ≡ Option.map small-IsJson.stored (
        last_value small (bytes "m") (
          usages small target
            (shape none)
            (events (stops_at small target (shape none)) event_limit body).payloads))
read_body-usage_example =
    read_body-usage small target (shape none) small-IsJson clock body none (pos 9000) unread
      (bytes "m") refl body_objects

abbrev secrets : List (List ℕ)
secrets = bytes "secret" ∷ bytes "key" ∷ []

mask_all-IsHidden_example : IsHidden secrets (bytes "a key") 2 3
unfolding starts_with
mask_all-IsHidden_example =
    mask_all-IsHidden secrets 1 b'k' (bytes "ey") (bytes "a key") 2 refl refl

test_mask : mask_all secrets (bytes "a keysecret") ≡ bytes "a *********"
unfolding mask_all
test_mask = refl

read_error_body-IsCovered_example :
    IsCovered (bytes "secret") (bytes "no secret") (read_error_body (bytes "no secret") secrets) 3
unfolding starts_with
read_error_body-IsCovered_example =
    read_error_body-IsCovered (bytes "no secret") b's' (bytes "ecret") (bytes "key" ∷ []) 3
      (omega arith) refl

mask_secret_prefix_tail-asterisks_example :
    (drop (length (bytes "an sec") - 3) (mask_secret_prefix_tail (bytes "an sec") secrets)
      ≡ asterisks 3)
    × (length (mask_secret_prefix_tail (bytes "an sec") secrets) ≡ length (bytes "an sec"))
unfolding has_suffix
mask_secret_prefix_tail-asterisks_example =
    mask_secret_prefix_tail-asterisks (bytes "an sec") secrets 0 3 (bytes "secret") refl
      (record { proper = omega arith; at_end = refl })

abbrev reads : List (List ℕ × ℤ)
reads = (bytes "ab", pos 1) ∷ ([], pos 2) ∷ (bytes "keyse", pos 3) ∷ (bytes "cret", pos 4) ∷ []

read_all-IsRecording_example : IsRecording 8 reads secrets (read_all reads (new_recorder 8))
read_all-IsRecording_example = read_all-IsRecording reads 8 secrets

test_frames : result (read_all reads (new_recorder 8)) secrets ≡ (
  record { ns = pos 1; bytes_ = bytes "ab" } ∷ record { ns = pos 3; bytes_ = bytes "*****" } ∷ [],
  4,
)
unfolding result read_all
test_frames = refl

header_covers_iff_example : (header_covers (bytes "X-*") (bytes "x-request-*") ≡ true) ↔ (
    (name : List ℕ)
    → (not (header_match (bytes "x-request-*") name) || header_match (bytes "X-*") name) ≡ true)
header_covers_iff_example = header_covers_iff (bytes "X-*") (bytes "x-request-*")
