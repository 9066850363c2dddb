-- ===== src/Stream/Tokens.antt =====
-- What the loop counts: the tokens of a stream, their times and their text.
use percentes.Base.{
  ℕ, suc, ◌+◌, ◌≡◌, refl, ap, ◌∙◌, Bool, true, false, Option, none, some, List, [], ◌∷◌, ◌++◌, ◌==◌,
  if◌then◌else◌, is_empty, arith,
}
use percentes.Base.Int.{ℤ, pos, int_eq, ◌-i◌, quo_i}
use percentes.Stream.Json.{Raw, Decoder}
use percentes.Stream.Chunk.{Chunk, ResponseShape}
use percentes.Stream.Reply.{
  Request, Target, Times, record_chunk, record_usage, record_names, record_texts,
}
use percentes.Stream.Read.{
  Progress, decode, fails, add_token, add_content, add_chunk, on_chunk, read_payloads,
}

-- The differences of neighbouring times, in microseconds.
unfoldable pub gaps : List ℤ → List ℤ
gaps [] = []
gaps (a ∷ []) = []
gaps (a ∷ b ∷ times) = quo_i (b -i a) 1000 ∷ gaps (b ∷ times)

abbrev pub first_or_zero : List ℤ → ℤ
first_or_zero [] = pos 0
first_or_zero (a ∷ times) = a

-- The text of a chunk that counts as a token.
abbrev pub text_of : Option Chunk → List ℕ
text_of none = []
text_of (some c) = if c.end then [] else c.content

module _ (d : Decoder) (t : Target) (sh : ResponseShape) where
  -- The clock's values for the payloads with a text.
  unfoldable pub token_times : (ℕ → Times) → ℕ → List Raw → List ℤ
  token_times clock n [] = []
  token_times clock n (payload ∷ payloads) =
      let rest = token_times clock (suc n) payloads in
      if is_empty (text_of (decode d t sh payload)) then rest else (clock n).token_ns ∷ rest

  -- The texts, joined.
  unfoldable pub whole_text : List Raw → List ℕ
  whole_text [] = []
  whole_text (payload ∷ payloads) = text_of (decode d t sh payload) ++ whole_text payloads

-- What is counted of a progress.
pub record Tally : Type 0 where
  pub tokens : ℕ
  pub first_ns : ℤ
  pub prev_ns : ℤ
  pub gaps_us : List ℤ

abbrev pub tally_at : Progress → Tally
tally_at p = record {
  tokens = p.request.tokens;
  first_ns = p.request.first_tok_ns;
  prev_ns = p.prev_tok_ns;
  gaps_us = p.request.itls_us;
}

abbrev pub count_one : ℤ → Tally → Tally
count_one now a =
    if a.first_ns == pos 0
    then record { tokens = a.tokens + 1; first_ns = now; prev_ns = now; gaps_us = a.gaps_us }
    else record {
      tokens = a.tokens + 1;
      first_ns = a.first_ns;
      prev_ns = now;
      gaps_us = a.gaps_us ++ quo_i (now -i a.prev_ns) 1000 ∷ [];
    }

abbrev pub count_text : ℤ → List ℕ → Tally → Tally
count_text now [] a = a
count_text now (b ∷ text) a = count_one now a

abbrev pub count_times : List ℤ → Tally → Tally
count_times [] a = a
count_times (now ∷ times) a = count_times times (count_one now a)

abbrev pub last_of : ℤ → List ℤ → ℤ
last_of prev [] = prev
last_of prev (now ∷ times) = last_of now times

module _ (d : Decoder) (t : Target) where
  record_usage-keeps :
      (c : Chunk) (r : Request)
      → ((record_usage d t c r).tokens ≡ r.tokens)
        × ((record_usage d t c r).first_tok_ns ≡ r.first_tok_ns)
        × ((record_usage d t c r).itls_us ≡ r.itls_us)
  unfolding record_usage
  record_usage-keeps c r = ground arith

  record_chunk-keeps :
      (now : ℤ) (c : Chunk) (r : Request)
      → ((record_chunk d t now c r).tokens ≡ r.tokens)
        × ((record_chunk d t now c r).first_tok_ns ≡ r.first_tok_ns)
        × ((record_chunk d t now c r).itls_us ≡ r.itls_us)
  unfolding record_chunk record_names record_texts
  record_chunk-keeps now c r =
      let counted = if c.known then r else record r { unknown_events = r.unknown_events + 1 } in
      ground (arith, record_usage-keeps c counted)

module _ (d : Decoder) (t : Target) (sh : ResponseShape) where
  add_content-tally_at :
      (now : ℤ) (text : List ℕ) (p : Progress)
      → tally_at (add_content d t sh now text p) ≡ count_text now text (tally_at p)
  unfolding add_content add_token
  add_content-tally_at now [] p = refl
  add_content-tally_at now (b ∷ text) p = ground arith

  tally_at-in_band :
      (b : Bool) (now : ℤ) (p : Progress)
      → tally_at (if b then record p { in_band_ns = now } else p) ≡ tally_at p
  tally_at-in_band true now p = refl
  tally_at-in_band false now p = refl

  -- The tally sees of a chunk only its text.
  add_chunk-tally_at :
      (at : Times) (c : Chunk) (p : Progress)
      → tally_at (add_chunk d t sh at c p) ≡ count_text at.token_ns c.content (tally_at p)
  unfolding add_chunk
  add_chunk-tally_at at c p =
      let recorded = record p {
        request = record_chunk d t at.reasoning_ns c p.request;
        reasoning = if t.hosted then p.reasoning ++ c.reasoning else p.reasoning;
      } in
      let (same_tokens, same_first, same_gaps) =
        record_chunk-keeps d t at.reasoning_ns c p.request in
      let same : tally_at recorded ≡ tally_at p = cc in
      tally_at-in_band (fails d t sh c) at.error_ns
        (add_content d t sh at.token_ns c.content recorded)
      ∙ add_content-tally_at at.token_ns c.content recorded
      ∙ ap (count_text at.token_ns c.content) same

  tally_at-if :
      (end : Bool) (now : ℤ) (text : List ℕ) (p q : Progress)
      → tally_at q ≡ count_text now text (tally_at p)
      → tally_at (if end then record p { saw_done = true } else q)
        ≡ count_text now (if end then [] else text) (tally_at p)
  tally_at-if true now text p q h = refl
  tally_at-if false now text p q h = h

  on_chunk-tally_at :
      (at : Times) (o : Option Chunk) (p : Progress)
      → tally_at (on_chunk d t sh at o p) ≡ count_text at.token_ns (text_of o) (tally_at p)
  on_chunk-tally_at at none p = refl
  on_chunk-tally_at at (some c) p =
      tally_at-if c.end at.token_ns c.content p (add_chunk d t sh at c p)
        (add_chunk-tally_at at c p)

  count_times-text :
      (now : ℤ) (text : List ℕ) (rest : List ℤ) (a : Tally)
      → count_times rest (count_text now text a)
        ≡ count_times (if is_empty text then rest else now ∷ rest) a
  count_times-text now [] rest a = refl
  count_times-text now (b ∷ text) rest a = refl

  pub read_payloads-tally_at :
      (clock : ℕ → Times) (n : ℕ) (payloads : List Raw) (p : Progress)
      → tally_at (read_payloads d t sh clock n payloads p)
        ≡ count_times (token_times d t sh clock n payloads) (tally_at p)
  unfolding read_payloads token_times
  read_payloads-tally_at clock n [] p = refl
  read_payloads-tally_at clock n (payload ∷ payloads) p =
      let o = decode d t sh payload in
      let rest = token_times d t sh clock (suc n) payloads in
      read_payloads-tally_at clock (suc n) payloads (on_chunk d t sh (clock n) o p)
      ∙ ap (count_times rest) (on_chunk-tally_at (clock n) o p)
      ∙ count_times-text (clock n).token_ns (text_of o) rest (tally_at p)
