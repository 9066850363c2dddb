-- ===== src/Sse/Split.antt =====
-- internal/sse/sse.go: `SplitLines`, the split function of the scanner.
use percentes.Base.{
  ℕ, suc, Bool, true, false, ◌&&◌, List, [], ◌∷◌, ◌==◌, nat_eq, bytes_eq, if◌then◌else◌,
}

-- What a split function returns: it asks for more data, or it advances and gives a token.
pub data Split : Type 0 where
  more : Split
  token : ℕ → List ℕ → Split

-- One byte of the line, put before what the rest of the loop finds.
abbrev pub push : ℕ → Split → Split
push c more = more
push c (token n l) = token (suc n) (c ∷ l)

-- The case of a carriage return, on the data after it.
unfoldable pub after_return : List ℕ → Bool → Split
after_return [] true = token 1 []
after_return [] false = more
after_return (d ∷ ds) at_eof = if d == b'\n' then token 2 [] else token 1 []

-- The loop, and the end of the function, on the data from some index.
unfoldable pub split_from : List ℕ → Bool → Split
unfolding after_return
split_from [] true = token 0 []
split_from [] false = more
split_from (c ∷ cs) at_eof =
    let rest = split_from cs at_eof in
    if c == b'\n' then token 1 [] else if c == b'\r' then after_return cs at_eof else push c rest

-- SplitLines
unfoldable pub split_line : List ℕ → Bool → Split
unfolding split_from
split_line data' at_eof = if at_eof && data' == [] then more else split_from data' at_eof
