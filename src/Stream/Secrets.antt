-- ===== src/Stream/Secrets.antt =====
-- internal/loadgen/sse_client.go: credentials that a body does not keep. A text is its bytes.
use percentes.Base.{
  ℕ, zero, suc, ◌+◌, ◌-◌, Bool, true, false, ◌&&◌, List, [], ◌∷◌, ◌==◌, nat_eq, if◌then◌else◌,
  length, take,
}

-- bytes.HasPrefix(b, prefix), the prefix first.
unfoldable pub starts_with : List ℕ → List ℕ → Bool
starts_with [] b = true
starts_with (p ∷ ps) [] = false
starts_with (p ∷ ps) (c ∷ b) = (p == c) && starts_with ps b

abbrev pub asterisk : ℕ
asterisk = b'*'

-- bytes.ReplaceAll of a text that is not empty by asterisks, from a byte on; the number is that of the
-- next bytes that an occurrence found before still covers.
unfoldable pub mask_from : List ℕ → ℕ → List ℕ → List ℕ
unfolding starts_with
mask_from s covered [] = []
mask_from s (suc k) (c ∷ b) = asterisk ∷ mask_from s k b
mask_from s zero (c ∷ b) =
    let found = starts_with s (c ∷ b) in
    (if found then asterisk else c) ∷ mask_from s (if found then length s - 1 else 0) b

-- A round of the loops over the secrets.
unfoldable pub mask : List ℕ → List ℕ → List ℕ
unfolding mask_from
mask [] b = b
mask (c ∷ s) b = mask_from (c ∷ s) 0 b

-- The loops of frameRecorder.result and of readErrorBody.
unfoldable pub mask_all : List (List ℕ) → List ℕ → List ℕ
unfolding mask
mask_all [] b = b
mask_all (s ∷ secrets) b = mask_all secrets (mask s b)

abbrev pub error_body_limit : ℕ
error_body_limit = 4096

abbrev pub longest_of : List (List ℕ) → ℕ
longest_of [] = 0
longest_of (s ∷ secrets) = length s

-- readErrorBody, of the bytes that arrive.
unfoldable pub read_error_body : List ℕ → List (List ℕ) → List ℕ
unfolding mask_all
read_error_body body secrets =
    take error_body_limit (mask_all secrets (take (error_body_limit + longest_of secrets) body))
