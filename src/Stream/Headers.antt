-- ===== src/Stream/Headers.antt =====
-- internal/config/config.go and internal/loadgen/sse_client.go: the response headers that a request
-- records. Names are ASCII texts, as bytes; a header's values are in order.
use percentes.Base.{
  ℕ, ◌+◌, Bool, true, false, not, ◌&&◌, ◌||◌, Option, none, some, List, [], ◌∷◌, ◌==◌, nat_eq,
  bytes_eq, bytes, if◌then◌else◌, is_empty, length, take, ltb, leb, map,
}
use percentes.Base.Maps.{Assoc}
use percentes.Stream.Secrets.{starts_with, asterisk}

-- A letter in lower case.
abbrev pub fold : ℕ → ℕ
fold c = if leb b'A' c && leb c b'Z' then c + 32 else c

-- strings.EqualFold
unfoldable pub equal_fold : List ℕ → List ℕ → Bool
equal_fold [] [] = true
equal_fold [] (d ∷ t) = false
equal_fold (c ∷ s) [] = false
equal_fold (c ∷ s) (d ∷ t) = (fold c == fold d) && equal_fold s t

abbrev pub put : ℕ → Option (List ℕ) → Option (List ℕ)
put c none = none
put c (some p) = some (c ∷ p)

-- strings.CutSuffix(entry, "*")
unfoldable pub cut_star : List ℕ → Option (List ℕ)
cut_star [] = none
cut_star (c ∷ []) = if c == asterisk then some [] else none
cut_star (c ∷ d ∷ entry) = put c (cut_star (d ∷ entry))

abbrev pub credential_headers : List (List ℕ)
credential_headers =
    bytes "Authorization"
    ∷ bytes "Proxy-Authorization"
    ∷ bytes "Cookie"
    ∷ bytes "Set-Cookie"
    ∷ bytes "X-Api-Key"
    ∷ bytes "Api-Key"
    ∷ []

unfoldable pub matches_any : (List ℕ → List ℕ → Bool) → List (List ℕ) → List ℕ → Bool
matches_any matches [] name = false
matches_any matches (e ∷ entries) name = matches e name || matches_any matches entries name

-- CredentialHeader
unfoldable pub credential_header : List ℕ → Bool
unfolding matches_any equal_fold
credential_header name = matches_any (λ c n. equal_fold n c) credential_headers name

-- The test on a name and a prefix that stood before an asterisk.
abbrev pub begins_with : List ℕ → List ℕ → Bool
begins_with p name = leb (length p) (length name) && equal_fold (take (length p) name) p

abbrev pub match_cut : Option (List ℕ) → List ℕ → List ℕ → Bool
match_cut (some p) entry name = begins_with p name
match_cut none entry name = equal_fold entry name

-- headerMatch
unfoldable pub header_match : List ℕ → List ℕ → Bool
unfolding cut_star equal_fold
header_match entry name = match_cut (cut_star entry) entry name

-- HeaderAllowed
unfoldable pub header_allowed : List (List ℕ) → List ℕ → Bool
unfolding credential_header header_match matches_any
header_allowed allow name =
    if credential_header name then false else matches_any header_match allow name

-- HeaderRetained, of the target's retained headers.
unfoldable pub header_retained : List (List ℕ) → List ℕ → Bool
unfolding header_match matches_any
header_retained retained name = matches_any header_match retained name

-- strings.TrimSuffix(entry, "*"), given what CutSuffix finds.
abbrev pub trim_star : List ℕ → Option (List ℕ) → List ℕ
trim_star entry none = entry
trim_star entry (some p) = p

abbrev pub covers_cut : Option (List ℕ) → Option (List ℕ) → List ℕ → List ℕ → Bool
covers_cut (some p) cut a entry = begins_with p (trim_star entry cut)
covers_cut none (some q) a entry = false
covers_cut none none a entry = equal_fold a entry

-- headerCovers
unfoldable pub header_covers : List ℕ → List ℕ → Bool
unfolding cut_star equal_fold
header_covers a entry = covers_cut (cut_star a) (cut_star entry) a entry

-- strings.Contains(s, sub), the part first.
unfoldable pub is_within : List ℕ → List ℕ → Bool
unfolding starts_with
is_within sub [] = is_empty sub
is_within sub (c ∷ s) = starts_with sub (c ∷ s) || is_within sub s

-- containsAny
unfoldable pub contains_any : List ℕ → List (List ℕ) → Bool
unfolding is_within
contains_any s [] = false
contains_any s (sub ∷ subs) = (not (is_empty sub) && is_within sub s) || contains_any s subs

-- The inner loop of allowedHeaders.
unfoldable pub clean_values : List (List ℕ) → List (List ℕ) → List (List ℕ)
unfolding contains_any
clean_values secrets [] = []
clean_values secrets (v ∷ vs) =
    let rest = clean_values secrets vs in if contains_any v secrets then rest else v ∷ rest

abbrev pub put_header :
    List ℕ → List (List ℕ) → Assoc (List ℕ) (List (List ℕ)) → Assoc (List ℕ) (List (List ℕ))
put_header name [] rest = rest
put_header name (v ∷ vs) rest = (name, v ∷ vs) ∷ rest

-- allowedHeaders; a nil map is an empty one here.
unfoldable pub allowed_headers :
    Assoc (List ℕ) (List (List ℕ)) → List (List ℕ) → List (List ℕ) → Assoc (List ℕ) (List (List ℕ))
unfolding header_allowed clean_values
allowed_headers [] allow secrets = []
allowed_headers ((name, vs) ∷ h) allow secrets =
    let rest = allowed_headers h allow secrets in
    if header_allowed allow name then put_header name (clean_values secrets vs) rest else rest

abbrev pub retained_header_value : List ℕ
retained_header_value = bytes "[retained]"

-- retainHeaders: the headers that stay, and those that are kept apart.
unfoldable pub retain_headers :
    List (List ℕ)
    → Assoc (List ℕ) (List (List ℕ))
    → Assoc (List ℕ) (List (List ℕ)) × Assoc (List ℕ) (List (List ℕ))
unfolding header_retained
retain_headers retained [] = ([], [])
retain_headers retained ((name, vs) ∷ h) =
    let (left, kept) = retain_headers retained h in
    if header_retained retained name
    then ((name, map (λ v. retained_header_value) vs) ∷ left, (name, vs) ∷ kept)
    else ((name, vs) ∷ left, kept)

abbrev pub host_byte : ℕ → Bool
host_byte c =
    (leb b'a' c && leb c b'z')
    || ((leb b'A' c && leb c b'Z') || ((leb b'0' c && leb c b'9') || ((c == b'-') || (c == b'.'))))

unfoldable pub all_host_bytes : List ℕ → Bool
all_host_bytes [] = true
all_host_bytes (c ∷ s) = host_byte c && all_host_bytes s

-- hostnameShaped
unfoldable pub hostname_shaped : List ℕ → Bool
unfolding all_host_bytes
hostname_shaped s = if is_empty s || ltb 253 (length s) then false else all_host_bytes s

-- replicaFrom, on the header's value; the last flag says that the base URL parses and has no userinfo.
unfoldable pub replica_from : List ℕ → Bool → List ℕ → Bool → List ℕ
unfolding hostname_shaped
replica_from v mock api_key plain =
    if not mock || (is_empty v || (not (hostname_shaped v) || not (is_empty api_key)))
    then []
    else if plain
    then v
    else []
