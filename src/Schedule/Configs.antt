-- ===== src/Schedule/Configs.antt =====
-- internal/schedule/schedule.go: `routeConfigs`, the frozen configurations of the routes.
use percentes.Base.{
  ℕ, Bool, true, false, not, ◌&&◌, ◌||◌, List, [], ◌∷◌, ◌==◌, nat_eq, bytes_eq, ltb, leb, length,
  Result, ok, ◌>>=◌, ◌>>◌, refuse_if,
}
use percentes.Base.Sort.{sort_by}
use percentes.Schedule.Types.{
  RouteConfig, ScheduleError, config_not_scheduled, bad_config_hash, bad_config_hmac,
  bad_host_group, same_config,
}

-- strings.Compare(a, b) < 0
unfoldable pub bytes_ltb : List ℕ → List ℕ → Bool
bytes_ltb [] [] = false
bytes_ltb [] (d ∷ t) = true
bytes_ltb (c ∷ s) [] = false
bytes_ltb (c ∷ s) (d ∷ t) = ltb c d || (c == d && bytes_ltb s t)

-- slices.Contains
unfoldable pub contains : List (List ℕ) → List ℕ → Bool
contains [] r = false
contains (s ∷ rs) r = s == r || contains rs r

-- Two neighbours of a sorted list are equal.
unfoldable pub has_twins : List (List ℕ) → Bool
has_twins [] = false
has_twins (r ∷ []) = false
has_twins (r ∷ s ∷ rs) = r == s || has_twins (s ∷ rs)

abbrev pub is_hex : ℕ → Bool
is_hex c = (leb b'0' c && leb c b'9') || (leb b'a' c && leb c b'f')

abbrev pub all_hex : List ℕ → Bool
all_hex [] = true
all_hex (c ∷ s) = is_hex c && all_hex s

-- isSHA256: 32 bytes in lowercase hex.
unfoldable pub is_sha256 : List ℕ → Bool
is_sha256 s = length s == 64 && all_hex s

-- The checks of the loop of routeConfigs on one configuration, and its sorted host group.
unfoldable pub check_config : List (List ℕ) → RouteConfig → Result ScheduleError RouteConfig
unfolding contains is_sha256 has_twins
check_config routes c = do
  refuse_if (not (contains routes c.route)) config_not_scheduled
  refuse_if (not (is_sha256 c.config_sha256)) bad_config_hash
  refuse_if (not (c.config_hmac_sha256 == []) && not (is_sha256 c.config_hmac_sha256))
      bad_config_hmac
  let hosts = sort_by bytes_ltb c.host_group
  refuse_if (not (contains hosts c.route) || has_twins hosts) bad_host_group
  ok (record c { host_group = hosts })

unfoldable pub check_configs :
    List (List ℕ) → List RouteConfig → Result ScheduleError (List RouteConfig)
check_configs routes [] = ok []
check_configs routes (c ∷ cs) = do
  d ← check_config routes c
  ds ← check_configs routes cs
  ok (d ∷ ds)

abbrev pub config_ltb : RouteConfig → RouteConfig → Bool
config_ltb a b = bytes_ltb a.route b.route

abbrev pub config_routes : List RouteConfig → List (List ℕ)
config_routes [] = []
config_routes (c ∷ cs) = c.route ∷ config_routes cs

-- routeConfigs
unfoldable pub route_configs :
    List (List ℕ) → List RouteConfig → Result ScheduleError (List RouteConfig)
unfolding check_config
route_configs routes cs = do
  ds ← check_configs routes cs
  let out = sort_by config_ltb ds
  refuse_if (has_twins (config_routes out)) same_config
  ok out
