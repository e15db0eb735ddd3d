-- ===== src/Route/Paths.antt =====
-- Endpoint paths: operator/internal/renderer/routes.go, `ginPath` of routecheck.go, and the
-- wildcard tests of eewildcard.go. The regular expression `/\{([a-zA-Z\-_0-9]+)\}` and
-- `path.Clean` of the standard library are written out as scans.
use mathlib.Core.List.{reverse, tail}
use kraken_d_operator.Base.{
  ◌≡◌, refl, ℕ, zero, suc, ◌+◌, Bool, ◌&&◌, ◌||◌, not, Option, none, some, List, [], ◌∷◌, ◌++◌, leb,
  ltb, nat_eq, length, if◌then◌else◌,
}
use kraken_d_operator.Base.Texts.{
  Text, codes, text_eq, has_suffix, trim_prefix, trim_suffix, cut, replace_all,
}

-- `[a-zA-Z\-_0-9]`
abbrev pub is_name_byte : ℕ → Bool
is_name_byte c =
    (leb b'a' c && leb c b'z')
    || (leb b'A' c && leb c b'Z')
    || (leb b'0' c && leb c b'9')
    || nat_eq c b'-'
    || nat_eq c b'_'

-- the longest run of name bytes, and what follows it
abbrev pub name_run : Text → Text × Text
name_run [] = ([], [])
name_run (c ∷ s) =
    let rest = name_run s in if is_name_byte c then (c ∷ rest.0, rest.1) else ([], c ∷ s)

abbrev closed_name : Text × Text → Option Text
closed_name ([], rest) = none
closed_name (c ∷ name, []) = none
closed_name (c ∷ name, d ∷ rest) = if nat_eq d b'}' then some (c ∷ name) else none

-- the name of the parameter segment that begins here
unfoldable pub param_at : Text → Option Text
param_at (c ∷ d ∷ s) = if nat_eq c b'/' && nat_eq d b'{' then closed_name (name_run s) else none
param_at _ = none

-- `FindAllStringSubmatch`: matches do not overlap, and a match is three bytes longer than its name
scan_params : ℕ → Text → List Text
scan_params skip [] = []
scan_params (suc skip) (c ∷ s) = scan_params skip s
scan_params zero (c ∷ s) = elim (param_at (c ∷ s)) [
  | none ↦ scan_params zero s
  | some name ↦ name ∷ scan_params (length name + 2) s
]

unfoldable pub path_params : Text → List Text
unfolding scan_params param_at
path_params endpoint = scan_params 0 endpoint

-- `ReplaceAllString(endpoint, "/{}")`
erase_from : ℕ → Text → Text
erase_from skip [] = []
erase_from (suc skip) (c ∷ s) = erase_from skip s
erase_from zero (c ∷ s) = elim (param_at (c ∷ s)) [
  | none ↦ c ∷ erase_from zero s
  | some name ↦ codes "/{}" ++ erase_from (length name + 2) s
]

unfoldable pub erase_params : Text → Text
unfolding erase_from param_at
erase_params endpoint = erase_from 0 endpoint

-- the segments of a path, split at every slash
abbrev segments_from : Text → Text → List Text
segments_from cur [] = cur ∷ []
segments_from cur (c ∷ s) =
    let closed = segments_from [] s in
    let longer = segments_from (cur ++ c ∷ []) s in if nat_eq c b'/' then cur ∷ closed else longer

-- one segment of `path.Clean` on a rooted path; the stack has its top at the head
abbrev clean_segment : List Text → Text → List Text
clean_segment stack part =
    if text_eq part [] || text_eq part (codes ".")
    then stack
    else if text_eq part (codes "..")
    then tail stack
    else part ∷ stack

abbrev clean_segments : List Text → List Text → List Text
clean_segments stack [] = reverse stack
clean_segments stack (part ∷ parts) = clean_segments (clean_segment stack part) parts

abbrev join_rooted : List Text → Text
join_rooted [] = []
join_rooted (part ∷ parts) = b'/' ∷ part ++ join_rooted parts

-- `path.Clean("/" + p)`
unfoldable pub clean_rooted : Text → Text
clean_rooted p = elim (clean_segments [] (segments_from [] p)) [
  | [] ↦ codes "/"
  | part ∷ parts ↦ join_rooted (part ∷ parts)
]

unfoldable pub conflict_key : Text → Text
unfolding erase_params clean_rooted
conflict_key endpoint =
    let shape = erase_params endpoint in
    let cleaned = clean_rooted shape in
    if has_suffix shape (codes "/") && not (has_suffix cleaned (codes "/"))
    then cleaned ++ codes "/"
    else cleaned

unfoldable pub route_key : Text → Text → Text
unfolding conflict_key
route_key method endpoint = method ++ codes " " ++ conflict_key endpoint

replace_params : List Text → Text → Text
replace_params [] route = route
replace_params (param ∷ params) route =
    replace_params params (replace_all route (codes "{" ++ param ++ codes "}") (codes ":" ++ param))

abbrev with_query : Text → Option Text → Text
with_query route none = route
with_query route (some query) = route ++ codes "?" ++ query

unfoldable pub gin_path : Text → Text
unfolding replace_params path_params
gin_path endpoint =
    let p = codes "/" ++ trim_prefix endpoint (codes "/") in
    let (route, query) = cut b'?' p in with_query (replace_params (path_params p) route) query

unfoldable pub is_ee_wildcard : Text → Bool
is_ee_wildcard path = ltb 2 (length path) && has_suffix path (codes "/*")

abbrev pub ee_wildcard_param : Text
ee_wildcard_param = codes "{Wildcard}"

unfoldable pub route_shape : Text → Text
unfolding gin_path is_ee_wildcard
route_shape path =
    gin_path
      (if is_ee_wildcard path then trim_suffix path (codes "*") ++ ee_wildcard_param else path)

-- runs
clean_runs :
    (conflict_key (codes "/a//b/../{id}/x") ≡ codes "/a/{}/x")
    × (conflict_key (codes "/a/{x}/") ≡ codes "/a/{}/")
    × (gin_path (codes "a/{id}/b-{n}?q={id}") ≡ codes "/a/:id/b-{n}?q={id}")
    × (route_shape (codes "/v1/*") ≡ codes "/v1/:Wildcard")
    × (path_params (codes "/{a}/{b}/x{c}/{}/{d") ≡ codes "a" ∷ codes "b" ∷ [])
unfolding conflict_key route_shape
clean_runs = (refl, refl, refl, refl, refl)
