-- ===== src/Check/Verdicts.antt =====
-- operator/internal/configcheck/verdict.go: verdicts and the bounded text of a rejection. A limit
-- is a natural number: the callers pass positive constants.
pub mod Cuts
pub mod Reasons
use mathlib.Core.List.{reverse}
use kraken_d_operator.Base.{
  ℕ, zero, suc, ◌+◌, ◌-◌, ◌/◌, ◌%◌, Bool, true, false, ◌&&◌, ◌||◌, not, Option, none, some, List,
  [], ◌∷◌, ◌++◌, leb, ltb, nat_eq, length, any, if◌then◌else◌,
}
use kraken_d_operator.Base.Texts.{Text, codes, text_eq, has_prefix}
use kraken_d_operator.Route.Entries.{NamespacedName, source_eq}

pub data RejectionStage : Type 0 where
  stage_unknown : RejectionStage
  stage_ee_wildcard : RejectionStage
  stage_route : RejectionStage
  stage_check : RejectionStage

pub record Verdict : Type 0 where
  pub ok : Bool
  pub output : Text
  pub masked : List NamespacedName
  pub stage : RejectionStage

unfoldable pub suspect : Verdict → NamespacedName → Bool
suspect v name = not v.ok || any (λ n. source_eq n name) v.masked

-- `utf8.RuneStart`
abbrev pub is_rune_start : ℕ → Bool
is_rune_start c = not (leb 128 c && leb c 191)

abbrev pub starts_rune : Text → Bool
starts_rune [] = false
starts_rune (c ∷ s) = is_rune_start c

abbrev pub take : ℕ → Text → Text
take zero s = []
take (suc n) [] = []
take (suc n) (c ∷ s) = c ∷ take n s

abbrev pub drop : ℕ → Text → Text
drop zero s = s
drop (suc n) [] = []
drop (suc n) (c ∷ s) = drop n s

-- the loop that moves the cut back to the start of a rune
unfoldable pub cut_at : ℕ → Text → ℕ
cut_at zero s = 0
cut_at (suc n) s = let rest = cut_at n s in if starts_rune (drop (suc n) s) then suc n else rest

unfoldable pub truncate : Text → ℕ → Text
unfolding cut_at
truncate s limit = if leb (length s) limit then s else take (cut_at limit s) s

unfoldable pub truncate_ellipsis : Text → ℕ → Text
truncate_ellipsis s limit =
    if leb (length s) limit
    then s
    else if ltb limit 3
    then truncate s limit
    else truncate s (limit - 3) ++ codes "..."

-- `%d`: the fuel is at least the number of digits
abbrev pub decimal_from : ℕ → ℕ → Text
decimal_from zero n = []
decimal_from (suc fuel) n =
    let rest = decimal_from fuel (n / 10) in
    if ltb n 10 then (48 + n) ∷ [] else rest ++ (48 + n % 10) ∷ []

abbrev pub decimal : ℕ → Text
decimal n = decimal_from (suc n) n

-- what follows the kept parts when `left` of them are left out
abbrev pub marker : ℕ → Text
marker zero = codes " (truncated)"
marker (suc left) = codes " (+" ++ (decimal (suc left) ++ codes " more)")

-- the loop behind the first part; `room` is what the limit leaves
unfoldable pub join_rest : List Text → ℕ → Text
join_rest [] room = []
join_rest (s ∷ parts) room =
    let more = join_rest parts (room - (length s + 2)) in
    if leb (length s + 2) room then codes "; " ++ (s ++ more) else marker (suc (length parts))

unfoldable pub join_bounded : List Text → ℕ → Text
unfolding join_rest
join_bounded [] limit = []
join_bounded (s ∷ parts) limit =
    let more = join_rest parts (limit - length s) in
    if leb (length s) limit then s ++ more else truncate s limit ++ marker (length parts)

-- The encodings of the runes that `unicode.IsSpace` accepts.
abbrev spaces : List Text
spaces =
    (9 ∷ [])
    ∷ (10 ∷ [])
    ∷ (11 ∷ [])
    ∷ (12 ∷ [])
    ∷ (13 ∷ [])
    ∷ (32 ∷ [])
    ∷ (194 ∷ 133 ∷ [])
    ∷ (194 ∷ 160 ∷ [])
    ∷ (225 ∷ 154 ∷ 128 ∷ [])
    ∷ (226 ∷ 128 ∷ 128 ∷ [])
    ∷ (226 ∷ 128 ∷ 129 ∷ [])
    ∷ (226 ∷ 128 ∷ 130 ∷ [])
    ∷ (226 ∷ 128 ∷ 131 ∷ [])
    ∷ (226 ∷ 128 ∷ 132 ∷ [])
    ∷ (226 ∷ 128 ∷ 133 ∷ [])
    ∷ (226 ∷ 128 ∷ 134 ∷ [])
    ∷ (226 ∷ 128 ∷ 135 ∷ [])
    ∷ (226 ∷ 128 ∷ 136 ∷ [])
    ∷ (226 ∷ 128 ∷ 137 ∷ [])
    ∷ (226 ∷ 128 ∷ 138 ∷ [])
    ∷ (226 ∷ 128 ∷ 168 ∷ [])
    ∷ (226 ∷ 128 ∷ 169 ∷ [])
    ∷ (226 ∷ 128 ∷ 175 ∷ [])
    ∷ (226 ∷ 129 ∷ 159 ∷ [])
    ∷ (227 ∷ 128 ∷ 128 ∷ [])
    ∷ []

abbrev reversed : List Text → List Text
reversed [] = []
reversed (s ∷ rest) = reverse s ∷ reversed rest

-- the length of the space that `s` begins with
abbrev space_length : List Text → Text → ℕ
space_length [] s = 0
space_length (p ∷ rest) s = if has_prefix s p then length p else space_length rest s

-- the first argument counts the bytes of a space that are still to be skipped
trim_from : List Text → ℕ → Text → Text
trim_from sps skip [] = []
trim_from sps (suc skip) (c ∷ s) = trim_from sps skip s
trim_from sps zero (c ∷ s) = elim (space_length sps (c ∷ s)) [
  | zero ↦ c ∷ s
  | suc n ↦ trim_from sps n s
]

-- `strings.TrimSpace`
unfoldable pub trim_space : Text → Text
unfolding trim_from
trim_space s = reverse (trim_from (reversed spaces) 0 (reverse (trim_from spaces 0 s)))

-- `strings.Split(s, "\n")`
abbrev split_lines_from : Text → Text → List Text
split_lines_from cur [] = cur ∷ []
split_lines_from cur (c ∷ s) =
    let closed = split_lines_from [] s in
    let longer = split_lines_from (cur ++ c ∷ []) s in if nat_eq c 10 then cur ∷ closed else longer

unfoldable pub no_finding : Text → Bool
no_finding line =
    text_eq line []
    || text_eq line (codes "Syntax OK!")
    || has_prefix line (codes "Parsing configuration file")
    || has_prefix line (codes "ERROR linting the configuration file")

unfoldable pub findings : List Text → List Text
unfolding no_finding trim_space
findings [] = []
findings (l ∷ lines) =
    let rest = findings lines in if no_finding (trim_space l) then rest else trim_space l ∷ rest

abbrev or_no_output : Bool → List Text → List Text
or_no_output false [] = codes "rejected with no output" ∷ []
or_no_output ok lines = lines

unfoldable pub excerpt : Verdict → ℕ → Text
unfolding findings join_bounded
excerpt v limit = join_bounded (or_no_output v.ok (findings (split_lines_from [] v.output))) limit
