-- ===== src/Check/Tests.antt =====
-- Runs of the checks, and each theorem at a concrete input.
use kraken_d_operator.Base.{true, false, none, some, [], ◌∷◌, ◌++◌, ◌≡◌, ◌↔◌, refl, Any, map}
use kraken_d_operator.Base.Texts.{Text, codes}
use kraken_d_operator.Route.Entries.{EntryConflict}
use kraken_d_operator.Route.Examples.{named}
use kraken_d_operator.Check.Verdicts.{
  Verdict, stage_check, suspect, cut_at, truncate, truncate_ellipsis, join_rest, join_bounded,
  excerpt, no_finding, findings, trim_space,
}
use kraken_d_operator.Check.Verdicts.Cuts.{IsCut, truncate-IsCut}
use kraken_d_operator.Check.Verdicts.Reasons.{IsBoundedText, join_bounded-IsBoundedText}
use kraken_d_operator.Check.Conflicts.{
  RouteConflicts, known_keys, fresh_of, fresh_from, clash_before, new_clashes,
}
use kraken_d_operator.Check.Conflicts.Fresh.{Lost, IsNewWith, new_clashes-IsNew}

-- two bytes of "é" and three of "€"
abbrev accents : Text
accents = 195 ∷ 169 ∷ 226 ∷ 130 ∷ 172 ∷ []

cuts :
    (truncate accents 4 ≡ 195 ∷ 169 ∷ [])
    × (truncate accents 1 ≡ [])
    × (truncate_ellipsis (codes "abcdef") 5 ≡ codes "ab...")
    × (join_bounded (codes "one" ∷ codes "two" ∷ codes "three" ∷ []) 9 ≡ codes "one; two (+1 more)")
    × (join_bounded (codes "abcdef" ∷ []) 3 ≡ codes "abc (truncated)")
    × (join_bounded (codes "abcdef" ∷ codes "g" ∷ []) 3 ≡ codes "abc (+1 more)")
unfolding truncate cut_at truncate_ellipsis join_bounded join_rest
cuts = (refl, refl, refl, refl, refl, refl)

abbrev rejection : Verdict
rejection = record {
  ok = false;
  output = codes "Parsing configuration file: krakend.json" ++ 10 ∷ codes "  bad route " ++ 10 ∷ [];
  masked = named "masked" ∷ [];
  stage = stage_check;
}

reasons :
    (excerpt rejection 100 ≡ codes "bad route")
    × (suspect (record rejection { ok = true }) (named "masked") ≡ true)
    × (suspect (record rejection { ok = true }) (named "other") ≡ false)
unfolding excerpt findings no_finding trim_space join_bounded join_rest suspect
reasons = (refl, refl, refl)

truncate-IsCut_example : IsCut accents 4 (truncate accents 4)
truncate-IsCut_example = truncate-IsCut accents 4

join_bounded-IsBoundedText_example :
    IsBoundedText accents (codes "two" ∷ []) 7 (join_bounded (accents ∷ codes "two" ∷ []) 7)
join_bounded-IsBoundedText_example = join_bounded-IsBoundedText accents (codes "two" ∷ []) 7

abbrev conflict : EntryConflict
conflict = record {
  endpoint = codes "/v1/users";
  method = codes "GET";
  winner = named "old";
  detail = codes "GET /v1/users clashes";
}

abbrev quiet : RouteConflicts
quiet = record { lost = []; capped = false }

abbrev clashing : RouteConflicts
clashing = record { lost = (named "young", conflict ∷ []) ∷ []; capped = false }

abbrev reworded : RouteConflicts
reworded = record {
  lost = (named "young", record conflict { detail = codes "other words" } ∷ []) ∷ [];
  capped = false;
}

clashes :
    (map (λ c. c.loser.name) (new_clashes quiet clashing none) ≡ codes "young" ∷ [])
    × (new_clashes clashing reworded none ≡ [])
    × (new_clashes quiet clashing (some (named "other" ∷ [])) ≡ [])
unfolding new_clashes known_keys fresh_of fresh_from clash_before
clashes = (refl, refl, refl)

new_clashes-IsNew_example :
    Any (λ c. c.winner ≡ named "old") (new_clashes quiet clashing none)
    ↔ Lost (IsNewWith (λ c. c.winner ≡ named "old") [] none) clashing.lost
new_clashes-IsNew_example = new_clashes-IsNew (λ c. c.winner ≡ named "old") quiet clashing none
