-- ===== src/Check/Conflicts.antt =====
-- operator/internal/configcheck/clash.go: the clashes that one render of a gateway has and another
-- has not. `involving` is a set as a list of its members, `none` where it is nil.
pub mod Fresh
use kraken_d_operator.Base.{
  ℕ, Bool, true, false, ◌&&◌, ◌||◌, not, Option, none, some, List, [], ◌∷◌, ◌++◌, ◌≡◌, ◌↔◌, arith,
  any, if◌then◌else◌,
}
use kraken_d_operator.Base.Texts.{Text, text_eq, text_eq_iff, text_lt}
use kraken_d_operator.Route.Entries.{
  NamespacedName, source_eq, source_eq_lem, source_text, EntryConflict, sort_by,
}
use kraken_d_operator.Route.Drop.{Conflicts}

pub record RouteConflicts : Type 0 where
  pub lost : Conflicts
  pub capped : Bool

pub record Clash : Type 0 where
  pub loser : NamespacedName
  pub method : Text
  pub endpoint : Text
  pub winner : NamespacedName
  pub detail : Text

pub record ClashKey : Type 0 where
  pub loser : NamespacedName
  pub winner : NamespacedName
  pub method : Text
  pub endpoint : Text

abbrev pub key_of : NamespacedName → EntryConflict → ClashKey
key_of loser e = record {
  loser = loser;
  winner = e.winner;
  method = e.method;
  endpoint = e.endpoint;
}

abbrev pub key_eq : ClashKey → ClashKey → Bool
key_eq a b =
    source_eq a.loser b.loser
    && source_eq a.winner b.winner
    && text_eq a.method b.method
    && text_eq a.endpoint b.endpoint

pub key_eq_lem : (a b : ClashKey) → (key_eq a b ≡ true) ↔ (a ≡ b)
key_eq_lem a b = ground (
  arith,
  source_eq_lem a.loser b.loser,
  source_eq_lem a.winner b.winner,
  text_eq_iff a.method b.method,
  text_eq_iff a.endpoint b.endpoint,
)

abbrev pub keys_of_loser : NamespacedName → List EntryConflict → List ClashKey
keys_of_loser loser [] = []
keys_of_loser loser (e ∷ lost) = key_of loser e ∷ keys_of_loser loser lost

-- the first loop
unfoldable pub known_keys : Conflicts → List ClashKey
known_keys [] = []
known_keys ((loser, lost) ∷ rest) = keys_of_loser loser lost ++ known_keys rest

abbrev pub is_member : NamespacedName → List NamespacedName → Bool
is_member name names = any (λ n. source_eq n name) names

abbrev pub is_involved : Option (List NamespacedName) → NamespacedName → NamespacedName → Bool
is_involved none loser winner = true
is_involved (some names) loser winner = is_member loser names || is_member winner names

abbrev pub is_known : List ClashKey → ClashKey → Bool
is_known known key = any (λ k. key_eq k key) known

abbrev pub clash_of : NamespacedName → EntryConflict → Clash
clash_of loser e = record {
  loser = loser;
  method = e.method;
  endpoint = e.endpoint;
  winner = e.winner;
  detail = e.detail;
}

-- the second loop, for one loser
unfoldable pub fresh_of :
    List ClashKey → Option (List NamespacedName) → NamespacedName → List EntryConflict → List Clash
fresh_of known involving loser [] = []
fresh_of known involving loser (e ∷ lost) =
    let rest = fresh_of known involving loser lost in
    if text_eq e.detail []
      || is_known known (key_of loser e)
      || not (is_involved involving loser e.winner)
    then rest
    else clash_of loser e ∷ rest

unfoldable pub fresh_from : List ClashKey → Option (List NamespacedName) → Conflicts → List Clash
unfolding fresh_of
fresh_from known involving [] = []
fresh_from known involving ((loser, lost) ∷ rest) =
    fresh_of known involving loser lost ++ fresh_from known involving rest

unfoldable pub clash_before : Clash → Clash → Bool
clash_before a b =
    if text_lt (source_text a.loser) (source_text b.loser)
    then true
    else if text_lt (source_text b.loser) (source_text a.loser)
    then false
    else if text_lt a.endpoint b.endpoint
    then true
    else if text_lt b.endpoint a.endpoint
    then false
    else if text_lt a.method b.method
    then true
    else if text_lt b.method a.method
    then false
    else text_lt (source_text a.winner) (source_text b.winner)

unfoldable pub new_clashes :
    RouteConflicts → RouteConflicts → Option (List NamespacedName) → List Clash
unfolding fresh_from known_keys clash_before
new_clashes before after involving =
    sort_by clash_before (fresh_from (known_keys before.lost) involving after.lost)
