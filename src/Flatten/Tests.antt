-- ===== src/Flatten/Tests.antt =====
-- The theorems about the flattened list at concrete KrakenDEndpoints, and tests.
use mathlib.Core.List.{Perm}
use mathlib.Core.List.Permᴰ
use kraken_d_operator.Base.{◌*◌, ◌≤◌, ◌≡◌, none, some, List, [], ◌∷◌, ◌++◌, refl, All, Any, length}
use kraken_d_operator.Base.Int.{pos}
use kraken_d_operator.Base.Texts.{Text, codes}
use kraken_d_operator.Route.Paths.{conflict_key}
use kraken_d_operator.Flatten.{
  SpecEntry, KrakenDEndpoint, EndpointKey, EntryGroups, key_of, flatten_endpoints,
}
use kraken_d_operator.Flatten.Groups.{valid_entries, of_key}
use kraken_d_operator.Flatten.Resolved.{
  IsWinner, flatten_endpoints-IsWinner, flatten_endpoints-Perm,
}
use kraken_d_operator.Flatten.Durations.{format_duration, read_duration, read-format_duration}

abbrev in_order : EntryGroups → EntryGroups
in_order gs = gs

abbrev served : Text → SpecEntry
served path = record {
  entry = record { endpoint = path; method = codes "GET"; others = [] };
  policy_refs = none ∷ [];
}

abbrev newer_one : KrakenDEndpoint
newer_one = record {
  name = codes "b";
  namespace = codes "ns";
  creation_timestamp_unix = pos 9;
  endpoints = served (codes "/a/{id}") ∷ served (codes "/c") ∷ [];
}

abbrev older_one : KrakenDEndpoint
older_one = record {
  name = codes "a";
  namespace = codes "ns";
  creation_timestamp_unix = pos 5;
  endpoints = served (codes "/a/{x}") ∷ [];
}

-- Its policy is not there.
abbrev unserved : KrakenDEndpoint
unserved = record {
  name = codes "c";
  namespace = codes "ns";
  creation_timestamp_unix = pos 1;
  endpoints =
      record {
        entry = record { endpoint = codes "/c"; method = codes "GET"; others = [] };
        policy_refs = some (record { name = codes "p"; namespace = [] }) ∷ [];
      }
      ∷ [];
}

abbrev three : List KrakenDEndpoint
three = newer_one ∷ older_one ∷ unserved ∷ []

flattened :
    let (s, invalid) = flatten_endpoints in_order three [] in
    (s.flat
      ≡ record {
        entry = record { endpoint = codes "/a/{x}"; method = codes "GET"; others = [] };
        source = record { namespace = codes "ns"; name = codes "a" };
        creation_timestamp_unix = pos 5;
        index = 0;
      }
        ∷ record {
          entry = record { endpoint = codes "/c"; method = codes "GET"; others = [] };
          source = record { namespace = codes "ns"; name = codes "b" };
          creation_timestamp_unix = pos 9;
          index = 1;
        }
        ∷ [])
    × (length s.shadowed ≡ 1)
    × (invalid ≡ record { namespace = codes "ns"; name = codes "c" } ∷ [])
unfolding flatten_endpoints conflict_key
flattened = (refl, refl, refl)

flatten_endpoints-IsWinner_example :
    All (IsWinner (valid_entries [] three)) (flatten_endpoints in_order three []).0.flat
    × All
        (λ e. Any (λ w. key_of w ≡ key_of e) (flatten_endpoints in_order three []).0.flat)
        (valid_entries [] three)
    × ((k : EndpointKey) → length (of_key k (flatten_endpoints in_order three []).0.flat) ≤ 1)
unfolding valid_entries
flatten_endpoints-IsWinner_example =
    flatten_endpoints-IsWinner in_order (λ gs. Permᴰ.refl gs) three [] (refl, (refl, (refl, tt)))

flatten_endpoints-Perm_example :
    Perm
      ((flatten_endpoints in_order three []).0.flat
        ++ (flatten_endpoints in_order three []).0.shadowed)
      (valid_entries [] three)
flatten_endpoints-Perm_example = flatten_endpoints-Perm in_order (λ gs. Permᴰ.refl gs) three []

read-format_duration_example :
    read_duration (format_duration (pos (90 * 1000 * 1000 * 1000))) ≡ some (90 * 1000 * 1000 * 1000)
read-format_duration_example = read-format_duration (90 * 1000 * 1000 * 1000)

formatted : format_duration (pos (90 * 1000 * 1000 * 1000)) ≡ codes "90s"
unfolding format_duration
formatted = refl
