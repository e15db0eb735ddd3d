-- ===== src/Flatten.antt =====
-- The entries of all KrakenDEndpoints in one list, an entry for each route and method:
-- `flattenEndpoints` and `formatDuration` of operator/internal/renderer/endpoints.go. A Go map is
-- an association list here; the order in which a loop visits it is a parameter.
pub mod Groups
pub mod Counts
pub mod Winners
pub mod Resolved
pub mod Durations
mod Tests
use kraken_d_operator.Base.{
  ℕ, suc, ◌≡◌, ◌↔◌, Bool, true, false, ◌&&◌, not, any, Option, none, some, List, [], ◌∷◌, ◌++◌,
  arith, leb, length, if◌then◌else◌,
}
use kraken_d_operator.Base.Int.{ℤ}
use kraken_d_operator.Base.Maps.{Eq, lookup, insert}
use kraken_d_operator.Base.Texts.{Text, text_eq, text_eq_iff, text_lt}
use kraken_d_operator.Route.Entries.{
  NamespacedName, source_key, EndpointEntry, FlatEndpoint, EntryConflict, served_before,
  conflict_before, sort_by,
}
use kraken_d_operator.Route.Paths.{conflict_key}
use kraken_d_operator.Route.Admission.{or_empty}

pub record PolicyRef : Type 0 where
  pub name : Text
  pub namespace : Text

abbrev pub resolved_namespace : PolicyRef → Text → Text
resolved_namespace r fallback = if not (text_eq r.namespace []) then r.namespace else fallback

abbrev pub policy_key : PolicyRef → Text → Text
policy_key r fallback = resolved_namespace r fallback ++ b'/' ∷ r.name

-- an entry with the policy that each of its backends names
pub record SpecEntry : Type 0 where
  pub entry : EndpointEntry
  pub policy_refs : List (Option PolicyRef)

-- what the flattening reads of a KrakenDEndpoint
pub record KrakenDEndpoint : Type 0 where
  pub name : Text
  pub namespace : Text
  pub creation_timestamp_unix : ℤ
  pub endpoints : List SpecEntry

pub record EndpointKey : Type 0 where
  pub endpoint : Text
  pub method : Text

abbrev pub same_key : EndpointKey → EndpointKey → Bool
same_key a b = text_eq a.endpoint b.endpoint && text_eq a.method b.method

pub same_key_iff : (a b : EndpointKey) → (same_key a b ≡ true) ↔ (a ≡ b)
same_key_iff a b = ground (arith, text_eq_iff a.endpoint b.endpoint, text_eq_iff a.method b.method)

instance abbrev pub endpoint_key : Eq EndpointKey
endpoint_key = record { beq = same_key; beq_iff = same_key_iff }

abbrev pub EntryGroups : Type 0
EntryGroups = List (EndpointKey × List FlatEndpoint)

-- whether a backend's policy is not among the policies, which are given by their keys
abbrev missing_policy : List Text → Text → Option PolicyRef → Bool
missing_policy policies namespace none = false
missing_policy policies namespace (some r) =
    not (any (λ key. text_eq key (policy_key r namespace)) policies)

abbrev pub has_invalid_policy : List Text → KrakenDEndpoint → Bool
has_invalid_policy policies ep =
    any (λ e. any (missing_policy policies ep.namespace) e.policy_refs) ep.endpoints

abbrev pub source_of : KrakenDEndpoint → NamespacedName
source_of ep = record { namespace = ep.namespace; name = ep.name }

unfoldable pub key_of : FlatEndpoint → EndpointKey
key_of fe = record { endpoint = conflict_key fe.entry.endpoint; method = fe.entry.method }

abbrev pub flat_entries : NamespacedName → ℤ → ℕ → List SpecEntry → List FlatEndpoint
flat_entries nn created idx [] = []
flat_entries nn created idx (e ∷ entries) =
    record { entry = e.entry; source = nn; creation_timestamp_unix = created; index = idx }
    ∷ flat_entries nn created (suc idx) entries

abbrev pub entries_of : KrakenDEndpoint → List FlatEndpoint
entries_of ep = flat_entries (source_of ep) ep.creation_timestamp_unix 0 ep.endpoints

unfoldable pub add_entry : EntryGroups → FlatEndpoint → EntryGroups
unfolding key_of
add_entry groups fe = insert (key_of fe) (or_empty (lookup (key_of fe) groups) ++ fe ∷ []) groups

-- the loop over the entries of one KrakenDEndpoint
unfoldable pub add_entries : EntryGroups → List FlatEndpoint → EntryGroups
unfolding add_entry
add_entries groups [] = groups
add_entries groups (fe ∷ fes) = add_entries (add_entry groups fe) fes

-- the loop over the KrakenDEndpoints: the groups, and the endpoints with a missing policy
unfoldable pub group_endpoints :
    List Text
    → List KrakenDEndpoint
    → EntryGroups
    → List NamespacedName
    → EntryGroups × List NamespacedName
unfolding add_entries
group_endpoints policies [] groups invalid = (groups, invalid)
group_endpoints policies (ep ∷ eps) groups invalid =
    let bad = group_endpoints policies eps groups (source_of ep ∷ invalid) in
    let good = group_endpoints policies eps (add_entries groups (entries_of ep)) invalid in
    if has_invalid_policy policies ep then bad else good

pub record Flattened : Type 0 where
  pub flat : List FlatEndpoint
  pub shadowed : List FlatEndpoint
  pub conflicted : List (NamespacedName × List EntryConflict)

abbrev pub lost_to : FlatEndpoint → FlatEndpoint → EntryConflict
lost_to winner loser = record {
  endpoint = loser.entry.endpoint;
  method = loser.entry.method;
  winner = winner.source;
  detail = [];
}

abbrev pub add_conflict :
    FlatEndpoint
    → FlatEndpoint
    → List (NamespacedName × List EntryConflict)
    → List (NamespacedName × List EntryConflict)
add_conflict winner loser conflicted =
    insert loser.source (or_empty (lookup loser.source conflicted) ++ lost_to winner loser ∷ [])
      conflicted

unfoldable pub add_conflicts :
    FlatEndpoint
    → List FlatEndpoint
    → List (NamespacedName × List EntryConflict)
    → List (NamespacedName × List EntryConflict)
add_conflicts winner [] conflicted = conflicted
add_conflicts winner (loser ∷ losers) conflicted =
    add_conflicts winner losers (add_conflict winner loser conflicted)

unfoldable pub split_group : Flattened → List FlatEndpoint → Flattened
unfolding add_conflicts
split_group s [] = s
split_group s (winner ∷ losers) = record {
  flat = s.flat ++ winner ∷ [];
  shadowed = s.shadowed ++ losers;
  conflicted = add_conflicts winner losers s.conflicted;
}

unfoldable pub resolve_group : Flattened → List FlatEndpoint → Flattened
unfolding split_group served_before
resolve_group s entries =
    if leb (length entries) 1
    then record s { flat = s.flat ++ entries }
    else split_group s (sort_by served_before entries)

unfoldable pub resolve_groups : Flattened → EntryGroups → Flattened
unfolding resolve_group
resolve_groups s [] = s
resolve_groups s ((key, entries) ∷ groups) = resolve_groups (resolve_group s entries) groups

unfoldable pub path_before : FlatEndpoint → FlatEndpoint → Bool
path_before a b =
    if not (text_eq a.entry.endpoint b.entry.endpoint)
    then text_lt a.entry.endpoint b.entry.endpoint
    else text_lt a.entry.method b.entry.method

abbrev pub sort_conflicts :
    List (NamespacedName × List EntryConflict) → List (NamespacedName × List EntryConflict)
sort_conflicts [] = []
sort_conflicts ((nn, cs) ∷ conflicted) =
    (nn, sort_by conflict_before cs) ∷ sort_conflicts conflicted

abbrev pub nothing_flat : Flattened
nothing_flat = record { flat = []; shadowed = []; conflicted = [] }

-- The second result has the endpoints with a missing policy. `visit` is the order of the loop over
-- the groups.
unfoldable pub flatten_endpoints :
    (EntryGroups → EntryGroups) → List KrakenDEndpoint → List Text → Flattened × List NamespacedName
unfolding group_endpoints resolve_groups path_before conflict_before
flatten_endpoints visit endpoints policies =
    let (groups, invalid) = group_endpoints policies endpoints [] [] in
    let s = resolve_groups nothing_flat (visit groups) in
    (
      record {
        flat = sort_by path_before s.flat;
        shadowed = s.shadowed;
        conflicted = sort_conflicts s.conflicted;
      },
      invalid,
    )
