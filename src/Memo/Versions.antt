-- ===== src/Memo/Versions.antt =====
-- operator/internal/controller/verified_configmaps.go.
pub mod History
pub mod Steps
use kraken_d_operator.Base.{
  ℕ, Bool, true, false, ◌&&◌, Option, none, some, List, [], ◌∷◌, ◌≡◌, ◌↔◌, arith, leb, length,
  if◌then◌else◌,
}
use kraken_d_operator.Base.Maps.{Eq, lookup, insert, delete}
use kraken_d_operator.Base.Texts.{Text, text_eq, text_eq_iff, text_key}
use kraken_d_operator.Route.Entries.{NamespacedName, source_key}
use kraken_d_operator.Route.Admission.{or_empty}

abbrev pub max_verified_per_gateway : ℕ
max_verified_per_gateway = 8

pub record ConfigMapVersion : Type 0 where
  pub uid : Text
  pub resource_version : Text

abbrev pub version_eq : ConfigMapVersion → ConfigMapVersion → Bool
version_eq a b = text_eq a.uid b.uid && text_eq a.resource_version b.resource_version

pub version_eq_lem : (a b : ConfigMapVersion) → (version_eq a b ≡ true) ↔ (a ≡ b)
version_eq_lem a b =
    ground (arith, text_eq_iff a.uid b.uid, text_eq_iff a.resource_version b.resource_version)

abbrev pub VersionMap : Type 0
VersionMap = List (Text × ConfigMapVersion)

abbrev pub VerifiedConfigMaps : Type 0
VerifiedConfigMaps = List (NamespacedName × VersionMap)

abbrev pub versions_of : NamespacedName → VerifiedConfigMaps → VersionMap
versions_of gw entries = or_empty (lookup gw entries)

abbrev is_some_version : ConfigMapVersion → Option ConfigMapVersion → Bool
is_some_version version none = false
is_some_version version (some v) = version_eq v version

unfoldable pub has : NamespacedName → Text → ConfigMapVersion → VerifiedConfigMaps → Bool
has gw name version entries = is_some_version version (lookup name (versions_of gw entries))

unfoldable pub remember :
    NamespacedName → Text → ConfigMapVersion → VerifiedConfigMaps → VerifiedConfigMaps
remember gw name version entries =
    let kept =
      if leb max_verified_per_gateway (length (versions_of gw entries))
      then delete gw entries
      else entries in
    insert gw (insert name version (versions_of gw kept)) kept

unfoldable pub forget : NamespacedName → Text → VerifiedConfigMaps → VerifiedConfigMaps
forget gw name entries = elim (lookup gw entries) [
  | none ↦ entries
  | some versions ↦ insert gw (delete name versions) entries
]

unfoldable pub forget_gateway : NamespacedName → VerifiedConfigMaps → VerifiedConfigMaps
forget_gateway gw entries = delete gw entries
