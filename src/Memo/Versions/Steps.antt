-- ===== src/Memo/Versions/Steps.antt =====
-- What one call of the memo of verified ConfigMaps can make it report.
use kraken_d_operator.Base.{
  true, some, [], ◌≡◌, ◌⊎◌, inl, inr, refl, Bool-cases, arith, leb, length, if◌then◌else◌,
}
use kraken_d_operator.Base.Maps.{lookup, lookup-insert, lookup-delete}
use kraken_d_operator.Base.Texts.{Text, text_eq, text_eq_iff, text_key}
use kraken_d_operator.Route.Entries.{NamespacedName, source_eq_lem, source_key}
use kraken_d_operator.Memo.Versions.{
  max_verified_per_gateway, ConfigMapVersion, version_eq_lem, VerifiedConfigMaps, versions_of, has,
  remember, forget,
}
use kraken_d_operator.Memo.Versions.History.{
  versions_of-remember, versions_of-forget, kept_cases, has-lookup,
}

lookup-has :
    (gw : NamespacedName) (name : Text) (version : ConfigMapVersion) (entries : VerifiedConfigMaps)
    → lookup name (versions_of gw entries) ≡ some version
    → has gw name version entries ≡ true
unfolding has
lookup-has gw name version entries h = rw h ((version_eq_lem version version).1 refl)

-- A version reported after `remember` is the remembered one, or was reported before.
pub has-remember_cases :
    (gw : NamespacedName) (n name : Text) (v version : ConfigMapVersion)
    (entries : VerifiedConfigMaps)
    → has gw name version (remember gw n v entries) ≡ true
    → ((n ≡ name) × (v ≡ version)) ⊎ (has gw name version entries ≡ true)
has-remember_cases gw n name v version entries h =
    let versions = versions_of gw entries in
    let full = leb max_verified_per_gateway (length versions) in
    let k =
      rw
        (
          versions_of-remember gw gw n v entries,
          (source_eq_lem gw gw).1 refl,
          lookup-insert n name v (if full then [] else versions),
        )
        at (has-lookup gw name version (remember gw n v entries) h) in
    elim (Bool-cases (text_eq n name)) [
      | inl hit ↦ inl ((text_eq_iff n name).0 hit, ground (arith, (rw hit at k)))
      | inr miss ↦ inr (
          lookup-has gw name version entries (kept_cases name version full versions (rw miss at k)))
    ]

-- A version reported after `forget` was reported before.
pub has-forget :
    (gw : NamespacedName) (n name : Text) (version : ConfigMapVersion)
    (entries : VerifiedConfigMaps)
    → has gw name version (forget gw n entries) ≡ true
    → has gw name version entries ≡ true
has-forget gw n name version entries h =
    let k =
      rw
        (
          versions_of-forget gw gw n entries,
          (source_eq_lem gw gw).1 refl,
          lookup-delete n name (versions_of gw entries),
        )
        at (has-lookup gw name version (forget gw n entries) h) in
    elim (Bool-cases (text_eq n name)) [
      | inl hit ↦ ground (arith, k, hit)
      | inr miss ↦ lookup-has gw name version entries (rw miss at k)
    ]
