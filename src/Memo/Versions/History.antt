-- ===== src/Memo/Versions/History.antt =====
-- The memo after any sequence of calls.
use kraken_d_operator.Base.{
  suc, ◌≤◌, Bool, true, false, none, some, Option-cases, List, [], ◌∷◌, ◌≡◌, ◌≢◌, ◌⊎◌, inl, inr,
  refl, ap, Bool-cases, arith, leb, length, if◌then◌else◌,
}
use kraken_d_operator.Base.Maps.{lookup, insert, delete, lookup-insert, lookup-delete}
use kraken_d_operator.Base.Texts.{Text, text_eq, text_eq_iff, text_key}
use kraken_d_operator.Route.Entries.{NamespacedName, source_eq, source_eq_lem, source_key}
use kraken_d_operator.Memo.Versions.{
  max_verified_per_gateway, ConfigMapVersion, version_eq_lem, VersionMap, VerifiedConfigMaps,
  versions_of, has, remember, forget, forget_gateway,
}

pub data Call : Type 0 where
  call_remember : NamespacedName → Text → ConfigMapVersion → Call
  call_forget : NamespacedName → Text → Call
  call_forget_gateway : NamespacedName → Call

abbrev pub step : VerifiedConfigMaps → Call → VerifiedConfigMaps
step entries (call_remember gw name version) = remember gw name version entries
step entries (call_forget gw name) = forget gw name entries
step entries (call_forget_gateway gw) = forget_gateway gw entries

-- the memo after the calls, the latest first
abbrev pub after : List Call → VerifiedConfigMaps
after [] = []
after (c ∷ calls) = step (after calls) c

-- The calls, the latest first, say that this version was verified: a call remembered it, and no
-- later call remembered another version of the name or forgot the name or its gateway.
pub Verified : NamespacedName → Text → ConfigMapVersion → List Call → Type 0
Verified gw name version [] = ⊥
Verified gw name version (call_remember g n v ∷ calls) =
    ((g ≡ gw) × (n ≡ name) × (v ≡ version))
    ⊎ (((g ≢ gw) ⊎ (n ≢ name)) × Verified gw name version calls)
Verified gw name version (call_forget g n ∷ calls) =
    ((g ≢ gw) ⊎ (n ≢ name)) × Verified gw name version calls
Verified gw name version (call_forget_gateway g ∷ calls) = (g ≢ gw) × Verified gw name version calls

length-insert :
    (name : Text) (v : ConfigMapVersion) (m : VersionMap)
    → length (insert name v m) ≤ suc (length m)
length-insert name v [] = omega arith
length-insert name v ((j, w) ∷ m) = ground (arith, length-insert name v m)

length-delete : (name : Text) (m : VersionMap) → length (delete name m) ≤ length m
length-delete name [] = omega arith
length-delete name ((j, w) ∷ m) = ground (arith, length-delete name m)

-- What each call leaves of a gateway's versions.
pub versions_of-remember :
    (gw g : NamespacedName) (name : Text) (v : ConfigMapVersion) (entries : VerifiedConfigMaps)
    → versions_of gw (remember g name v entries) ≡ (
        if source_eq g gw
        then insert name v (
            if leb max_verified_per_gateway (length (versions_of g entries))
            then []
            else versions_of g entries)
        else versions_of gw entries)
unfolding remember
versions_of-remember gw g name v entries =
    elim (Bool-cases (leb max_verified_per_gateway (length (versions_of g entries)))) [
      | inl full ↦
          let self = (source_eq_lem g g).1 refl in
          rw
            (
              full,
              lookup-insert g gw _ (delete g entries),
              lookup-delete g g entries,
              lookup-delete g gw entries,
              self,
            )
            (elim (Bool-cases (source_eq g gw)) [
              | inl same ↦ rw same refl
              | inr other ↦ rw other refl
            ])
      | inr room ↦
          rw (room, lookup-insert g gw _ entries)
            (elim (Bool-cases (source_eq g gw)) [
              | inl same ↦ rw same refl
              | inr other ↦ rw other refl
            ])
    ]

pub versions_of-forget :
    (gw g : NamespacedName) (name : Text) (entries : VerifiedConfigMaps)
    → versions_of gw (forget g name entries)
      ≡ (if source_eq g gw then delete name (versions_of g entries) else versions_of gw entries)
unfolding forget
versions_of-forget gw g name entries = elim (Option-cases (lookup g entries)) [
  | inl missing ↦ elim (Bool-cases (source_eq g gw)) [
    | inl same ↦
        let e = (source_eq_lem g gw).0 same in
        let also : lookup gw entries ≡ none = rw e at missing in
        rw (missing, same, forget) (rw also refl)
    | inr other ↦ rw (other, missing, forget) refl
  ]
  | inr (versions, there) ↦
      rw (forget, there, lookup-insert g gw (delete name versions) entries)
        (elim (Bool-cases (source_eq g gw)) [ inl same ↦ rw same refl | inr other ↦ rw other refl ])
]

versions_of-forget_gateway :
    (gw g : NamespacedName) (entries : VerifiedConfigMaps)
    → versions_of gw (forget_gateway g entries)
      ≡ (if source_eq g gw then [] else versions_of gw entries)
unfolding forget_gateway
versions_of-forget_gateway gw g entries =
    rw (lookup-delete g gw entries)
      (elim (Bool-cases (source_eq g gw)) [ inl same ↦ rw same refl | inr other ↦ rw other refl ])

-- After any calls, no gateway has more than eight versions remembered.
length-versions_of :
    (gw : NamespacedName) (calls : List Call) → length (versions_of gw (after calls)) ≤ 8
length-versions_of gw [] = omega arith
length-versions_of gw (call_remember g name v ∷ calls) =
    let here = length-versions_of gw calls in
    rw (versions_of-remember gw g name v (after calls)) (
      ground
        (arith, here, length-insert name v [], length-insert name v (versions_of g (after calls))))
length-versions_of gw (call_forget g name ∷ calls) =
    let here = length-versions_of gw calls in
    let there = length-versions_of g calls in
    rw (versions_of-forget gw g name (after calls))
      (ground (arith, here, there, length-delete name (versions_of g (after calls))))
length-versions_of gw (call_forget_gateway g ∷ calls) =
    let here = length-versions_of gw calls in
    rw (versions_of-forget_gateway gw g (after calls)) (ground (arith, here))

-- what the memo remembers, as the lookup that `has` compares
abbrev IsKept : NamespacedName → Text → ConfigMapVersion → List Call → Type 0
IsKept gw name version calls = lookup name (versions_of gw (after calls)) ≡ some version

-- the bound on one gateway's versions only forgets
pub kept_cases :
    (name : Text) (version : ConfigMapVersion) (full : Bool) (versions : VersionMap)
    → lookup name (if full then [] else versions) ≡ some version
    → lookup name versions ≡ some version
kept_cases name version true versions h = ground arith
kept_cases name version false versions h = h

abbrev IsOther : NamespacedName → Text → NamespacedName → Text → Type 0
IsOther g n gw name = (g ≢ gw) ⊎ (n ≢ name)

IsOther-gateway :
    (g gw : NamespacedName) (n name : Text) → source_eq g gw ≡ false → IsOther g n gw name
IsOther-gateway g gw n name h = inl (λ e. ground (arith, h, (source_eq_lem g gw).1 e))

IsOther-name :
    (g gw : NamespacedName) (n name : Text) → text_eq n name ≡ false → IsOther g n gw name
IsOther-name g gw n name h = inr (λ e. ground (arith, h, (text_eq_iff n name).1 e))

IsKept-Verified :
    (gw : NamespacedName) (name : Text) (version : ConfigMapVersion) (calls : List Call)
    → IsKept gw name version calls
    → Verified gw name version calls
unfolding Verified
IsKept-Verified gw name version [] h = ground arith
IsKept-Verified gw name version (call_remember g n v ∷ calls) h =
    let k = rw (versions_of-remember gw g n v (after calls)) at h in
    elim (Bool-cases (source_eq g gw)) [
      | inr other ↦
          inr (
            IsOther-gateway g gw n name other,
            IsKept-Verified gw name version calls (rw other at k),
          )
      | inl same ↦
          let e = (source_eq_lem g gw).0 same in
          let versions = versions_of g (after calls) in
          let full = leb max_verified_per_gateway (length versions) in
          let k' = rw (same, lookup-insert n name v (if full then [] else versions)) at k in
          elim (Bool-cases (text_eq n name)) [
            | inl hit ↦ inl (e, (text_eq_iff n name).0 hit, ground (arith, (rw hit at k')))
            | inr miss ↦
                let l = kept_cases name version full versions (rw miss at k') in
                inr
                  (IsOther-name g gw n name miss, IsKept-Verified gw name version calls (rw e at l))
          ]
    ]
IsKept-Verified gw name version (call_forget g n ∷ calls) h =
    let k = rw (versions_of-forget gw g n (after calls)) at h in
    elim (Bool-cases (source_eq g gw)) [
      | inr other ↦
          (IsOther-gateway g gw n name other, IsKept-Verified gw name version calls (rw other at k))
      | inl same ↦
          let e = (source_eq_lem g gw).0 same in
          let k' = rw (same, lookup-delete n name (versions_of g (after calls))) at k in
          elim (Bool-cases (text_eq n name)) [
            | inl hit ↦ ground (arith, k', hit)
            | inr miss ↦
                let l = rw miss at k' in
                (IsOther-name g gw n name miss, IsKept-Verified gw name version calls (rw e at l))
          ]
    ]
IsKept-Verified gw name version (call_forget_gateway g ∷ calls) h =
    let k = rw (versions_of-forget_gateway gw g (after calls)) at h in
    elim (Bool-cases (source_eq g gw)) [
      | inl same ↦ ground (arith, k, same)
      | inr other ↦ (
        (λ e. ground (arith, other, (source_eq_lem g gw).1 e)),
        IsKept-Verified gw name version calls (rw other at k),
      )
    ]

pub has-lookup :
    (gw : NamespacedName) (name : Text) (version : ConfigMapVersion) (entries : VerifiedConfigMaps)
    → has gw name version entries ≡ true
    → lookup name (versions_of gw entries) ≡ some version
unfolding has
has-lookup gw name version entries h = elim (Option-cases (lookup name (versions_of gw entries))) [
  | inl missing ↦ ground (arith, h, missing)
  | inr (v, there) ↦ let k = rw there at h in rw there (ap some ((version_eq_lem v version).0 k))
]

-- After any calls, a version that the memo reports as verified was remembered by a call, and no
-- later call remembered another version of that name, forgot the name or forgot the gateway.
pub has-Verified :
    (gw : NamespacedName) (name : Text) (version : ConfigMapVersion) (calls : List Call)
    → has gw name version (after calls) ≡ true
    → Verified gw name version calls
has-Verified gw name version calls h =
    IsKept-Verified gw name version calls (has-lookup gw name version (after calls) h)

-- Whatever the calls before, a version that was just remembered is reported as verified.
has-remember :
    (gw : NamespacedName) (name : Text) (version : ConfigMapVersion) (calls : List Call)
    → has gw name version (after (call_remember gw name version ∷ calls)) ≡ true
unfolding has
has-remember gw name version calls =
    rw
      (
        versions_of-remember gw gw name version (after calls),
        (source_eq_lem gw gw).1 refl,
        lookup-insert name name version (
            if leb max_verified_per_gateway (length (versions_of gw (after calls)))
            then []
            else versions_of gw (after calls)),
        (text_eq_iff name name).1 refl,
        (version_eq_lem version version).1 refl,
      )
      refl
