-- ===== src/Flatten/Groups.antt =====
-- What the groups of a flattening hold: each key's entries, in order.
use mathlib.Core.List.{Perm, append_assoc, append-nil, perm_middle}
use mathlib.Core.List.Perm
use kraken_d_operator.Base.{
  ◌≡◌, List, [], ◌∷◌, ◌++◌, inl, inr, refl, sym, ◌∙◌, Bool-cases, if◌then◌else◌,
}
use kraken_d_operator.Base.Maps.{IsKeyed, insert-IsKeyed, lookup, insert, lookup-insert}
use kraken_d_operator.Base.Texts.{Text}
use kraken_d_operator.Route.Entries.{FlatEndpoint, NamespacedName}
use kraken_d_operator.Route.Admission.{or_empty}
use kraken_d_operator.Flatten.{
  KrakenDEndpoint, EndpointKey, same_key, same_key_iff, endpoint_key, EntryGroups,
  has_invalid_policy, key_of, entries_of, add_entry, add_entries, group_endpoints,
}

-- the entries of the KrakenDEndpoints that miss no policy
unfoldable pub valid_entries : List Text → List KrakenDEndpoint → List FlatEndpoint
valid_entries policies [] = []
valid_entries policies (ep ∷ eps) =
    let rest = valid_entries policies eps in
    if has_invalid_policy policies ep then rest else entries_of ep ++ rest

unfoldable pub of_key : EndpointKey → List FlatEndpoint → List FlatEndpoint
of_key k [] = []
of_key k (fe ∷ fes) = let rest = of_key k fes in if same_key (key_of fe) k then fe ∷ rest else rest

add_entries-append :
    (gs : EntryGroups) (xs ys : List FlatEndpoint)
    → add_entries gs (xs ++ ys) ≡ add_entries (add_entries gs xs) ys
unfolding add_entries
add_entries-append gs [] ys = refl
add_entries-append gs (x ∷ xs) ys = add_entries-append (add_entry gs x) xs ys

pub group_endpoints-add_entries :
    (policies : List Text) (eps : List KrakenDEndpoint) (gs : EntryGroups)
    (invalid : List NamespacedName)
    → (group_endpoints policies eps gs invalid).0 ≡ add_entries gs (valid_entries policies eps)
unfolding group_endpoints valid_entries add_entries
group_endpoints-add_entries policies [] gs invalid = refl
group_endpoints-add_entries policies (ep ∷ eps) gs invalid =
    elim (Bool-cases (has_invalid_policy policies ep)) [
      | inl bad ↦ rw bad (group_endpoints-add_entries policies eps gs _)
      | inr good ↦ rw good (
          group_endpoints-add_entries policies eps (add_entries gs (entries_of ep)) invalid
          ∙ sym (add_entries-append gs (entries_of ep) (valid_entries policies eps)))
    ]

lookup-add_entry :
    (gs : EntryGroups) (fe : FlatEndpoint) (k : EndpointKey)
    → or_empty (lookup k (add_entry gs fe)) ≡ (
        if same_key (key_of fe) k
        then or_empty (lookup k gs) ++ fe ∷ []
        else or_empty (lookup k gs))
unfolding add_entry
lookup-add_entry gs fe k =
    rw (lookup-insert (key_of fe) k (or_empty (lookup (key_of fe) gs) ++ fe ∷ []) gs)
      (elim (Bool-cases (same_key (key_of fe) k)) [
        | inl same ↦ rw (same, (same_key_iff (key_of fe) k).0 same) refl
        | inr other ↦ rw other refl
      ])

-- The group of a key holds its entries, behind those that were there.
pub lookup-add_entries :
    (gs : EntryGroups) (fes : List FlatEndpoint) (k : EndpointKey)
    → or_empty (lookup k (add_entries gs fes)) ≡ or_empty (lookup k gs) ++ of_key k fes
unfolding add_entries of_key
lookup-add_entries gs [] k = sym (append-nil (or_empty (lookup k gs)))
lookup-add_entries gs (fe ∷ fes) k =
    lookup-add_entries (add_entry gs fe) fes k
    ∙ rw (lookup-add_entry gs fe k) (elim (Bool-cases (same_key (key_of fe) k)) [
      | inl same ↦ rw same (append_assoc (or_empty (lookup k gs)) (fe ∷ []) (of_key k fes))
      | inr other ↦ rw other refl
    ])

pub add_entries-IsKeyed :
    (gs : EntryGroups) (fes : List FlatEndpoint) → IsKeyed gs → IsKeyed (add_entries gs fes)
unfolding add_entries add_entry
add_entries-IsKeyed gs [] h = h
add_entries-IsKeyed gs (fe ∷ fes) h =
    add_entries-IsKeyed (add_entry gs fe) fes (insert-IsKeyed _ _ gs h)

-- all entries of the groups
unfoldable pub grouped : EntryGroups → List FlatEndpoint
grouped [] = []
grouped ((k, es) ∷ gs) = es ++ grouped gs

grouped-insert :
    (k : EndpointKey) (fe : FlatEndpoint) (es : List FlatEndpoint) (gs : EntryGroups)
    → es ≡ or_empty (lookup k gs) ++ fe ∷ []
    → Perm (grouped (insert k es gs)) (fe ∷ grouped gs)
unfolding grouped
grouped-insert k fe es [] h = rw h (Perm.refl (fe ∷ []))
grouped-insert k fe es ((j, ds) ∷ gs) h = elim (Bool-cases (same_key j k)) [
  | inl same ↦
      let e : es ≡ ds ++ fe ∷ [] = rw same at h in
      rw (same, e, append_assoc ds (fe ∷ []) (grouped gs)) (perm_middle ds (grouped gs))
  | inr other ↦
      let e : es ≡ or_empty (lookup k gs) ++ fe ∷ [] = rw other at h in
      rw other (
        Perm.trans (Perm.append_left ds (grouped-insert k fe es gs e))
          (perm_middle ds (grouped gs)))
]

-- The groups hold every entry once.
pub grouped-add_entries :
    (gs : EntryGroups) (fes : List FlatEndpoint)
    → Perm (grouped (add_entries gs fes)) (grouped gs ++ fes)
unfolding add_entries add_entry
grouped-add_entries gs [] = rw (append-nil (grouped gs)) (Perm.refl (grouped gs))
grouped-add_entries gs (fe ∷ fes) = Perm.trans (grouped-add_entries (add_entry gs fe) fes) (
    Perm.trans (Perm.append_right fes (grouped-insert (key_of fe) fe _ gs refl))
      (Perm.symm (perm_middle (grouped gs) fes)))
