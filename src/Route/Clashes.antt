-- ===== src/Route/Clashes.antt =====
-- The clashes of an entry with older entries: `pairwiseClashes`, `withClashes`,
-- `eeWildcardOverlaps` and `olderClashes` of operator/internal/renderer/routeadmit.go.
pub mod Sound
use kraken_d_operator.Base.{
  ℕ, Bool, true, false, ◌&&◌, ◌||◌, not, Option, none, some, List, [], ◌∷◌, ◌++◌, any,
  if◌then◌else◌, map,
}
use kraken_d_operator.Base.Texts.{Text, codes, text_eq, has_prefix, trim_suffix}
use kraken_d_operator.Route.Paths.{is_ee_wildcard, route_shape}
use kraken_d_operator.Route.Entries.{NamespacedName, source_eq}
use kraken_d_operator.Route.Gin.{GinRoute, Gin, RouteRules, is_refusal, shared_options, engine_with}

pub record RoutedRoute : Type 0 where
  pub route : GinRoute
  pub source : NamespacedName

pub record RoutedEntry : Type 0 where
  pub method : Text
  pub path : Text
  pub shape : Text
  pub source : NamespacedName

pub record RouterClash : Type 0 where
  pub winner : NamespacedName
  pub detail : Text

abbrev pub routes_of : List RoutedRoute → List GinRoute
routes_of routed = map (λ s. s.route) routed

abbrev pub routed_by : NamespacedName → List GinRoute → List RoutedRoute
routed_by source routes = map (λ r. record { route = r; source = source }) routes

abbrev pub describe : GinRoute → Text
describe r = if r.any_method then codes "any method " ++ r.path else r.method ++ codes " " ++ r.path

abbrev pub has_winner : NamespacedName → List RouterClash → Bool
has_winner w clashes = any (λ c. source_eq c.winner w) clashes

unfoldable pub with_clashes : List RouterClash → List RouterClash → List RouterClash
with_clashes clashes [] = clashes
with_clashes clashes (m ∷ more) =
    with_clashes (if has_winner m.winner clashes then clashes else clashes ++ m ∷ []) more

-- `strings.TrimSuffix(path, "*")`, in the shape the router registers
abbrev pub prefix_shape : Text → Text
prefix_shape path = route_shape (trim_suffix path (codes "*"))

-- `b` lies under the EE wildcard `path`
abbrev pub lies_under : Text → Text → Bool
lies_under shape path = is_ee_wildcard path && has_prefix shape (prefix_shape path)

abbrev under_detail : RoutedEntry → RoutedEntry → Text
under_detail entry o =
    codes "'"
    ++ (entry.method
        ++ (codes " "
            ++ (entry.path
                ++ (codes "' conflicts with EE wildcard '"
                    ++ (o.method
                        ++ (codes " "
                            ++ (o.path
                                ++ (codes "': the EE router accepts no other "
                                    ++ (entry.method
                                        ++ (codes " route under "
                                            ++ trim_suffix o.path (codes "*")))))))))))

abbrev over_detail : RoutedEntry → RoutedEntry → Text
over_detail entry o =
    codes "EE wildcard '"
    ++ (entry.method
        ++ (codes " "
            ++ (entry.path
                ++ (codes "' conflicts with '"
                    ++ (o.method
                        ++ (codes " "
                            ++ (o.path
                                ++ (codes "': the EE router accepts no other "
                                    ++ (entry.method
                                        ++ (codes " route under "
                                            ++ trim_suffix entry.path (codes "*")))))))))))

-- what one older entry adds
unfoldable pub overlap : List RouterClash → RoutedEntry → RoutedEntry → List RouterClash
overlap clashes o entry =
    if not (text_eq o.method entry.method) || source_eq o.source entry.source
    then clashes
    else if lies_under entry.shape o.path
    then with_clashes clashes (record { winner = o.source; detail = under_detail entry o } ∷ [])
    else if lies_under o.shape entry.path
    then with_clashes clashes (record { winner = o.source; detail = over_detail entry o } ∷ [])
    else clashes

unfoldable pub overlaps_from : List RouterClash → List RoutedEntry → RoutedEntry → List RouterClash
overlaps_from clashes [] entry = clashes
overlaps_from clashes (o ∷ older) entry = overlaps_from (overlap clashes o entry) older entry

unfoldable pub ee_wildcard_overlaps : List RoutedEntry → RoutedEntry → List RouterClash
unfolding overlaps_from overlap with_clashes
ee_wildcard_overlaps older entry = overlaps_from [] older entry

abbrev clash_detail : GinRoute → GinRoute → Text → Text
clash_detail r a refusal =
    describe r ++ (codes " clashes with " ++ (describe a ++ (codes ": " ++ refusal)))

module _ (gin : Gin) where
  -- gin's refusal of `r` in an engine that holds only `a`
  unfoldable pub refusal_next_to : GinRoute → GinRoute → Text
  refusal_next_to a r = (gin.register (engine_with gin (a ∷ [])) r).1

  -- the inner loop of `pairwiseClashes`
  unfoldable pub first_clash : GinRoute → List GinRoute → Option Text
  first_clash a [] = none
  first_clash a (r ∷ routes) =
      if shared_options a r || not (is_refusal (refusal_next_to a r))
      then first_clash a routes
      else some (clash_detail r a (refusal_next_to a r))

  -- the outer loop; `seen` are the sources that have a clash already
  unfoldable pub clashes_from :
      List NamespacedName → List RoutedRoute → NamespacedName → List GinRoute → List RouterClash
  clashes_from seen [] source routes = []
  clashes_from seen (a ∷ against) source routes =
      if source_eq a.source source || any (λ n. source_eq n a.source) seen
      then clashes_from seen against source routes
      else elim (first_clash a.route routes) [
        | none ↦ clashes_from seen against source routes
        | some detail ↦
            record { winner = a.source; detail = detail }
            ∷ clashes_from (a.source ∷ seen) against source routes
      ]

  unfoldable pub pairwise_clashes :
      List RoutedRoute → NamespacedName → List GinRoute → List RouterClash
  unfolding clashes_from first_clash refusal_next_to
  pairwise_clashes against source routes = clashes_from [] against source routes

  unfoldable pub older_clashes :
      RouteRules
      → List RoutedEntry
      → List RoutedRoute
      → RoutedEntry
      → List GinRoute
      → List RouterClash
  unfolding ee_wildcard_overlaps pairwise_clashes with_clashes
  older_clashes rules older dropped entry routes =
      with_clashes (if rules.ee_wildcards then ee_wildcard_overlaps older entry else [])
        (pairwise_clashes dropped entry.source routes)
