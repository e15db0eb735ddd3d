-- ===== src/Route/Admission/Runs.antt =====
-- Runs of the route resolution.
use kraken_d_operator.Base.{ℕ, List, [], ◌∷◌, ◌≡◌, refl, map}
use kraken_d_operator.Route.Paths.{route_shape, gin_path, conflict_key}
use kraken_d_operator.Route.Entries.{entry_method, EntryConflict, serving_order, served_before}
use kraken_d_operator.Route.Gin.{
  entry_routes, registered_path, register_all, engine_with, engine_from, shared_options,
  refused_alone,
}
use kraken_d_operator.Route.Clashes.{
  older_clashes, pairwise_clashes, ee_wildcard_overlaps, with_clashes, overlap, overlaps_from,
  first_clash, clashes_from, refusal_next_to,
}
use kraken_d_operator.Route.Admission.{
  route_losers, admit_all, admit, admit_entry, admit_shadowed, refused_by_own, by_clashes,
  serve_entry, refuse_entry, record_losses,
}
use kraken_d_operator.Route.Examples.{first_comer, entries, wild_entries, rules, ee_rules}

abbrev lost_positions : List (ℕ × List EntryConflict) → List ℕ
lost_positions losers = map (λ l. l.0) losers

runs :
    (lost_positions (route_losers first_comer entries [] rules).losers ≡ 0 ∷ [])
    × (lost_positions (route_losers first_comer wild_entries [] ee_rules).losers ≡ 0 ∷ [])
    × (lost_positions (route_losers first_comer wild_entries [] rules).losers ≡ [])
unfolding route_losers admit_all admit admit_entry admit_shadowed refused_by_own by_clashes
    serve_entry refuse_entry record_losses serving_order served_before entry_routes registered_path
    register_all engine_with shared_options refused_alone older_clashes pairwise_clashes
    ee_wildcard_overlaps overlaps_from overlap first_clash clashes_from refusal_next_to engine_from
    with_clashes route_shape gin_path conflict_key entry_method
runs = (refl, refl, refl)
