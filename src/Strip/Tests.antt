-- ===== src/Strip/Tests.antt =====
-- Runs of a strip, and each theorem at a concrete input.
use kraken_d_operator.Base.{none, [], ◌∷◌, ◌≡◌, ◌↔◌, refl, Any, map}
use kraken_d_operator.Base.Texts.{Text, codes}
use kraken_d_operator.Strip.{
  level_backend, enterprise_only, ce_dropped_endpoint_namespaces, ce_honored_keys, block,
  not_a_block, ExtraConfig, ce_dropped_keys, ee_only_namespaces, drops_of, ce_drops, strip_value,
  strip_from, strip_namespaces, drop_ce_inert_namespaces,
}
use kraken_d_operator.Strip.Clean.{strip_namespaces-clean}
use kraken_d_operator.Strip.Accounts.{
  Drops, strip_namespaces-reports, Keeps, strip_namespaces-Keeps,
}

abbrev client : Text
client = codes "backend/http/client"

abbrev backend_config : ExtraConfig
backend_config =
    (client, block (codes "send_body_on_redirect" ∷ codes "client_tls" ∷ []))
    ∷ (codes "auth/gcp", block [])
    ∷ (codes "modifier/lua-backend", not_a_block)
    ∷ []

strips :
    ((strip_namespaces level_backend (enterprise_only level_backend) backend_config).0
      ≡ (client, block (codes "send_body_on_redirect" ∷ []))
        ∷ (codes "modifier/lua-backend", not_a_block)
        ∷ [])
    × ((strip_namespaces level_backend (enterprise_only level_backend) backend_config).1
        ≡ codes "auth/gcp" ∷ client ∷ [])
    × (map (λ d. d.namespace) (ce_drops level_backend backend_config)
        ≡ codes "auth/gcp" ∷ client ∷ [])
    × (drop_ce_inert_namespaces ((codes "documentation/openapi", not_a_block) ∷ []) ≡ none)
unfolding strip_namespaces strip_from strip_value ce_dropped_keys ce_honored_keys enterprise_only
    ce_drops ee_only_namespaces drops_of drop_ce_inert_namespaces ce_dropped_endpoint_namespaces
strips = (refl, refl, refl, refl)

strip_namespaces-clean_example :
    ce_drops level_backend
      (strip_namespaces level_backend (enterprise_only level_backend) backend_config).0
    ≡ []
strip_namespaces-clean_example = strip_namespaces-clean level_backend backend_config

strip_namespaces-reports_example :
    Any
      (λ n. n ≡ client)
      (strip_namespaces level_backend (enterprise_only level_backend) backend_config).1
    ↔ Any (Drops level_backend (enterprise_only level_backend) client) backend_config
strip_namespaces-reports_example =
    strip_namespaces-reports level_backend (enterprise_only level_backend) client backend_config

strip_namespaces-Keeps_example :
    Keeps
      (enterprise_only level_backend)
      backend_config
      (strip_namespaces level_backend (enterprise_only level_backend) backend_config).0
strip_namespaces-Keeps_example =
    strip_namespaces-Keeps level_backend (enterprise_only level_backend) backend_config
