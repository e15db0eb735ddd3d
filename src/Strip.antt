-- ===== src/Strip.antt =====
-- What a render for the community edition drops: operator/internal/renderer/eestrip.go, and the
-- lists of eeonly_namespaces.json beside it. An extra_config is a map from namespaces to values: an
-- object, with its keys, or anything else.
pub mod Clean
pub mod Accounts
mod Tests
use kraken_d_operator.Base.{
  ℕ, Bool, true, false, ◌&&◌, ◌||◌, not, Option, none, some, String, List, [], ◌∷◌, ◌++◌, any,
  delete_func, map, if◌then◌else◌,
}
use kraken_d_operator.Base.Maps.{Eq, lookup}
use kraken_d_operator.Base.Texts.{Text, codes, text_eq, text_key, text_lt}
use kraken_d_operator.Route.Entries.{sort_by}

pub data NamespaceLevel : Type 0 where
  level_service : NamespaceLevel
  level_endpoint : NamespaceLevel
  level_backend : NamespaceLevel
  level_unknown : NamespaceLevel

abbrev texts : List String → List Text
texts names = map codes names

abbrev service_only : List Text
service_only = texts (
    "ai/mcp" ∷ "auth/api-keys" ∷ "auth/basic" ∷ "documentation/openapi" ∷ "documentation/postman"
    ∷ "governance/processors" ∷ "governance/quota" ∷ "grpc" ∷ "modifier/request-body-extractor"
    ∷ "modifier/response-headers" ∷ "qos/ratelimit/service" ∷ "qos/ratelimit/service/redis"
    ∷ "qos/ratelimit/tiered" ∷ "redis" ∷ "server/static-filesystem" ∷ "server/virtualhost"
    ∷ "telemetry/moesif" ∷ "telemetry/newrelic" ∷ "telemetry/opentelemetry-security" ∷ [])

abbrev endpoint_only : List Text
endpoint_only = texts (
    "ai/mcp" ∷ "auth/api-keys" ∷ "auth/basic" ∷ "documentation/openapi" ∷ "documentation/postman"
    ∷ "governance/quota" ∷ "modifier/jmespath" ∷ "modifier/request-body-extractor"
    ∷ "modifier/request-body-extractor/early" ∷ "modifier/request-body-generator"
    ∷ "modifier/response-body" ∷ "modifier/response-body-generator" ∷ "plugin/middleware"
    ∷ "qos/ratelimit/router/redis" ∷ "qos/ratelimit/tiered" ∷ "security/policies"
    ∷ "validation/response-json-schema" ∷ "websocket" ∷ [])

abbrev backend_only : List Text
backend_only = texts (
    "ai/llm" ∷ "auth/aws-sigv4" ∷ "auth/gcp" ∷ "auth/ntlm" ∷ "backend/conditional" ∷ "backend/grpc"
    ∷ "backend/http/client" ∷ "backend/pubsub/publisher/kafka" ∷ "backend/pubsub/subscriber/kafka"
    ∷ "backend/soap" ∷ "backend/static-filesystem" ∷ "governance/quota" ∷ "modifier/body-generator"
    ∷ "modifier/jmespath" ∷ "modifier/request-body-generator" ∷ "modifier/response-body"
    ∷ "modifier/response-body-generator" ∷ "plugin/middleware" ∷ "qos/circuit-breaker/http"
    ∷ "security/policies" ∷ "telemetry/logging" ∷ "validation/response-json-schema" ∷ "workflow"
    ∷ [])

-- `enterpriseOnly` of the file
unfoldable pub enterprise_only : NamespaceLevel → List Text
enterprise_only level_service = service_only
enterprise_only level_endpoint = endpoint_only
enterprise_only level_backend = backend_only
enterprise_only level_unknown = []

-- `ceRenderDrops` of the file, at the endpoint level
unfoldable pub ce_dropped_endpoint_namespaces : List Text
ce_dropped_endpoint_namespaces = texts ("documentation/openapi" ∷ [])

-- `ceHonoredKeys` of the file
unfoldable pub ce_honored_keys : NamespaceLevel → Text → Option (List Text)
ce_honored_keys level_backend ns =
    if text_eq ns (codes "backend/http/client")
    then some (texts ("send_body_on_redirect" ∷ []))
    else none
ce_honored_keys level ns = none

abbrev pub contains : List Text → Text → Bool
contains names n = any (λ m. text_eq m n) names

-- a value under a namespace
pub data Value : Type 0 where
  block : List Text → Value
  not_a_block : Value

abbrev pub ExtraConfig : Type 0
ExtraConfig = List (Text × Value)

abbrev pub honored_rest : List Text → List Text → List Text
honored_rest honored keys = delete_func (λ k. contains honored k) keys

abbrev pub dropped_of : Option (List Text) → List Text → Bool × List Text
dropped_of none keys = (false, [])
dropped_of (some honored) keys = (true, sort_by text_lt (honored_rest honored keys))

unfoldable pub ce_dropped_keys : NamespaceLevel → Text → List Text → Bool × List Text
unfolding ce_honored_keys
ce_dropped_keys level ns keys = dropped_of (ce_honored_keys level ns) keys

-- `EEOnlyNamespaces`
unfoldable pub ee_only_namespaces : NamespaceLevel → List Text
unfolding enterprise_only ce_dropped_endpoint_namespaces
ee_only_namespaces level_endpoint =
    delete_func (λ n. contains ce_dropped_endpoint_namespaces n)
      (sort_by text_lt (enterprise_only level_endpoint))
ee_only_namespaces level = sort_by text_lt (enterprise_only level)

pub record CeDrop : Type 0 where
  pub namespace : Text
  pub keys : List Text

abbrev pub drop_unless_empty : Text → List Text → List CeDrop
drop_unless_empty ns [] = []
drop_unless_empty ns (k ∷ dropped) = record { namespace = ns; keys = k ∷ dropped } ∷ []

abbrev pub drops_of_block : Text → Bool × List Text → List CeDrop
drops_of_block ns (false, dropped) = record { namespace = ns; keys = [] } ∷ []
drops_of_block ns (true, dropped) = drop_unless_empty ns dropped

-- the drops under one namespace
unfoldable pub drops_of : NamespaceLevel → Text → Option Value → List CeDrop
unfolding ce_dropped_keys
drops_of level ns none = []
drops_of level ns (some not_a_block) = record { namespace = ns; keys = [] } ∷ []
drops_of level ns (some (block keys)) = drops_of_block ns (ce_dropped_keys level ns keys)

abbrev pub drops_from : NamespaceLevel → List Text → ExtraConfig → List CeDrop
drops_from level [] ec = []
drops_from level (ns ∷ names) ec = drops_of level ns (lookup ns ec) ++ drops_from level names ec

-- `CEDrops`
unfoldable pub ce_drops : NamespaceLevel → ExtraConfig → List CeDrop
unfolding drops_of ee_only_namespaces
ce_drops level ec = drops_from level (ee_only_namespaces level) ec

abbrev pub partly_stripped : List Text → Option Value × Bool
partly_stripped [] = (none, true)
partly_stripped (k ∷ keys) = (some (block (k ∷ keys)), true)

-- by what `ceDroppedKeys` says of a block
abbrev pub strip_block : Bool × List Text → List Text → Option Value × Bool
strip_block (false, dropped) keys = (none, true)
strip_block (true, []) keys = (some (block keys), false)
strip_block (true, d ∷ dropped) keys =
    partly_stripped (delete_func (λ k. contains (d ∷ dropped) k) keys)

-- what the loop body of `stripNamespaces` leaves of an Enterprise-only namespace, and whether it
-- reports it
unfoldable pub strip_value : NamespaceLevel → Text → Value → Option Value × Bool
unfolding ce_dropped_keys
strip_value level ns not_a_block = (none, true)
strip_value level ns (block keys) = strip_block (ce_dropped_keys level ns keys) keys

abbrev pub with_value : Text → Option Value → ExtraConfig → ExtraConfig
with_value ns none ec = ec
with_value ns (some v) ec = (ns, v) ∷ ec

-- `stripNamespaces`: the config that is left, and the namespaces that are reported, before they
-- are sorted
unfoldable pub strip_from : NamespaceLevel → List Text → ExtraConfig → ExtraConfig × List Text
unfolding strip_value
strip_from level ee_only [] = ([], [])
strip_from level ee_only ((ns, v) ∷ ec) =
    let rest = strip_from level ee_only ec in
    let stripped = strip_value level ns v in
    if contains ee_only ns
    then (with_value ns stripped.0 rest.0, if stripped.1 then ns ∷ rest.1 else rest.1)
    else ((ns, v) ∷ rest.0, rest.1)

unfoldable pub strip_namespaces : NamespaceLevel → List Text → ExtraConfig → ExtraConfig × List Text
unfolding strip_from
strip_namespaces level ee_only ec =
    let out = strip_from level ee_only ec in (out.0, sort_by text_lt out.1)

-- `dropCEInertNamespaces` on the extra_config of an entry: the key itself goes where nothing is left
unfoldable pub drop_ce_inert_namespaces : ExtraConfig → Option ExtraConfig
unfolding ce_dropped_endpoint_namespaces
drop_ce_inert_namespaces ec =
    elim (delete_func (λ e. contains ce_dropped_endpoint_namespaces e.0) ec) [
      | [] ↦ none
      | e ∷ left ↦ some (e ∷ left)
    ]
