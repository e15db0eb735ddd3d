-- ===== src/Lib.antt =====
-- A model of the KrakenD operator (operator/), a Kubernetes operator that renders KrakenDGateway,
-- KrakenDEndpoint and KrakenDBackendPolicy objects into the configuration of a KrakenD gateway and
-- rolls it out.
--
-- The parts, and the files that model them:
--   * Base: what the other modules share. Go's strings are lists of bytes (Base/Texts), its maps
--     association lists (Base/Maps), its int64 instants and durations integers of nanoseconds with
--     the standard library's saturation or wrap-around written out (Base/Int), `(T, error)` is a
--     result (Base/Results).
--   * Status: the conditions of an object and the events a pass records (operator/internal/
--     controller/gateway_events.go). k8s.io/apimachinery's `meta` functions are a parameter with
--     their documented laws; Status/ListApi is a concrete instance.
--   * License: the licence of an Enterprise gateway. License/Window is operator/internal/util/
--     license/window.go; License/Reconcile is operator/internal/controller/gateway_license.go: one
--     pass is a function from the gateway's conditions, known expiry, events and metric to the new
--     ones. The clock, the Secret store, the certificate parser and the hash are parameters.
--   * Rollout: the conditions about a roll-out of the gateway's Deployment (operator/internal/
--     controller/gateway_rollout.go), on the conditions of Status.
--   * Config: the immutable ConfigMaps that hold a gateway's configurations. Config/Cluster is the
--     API server as a store, with faults and other writers between any two calls as parameters;
--     Config/Publish is operator/internal/controller/gateway_config.go and operator/internal/
--     resources/configmap.go (publishing, verifying, restoring), on the memo of Memo/Versions;
--     Config/Collect is the collection of the ConfigMaps that nothing can still mount.
--   * AutoConfig: AutoConfig/Generate is operator/internal/autoconfig/generator.go, which makes a
--     KrakenDEndpoint of each entry that repeats no earlier one. A text is its runes there.
--     AutoConfig/Plan is the plan of a pass, its writes and its deletions, of operator/internal/
--     controller/autoconfig_endpoints.go; which of them are rejected, and how the API server re-encodes a
--     spec, are parameters.
--   * Flatten: flattenEndpoints and formatDuration of operator/internal/renderer/endpoints.go. The
--     order in which Go visits a map is a parameter. Its result is what Route resolves.
--   * Route: which entries of the endpoints a render serves. Route/Paths and Route/Entries are the
--     path keys and the entries of operator/internal/renderer/routes.go, routecheck.go,
--     eewildcard.go and endpoints.go; Route/Gin is the registration of routes, with gin's engine as
--     a parameter; Route/Clashes, Route/Admission and Route/Drop are operator/internal/renderer/
--     routeadmit.go. The loop of `routeLosers` is a fold over the entries in serving order, its
--     variables are the fields of the record State.
--   * RouteCheck: the check of a whole configuration's routes, operator/internal/renderer/
--     routecheck.go, with the router of Route/Gin. The decoded document and the context's polls are
--     arguments.
--   * Check: operator/internal/configcheck. Check/Verdicts is verdict.go, Check/Conflicts is
--     NewClashes of clash.go, which compares what two renders leave out.
--   * Strip: what a render for the community edition drops from an extra_config, and admission
--     rejects: operator/internal/renderer/eestrip.go with the lists of eeonly_namespaces.json.
--   * Memo: what the controllers remember between passes (operator/internal/controller).
--     Memo/Versions is verified_configmaps.go, Memo/Kinds is absent_kind_memo.go, Memo/Passes is
--     verdict_memo.go. Each operation holds its memo's mutex, so it is one step.
--
-- Every loop is a structural recursion over a list or a number. Only the decimal digits of a count
-- use fuel, one more than the count, which has no more digits than that. A gateway's licence pass
-- uses its result's checksum and fallback in the render; the routes that a render resolves are those
-- of the endpoints that Route/Entries orders.
--
-- Not modelled: the other stages of the gateway's pass and the other controllers, the AutoConfig
-- pipeline but for its generator, the adoption and the check of its endpoints, the webhooks, the
-- rendering of JSON, the children's manifests, telemetry and the command. They are listed in the
-- project's manifest.
pub mod AutoConfig
pub mod Base
pub mod Check
pub mod Config
pub mod Flatten
pub mod License
pub mod Memo
pub mod Rollout
pub mod Route
pub mod RouteCheck
pub mod Status
pub mod Strip
