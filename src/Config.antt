-- ===== src/Config.antt =====
-- The ConfigMaps that hold a gateway's configurations: operator/internal/controller/gateway_config.go
-- and operator/internal/resources/configmap.go.
pub mod Cluster
pub mod Publish
pub mod Collect
mod Tests
