-- ===== src/License.antt =====
-- The licence of an Enterprise gateway: operator/internal/util/license and the licence stage of
-- operator/internal/controller/gateway_license.go.
pub mod Window
pub mod Reconcile
mod Tests
